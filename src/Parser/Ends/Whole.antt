-- ===== src/Parser/Ends/Whole.antt =====
-- `Parse` ends.
use go_restconf.Lexer.{unexpected_brace, Run, new_lexer}
use go_restconf.Lexer.Cursor.Moves.{IsInBounds, Ensures, Ensures-bind, Ensures-cases}
use go_restconf.Statement.{Statements, end, add_sub}
use go_restconf.Parser.{
  Parser, budget, Next, nothing, hit_brace, statement, next_statement, parse_rest, parse_loop,
  new_parser, parse,
}
use go_restconf.Lexer.{ends_in_newline, blocked}
use go_restconf.Lexer.Cursor.{contains_rune}
use go_restconf.Lexer.Cursor.Sends.{IsPlain, HasNoEscape}
use go_restconf.Parser.{Parsed}
use go_restconf.Parser.Ends.{supply, to_come, to_come-budget}
use go_restconf.Common.{◌⊎◌, ok, err}
use go_restconf.Common.{
  Bytes, Bool-cases, ℕ, zero, suc, ◌≤◌, ◌<◌, ◌≡◌, refl, inl, inr, [], ◌∷◌, ◌++◌, arith,
}
use go_restconf.Parser.Ends.Items.{supply-report, Ended, next_statement-Ended}

abbrev Returned : Statements × Parser → Type 0
Returned r = Unit

parse_rest-Returned :
    (B : Type 0) (m : ℕ) (loop : Statements → Parser → Run (Statements × Parser)) (ss : Statements)
    (r : Next × Parser)
    → ((ss' : Statements) (p : Parser)
        → supply p < m
        → IsPlain B p.lex
        → Ensures B Returned (loop ss' p))
    → Ended B m r
    → Ensures B Returned (parse_rest loop ss r)
parse_rest-Returned B m loop ss (nothing, p) rec e = tt
parse_rest-Returned B m loop ss (hit_brace, p) rec (e, pl) =
    let k = supply-report p.brace_line p.brace_col unexpected_brace p in rec ss _ (omega arith) pl
parse_rest-Returned B m loop ss (statement s, p) rec (e, pl) = rec (add_sub ss s) p (omega arith) pl

parse_loop-Returned :
    (B : Type 0) (f depth : ℕ) (ss : Statements) (p : Parser)
    → supply p < f
    → supply p ≤ depth
    → IsPlain B p.lex
    → Ensures B Returned (parse_loop f depth ss p)
unfolding parse_loop
parse_loop-Returned B zero depth ss p h k pl = absurd (omega arith)
parse_loop-Returned B (suc f) depth ss p h k pl =
    Ensures-bind B (Ended B (supply p)) Returned (next_statement depth p)
      (parse_rest (parse_loop f depth) ss) (next_statement-Ended B depth p k pl)
      λ r e.
        parse_rest-Returned B (supply p) (parse_loop f depth) ss r
          (λ ss' p' b pl'. parse_loop-Returned B f depth ss' p' (omega arith) (omega arith) pl') e

parse-Ensures :
    (B : Type 0) (input path : Bytes)
    → IsPlain B (new_lexer input path)
    → Ensures B (λ r. Unit) (parse input path)
unfolding parse
parse-Ensures B input path pl =
    let p = new_parser input path in
    let none_waits : to_come p.lex < budget p.lex = to_come-budget p.lex in
    Ensures-bind B Returned (λ r. Unit) (parse_loop (budget p.lex) (budget p.lex) end p) _
      (parse_loop-Returned B (budget p.lex) (budget p.lex) end p (omega arith) (omega arith) pl)
      λ r u. tt

new_lexer-IsInBounds : (input path : Bytes) → IsInBounds (new_lexer input path)
unfolding new_lexer
new_lexer-IsInBounds input path = (omega arith, omega arith)

-- `Parse` of any text neither panics nor runs out of the fuel of its model: it returns the statements
-- or the errors, or it blocks at a send to the full channel of tokens.
pub parse_ends :
    (input path : Bytes)
    → (parse input path ≡ err blocked) ⊎ ((r : Parsed) × (parse input path ≡ ok r))
parse_ends input path =
    elim (Ensures-cases Unit (λ r. Unit) (parse input path)
      (parse-Ensures Unit input path (inr tt, new_lexer-IsInBounds input path))) [
        | inl (e, _) ↦ inl e
        | inr (r, e, _) ↦ inr (r, e)
      ]

newline_HasNoEscape : (s : Bytes) → HasNoEscape s → HasNoEscape (s ++ b'\n' ∷ [])
unfolding contains_rune
newline_HasNoEscape [] h = refl
newline_HasNoEscape (c ∷ s) h = grind (arith, newline_HasNoEscape s)

new_lexer-HasNoEscape :
    (input path : Bytes) → HasNoEscape input → HasNoEscape (new_lexer input path).input
unfolding new_lexer
new_lexer-HasNoEscape input path h = elim (Bool-cases (ends_in_newline input)) [
  | inl e ↦ rw e h
  | inr e ↦ rw e (newline_HasNoEscape input h)
]

-- `Parse` of a text that holds no backslash returns the statements or the errors: it neither blocks
-- nor panics nor runs out of the fuel of its model.
pub parse_returns :
    (input path : Bytes) → HasNoEscape input → (r : Parsed) × (parse input path ≡ ok r)
parse_returns input path h =
    elim (Ensures-cases ⊥ (λ r. Unit) (parse input path)
      (parse-Ensures ⊥ input path
        (inl (new_lexer-HasNoEscape input path h), new_lexer-IsInBounds input path))) [
          | inl (_, never) ↦ absurd never
          | inr (r, e, _) ↦ (r, e)
        ]
