-- ===== src/Parser/Ends.antt =====
-- The parser ends: each of its loops has fuel enough, and the code does not panic.
pub mod Items
pub mod Whole
use go_restconf.Lexer.{
  t_string, t_identifier, t_error, punct, Token, Lexer, Stop, blocked, out_of_fuel, Run, new_lexer,
}
use go_restconf.Lexer.Cursor.Moves.{Ensures, Ensures-bind, Ensures-map, left}
use go_restconf.Lexer.States.{next_token}
use go_restconf.Lexer.Cursor.Sends.{IsPlain}
use go_restconf.Lexer.Progress.{owed, potential}
use go_restconf.Lexer.Progress.Tokens.{weight, Taken, next_token-Taken, owed_bound}
use go_restconf.Statement.{Header, Statement, Statements, stmt, end, sub, add_sub}
use go_restconf.Parser.{
  Parser, is_code, push, set_lex, report, budget, lex_rest, lex_next, lex_token, is_plus, Joined,
  joined, more, join_string, join_behind, join_round, join_rest, join_loop, join_first, next, Next,
  nothing, hit_brace, statement, ignore_me, Loop, end_statement, is_argument, after_keyword,
  set_pattern, keyword, begin_statement, next_with, sub_rest, sub_loop, next_statement, parse_rest,
  parse_loop, Parsed, parsed_of, new_parser, parse,
}
use go_restconf.Common.{List-cases}
use go_restconf.Common.{
  bytes_eq, bytes_eq_iff, bytes_eq_refl, Bytes, codes, length, take, drop, replicate, get_elem?,
  length-append, take-length_append, drop-length_append, take-append-drop, length-take, length-drop,
  length-replicate, All, All-append, ltb, leb, ◌==◌, if◌then◌else◌, ltb→lt, lt→ltb, ltb→le, le→ltb,
  ==_iff, Bool-cases, Option-cases, ℤ, pos, negsuc, pos_part, neg_part, ◌≤ℤ◌, ◌<ℤ◌, ltb_ℤ, eqb_ℤ,
  suc_ℤ, eqb_ℤ→eq, eqb_ℤ_refl, suc_ℤ_parts, Result, ok, err, panic, ◌>>=◌, passed_on, ℕ, zero, suc,
  ◌+◌, ◌-◌, ◌*◌, ◌/◌, ◌%◌, ◌^◌, ◌≤◌, ◌<◌, ◌≡◌, refl, sym, ap, ◌∙◌, ◌≢◌, ◌↔◌, ◌⊎◌, inl, inr, Bool,
  true, false, not, ◌&&◌, ◌||◌, Option, none, some, List, [], ◌∷◌, ◌++◌, map, append_assoc,
  append-nil, arith,
}

-- The tokens that are still to come at most.
abbrev pub to_come : Lexer → ℕ
to_come l = potential l.state l

abbrev pub pushed : Parser → ℕ
pushed p = length p.tokens

abbrev pub supply : Parser → ℕ
supply p = to_come p.lex + pushed p

pub to_come-budget : (l : Lexer) → to_come l < budget l
to_come-budget l = omega (arith, owed_bound l.state l)

lex_rest-Taken :
    (B : Type 0) (n m : ℕ) (loop : Lexer → Run (Option Token × Lexer)) (r : Option Token × Lexer)
    → m ≤ n
    → ((l : Lexer) → to_come l + 1 ≤ m → IsPlain B l → Ensures B (Taken B n) (loop l))
    → Taken B m r
    → Ensures B (Taken B n) (lex_rest loop r)
lex_rest-Taken B n m loop (none, l) h rec (k, pl) = (omega arith, pl)
lex_rest-Taken B n m loop (some t, l) h rec (k, pl) = elim (Bool-cases (is_code t.code t_error)) [
  | inl e ↦ rw (e, lex_rest) (rec l k pl)
  | inr e ↦ rw (e, lex_rest) (omega arith, pl)
]

lex_next-Taken :
    (B : Type 0) (n f : ℕ) (l : Lexer)
    → to_come l < f
    → to_come l ≤ n
    → IsPlain B l
    → Ensures B (Taken B n) (lex_next f l)
unfolding lex_next
lex_next-Taken B n zero l h g pl = absurd (omega arith)
lex_next-Taken B n (suc f) l h g pl =
    Ensures-bind B (Taken B (to_come l)) (Taken B n) (next_token l) (lex_rest (lex_next f))
      (next_token-Taken B l pl)
      λ r t.
        lex_rest-Taken B n (to_come l) (lex_next f) r g
          (λ l' b pl'. lex_next-Taken B n f l' (omega arith) (omega arith) pl') t

-- A parser that has that many tokens to come, besides one that was given out.
abbrev pub Given : {A : Type 0} → Type 0 → ℕ → Option A × Parser → Type 0
Given B n r = (supply r.1 + weight r.0 ≤ n) × IsPlain B r.1.lex

-- A token was taken from the lexer, none from the stack.
abbrev Fed : Type 0 → Parser → Option Token × Parser → Type 0
Fed B p r =
    (to_come r.1.lex + weight r.0 ≤ to_come p.lex) × (pushed r.1 ≡ pushed p) × IsPlain B r.1.lex

lex_token-Fed : (B : Type 0) (p : Parser) → IsPlain B p.lex → Ensures B (Fed B p) (lex_token p)
unfolding lex_token
lex_token-Fed B p pl =
    Ensures-bind B (Taken B (to_come p.lex)) (Fed B p) (lex_next (budget p.lex) p.lex) _
      (lex_next-Taken B (to_come p.lex) (budget p.lex) p.lex (to_come-budget p.lex) (omega arith)
        pl)
      λ r (t, pl'). (t, refl, pl')

-- The end of the loop over `+`, or a token of the lexer less.
abbrev JoinedFrom : Type 0 → Parser → Joined → Type 0
JoinedFrom B p (joined t p') = (supply p' ≤ supply p) × IsPlain B p'.lex
JoinedFrom B p (more t p') =
    (to_come p'.lex + 1 ≤ to_come p.lex) × (supply p' ≤ supply p) × IsPlain B p'.lex

join_string-JoinedFrom :
    (B : Type 0) (t nt : Token) (p p1 : Parser) (r : Option Token × Parser)
    → Fed B p (some nt, p1)
    → Fed B p1 r
    → JoinedFrom B p (join_string t nt r)
join_string-JoinedFrom B t nt p p1 (none, p2) (a, b, _) (c, d, pl) = (omega arith, pl)
join_string-JoinedFrom B t nt p p1 (some st, p2) (a, b, _) (c, d, pl) =
    elim (Bool-cases (is_code st.code t_string)) [
      | inl e ↦ rw (e, join_string) (omega arith, omega arith, pl)
      | inr e ↦ rw (e, join_string) (omega arith, pl)
    ]

join_behind-JoinedFrom :
    (B : Type 0) (t : Token) (p : Parser) (r : Option Token × Parser)
    → Fed B p r
    → Ensures B (JoinedFrom B p) (join_behind t r)
join_behind-JoinedFrom B t p (none, p1) (a, b, pl) = (omega arith, pl)
join_behind-JoinedFrom B t p (some nt, p1) (a, b, pl) = elim (Bool-cases (is_plus nt)) [
  | inl e ↦
      rw (e, join_behind)
        (Ensures-bind B (Fed B p1) (JoinedFrom B p) (lex_token p1) _ (lex_token-Fed B p1 pl)
          λ r f. join_string-JoinedFrom B t nt p p1 r (a, b, pl) f)
  | inr e ↦ rw (e, join_behind) (omega arith, pl)
]

join_round-JoinedFrom :
    (B : Type 0) (t : Token) (p : Parser)
    → IsPlain B p.lex
    → Ensures B (JoinedFrom B p) (join_round t p)
unfolding join_round
join_round-JoinedFrom B t p pl =
    Ensures-bind B (Fed B p) (JoinedFrom B p) (lex_token p) (join_behind t) (lex_token-Fed B p pl)
      (join_behind-JoinedFrom B t p)

join_rest-Given :
    (B : Type 0) (n : ℕ) (p : Parser) (loop : Token → Parser → Run (Option Token × Parser))
    (r : Joined)
    → supply p < n
    → ((t : Token) (p' : Parser)
        → to_come p'.lex + 1 ≤ to_come p.lex
        → supply p' < n
        → IsPlain B p'.lex
        → Ensures B (Given B n) (loop t p'))
    → JoinedFrom B p r
    → Ensures B (Given B n) (join_rest loop r)
join_rest-Given B n p loop (joined t p') h rec (a, pl) = (omega arith, pl)
join_rest-Given B n p loop (more t p') h rec (a, b, pl) = rec t p' a (omega arith) pl

join_loop-Given :
    (B : Type 0) (n f : ℕ) (t : Token) (p : Parser)
    → to_come p.lex < f
    → supply p < n
    → IsPlain B p.lex
    → Ensures B (Given B n) (join_loop f t p)
unfolding join_loop
join_loop-Given B n zero t p h g pl = absurd (omega arith)
join_loop-Given B n (suc f) t p h g pl =
    Ensures-bind B (JoinedFrom B p) (Given B n) (join_round t p) (join_rest (join_loop f))
      (join_round-JoinedFrom B t p pl)
      λ r j.
        join_rest-Given B n p (join_loop f) r g
          (λ t' p' a b pl'. join_loop-Given B n f t' p' (omega arith) b pl') j

join_first-Given :
    (B : Type 0) (n : ℕ) (r : Option Token × Parser)
    → Given B n r
    → Ensures B (Given B n) (join_first r)
join_first-Given B n (none, p) g = g
join_first-Given B n (some t, p) (g, pl) = elim (Bool-cases (is_code t.code t_string)) [
  | inl e ↦
      rw (e, join_first)
        (join_loop-Given B n (budget p.lex) t p (to_come-budget p.lex) (omega arith) pl)
  | inr e ↦ rw (e, join_first) (g, pl)
]

pub next_lem :
    (B : Type 0) (n : ℕ) (p : Parser)
    → supply p ≤ n
    → IsPlain B p.lex
    → Ensures B (Given B n) (next p)
unfolding next
next_lem B n p h pl = elim (List-cases p.tokens) [
  | inl e ↦
      rw (e, next)
        (Ensures-bind B (Fed B p) (Given B n) (lex_token p) join_first (lex_token-Fed B p pl)
          λ r (a, b, pl'). join_first-Given B n r (omega arith, pl'))
  | inr (t, ts, e) ↦
      let k : pushed p ≡ suc (length ts) = ap length e in rw (e, next) (omega arith, pl)
]
