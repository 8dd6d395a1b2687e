-- ===== src/Parser/Ends/Items.antt =====
-- `nextStatement` ends.
use go_restconf.Lexer.{
  State, ground, qstring, identifier, LexError, Message, unexpected_eof, not_an_identifier,
  syntax_error, t_identifier, punct, Token, Lexer, Run,
}
use go_restconf.Lexer.Cursor.Moves.{Ensures, Ensures-bind, rune_at}
use go_restconf.Lexer.Progress.{owed}
use go_restconf.Statement.{Header, Statement, Statements, stmt, end, add_sub}
use go_restconf.Parser.{
  Parser, is_code, report, next, Next, nothing, hit_brace, statement, ignore_me, Loop,
  end_statement, is_argument, after_keyword, set_pattern, keyword, begin_statement, next_with,
  sub_rest, sub_loop, next_statement,
}
use go_restconf.Lexer.Cursor.Sends.{IsPlain}
use go_restconf.Parser.Ends.{supply, Given, next_lem}
use go_restconf.Common.{
  bytes_eq, codes, Bool-cases, ℕ, zero, suc, ◌+◌, ◌≤◌, ◌<◌, ◌≡◌, refl, inl, inr, Bool, false,
  Option, none, some, List, [], ◌∷◌, ◌++◌, arith,
}

owed_at :
    (s : Option State) (l : Lexer) (e : List LexError) (b : Bool)
    → owed s (record l { errout = e; in_pattern = b }) ≡ owed s l
unfolding rune_at
owed_at none l e b = refl
owed_at (some ground) l e b = refl
owed_at (some qstring) l e b = refl
owed_at (some identifier) l e b = refl

pub supply-report :
    (line col : ℕ) (m : Message) (p : Parser) → supply (report line col m p) ≡ supply p
supply-report line col m p =
    let l = p.lex in
    let e = l.errout ++ record { line = line; col = col; message = m } ∷ [] in
    let k = owed_at l.state l e l.in_pattern in omega arith

supply-set_pattern : (b : Bool) (p : Parser) → supply (set_pattern b p) ≡ supply p
supply-set_pattern b p = let l = p.lex in let k = owed_at l.state l l.errout b in omega arith

-- 1 where a token was used up.
abbrev pub used : Next → ℕ
used nothing = 0
used hit_brace = 1
used (statement s) = 1

-- A statement or a brace was taken from that many tokens.
abbrev pub Ended : Type 0 → ℕ → Next × Parser → Type 0
Ended B n r = (supply r.1 + used r.0 ≤ n) × IsPlain B r.1.lex

-- The loop over substatements ends for fewer tokens than `m`.
abbrev pub LoopEnds : Type 0 → ℕ → Loop → Type 0
LoopEnds B m loop =
    (n : ℕ) (h : Header) (p : Parser)
    → supply p < m
    → supply p < n
    → IsPlain B p.lex
    → Ensures B (Ended B n) (loop h p)

reported :
    (B : Type 0) (n line col : ℕ) (m : Message) (p : Parser) (r : Next)
    → supply p + used r ≤ n
    → IsPlain B p.lex
    → Ended B n (r, report line col m p)
reported B n line col m p r h pl = let k = supply-report line col m p in (omega arith, pl)

end_statement-Ended :
    (B : Type 0) (m n : ℕ) (loop : Loop) (h : Header) (t : Option Token) (p : Parser)
    → LoopEnds B m loop
    → n ≤ m
    → Given B n (t, p)
    → Ensures B (Ended B n) (end_statement loop h t p)
unfolding end_statement
end_statement-Ended B m n loop h none p w le (g, pl) =
    reported B n 0 0 unexpected_eof p nothing (omega arith) pl
end_statement-Ended B m n loop h (some t) p w le (g, pl) =
    elim (Bool-cases (is_code t.code (punct b';'))) [
      | inl e ↦ rw (e, end_statement) (omega arith, pl)
      | inr e ↦ elim (Bool-cases (is_code t.code (punct b'{'))) [
        | inl e2 ↦ rw (e, e2, end_statement) (w n h p (omega arith) (omega arith) pl)
        | inr e2 ↦
            rw (e, e2, end_statement)
              (reported B n t.line t.col (syntax_error t) p (statement ignore_me) (omega arith) pl)
      ]
    ]

after_keyword-Ended :
    (B : Type 0) (m n : ℕ) (loop : Loop) (h : Header) (t : Option Token) (p : Parser)
    → LoopEnds B m loop
    → n ≤ m
    → Given B n (t, p)
    → Ensures B (Ended B n) (after_keyword loop h t p)
unfolding after_keyword
after_keyword-Ended B m n loop h none p w le g = end_statement-Ended B m n loop h none p w le g
after_keyword-Ended B m n loop h (some t) p w le (g, pl) = elim (Bool-cases (is_argument t)) [
  | inl e ↦
      rw (e, after_keyword)
        (Ensures-bind B (Given B n) (Ended B n) (next p) _ (next_lem B n p (omega arith) pl)
          λ (t2, p2) k. end_statement-Ended B m n loop _ t2 p2 w le k)
  | inr e ↦ rw (e, after_keyword) (end_statement-Ended B m n loop h (some t) p w le (g, pl))
]

keyword-Ended :
    (B : Type 0) (m n : ℕ) (loop : Loop) (t : Token) (p : Parser)
    → LoopEnds B m loop
    → n ≤ m
    → supply p ≤ n
    → IsPlain B p.lex
    → Ensures B (Ended B n) (keyword loop t p)
unfolding keyword
keyword-Ended B m n loop t p w le g pl =
    let b = bytes_eq t.text (codes "pattern") in
    let s = supply-set_pattern b p in
    Ensures-bind B (Given B n) (Ended B n) (next (set_pattern b p)) _
      (next_lem B n (set_pattern b p) (omega arith) pl)
      λ (t2, p2) (k, pl2).
        let s2 = supply-set_pattern false p2 in
        after_keyword-Ended B m n loop _ t2 (set_pattern false p2) w le (omega arith, pl2)

begin_statement-Ended :
    (B : Type 0) (m n : ℕ) (loop : Loop) (t : Option Token) (p : Parser)
    → LoopEnds B m loop
    → n ≤ m
    → Given B n (t, p)
    → Ensures B (Ended B n) (begin_statement loop t p)
unfolding begin_statement
begin_statement-Ended B m n loop none p w le g = g
begin_statement-Ended B m n loop (some t) p w le (g, pl) =
    elim (Bool-cases (is_code t.code (punct b'}'))) [
      | inl e ↦ rw (e, begin_statement) (omega arith, pl)
      | inr e ↦ elim (Bool-cases (is_code t.code t_identifier)) [
        | inl e2 ↦ rw (e, e2, begin_statement) (keyword-Ended B m n loop t p w le (omega arith) pl)
        | inr e2 ↦
            rw (e, e2, begin_statement)
              (reported B n t.line t.col (not_an_identifier t) p (statement ignore_me) (omega arith)
                pl)
      ]
    ]

next_with-Ended :
    (B : Type 0) (m n : ℕ) (loop : Loop) (p : Parser)
    → LoopEnds B m loop
    → n ≤ m
    → supply p ≤ n
    → IsPlain B p.lex
    → Ensures B (Ended B n) (next_with loop p)
next_with-Ended B m n loop p w le g pl =
    Ensures-bind B (Given B n) (Ended B n) (next p) _ (next_lem B n p g pl)
      λ (t, p1) k. begin_statement-Ended B m n loop t p1 w le k

sub_rest-Ended :
    (B : Type 0) (m n : ℕ) (loop : Statement → Parser → Run (Next × Parser)) (s : Statement)
    (r : Next × Parser)
    → m < n
    → ((s' : Statement) (p : Parser)
        → supply p < m
        → IsPlain B p.lex
        → Ensures B (Ended B n) (loop s' p))
    → Ended B m r
    → Ensures B (Ended B n) (sub_rest loop s r)
sub_rest-Ended B m n loop s (nothing, p) h rec (e, pl) = (omega arith, pl)
sub_rest-Ended B m n loop s (hit_brace, p) h rec (e, pl) = (omega arith, pl)
sub_rest-Ended B m n loop s (statement s', p) h rec (e, pl) = rec s' p (omega arith) pl

sub_loop-Ended :
    (B : Type 0) (f : ℕ) (ss : Statements) (n : ℕ) (h : Header) (p : Parser)
    → supply p < f
    → supply p < n
    → IsPlain B p.lex
    → Ensures B (Ended B n) (sub_loop f ss h p)
unfolding sub_loop
sub_loop-Ended B zero ss n h p a b pl = absurd (omega arith)
sub_loop-Ended B (suc f) ss n h p a b pl =
    Ensures-bind B (Ended B (supply p)) (Ended B n) (next_with (sub_loop f end) p) _
      (next_with-Ended B f (supply p) (sub_loop f end) p (sub_loop-Ended B f end) (omega arith)
        (omega arith) pl)
      λ r e.
        sub_rest-Ended B (supply p) n (λ s p'. sub_loop f (add_sub ss s) h p') (stmt h ss) r b
          (λ s p' k pl'. sub_loop-Ended B f (add_sub ss s) n h p' (omega arith) (omega arith) pl') e

pub next_statement-Ended :
    (B : Type 0) (f : ℕ) (p : Parser)
    → supply p ≤ f
    → IsPlain B p.lex
    → Ensures B (Ended B (supply p)) (next_statement f p)
unfolding next_statement
next_statement-Ended B f p h pl =
    next_with-Ended B f (supply p) (sub_loop f end) p (sub_loop-Ended B f end) h (omega arith) pl
