-- ===== src/Lexer/Progress/Quoted.antt =====
-- The state `lexQString`.
use go_restconf.Lexer.{
  eof, blocked, out_of_fuel, t_string, missing_quote, invalid_escape, Lexer, State, ground, qstring,
  Run,
}
use go_restconf.Lexer.Cursor.{contains_rune, next, emit_text, errorf_at, rounds}
use go_restconf.Lexer.Cursor.Moves.{
  IsInBounds, Ensures, Ensures-bind, Ensures-map, left, rune_at, next-rune_at,
}
use go_restconf.Lexer.Cursor.Sends.{
  HasNoEscape, IsQuiet, Room-IsQuiet, Forward-next, Forward-self, Sent, emit_text-Sent, Reported,
  errorf_at-Reported,
}
use go_restconf.Lexer.States.{
  StateRun, lex_escape, escaped, Round, again, finished, q_round, q_loop, lex_qstring,
}
use go_restconf.Lexer.Progress.{potential, Ran, next-Stepped}
use go_restconf.Common.{
  Bytes, get_elem?, ◌∷◌, refl, ◌∙◌, length, leb, ◌==◌, Bool-cases, Option-cases, ok, err, panic,
  ◌>>=◌, ℕ, zero, suc, ◌+◌, ◌-◌, ◌*◌, ◌≤◌, ◌<◌, ◌≡◌, inl, inr, Bool, true, false, not, ◌&&◌, ◌||◌,
  Option, none, some, [], arith,
}

rune_no_escape :
    (s : Bytes) (i : ℕ)
    → HasNoEscape s
    → (elim (get_elem? s i) as (λ _. ℕ) [ none ↦ eof | some r ↦ r ] == b'\\') ≡ false
unfolding contains_rune
rune_no_escape [] i h = refl
rune_no_escape (x ∷ s) zero h = grind arith
rune_no_escape (x ∷ s) (suc i) h = rune_no_escape s i (grind arith)

next_no_escape : (l : Lexer) → HasNoEscape l.input → ((next l).0 == b'\\') ≡ false
unfolding rune_at
next_no_escape l h = rw next-rune_at (rune_no_escape l.input l.pos h)

IsQuiet-same :
    (B : Type 0) (l l' : Lexer)
    → l'.input ≡ l.input
    → length l'.items ≡ length l.items
    → (IsInBounds l → IsInBounds l')
    → IsQuiet B l
    → IsQuiet B l'
IsQuiet-same B l l' e i f (inl (z, p), b) = (inl (i ∙ z, rw e p), f b)
IsQuiet-same B l l' e i f (inr x, b) = (inr x, f b)

-- What an escape leaves: at most one token more.
record Escaped (l : Lexer) (r : Bytes × Lexer) : Type 0 where
  plain : HasNoEscape l.input → HasNoEscape r.1.input
  left_le : left r.1 ≤ left l
  bounds : IsInBounds r.1
  bound : length r.1.items + 2 * left r.1 ≤ length l.items + 2 * left l + 1

lex_escape-Escaped :
    (B : Type 0) (line col : ℕ) (text : Bytes) (l : Lexer)
    → B
    → IsInBounds l
    → Ensures B (Escaped l) (lex_escape line col text l)
unfolding lex_escape
lex_escape-Escaped B line col text l b bounds =
    let m = (next l).1 in
    let f = Forward-next l l (Forward-self l) in
    let i = f.items in
    let h = f.left_le in
    let sent : (t : Bytes) (l2 : Lexer) → Reported m l2 → Escaped l (t, l2) = λ t l2 r.
      let j = r.items in
      let k = r.left_le in
      record {
        plain = λ q. r.plain (rw f.input q);
        left_le = omega arith;
        bounds = r.bounds;
        bound = omega arith;
      } in
    let same : (t : Bytes) → Escaped l (t, m) = λ t. record {
      plain = λ q. rw f.input q;
      left_le = omega arith;
      bounds = f.bounds bounds;
      bound = omega arith;
    } in
    elim (Bool-cases ((next l).0 == eof)) [
      | inl e ↦ rw e (
          Ensures-bind B (Reported m) (Escaped l) (errorf_at line col missing_quote m) _
            (errorf_at-Reported B line col missing_quote m (inr b) (f.bounds bounds))
            (λ l2 r. sent _ l2 r))
      | inr e ↦ rw e (elim (Option-cases (escaped (next l).0)) [
        | inr (x, e2) ↦ rw (e2, lex_escape) (same _)
        | inl e2 ↦
            rw (e2, lex_escape)
              (elim (Bool-cases (next l).1.in_pattern) [
                | inl p ↦ rw p (same _)
                | inr p ↦ rw p (
                    Ensures-bind B (Reported m) (Escaped l)
                      (errorf_at line col (invalid_escape (next l).0) m) _
                      (errorf_at-Reported B line col (invalid_escape (next l).0) m (inr b)
                        (f.bounds bounds))
                      (λ l2 r. sent _ l2 r))
              ])
      ])
    ]

-- A state that is over: a token is there, and no more to come than before.
record Closed (l : Lexer) (r : Option State × Lexer) : Type 0 where
  plain : HasNoEscape l.input → HasNoEscape r.1.input
  bounds : IsInBounds r.1
  bound : potential r.0 r.1 ≤ potential (some qstring) l
  items : 1 ≤ length r.1.items

-- What a round leaves: an end, or a rune less.
abbrev Rounded : Type 0 → Lexer → Round → Type 0
Rounded B l (finished s l') = Closed l (s, l')
Rounded B l (again over text l') =
    (left l' + 1 ≤ left l)
    × (length l'.items + 2 * left l' ≤ length l.items + 2 * left l)
    × (IsQuiet B l → IsQuiet B l')
    × (HasNoEscape l.input → HasNoEscape l'.input)

quote_end :
    (B : Type 0) (text : Bytes) (l : Lexer)
    → (rune_at l == eof) ≡ false
    → IsQuiet B l
    → Ensures B
        (Rounded B l)
        (emit_text t_string text (next l).1 >>= (λ l2. ok (finished (some ground) l2)))
quote_end B text l e y =
    let t = next-Stepped l e in
    let i = t.items in
    let j = t.left_is in
    Ensures-bind B (Sent (next l).1) (Rounded B l) (emit_text t_string text (next l).1) _
      (emit_text-Sent B t_string text (next l).1 (Room-IsQuiet B l (next l).1 y i))
      λ l2 s.
        let a = s.items in
        let z = s.size_is in
        let p = s.pos_is in
        record {
          plain = λ q. rw (s.input ∙ t.input) q;
          bounds = s.bounds (t.bounds y.1);
          bound = omega arith;
          items = omega arith;
        }

eof_end :
    (B : Type 0) (line col : ℕ) (l : Lexer)
    → IsQuiet B l
    → Ensures B
        (Rounded B l)
        (errorf_at line col missing_quote (next l).1 >>= (λ l2. ok (finished none l2)))
eof_end B line col l y =
    let f = Forward-next l l (Forward-self l) in
    let i = f.items in
    let h = f.left_le in
    Ensures-bind B (Reported (next l).1) (Rounded B l) (errorf_at line col missing_quote (next l).1)
      _
      (errorf_at-Reported B line col missing_quote (next l).1 (Room-IsQuiet B l (next l).1 y i)
        (f.bounds y.1))
      λ l2 r.
        let a = r.items in
        let b = r.left_le in
        record {
          plain = λ q. r.plain (rw f.input q);
          bounds = r.bounds;
          bound = omega arith;
          items = omega arith;
        }

q_round-Rounded :
    (B : Type 0) (indent line col : ℕ) (over : Bool) (text : Bytes) (l : Lexer)
    → IsQuiet B l
    → Ensures B (Rounded B l) (q_round indent line col over text l)
unfolding q_round
q_round-Rounded B indent line col over text l y = elim (Bool-cases ((next l).0 == eof)) [
  | inl e ↦ rw e (eof_end B line col l y)
  | inr e ↦ rw e (
      let e' : (rune_at l == eof) ≡ false = rw next-rune_at at e in
      let t = next-Stepped l e' in
      let i = t.items in
      let j = t.left_is in
      let on : (left (next l).1 + 1 ≤ left l)
          × (length (next l).1.items + 2 * left (next l).1 ≤ length l.items + 2 * left l)
          × (IsQuiet B l → IsQuiet B (next l).1)
          × (HasNoEscape l.input → HasNoEscape (next l).1.input) =
        (
          omega arith,
          omega arith,
          IsQuiet-same B l (next l).1 t.input i t.bounds,
          λ q. rw t.input q,
        ) in
      elim (Bool-cases ((next l).0 == b'"')) [
        | inl e1 ↦ rw e1 (quote_end B text l e' y)
        | inr e1 ↦ rw e1 (elim (Bool-cases ((next l).0 == b'\n')) [
          | inl e2 ↦ rw e2 on
          | inr e2 ↦ rw e2 (elim (Bool-cases ((next l).0 == 32 || (next l).0 == b'\t')) [
            | inl e3 ↦ rw e3 (elim (Bool-cases (not over && leb (next l).1.tcol indent)) [
              | inl e4 ↦ rw e4 on
              | inr e4 ↦ rw e4 on
            ])
            | inr e3 ↦ rw e3 (elim (Bool-cases ((next l).0 == b'\\')) [
              | inr e4 ↦ rw e4 on
              | inl e4 ↦ rw e4 (
                  let b : B = elim y.0 [
                    | inl (z, p) ↦ absurd (let n = next_no_escape l p in cc)
                    | inr b ↦ b
                  ] in
                  Ensures-bind B (Escaped (next l).1) (Rounded B l)
                    (lex_escape line col text (next l).1) _
                    (lex_escape-Escaped B line col text (next l).1 b (t.bounds y.1))
                    λ (text', l2) s.
                      let a = s.left_le in
                      let c = s.bound in
                      (
                        omega arith,
                        omega arith,
                        λ _. (inr b, s.bounds),
                        λ q. s.plain (rw t.input q),
                      ))
            ])
          ])
        ])
      ])
]

-- How `q_loop` goes on with the result of a round.
abbrev q_rest : (Bool → Bytes → Lexer → StateRun) → Run Round → StateRun
q_rest loop (err e) = err e
q_rest loop panic = panic
q_rest loop (ok (again over text l)) = loop over text l
q_rest loop (ok (finished state l)) = ok (state, l)

q_rest-Closed :
    (B : Type 0) (loop : Bool → Bytes → Lexer → StateRun) (l₀ l : Lexer) (r : Run Round)
    → length l.items + 2 * left l ≤ length l₀.items + 2 * left l₀
    → IsQuiet B l
    → (HasNoEscape l₀.input → HasNoEscape l.input)
    → ((over : Bool) (text : Bytes) (l' : Lexer)
        → left l' + 1 ≤ left l
        → length l'.items + 2 * left l' ≤ length l₀.items + 2 * left l₀
        → IsQuiet B l'
        → (HasNoEscape l₀.input → HasNoEscape l'.input)
        → Ensures B (Closed l₀) (loop over text l'))
    → Ensures B (Rounded B l) r
    → Ensures B (Closed l₀) (q_rest loop r)
q_rest-Closed B loop l₀ l (err blocked) k y c rec n = n
q_rest-Closed B loop l₀ l (err out_of_fuel) k y c rec n = n
q_rest-Closed B loop l₀ l panic k y c rec n = n
q_rest-Closed B loop l₀ l (ok (again over text l')) k y c rec (a, b, q, p) =
    rec over text l' a (omega arith) (q y) (λ h. p (c h))
q_rest-Closed B loop l₀ l (ok (finished state l')) k y c rec n =
    let b = n.bound in
    record { plain = λ h. n.plain (c h); bounds = n.bounds; bound = omega arith; items = n.items }

-- The loop, from a lexer that has no more to come than `l₀`.
q_loop_lem :
    (B : Type 0) (f indent line col : ℕ) (over : Bool) (text : Bytes) (l₀ l : Lexer)
    → left l < f
    → length l.items + 2 * left l ≤ length l₀.items + 2 * left l₀
    → IsQuiet B l
    → (HasNoEscape l₀.input → HasNoEscape l.input)
    → Ensures B (Closed l₀) (q_loop f indent line col over text l)
unfolding q_loop
q_loop_lem B zero indent line col over text l₀ l h k y c = absurd (omega arith)
q_loop_lem B (suc f) indent line col over text l₀ l h k y c =
    q_rest-Closed B (q_loop f indent line col) l₀ l (q_round indent line col over text l) k y c
      (λ over' text' l' a b y' c'.
        q_loop_lem B f indent line col over' text' l₀ l' (omega arith) b y' c')
      (q_round-Rounded B indent line col over text l y)

pub lex_qstring-Ran :
    (B : Type 0) (l : Lexer) → IsQuiet B l → Ensures B (Ran qstring l) (lex_qstring l)
unfolding lex_qstring
lex_qstring-Ran B l y =
    Ensures-map B (Closed l) (Ran qstring l) (lex_qstring l)
      (λ r n. record {
        plain = n.plain;
        bounds = n.bounds;
        bound = n.bound;
        progress = inl n.items;
      })
      (q_loop_lem B (rounds l) l.tcol l.line (l.col - 1) true [] l l (omega arith) (omega arith) y
        (λ h. h))
