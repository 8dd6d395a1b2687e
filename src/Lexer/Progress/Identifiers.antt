-- ===== src/Lexer/Progress/Identifiers.antt =====
-- The state `lexIdentifier`, and all states together.
use go_restconf.Lexer.{eof, t_identifier, Lexer, State, ground, qstring, identifier}
use go_restconf.Lexer.Cursor.{next, peek, emit, rounds}
use go_restconf.Lexer.Cursor.Moves.{
  IsInBounds, Ensures, Ensures-bind, left, rune_at, rune_at-Stays, peek-Stays, peek-rune_at,
}
use go_restconf.Lexer.Cursor.Sends.{
  Forward-Stays, Forward-self, Room, Room-IsQuiet, IsQuiet, Sent, emit-Sent,
}
use go_restconf.Lexer.States.{ends_identifier, identifier_loop, lex_identifier, run_state}
use go_restconf.Lexer.Progress.{owed, potential, Ran, next-Stepped}
use go_restconf.Common.{
  length, ◌==◌, Bool-cases, ok, ◌>>=◌, ℕ, zero, suc, ◌+◌, ◌*◌, ◌≤◌, ◌<◌, ◌≡◌, refl, ◌∙◌, inl, inr,
  true, false, some, arith,
}
use go_restconf.Lexer.Progress.Ground.{lex_ground-Ran}
use go_restconf.Lexer.Progress.Quoted.{lex_qstring-Ran}

-- What sending the identifier leaves, from where its loop ends.
identifier_end :
    (B : Type 0) (l₀ l : Lexer)
    → length l.items + 2 * left l + 1 ≤ potential (some identifier) l₀
    → l.input ≡ l₀.input
    → Room B l
    → IsInBounds l
    → Ensures B (Ran identifier l₀) (emit t_identifier l >>= (λ l2. ok (some ground, l2)))
identifier_end B l₀ l h e space bounds =
    Ensures-bind B (Sent l) (Ran identifier l₀) (emit t_identifier l) _
      (emit-Sent B t_identifier l space bounds)
      λ l2 s.
        let a = s.items in
        let z = s.size_is in
        let p = s.pos_is in
        record {
          plain = λ q. rw (s.input ∙ e) q;
          bounds = s.bounds bounds;
          bound = omega arith;
          progress = inl (omega arith);
        }

owed_end : (l : Lexer) → ends_identifier (rune_at l) ≡ true → owed (some identifier) l ≡ 1
owed_end l e = rw e

ends_identifier-eof : (c : ℕ) → ends_identifier c ≡ false → (c == eof) ≡ false
unfolding ends_identifier
ends_identifier-eof c e = grind arith

pub owed_le : (l : Lexer) → owed (some identifier) l ≤ 1
owed_le l = elim (Bool-cases (ends_identifier (rune_at l))) [
  | inl e ↦ rw e (omega arith)
  | inr e ↦ rw e (omega arith)
]

Room-same : (B : Type 0) (l l' : Lexer) → length l'.items ≡ length l.items → Room B l → Room B l'
Room-same B l l' i (inl h) = inl (omega arith)
Room-same B l l' i (inr b) = inr b

-- The loop, from a lexer that has one token to come from this identifier.
identifier_loop_lem :
    (B : Type 0) (f : ℕ) (l₀ l : Lexer)
    → left l < f
    → length l.items + (2 * left l + owed (some identifier) l) ≤ potential (some identifier) l₀
    → l.input ≡ l₀.input
    → Room B l
    → IsInBounds l
    → Ensures B (Ran identifier l₀) (identifier_loop f l)
unfolding identifier_loop
identifier_loop_lem B zero l₀ l h k same space bounds = absurd (omega arith)
identifier_loop_lem B (suc f) l₀ l h k same space bounds =
    let m = (peek l).1 in
    let y = peek-Stays l in
    let mb : IsInBounds m = (Forward-Stays l l m (Forward-self l) y).bounds bounds in
    let s = y.same in
    let i = s.items in
    let z = s.size_is in
    let p = y.pos_is in
    let q : rune_at m ≡ rune_at l = rune_at-Stays l m y in
    let r : (peek l).0 ≡ rune_at l = peek-rune_at l in
    elim (Bool-cases (ends_identifier (peek l).0)) [
      | inl e ↦
          rw (e, identifier_loop)
            (let w = owed_end l (rw (← r) e) in
              identifier_end B l₀ m (omega arith) (s.input ∙ same) (Room-same B l m i space) mb)
      | inr e ↦
          rw (e, identifier_loop)
            (let e' : (rune_at m == eof) ≡ false =
                ends_identifier-eof (rune_at m) (rw (q, ← r) e) in
              let t = next-Stepped m e' in
              let a = t.items in
              let b = t.left_is in
              let c = owed_le (next m).1 in
              identifier_loop_lem B f l₀ (next m).1 (omega arith) (omega arith)
                (t.input ∙ s.input ∙ same) (Room-same B l (next m).1 (a ∙ i) space) (t.bounds mb))
    ]

lex_identifier-Ran :
    (B : Type 0) (l : Lexer) → IsQuiet B l → Ensures B (Ran identifier l) (lex_identifier l)
unfolding lex_identifier
lex_identifier-Ran B l y =
    identifier_loop_lem B (rounds l) l l (omega arith) (omega arith) refl
      (Room-IsQuiet B l l y refl) y.1

pub run_state-Ran :
    (B : Type 0) (s : State) (l : Lexer) → IsQuiet B l → Ensures B (Ran s l) (run_state s l)
unfolding run_state
run_state-Ran B ground l y = lex_ground-Ran B l y
run_state-Ran B qstring l y = lex_qstring-Ran B l y
run_state-Ran B identifier l y = lex_identifier-Ran B l y
