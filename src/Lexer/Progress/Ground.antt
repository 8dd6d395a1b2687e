-- ===== src/Lexer/Progress/Ground.antt =====
-- The state `lexGround`.
use go_restconf.Lexer.{eof, Lexer, State, ground, identifier}
use go_restconf.Lexer.Cursor.{next, peek, accept_run, skip_to, consume, contains_rune}
use go_restconf.Lexer.Cursor.Moves.{
  IsInBounds, Ensures, Ensures-bind, Ensures-map, left, rune_at, rune_at-Stays, peek-Stays,
  peek-rune_at,
}
use go_restconf.Lexer.Cursor.Sends.{
  Forward, Forward-next, Forward-self, Forward-Stays, Accepted, accept_run_lem, skip_to-Forward,
  IsQuiet,
}
use go_restconf.Lexer.States.{
  is_punct, lex_slash, lex_switch, white_space, mark_start, lex_ground, ends_identifier,
}
use go_restconf.Lexer.Progress.{Ran, next-Stepped, lex_punct-Ran, lex_single-Ran}
use go_restconf.Common.{
  Bool, length, ◌==◌, Bool-cases, ℕ, ◌+◌, ◌≤◌, ◌≡◌, refl, sym, ◌∙◌, inl, inr, false, Option, some,
  [], ◌∷◌, arith,
}

slash_end :
    (l l' : Lexer)
    → left l' + 1 ≤ left l
    → length l'.items ≡ length l.items
    → l'.input ≡ l.input
    → IsInBounds l'
    → Ran ground l (some ground, l')
slash_end l l' h i p b = record {
  plain = λ q. rw p q;
  bounds = b;
  bound = omega arith;
  progress = inr (omega arith);
}

slash_on :
    (l l' : Lexer)
    → left l' + 1 ≤ left l
    → length l'.items ≡ length l.items
    → l'.input ≡ l.input
    → IsInBounds l'
    → Ran ground l (some identifier, l')
slash_on l l' h i p b = elim (Bool-cases (ends_identifier (rune_at l'))) [
  | inl e ↦ record {
    plain = λ q. rw p q;
    bounds = b;
    bound = rw e (omega arith);
    progress = inr (omega arith);
  }
  | inr e ↦ record {
    plain = λ q. rw p q;
    bounds = b;
    bound = rw e (omega arith);
    progress = inr (omega arith);
  }
]

lex_slash-Ran :
    (B : Type 0) (l : Lexer)
    → IsInBounds l
    → (rune_at l == eof) ≡ false
    → Ensures B (Ran ground l) (lex_slash l)
unfolding lex_slash
lex_slash-Ran B l bounds e =
    let t = next-Stepped l e in
    let i = t.items in
    let j = t.left_is in
    let m = (peek (next l).1).1 in
    let w = peek-Stays (next l).1 in
    let ws = w.same in
    let wi = ws.items in
    let wz = ws.size_is in
    let wp = w.pos_is in
    let mb : IsInBounds m =
      (Forward-Stays l (next l).1 m (Forward-next l l (Forward-self l)) w).bounds bounds in
    let after : (l' : Lexer)
        → Forward m l'
        → (left l' + 1 ≤ left l)
          × (length l'.items ≡ length l.items)
          × (l'.input ≡ l.input)
          × IsInBounds l' =
      λ l' f.
        let a = f.items in
        let b = f.left_le in
        (omega arith, omega arith, f.input ∙ ws.input ∙ t.input, f.bounds mb) in
    elim (Bool-cases ((peek (next l).1).0 == b'/')) [
      | inl e1 ↦ rw e1 (
          Ensures-bind B (λ (r : Bool × Lexer). Forward m r.1) (Ran ground l)
            (skip_to (b'\n' ∷ []) m) _ (skip_to-Forward B (b'\n' ∷ []) m mb)
            (λ (found, s) f. let (a, b, c, d) = after s f in slash_end l s a b c d))
      | inr e1 ↦ rw e1 (elim (Bool-cases ((peek (next l).1).0 == b'*')) [
        | inl e2 ↦ rw e2 (
            Ensures-bind B (λ (r : Bool × Lexer). Forward m r.1) (Ran ground l)
              (skip_to (b'*' ∷ b'/' ∷ []) m) _ (skip_to-Forward B (b'*' ∷ b'/' ∷ []) m mb)
              (λ (found, s) f.
                let (a, b, c, d) =
                  after (next (next s).1).1 (Forward-next m (next s).1 (Forward-next m s f)) in
                slash_end l _ a b c d))
        | inr e2 ↦ rw e2 (let (a, b, c, d) = after _ (Forward-self m) in slash_on l _ a b c d)
      ])
    ]

ends_identifier-false :
    (c : ℕ)
    → contains_rune white_space c ≡ false
    → (c == eof) ≡ false
    → is_punct c ≡ false
    → (c == b'"') ≡ false
    → ends_identifier c ≡ false
unfolding contains_rune ends_identifier
ends_identifier-false c w e p q = grind arith

pub lex_switch-Ran :
    (B : Type 0) (c : ℕ) (l : Lexer)
    → rune_at l ≡ c
    → contains_rune white_space c ≡ false
    → IsQuiet B l
    → Ensures B (Ran ground l) (lex_switch c l)
unfolding lex_switch
lex_switch-Ran B c l r w y = elim (Bool-cases (c == eof)) [
  | inl e1 ↦
      rw e1
        (record { plain = λ q. q; bounds = y.1; bound = omega arith; progress = inr (omega arith) })
  | inr e1 ↦ rw e1 (
      let e : (rune_at l == eof) ≡ false = rw (r, e1) in
      let t = next-Stepped l e in
      let i = t.items in
      let j = t.left_is in
      elim (Bool-cases (is_punct c)) [
        | inl e2 ↦ rw e2 (lex_punct-Ran B c l y e)
        | inr e2 ↦ rw e2 (elim (Bool-cases (c == b'\'')) [
          | inl e3 ↦ rw e3 (lex_single-Ran B l y e)
          | inr e3 ↦ rw e3 (elim (Bool-cases (c == b'"')) [
            | inl e4 ↦ rw e4 (record {
              plain = λ q. rw t.input q;
              bounds = t.bounds y.1;
              bound = omega arith;
              progress = inr (omega arith);
            })
            | inr e4 ↦ rw e4 (elim (Bool-cases (c == b'/')) [
              | inl e5 ↦ rw e5 (lex_slash-Ran B l y.1 e)
              | inr e5 ↦ rw e5 (
                  let k : ends_identifier (rune_at l) ≡ false =
                    rw r (ends_identifier-false c w e1 e2 e4) in
                  record {
                    plain = λ q. q;
                    bounds = y.1;
                    bound = rw k (omega arith);
                    progress = inr (omega arith);
                  })
            ])
          ])
        ])
      ])
]

Ran-Forward :
    (l m : Lexer) (r : Option State × Lexer) → Forward l m → Ran ground m r → Ran ground l r
Ran-Forward l m r f n =
    let i = f.items in
    let h = f.left_le in
    let b = n.bound in
    record {
      plain = λ q. n.plain (rw f.input q);
      bounds = n.bounds;
      bound = omega arith;
      progress = elim n.progress [ inl k ↦ inl k | inr k ↦ inr (omega arith) ];
    }

IsQuiet-Forward : (B : Type 0) (l m : Lexer) → Forward l m → IsQuiet B l → IsQuiet B m
IsQuiet-Forward B l m f (inl (i, p), b) = (inl (f.items ∙ i, rw f.input p), f.bounds b)
IsQuiet-Forward B l m f (inr x, b) = (inr x, f.bounds b)

pub lex_ground-Ran :
    (B : Type 0) (l : Lexer) → IsQuiet B l → Ensures B (Ran ground l) (lex_ground l)
unfolding lex_ground
lex_ground-Ran B l quiet =
    Ensures-bind B (Accepted white_space l) (Ran ground l) (accept_run white_space l) _
      (accept_run_lem B white_space l (unfold contains_rune in refl))
      λ (b, l1) (f, w).
        let l2 = mark_start (consume l1) in
        let y = peek-Stays l2 in
        let m = (peek l2).1 in
        let g : Forward l l2 =
          unfold consume in
          record {
            input = f.input;
            size_is = f.size_is;
            items = f.items;
            left_le = f.left_le;
            bounds = λ b. let (c, d) = f.bounds b in (omega arith, d);
          } in
        let h : Forward l m = Forward-Stays l l2 m g y in
        let z : rune_at l2 ≡ rune_at l1 = unfold consume rune_at in refl in
        let q : rune_at m ≡ (peek l2).0 = rune_at-Stays l2 m y ∙ sym (peek-rune_at l2) in
        let w' : contains_rune white_space (peek l2).0 ≡ false = rw (peek-rune_at l2, z, w) in
        Ensures-map B (Ran ground m) (Ran ground l) (lex_switch (peek l2).0 m)
          (λ r n. Ran-Forward l m r h n)
          (lex_switch-Ran B (peek l2).0 m q w' (IsQuiet-Forward B l m h quiet))
