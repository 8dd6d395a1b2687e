-- ===== src/CamelCase/Output.antt =====
-- What a camel-cased name holds.
use go_restconf.CamelCase.{
  is_ascii_lower, is_ascii_digit, known_word, fix, lower_run, capital, camel_loop, camel_case,
  starts_lower, followed,
}
use go_restconf.Common.{
  bytes_eq, Bytes, codes, length, All, All-append, ◌==◌, Bool-cases, ℕ, zero, suc, ◌≤◌, ◌≡◌, refl,
  ap, ◌∙◌, ◌<◌, some, ◌≢◌, inl, inr, true, false, ◌&&◌, [], ◌∷◌, ◌++◌, arith,
}

-- None of the separators that `CamelCase` rewrites.
abbrev pub IsClean : ℕ → Type 0
IsClean c = (c ≢ b'/') × (c ≢ b'-') × (c ≢ b':')

fix-IsClean : (c : ℕ) → IsClean (fix c)
unfolding fix
fix-IsClean c = ground arith

capital-IsClean : (c : ℕ) → IsClean c → IsClean (capital c)
unfolding capital is_ascii_lower
capital-IsClean c h = ground arith

known_word-IsClean : (w : Bytes) → All IsClean w → All IsClean (known_word w)
unfolding known_word
known_word-IsClean w h = elim (Bool-cases (bytes_eq w (codes "Ietf"))) [
  | inl known ↦ rw known (omega arith)
  | inr other ↦ rw other h
]

lower_run-IsClean : (s : Bytes) → All IsClean (lower_run s).0
unfolding lower_run is_ascii_lower
lower_run-IsClean [] = tt
lower_run-IsClean (c ∷ s) = ground (arith, lower_run-IsClean s)

lower_run_shorter : (s : Bytes) → length (lower_run s).1 ≤ length s
unfolding lower_run
lower_run_shorter [] = omega arith
lower_run_shorter (c ∷ s) = ground (arith, lower_run_shorter s)

module _ (f b : ℕ) (s : Bytes) where
  skip_round :
      (fix b == b'_' && starts_lower s) ≡ true → camel_loop (suc f) (b ∷ s) ≡ camel_loop f s
  unfolding camel_loop
  skip_round e = rw (e, camel_loop)

  digit_round :
      (fix b == b'_' && starts_lower s) ≡ false
      → is_ascii_digit (fix b) ≡ true
      → camel_loop (suc f) (b ∷ s) ≡ followed (fix b ∷ []) (camel_loop f s)
  unfolding camel_loop
  digit_round e d = rw (e, d, camel_loop)

  word_round :
      (fix b == b'_' && starts_lower s) ≡ false
      → is_ascii_digit (fix b) ≡ false
      → camel_loop (suc f) (b ∷ s)
        ≡ followed (known_word (capital (fix b) ∷ (lower_run s).0)) (camel_loop f (lower_run s).1)
  unfolding camel_loop
  word_round e d = rw (e, d, camel_loop)

-- The test of a round: a separator before a lower case letter, a digit, or a word.
data Round (b : ℕ) (s : Bytes) : Type 0 where
  skip : (fix b == b'_' && starts_lower s) ≡ true → Round b s
  digit : (fix b == b'_' && starts_lower s) ≡ false → is_ascii_digit (fix b) ≡ true → Round b s
  word : (fix b == b'_' && starts_lower s) ≡ false → is_ascii_digit (fix b) ≡ false → Round b s

round : (b : ℕ) (s : Bytes) → Round b s
round b s = elim (Bool-cases (fix b == b'_' && starts_lower s)) [
  | inl e ↦ skip e
  | inr e ↦ elim (Bool-cases (is_ascii_digit (fix b))) [ inl d ↦ digit e d | inr d ↦ word e d ]
]

-- The loop ends: with more rounds than bytes it gives a result, which is clean.
pub camel_loop-Gives :
    (f : ℕ) (s : Bytes)
    → length s < f
    → (out : Bytes) × (camel_loop f s ≡ some out) × All IsClean out
camel_loop-Gives zero s h = absurd (omega arith)
camel_loop-Gives (suc f) [] h = ([], unfold camel_loop in refl, tt)
camel_loop-Gives (suc f) (b ∷ s) h =
    let shorter = lower_run_shorter s in
    elim (round b s) [
      | skip e ↦
          let (out, runs, clean) = camel_loop-Gives f s (omega arith) in
          (out, skip_round f b s e ∙ runs, clean)
      | digit e d ↦
          let (out, runs, clean) = camel_loop-Gives f s (omega arith) in
          (
            fix b ∷ out,
            digit_round f b s e d ∙ ap (followed (fix b ∷ [])) runs,
            (fix-IsClean b, clean),
          )
      | word e d ↦
          let w = known_word (capital (fix b) ∷ (lower_run s).0) in
          let (out, runs, clean) = camel_loop-Gives f (lower_run s).1 (omega arith) in
          (
            w ++ out,
            word_round f b s e d ∙ ap (followed w) runs,
            All-append IsClean w out
                (known_word-IsClean (capital (fix b) ∷ (lower_run s).0)
                  (capital-IsClean (fix b) (fix-IsClean b), lower_run-IsClean s))
                clean,
          )
    ]

-- `CamelCase` ends, and a camel-cased name holds no `/`, `-` or `:`.
pub camel_case-IsClean : (s : Bytes) → (out : Bytes) × (camel_case s ≡ some out) × All IsClean out
unfolding camel_case
camel_case-IsClean [] = ([], refl, tt)
camel_case-IsClean (c ∷ s) = elim (Bool-cases (fix c == b'_')) [
  | inl dropped ↦
      let (out, runs, clean) = camel_loop-Gives (suc (length s)) s (omega arith) in
      (b'X' ∷ out, rw (dropped, runs) refl, (omega arith, clean))
  | inr kept ↦
      let (out, runs, clean) = camel_loop-Gives (suc (suc (length s))) (c ∷ s) (omega arith) in
      (out, rw kept runs, clean)
]

abbrev pub StartsUpper : Bytes → Type 0
StartsUpper [] = ⊥
StartsUpper (c ∷ t) = is_ascii_lower c ≡ false

known_word-StartsUpper : (c : ℕ) (w t : Bytes) → StartsUpper (known_word (capital c ∷ w) ++ t)
unfolding known_word
known_word-StartsUpper c w t = elim (Bool-cases (bytes_eq (capital c ∷ w) (codes "Ietf"))) [
  | inl known ↦ rw known (unfold is_ascii_lower in refl)
  | inr other ↦ rw other (unfold capital is_ascii_lower in ground arith)
]

digit-StartsUpper : (c : ℕ) → is_ascii_digit c ≡ true → is_ascii_lower c ≡ false
unfolding is_ascii_lower is_ascii_digit
digit-StartsUpper c d = ground arith

-- `CamelCase` of a text that is not empty ends with a name that is not empty and does not start with
-- a lower case letter.
pub camel_case-StartsUpper :
    (s : Bytes) → s ≢ [] → (out : Bytes) × (camel_case s ≡ some out) × StartsUpper out
unfolding camel_case
camel_case-StartsUpper [] h = absurd (h refl)
camel_case-StartsUpper (c ∷ s) h =
    let shorter = lower_run_shorter s in
    elim (Bool-cases (fix c == b'_')) [
      | inl dropped ↦
          let (out, runs, clean) = camel_loop-Gives (suc (length s)) s (omega arith) in
          (b'X' ∷ out, rw (dropped, runs) refl, unfold is_ascii_lower in refl)
      | inr kept ↦ elim (round c s) [
        | skip e ↦ absurd (ground arith)
        | digit e d ↦
            let (out, runs, clean) = camel_loop-Gives (suc (length s)) s (omega arith) in
            (
              fix c ∷ out,
              rw kept (digit_round (suc (length s)) c s e d ∙ ap (followed (fix c ∷ [])) runs),
              digit-StartsUpper (fix c) d,
            )
        | word e d ↦
            let w = known_word (capital (fix c) ∷ (lower_run s).0) in
            let (out, runs, clean) =
              camel_loop-Gives (suc (length s)) (lower_run s).1 (omega arith) in
            (
              w ++ out,
              rw kept (word_round (suc (length s)) c s e d ∙ ap (followed w) runs),
              known_word-StartsUpper (fix c) (lower_run s).0 out,
            )
      ]
    ]
