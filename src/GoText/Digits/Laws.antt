-- ===== src/GoText/Digits/Laws.antt =====
-- Reading digits back, and refusing a byte that is no digit.
use go_restconf.GoText.Digits.{
  digits_onto, format_uint, digit_value, push_digit, parse_digits, u64_mod,
}
use go_restconf.Common.{
  Bytes, All, ltb, ltb→lt, Bool-cases, ℕ, zero, suc, ◌+◌, ◌*◌, ◌/◌, ◌%◌, ◌≤◌, ◌<◌, ◌≡◌, ap, ◌∙◌,
  inl, inr, Bool, some, [], ◌∷◌, arith,
}

abbrev pub IsDigit : ℕ → Type 0
IsDigit c = (b'0' ≤ c) × (c ≤ b'9')

pub digit_value_lem : (d : ℕ) → d < 10 → digit_value (b'0' + d) ≡ some d
unfolding digit_value
digit_value_lem d h = ground arith

parse_digits_step :
    (under : Bool) (d n : ℕ) (s : Bytes)
    → d < 10
    → n * 10 + d < u64_mod
    → parse_digits under 10 ((b'0' + d) ∷ s) n ≡ parse_digits under 10 s (n * 10 + d)
unfolding parse_digits push_digit
parse_digits_step under d n s h fits = ground (arith, digit_value_lem d)

pub parse-digits_onto :
    (under : Bool) (f n : ℕ) (s : Bytes)
    → n < f
    → n < u64_mod
    → parse_digits under 10 (digits_onto f n s) 0 ≡ parse_digits under 10 s n
unfolding digits_onto
parse-digits_onto under zero n s h fits = absurd (omega arith)
parse-digits_onto under (suc f) n s h fits = elim (Bool-cases (ltb n 10)) [
  | inl small ↦
      rw (small, digits_onto)
        (parse_digits_step under n 0 s (ltb→lt n 10 small) (omega arith)
          ∙ ap (parse_digits under 10 s) (omega arith))
  | inr large ↦
      rw (large, digits_onto)
        (parse-digits_onto under f (n / 10) ((b'0' + n % 10) ∷ s) (ground arith) (omega arith)
          ∙ parse_digits_step under (n % 10) (n / 10) s (omega arith) (omega arith)
          ∙ ap (parse_digits under 10 s) (omega arith))
]

-- A printed number is read back.
pub parse-format_uint :
    (under : Bool) (n : ℕ) → n < u64_mod → parse_digits under 10 (format_uint n) 0 ≡ some n
unfolding format_uint
parse-format_uint under n fits =
    unfold parse_digits in parse-digits_onto under (suc n) n [] (omega arith) fits

digits_onto-IsDigit : (f n : ℕ) (s : Bytes) → All IsDigit s → All IsDigit (digits_onto f n s)
unfolding digits_onto
digits_onto-IsDigit zero n s h = h
digits_onto-IsDigit (suc f) n s h =
    ground (arith, digits_onto-IsDigit f (n / 10) ((b'0' + n % 10) ∷ s))

pub format_uint-IsDigit : (n : ℕ) → All IsDigit (format_uint n)
unfolding format_uint
format_uint-IsDigit n = digits_onto-IsDigit (suc n) n [] tt
