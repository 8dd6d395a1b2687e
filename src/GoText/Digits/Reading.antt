-- ===== src/GoText/Digits/Reading.antt =====
-- What `ParseUint` in base 0 and `ParseInt` in base 10 make of digits, and of a point.
use go_restconf.GoText.Digits.{
  digits_onto, format_uint, digit_value, push_digit, parse_digits, underscores_ok, parse_body,
  parse_prefixed, parse_uint, signed, parse_decimal, parse_int, u64_mod, i64_lim,
}
use go_restconf.GoText.Digits.Laws.{IsDigit, parse-format_uint, format_uint-IsDigit}
use go_restconf.Common.{
  Bytes, replicate, All, ltb, ◌==◌, ltb→le, Bool-cases, Option-cases, pos, negsuc, ℕ, zero, suc,
  ◌+◌, ◌/◌, ◌%◌, ◌<◌, ◌≡◌, refl, ◌≢◌, inl, inr, Bool, true, false, ◌&&◌, none, some, [], ◌∷◌, ◌++◌,
  arith,
}

-- A byte that is a digit of no base makes the reading fail.
pub parse_digits-none :
    (under : Bool) (base x n : ℕ) (s t : Bytes)
    → (x == b'_') ≡ false
    → digit_value x ≡ none
    → parse_digits under base (s ++ x ∷ t) n ≡ none
unfolding parse_digits
parse_digits-none under base x n [] t h e = unfold push_digit in ground arith
parse_digits-none under base x n (c ∷ s) t h e = elim (Bool-cases (under && c == b'_')) [
  | inl sep ↦ rw (sep, parse_digits) (parse_digits-none under base x n s t h e)
  | inr other ↦ elim (Option-cases (push_digit base n (digit_value c))) [
    | inl none_left ↦ rw (other, none_left, parse_digits)
    | inr (m, one_left) ↦
        rw (other, one_left, parse_digits) (parse_digits-none under base x m s t h e)
  ]
]

parse_body_point : (p : Bool) (base : ℕ) (s t : Bytes) → parse_body p base (s ++ b'.' ∷ t) ≡ none
unfolding parse_body
parse_body_point p base s t =
    rw (parse_digits-none true base b'.' 0 s t refl (unfold digit_value in refl), parse_body)

parse_prefixed_point : (s t : Bytes) → parse_prefixed (s ++ b'.' ∷ t) ≡ none
unfolding parse_prefixed
parse_prefixed_point [] [] = parse_body_point true 8 [] []
parse_prefixed_point [] (y ∷ t) = ground (arith, parse_body_point true 8 [] (y ∷ t))
parse_prefixed_point (x ∷ []) t = ground (
  arith,
  parse_body_point true 2 [] t,
  parse_body_point true 8 [] t,
  parse_body_point true 16 [] t,
  parse_body_point true 8 (x ∷ []) t,
)
parse_prefixed_point (x ∷ y ∷ s) t = ground (
  arith,
  parse_body_point true 2 (y ∷ s) t,
  parse_body_point true 8 (y ∷ s) t,
  parse_body_point true 16 (y ∷ s) t,
  parse_body_point true 8 (x ∷ y ∷ s) t,
)

-- A text with a point is no `ParseUint` text.
pub parse_uint_point : (s t : Bytes) → parse_uint (s ++ b'.' ∷ t) ≡ none
unfolding parse_uint
parse_uint_point [] t = parse_body_point false 10 [] t
parse_uint_point (c ∷ s) t =
    ground (arith, parse_prefixed_point s t, parse_body_point false 10 (c ∷ s) t)

underscores_ok-IsDigit : (d : Bool) (s : Bytes) → All IsDigit s → underscores_ok d false s ≡ true
unfolding underscores_ok
underscores_ok-IsDigit d [] h = refl
underscores_ok-IsDigit d (c ∷ s) (h, hs) = ground (arith, underscores_ok-IsDigit true s hs)

-- Printed numbers have no leading zero, but 0 itself.
digits_onto-head :
    (f n : ℕ) (s : Bytes)
    → n < f
    → 0 < n
    → (c : ℕ) × (t : Bytes) × (digits_onto f n s ≡ c ∷ t) × (c ≢ b'0')
unfolding digits_onto
digits_onto-head zero n s h p = absurd (omega arith)
digits_onto-head (suc f) n s h p = elim (Bool-cases (ltb n 10)) [
  | inl small ↦ (b'0' + n, s, rw (small, digits_onto), omega arith)
  | inr large ↦
      let big = ltb→le n 10 large in
      let (c, t, e, ne) =
        digits_onto-head f (n / 10) ((b'0' + n % 10) ∷ s) (omega arith) (omega arith) in
      (c, t, rw (large, digits_onto) e, ne)
]

format_uint-head : (n : ℕ) → 0 < n → (c : ℕ) × (t : Bytes) × (format_uint n ≡ c ∷ t) × (c ≢ b'0')
format_uint-head n h =
    let (c, t, e, ne) = digits_onto-head (suc n) n [] (omega arith) h in
    (c, t, unfold format_uint in e, ne)

pub parse_uint-format_uint : (n : ℕ) → n < u64_mod → parse_uint (format_uint n) ≡ some n
parse_uint-format_uint zero h = unfold parse_uint format_uint in refl
parse_uint-format_uint (suc n) h =
    let (c, t, e, ne) = format_uint-head (suc n) (omega arith) in
    let value : parse_digits true 10 (c ∷ t) 0 ≡ some (suc n) =
      rw e at (parse-format_uint true (suc n) h) in
    let digits : All IsDigit (c ∷ t) = rw e at (format_uint-IsDigit (suc n)) in
    rw e (
      unfold parse_uint parse_body in
      ground (arith, value, underscores_ok-IsDigit false (c ∷ t) digits))

signed_fits : (n : ℕ) → n < i64_lim → signed false (some n) ≡ some (pos n)
unfolding signed
signed_fits n h = ground arith

signed_fits_neg : (n : ℕ) → n < i64_lim → signed true (some (suc n)) ≡ some (negsuc n)
unfolding signed
signed_fits_neg n h = ground arith

-- Digits that spell `n`, after zeros or not.
parse_decimal-IsDigit : (s : Bytes) → s ≢ [] → parse_decimal s ≡ parse_digits false 10 s 0
unfolding parse_decimal
parse_decimal-IsDigit [] h = absurd (h refl)
parse_decimal-IsDigit (c ∷ s) h = refl

pub parse_int_pos :
    (s : Bytes) (n : ℕ)
    → s ≢ []
    → All IsDigit s
    → parse_digits false 10 s 0 ≡ some n
    → n < i64_lim
    → parse_int s ≡ some (pos n)
parse_int_pos [] n ne d e h = absurd (ne refl)
parse_int_pos (c ∷ s) n ne d e h =
    unfold parse_int in ground (arith, signed_fits n h, parse_decimal-IsDigit (c ∷ s) ne)

pub parse_int_neg :
    (s : Bytes) (n : ℕ)
    → s ≢ []
    → parse_digits false 10 s 0 ≡ some (suc n)
    → n < i64_lim
    → parse_int (b'-' ∷ s) ≡ some (negsuc n)
parse_int_neg s n ne e h =
    unfold parse_int in rw (parse_decimal-IsDigit s ne, e) (signed_fits_neg n h)

-- Leading zeros say nothing, and each zero behind a number multiplies it by ten.
pub parse_digits_zeros :
    (k : ℕ) (s : Bytes)
    → parse_digits false 10 (replicate k b'0' ++ s) 0 ≡ parse_digits false 10 s 0
unfolding parse_digits push_digit digit_value
parse_digits_zeros zero s = refl
parse_digits_zeros (suc k) s = parse_digits_zeros k s

pub format_uint-ne-nil : (n : ℕ) → format_uint n ≢ []
format_uint-ne-nil zero = unfold format_uint in λ e. cc
format_uint-ne-nil (suc n) = let (c, t, e, ne) = format_uint-head (suc n) (omega arith) in λ e'. cc
