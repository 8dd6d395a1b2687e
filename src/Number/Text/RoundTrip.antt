-- ===== src/Number/Text/RoundTrip.antt =====
-- `ParseNumber` reads back what `String` prints.
use go_restconf.GoText.{trim_space}
use go_restconf.GoText.Digits.{format_uint, parse_digits, parse_uint, u64_mod, i64_lim}
use go_restconf.GoText.Digits.Laws.{IsDigit, parse-format_uint, format_uint-IsDigit}
use go_restconf.GoText.Digits.Reading.{
  parse_uint-format_uint, parse_int_pos, parse_int_neg, parse_digits_zeros, format_uint-ne-nil,
}
use go_restconf.Number.{NumberKind, positive, negative, min_number, max_number, Number}
use go_restconf.Number.Text.{
  cut_point, decimal_value_from_string, from_value, parse_number, insert_point, magnitude_string,
  to_string,
}
use go_restconf.Common.{
  Bytes, length, replicate, length-append, All, All-append, ◌==◌, pos, negsuc, ok, ℕ, zero, suc,
  ◌≤◌, ◌<◌, ◌≡◌, refl, ap, ◌∙◌, ◌≢◌, false, some, [], ◌∷◌, ◌++◌, arith,
}
use go_restconf.Number.Text.Numerals.{
  IsNumeral, IsDigit-IsNumeral, IsDigit-Lacks, parse_trimmed_integer, parse_trimmed_minus_integer,
  cut_point_lem, Pointed, insert_point-Pointed, decimal_of_lem, All-take, All-drop,
  decimal_value_lem, parse_number_lem, trimmed_decimal, trimmed_minus,
}

zeros-IsDigit : (k : ℕ) → All IsDigit (replicate k b'0')
zeros-IsDigit zero = tt
zeros-IsDigit (suc k) = (omega arith, zeros-IsDigit k)

module _ (v fd : ℕ) (fits : v < u64_mod) (fd_pos : 0 < fd) (fd_le : fd ≤ 18) {text : Bytes}
    (p : Pointed fd (format_uint v) text) where
  digits : Bytes
  digits = p.before ++ p.behind

  digits-IsDigit : All IsDigit digits
  unfolding digits
  digits-IsDigit = rw p.digits_are (
      All-append IsDigit (replicate p.zeros b'0') (format_uint v) (zeros-IsDigit p.zeros)
        (format_uint-IsDigit v))

  digits_value : parse_digits false 10 digits 0 ≡ some v
  unfolding digits
  digits_value =
      rw p.digits_are (parse_digits_zeros p.zeros (format_uint v) ∙ parse-format_uint false v fits)

  digits-ne-nil : digits ≢ []
  unfolding digits
  digits-ne-nil e =
      let long = ap length e in
      let behind = p.behind_long in omega (arith, length-append p.before p.behind)

  before-IsDigit : All IsDigit p.before
  unfolding digits
  before-IsDigit = All-take p.before p.behind digits-IsDigit

  behind-IsDigit : All IsDigit p.behind
  unfolding digits
  behind-IsDigit = All-drop p.before p.behind digits-IsDigit

  cut_negative : cut_point (b'-' ∷ text) ≡ (fd, b'-' ∷ digits)
  unfolding digits
  cut_negative = rw p.text_is (
      cut_point_lem (b'-' ∷ p.before) p.behind (omega arith, IsDigit-Lacks p.before before-IsDigit)
      ∙ rw p.behind_long)

  cut_positive : cut_point text ≡ (fd, digits)
  unfolding digits
  cut_positive =
      rw p.text_is
        (cut_point_lem p.before p.behind (IsDigit-Lacks p.before before-IsDigit) ∙ rw p.behind_long)

  decimal_positive :
      v < i64_lim → decimal_value_from_string text (negsuc 0) ≡ ok (from_value (pos v) fd)
  decimal_positive h =
      decimal_value_lem text digits fd cut_positive
      ∙ (decimal_of_lem fd digits (pos v) fd_le
          (parse_int_pos digits v digits-ne-nil digits-IsDigit digits_value h))

  decimal_negative :
      (k : ℕ)
      → v ≡ suc k
      → k < i64_lim
      → decimal_value_from_string (b'-' ∷ text) (negsuc 0) ≡ ok (from_value (negsuc k) fd)
  decimal_negative k e h =
      decimal_value_lem (b'-' ∷ text) (b'-' ∷ digits) fd cut_negative
      ∙ (decimal_of_lem fd (b'-' ∷ digits) (negsuc k) fd_le
          (parse_int_neg digits k digits-ne-nil (digits_value ∙ ap some e) h))

  text-IsNumeral : All IsNumeral text
  text-IsNumeral = rw p.text_is (
      All-append IsNumeral p.before (b'.' ∷ p.behind) (IsDigit-IsNumeral p.before before-IsDigit)
        ((omega arith), IsDigit-IsNumeral p.behind behind-IsDigit))

  parse_positive : v < i64_lim → parse_number text ≡ ok (from_value (pos v) fd)
  parse_positive h =
      parse_number_lem text text-IsNumeral
      ∙ rw p.text_is
          (trimmed_decimal p.before p.behind before-IsDigit (rw p.text_is at (decimal_positive h)))

  parse_negative :
      (k : ℕ) → v ≡ suc k → k < i64_lim → parse_number (b'-' ∷ text) ≡ ok (from_value (negsuc k) fd)
  parse_negative k e h =
      parse_number_lem (b'-' ∷ text) (omega arith, text-IsNumeral)
      ∙ rw p.text_is (trimmed_minus p.before p.behind (rw p.text_is at (decimal_negative k e h)))

integer_text :
    (s : Bytes) (v : ℕ)
    → All IsDigit s
    → s ≢ []
    → parse_uint s ≡ some v
    → (parse_number s ≡ ok (record { kind = positive; value = v; fraction_digits = 0 }))
      × (parse_number (b'-' ∷ s) ≡ ok (record { kind = negative; value = v; fraction_digits = 0 }))
integer_text [] v d ne e = absurd (ne refl)
integer_text (c ∷ t) v d ne e =
    let numeral = IsDigit-IsNumeral (c ∷ t) d in
    (
      parse_number_lem (c ∷ t) numeral ∙ parse_trimmed_integer c t v d.0 e,
      parse_number_lem (b'-' ∷ c ∷ t) (omega arith, numeral) ∙ parse_trimmed_minus_integer c t v e,
    )

-- The numbers that have a text: a decimal number must fit an `int64`.
abbrev pub IsPrintableKind : NumberKind → ℕ → ℕ → Type 0
IsPrintableKind min_number v fd = (v ≡ 0) × (fd ≡ 0)
IsPrintableKind max_number v fd = (v ≡ 0) × (fd ≡ 0)
IsPrintableKind positive v fd = (v < u64_mod) × (fd ≤ 18) × (0 < fd → v < i64_lim)
IsPrintableKind negative v fd = (v < u64_mod) × (fd ≤ 18) × (0 < fd → (0 < v) × (v ≤ i64_lim))

abbrev pub IsPrintable : Number → Type 0
IsPrintable n = IsPrintableKind n.kind n.value n.fraction_digits

abbrev of_parts : NumberKind → ℕ → ℕ → Number
of_parts k v fd = record { kind = k; value = v; fraction_digits = fd }

magnitude_decimal :
    (k : NumberKind) (v fd : ℕ)
    → 0 < fd
    → magnitude_string (of_parts k v fd) ≡ insert_point fd (format_uint v)
magnitude_decimal k v fd h =
    let e : (fd == 0) ≡ false = ground arith in unfold magnitude_string in rw e

to_string_positive :
    (v fd : ℕ) → 0 < fd → to_string (of_parts positive v fd) ≡ insert_point fd (format_uint v)
unfolding to_string
to_string_positive v fd h = magnitude_decimal positive v fd h

to_string_negative :
    (v fd : ℕ)
    → 0 < fd
    → to_string (of_parts negative v fd) ≡ b'-' ∷ insert_point fd (format_uint v)
unfolding to_string
to_string_negative v fd h = ap (◌∷◌ b'-') (magnitude_decimal negative v fd h)

round_trip :
    (k : NumberKind) (v fd : ℕ)
    → IsPrintableKind k v fd
    → parse_number (to_string (of_parts k v fd)) ≡ ok (of_parts k v fd)
round_trip min_number v fd (e, f) = rw (e, f) (unfold to_string parse_number trim_space in refl)
round_trip max_number v fd (e, f) = rw (e, f) (unfold to_string parse_number trim_space in refl)
round_trip positive v zero (h, _, _) =
    unfold to_string in
    (integer_text (format_uint v) v (format_uint-IsDigit v) (format_uint-ne-nil v)
      (parse_uint-format_uint v h)).0
round_trip positive v (suc fd) (h, g, small) = rw (to_string_positive v (suc fd) (omega arith)) (
    parse_positive v (suc fd) h (omega arith) g
      (insert_point-Pointed (suc fd) (format_uint v) (omega arith)) (small (omega arith)))
round_trip negative v zero (h, _, _) =
    unfold to_string in
    (integer_text (format_uint v) v (format_uint-IsDigit v) (format_uint-ne-nil v)
      (parse_uint-format_uint v h)).1
round_trip negative zero (suc fd) (h, g, small) =
    let (p, _) = small (omega arith) in absurd (omega arith)
round_trip negative (suc v) (suc fd) (h, g, small) =
    let bounds = small (omega arith) in
    rw (to_string_negative (suc v) (suc fd) (omega arith)) (
      parse_negative (suc v) (suc fd) h (omega arith) g
        (insert_point-Pointed (suc fd) (format_uint (suc v)) (omega arith)) v refl (omega arith))

-- Every printable number is read back from its text: the least and the greatest number, the
-- integers of 64 bits with either sign, and the decimal numbers of up to 18 fractional digits
-- whose digits fit an `int64`.
pub parse_number-to_string : (n : Number) → IsPrintable n → parse_number (to_string n) ≡ ok n
parse_number-to_string n h = round_trip n.kind n.value n.fraction_digits h
