-- ===== src/Number/Text.antt =====
-- `ParseNumber`, `DecimalValueFromString` and `String` of yang/types_builtin.go.
pub mod Numerals
pub mod RoundTrip
use go_restconf.GoText.{index_byte, trim_space}
use go_restconf.GoText.Digits.{format_uint, parse_uint, parse_int}
use go_restconf.Number.{
  NumberKind, positive, negative, min_number, max_number, Number, max_fraction_digits,
  max_number_value, min_number_value, is_decimal,
}
use go_restconf.Common.{
  bytes_eq, Bytes, codes, length, take, drop, replicate, ltb, leb, ◌==◌, if◌then◌else◌, ℤ, pos,
  negsuc, ltb_ℤ, Result, ok, err, ℕ, suc, ◌+◌, ◌-◌, ◌%◌, ◌||◌, none, some, [], ◌∷◌, ◌++◌,
}

pub data ParseError : Type 0 where
  empty_string sign_with_no_value too_many_fraction_digits too_much_precision : ParseError
  not_a_decimal_number : ParseError

-- The digits behind the first point, and the text without that point.
unfoldable pub cut_point : Bytes → ℕ × Bytes
cut_point s = elim (index_byte b'.' s) [
  | none ↦ (0, s)
  | some dx ↦ (length s - 1 - dx, take dx s ++ drop (dx + 1) s)
]

-- A negative precision stands for that of the text.
abbrev required_digits : ℤ → ℕ → ℕ
required_digits (pos r) frac_dig = r
required_digits (negsuc _) frac_dig = frac_dig

abbrev from_value : ℤ → ℕ → Number
from_value (pos v) fd = record { kind = positive; value = v; fraction_digits = fd }
from_value (negsuc v) fd = record { kind = negative; value = suc v; fraction_digits = fd }

unfoldable pub decimal_of : ℕ → ℕ → Bytes → Result ParseError Number
decimal_of required frac_dig s =
    if ltb required frac_dig
    then err too_much_precision
    else elim (parse_int (s ++ replicate (required - frac_dig) b'0')) [
      | none ↦ err not_a_decimal_number
      | some v ↦ ok (from_value v (frac_dig % 256))
    ]

unfoldable pub decimal_value_from_string : Bytes → ℤ → Result ParseError Number
decimal_value_from_string num_str frac_dig_required =
    let (frac_dig, s) = cut_point num_str in
    if ltb_ℤ (pos max_fraction_digits) frac_dig_required
    then err too_many_fraction_digits
    else decimal_of (required_digits frac_dig_required frac_dig) frac_dig s

-- The text behind the sign.
abbrev digits_of : Bytes → Bytes
digits_of [] = []
digits_of (c ∷ s) = if c == b'+' then s else if c == b'-' then s else c ∷ s

abbrev sign_of : Bytes → NumberKind
sign_of [] = positive
sign_of (c ∷ s) = if c == b'-' then negative else positive

-- `ParseNumber` of a text without white space at its ends.
unfoldable pub parse_trimmed : Bytes → Result ParseError Number
parse_trimmed s =
    if bytes_eq s (codes "max")
    then ok max_number_value
    else if bytes_eq s (codes "min")
    then ok min_number_value
    else if bytes_eq s []
    then err empty_string
    else if bytes_eq s (codes "+") || bytes_eq s (codes "-")
    then err sign_with_no_value
    else elim (parse_uint (digits_of s)) [
      | some v ↦ ok (record { kind = sign_of s; value = v; fraction_digits = 0 })
      | none ↦ decimal_value_from_string s (negsuc 0)
    ]

unfoldable pub parse_number : Bytes → Result ParseError Number
unfolding parse_trimmed
parse_number s = parse_trimmed (trim_space s)

-- The point goes before the last `fd` digits, with zeros before them where they are too few.
unfoldable pub insert_point : ℕ → Bytes → Bytes
insert_point fd out =
    let missing = replicate (fd + 1 - length out) b'0' in
    if leb (length out) fd
    then take 1 (missing ++ out) ++ (b'.' ∷ drop 1 (missing ++ out))
    else take (length out - fd) out ++ (b'.' ∷ drop (length out - fd) out)

-- The digits of a number, with its point.
unfoldable pub magnitude_string : Number → Bytes
unfolding is_decimal insert_point
magnitude_string n =
    let out = format_uint n.value in
    if is_decimal n then insert_point n.fraction_digits out else out

to_string_kind : NumberKind → Number → Bytes
to_string_kind min_number n = codes "min"
to_string_kind max_number n = codes "max"
to_string_kind positive n = magnitude_string n
to_string_kind negative n = b'-' ∷ magnitude_string n

-- At most 19 fractional digits: the slice of 18 zeros panics beyond.
unfoldable pub to_string : Number → Bytes
unfolding to_string_kind magnitude_string
to_string n = to_string_kind n.kind n
