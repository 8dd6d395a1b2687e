-- ===== src/GoText/Digits.antt =====
-- `strconv.FormatUint(n, 10)`, `strconv.ParseUint(s, 0, 64)` and `strconv.ParseInt(s, 10, 64)`.
pub mod Laws
pub mod Reading
use go_restconf.Common.{
  bytes_eq, bytes_eq_iff, bytes_eq_refl, Bytes, codes, length, take, drop, replicate, get_elem?,
  length-append, take-length_append, drop-length_append, take-append-drop, length-take, length-drop,
  length-replicate, All, All-append, ltb, leb, ◌==◌, if◌then◌else◌, ltb→lt, lt→ltb, ltb→le, le→ltb,
  ==_iff, Bool-cases, Option-cases, ℤ, pos, negsuc, pos_part, neg_part, ◌≤ℤ◌, ◌<ℤ◌, ltb_ℤ, eqb_ℤ,
  suc_ℤ, eqb_ℤ→eq, eqb_ℤ_refl, suc_ℤ_parts, Result, ok, err, panic, ◌>>=◌, passed_on, ℕ, zero, suc,
  ◌+◌, ◌-◌, ◌*◌, ◌/◌, ◌%◌, ◌^◌, ◌≤◌, ◌<◌, ◌≡◌, refl, sym, ap, ◌∙◌, ◌≢◌, ◌↔◌, ◌⊎◌, inl, inr, Bool,
  true, false, not, ◌&&◌, ◌||◌, Option, none, some, List, [], ◌∷◌, ◌++◌, map, append_assoc,
  append-nil, arith,
}

abbrev pub u64_mod : ℕ
u64_mod = 2 ^ 64

abbrev pub i64_lim : ℕ
i64_lim = 2 ^ 63

-- One digit a round, the last digit first; `n` rounds are enough.
unfoldable pub digits_onto : ℕ → ℕ → Bytes → Bytes
digits_onto zero n out = out
digits_onto (suc f) n out = elim (ltb n 10) [
  | true ↦ (b'0' + n) ∷ out
  | false ↦ digits_onto f (n / 10) ((b'0' + n % 10) ∷ out)
]

unfoldable pub format_uint : ℕ → Bytes
unfolding digits_onto
format_uint n = digits_onto (suc n) n []

-- The value of a digit in a base up to 36.
unfoldable pub digit_value : ℕ → Option ℕ
digit_value c =
    if leb b'0' c && leb c b'9'
    then some (c - b'0')
    else if leb b'a' c && leb c b'z'
    then some (c - b'a' + 10)
    else if leb b'A' c && leb c b'Z'
    then some (c - b'A' + 10)
    else none

-- The number that a digit makes of `n`, if the digit is of the base and the number fits 64 bits.
unfoldable pub push_digit : ℕ → ℕ → Option ℕ → Option ℕ
push_digit base n none = none
push_digit base n (some d) =
    if leb base d then none else if ltb (n * base + d) u64_mod then some (n * base + d) else none

-- The flag allows `_` between digits.
unfoldable pub parse_digits : Bool → ℕ → Bytes → ℕ → Option ℕ
parse_digits under base [] n = some n
parse_digits under base (c ∷ s) n = elim (under && c == b'_') [
  | true ↦ parse_digits under base s n
  | false ↦ elim (push_digit base n (digit_value c)) [
    | none ↦ none
    | some m ↦ parse_digits under base s m
  ]
]

-- Every `_` stands between two digits; the flags say what the byte before was.
unfoldable pub underscores_ok : Bool → Bool → Bytes → Bool
underscores_ok digit sep [] = not sep
underscores_ok digit sep (c ∷ s) = elim (c == b'_') [
  | true ↦ elim digit [ true ↦ underscores_ok false true s | false ↦ false ]
  | false ↦ underscores_ok true false s
]

-- `strconv`'s `lower(c) == x` for a lower-case letter `x`.
unfoldable pub is_letter : ℕ → ℕ → Bool
is_letter x c = c == x || c + 32 == x

-- Digits of a base under the checks of base 0; the flag says whether a base prefix stood before.
unfoldable pub parse_body : Bool → ℕ → Bytes → Option ℕ
unfolding parse_digits underscores_ok digit_value push_digit
parse_body prefixed base s = elim (parse_digits true base s 0) [
  | none ↦ none
  | some n ↦ if underscores_ok prefixed false s then some n else none
]

-- Behind a leading 0: a base letter with a digit behind it, or an octal number.
unfoldable pub parse_prefixed : Bytes → Option ℕ
unfolding parse_body is_letter
parse_prefixed [] = some 0
parse_prefixed (x ∷ []) = parse_body true 8 (x ∷ [])
parse_prefixed (x ∷ y ∷ s) =
    if is_letter b'b' x
    then parse_body true 2 (y ∷ s)
    else if is_letter b'o' x
    then parse_body true 8 (y ∷ s)
    else if is_letter b'x' x
    then parse_body true 16 (y ∷ s)
    else parse_body true 8 (x ∷ y ∷ s)

-- `strconv.ParseUint(s, 0, 64)`; `none` is an error.
unfoldable pub parse_uint : Bytes → Option ℕ
unfolding parse_prefixed parse_body
parse_uint [] = none
parse_uint (c ∷ s) = if c == b'0' then parse_prefixed s else parse_body false 10 (c ∷ s)

-- The bound on the magnitude depends on the sign.
unfoldable pub signed : Bool → Option ℕ → Option ℤ
signed neg none = none
signed false (some n) = if ltb n i64_lim then some (pos n) else none
signed true (some zero) = some (pos 0)
signed true (some (suc n)) = if ltb n i64_lim then some (negsuc n) else none

-- Digits of base 10 with no underscore; no digit is an error.
unfoldable pub parse_decimal : Bytes → Option ℕ
unfolding parse_digits digit_value push_digit
parse_decimal [] = none
parse_decimal (c ∷ s) = parse_digits false 10 (c ∷ s) 0

-- `strconv.ParseInt(s, 10, 64)`.
unfoldable pub parse_int : Bytes → Option ℤ
unfolding parse_decimal signed
parse_int [] = none
parse_int (c ∷ s) =
    if c == b'+'
    then signed false (parse_decimal s)
    else if c == b'-'
    then signed true (parse_decimal s)
    else signed false (parse_decimal (c ∷ s))
