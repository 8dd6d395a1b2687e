-- ===== src/Number/Text/Numerals.antt =====
-- The digits of a number, its point and its sign, and what the parser does with them.
use go_restconf.GoText.{is_space}
use go_restconf.GoText.Laws.{Lacks, trim_space_lem, index_byte-append}
use go_restconf.GoText.Digits.{parse_uint, parse_int}
use go_restconf.GoText.Digits.Laws.{IsDigit}
use go_restconf.GoText.Digits.Reading.{parse_uint_point}
use go_restconf.Number.{positive, negative, Number}
use go_restconf.Number.Text.{
  ParseError, cut_point, decimal_of, decimal_value_from_string, from_value, parse_trimmed,
  parse_number, insert_point,
}
use go_restconf.Common.{
  Bytes, length, take, drop, replicate, length-append, take-length_append, take-append-drop,
  length-drop, length-replicate, All, leb, le→ltb, Bool-cases, ℤ, negsuc, Result, ok, ℕ, suc, ◌+◌,
  ◌-◌, ◌%◌, ◌≤◌, ◌<◌, ◌≡◌, refl, ap, inl, inr, false, none, some, [], ◌∷◌, ◌++◌, append-nil, arith,
}

-- A byte of a printed number: no white space, and no letter.
abbrev pub IsNumeral : ℕ → Type 0
IsNumeral c = (b'-' ≤ c) × (c ≤ b'9')

IsNumeral-not_space : (s : Bytes) → All IsNumeral s → All (λ c. is_space c ≡ false) s
unfolding is_space
IsNumeral-not_space [] h = tt
IsNumeral-not_space (c ∷ s) (h, hs) = (ground arith, IsNumeral-not_space s hs)

pub IsDigit-IsNumeral : (s : Bytes) → All IsDigit s → All IsNumeral s
IsDigit-IsNumeral [] h = tt
IsDigit-IsNumeral (c ∷ s) (h, hs) = (omega arith, IsDigit-IsNumeral s hs)

pub IsDigit-Lacks : (s : Bytes) → All IsDigit s → Lacks b'.' s
IsDigit-Lacks [] h = tt
IsDigit-Lacks (c ∷ s) (h, hs) = (omega arith, IsDigit-Lacks s hs)

-- What `ParseNumber` does with a text that starts with a digit.
parse_trimmed_digit :
    (c : ℕ) (t : Bytes) {r : Result ParseError Number}
    → (b'.' ≤ c) × (c ≤ b'9')
    → (parse_uint (c ∷ t) ≡ none)
    → decimal_value_from_string (c ∷ t) (negsuc 0) ≡ r
    → parse_trimmed (c ∷ t) ≡ r
unfolding parse_trimmed
parse_trimmed_digit c t h e d = ground arith

pub parse_trimmed_integer :
    (c : ℕ) (t : Bytes) (v : ℕ)
    → IsDigit c
    → (parse_uint (c ∷ t) ≡ some v)
    → parse_trimmed (c ∷ t) ≡ ok (record { kind = positive; value = v; fraction_digits = 0 })
unfolding parse_trimmed
parse_trimmed_integer c t v h e = ground arith

parse_trimmed_minus :
    (c : ℕ) (t : Bytes) {r : Result ParseError Number}
    → (parse_uint (c ∷ t) ≡ none)
    → decimal_value_from_string (b'-' ∷ c ∷ t) (negsuc 0) ≡ r
    → parse_trimmed (b'-' ∷ c ∷ t) ≡ r
unfolding parse_trimmed
parse_trimmed_minus c t e d = ground arith

pub parse_trimmed_minus_integer :
    (c : ℕ) (t : Bytes) (v : ℕ)
    → (parse_uint (c ∷ t) ≡ some v)
    → parse_trimmed (b'-' ∷ c ∷ t) ≡ ok (record { kind = negative; value = v; fraction_digits = 0 })
unfolding parse_trimmed
parse_trimmed_minus_integer c t v e = ground arith

suc_add : (n : ℕ) → suc n + 1 ≡ suc (n + 1)
suc_add n = omega arith

drop_point : (s t : Bytes) → drop (length s + 1) (s ++ b'.' ∷ t) ≡ t
drop_point [] t = refl
drop_point (c ∷ s) t = rw (suc_add (length s)) (drop_point s t)

pub cut_point_lem : (s t : Bytes) → Lacks b'.' s → cut_point (s ++ b'.' ∷ t) ≡ (length t, s ++ t)
unfolding cut_point
cut_point_lem s t h =
    let behind : length (s ++ b'.' ∷ t) - 1 - length s ≡ length t =
      omega (arith, length-append s (b'.' ∷ t)) in
    rw (index_byte-append b'.' s t h, cut_point)
      (rw (behind, take-length_append s (b'.' ∷ t), drop_point s t) refl)

-- The digits that stand around the point, and how many stand behind it.
pub record Pointed (fd : ℕ) (out text : Bytes) : Type 0 where
  pub zeros : ℕ
  pub before : Bytes
  pub behind : Bytes
  pub text_is : text ≡ before ++ b'.' ∷ behind
  pub digits_are : before ++ behind ≡ replicate zeros b'0' ++ out
  pub behind_long : length behind ≡ fd

pub insert_point-Pointed : (fd : ℕ) (out : Bytes) → 0 < fd → Pointed fd out (insert_point fd out)
unfolding insert_point
insert_point-Pointed fd out h = elim (Bool-cases (leb (length out) fd)) [
  | inl short ↦
      let all = replicate (fd + 1 - length out) b'0' ++ out in
      let long : length all ≡ fd + 1 =
        (let le : length out ≤ fd = ground arith in
          omega (
            arith,
            length-append (replicate (fd + 1 - length out) b'0') out,
            length-replicate {A = ℕ} (fd + 1 - length out) b'0',
          )) in
      rw short (record {
        zeros = fd + 1 - length out;
        before = take 1 all;
        behind = drop 1 all;
        text_is = refl;
        digits_are = take-append-drop 1 all;
        behind_long = omega (arith, length-drop 1 all);
      })
  | inr enough ↦ rw enough (record {
    zeros = 0;
    before = take (length out - fd) out;
    behind = drop (length out - fd) out;
    text_is = refl;
    digits_are = take-append-drop (length out - fd) out;
    behind_long =
        (let le : fd < length out = ground arith in
          omega (arith, length-drop (length out - fd) out));
  })
]

pub decimal_of_lem :
    (fd : ℕ) (s : Bytes) (i : ℤ)
    → fd ≤ 18
    → parse_int s ≡ some i
    → decimal_of fd fd s ≡ ok (from_value i fd)
unfolding decimal_of
decimal_of_lem fd s i h e =
    let none_left : fd - fd ≡ 0 = omega arith in
    let byte : fd % 256 ≡ fd = omega arith in
    rw (none_left, append-nil s, e, le→ltb fd fd (omega arith))
      (ap (λ (d : ℕ). ok (from_value i d)) byte)

pub All-take : (s t : Bytes) → All IsDigit (s ++ t) → All IsDigit s
All-take [] t h = tt
All-take (c ∷ s) t (h, hs) = (h, All-take s t hs)

pub All-drop : (s t : Bytes) → All IsDigit (s ++ t) → All IsDigit t
All-drop [] t h = h
All-drop (c ∷ s) t (h, hs) = All-drop s t hs

pub decimal_value_lem :
    (s d : Bytes) (fd : ℕ)
    → cut_point s ≡ (fd, d)
    → decimal_value_from_string s (negsuc 0) ≡ decimal_of fd fd d
unfolding decimal_value_from_string
decimal_value_lem s d fd e = rw e

pub parse_number_lem : (s : Bytes) → All IsNumeral s → parse_number s ≡ parse_trimmed s
unfolding parse_number
parse_number_lem s h = ap parse_trimmed (trim_space_lem s (IsNumeral-not_space s h))

pub trimmed_decimal :
    (s t : Bytes) {r : Result ParseError Number}
    → All IsDigit s
    → decimal_value_from_string (s ++ b'.' ∷ t) (negsuc 0) ≡ r
    → parse_trimmed (s ++ b'.' ∷ t) ≡ r
trimmed_decimal [] t h d = parse_trimmed_digit b'.' t (omega arith) (parse_uint_point [] t) d
trimmed_decimal (c ∷ s) t (h, _) d =
    parse_trimmed_digit c (s ++ b'.' ∷ t) (omega arith) (parse_uint_point (c ∷ s) t) d

pub trimmed_minus :
    (s t : Bytes) {r : Result ParseError Number}
    → decimal_value_from_string (b'-' ∷ (s ++ b'.' ∷ t)) (negsuc 0) ≡ r
    → parse_trimmed (b'-' ∷ (s ++ b'.' ∷ t)) ≡ r
trimmed_minus [] t d = parse_trimmed_minus b'.' t (parse_uint_point [] t) d
trimmed_minus (c ∷ s) t d = parse_trimmed_minus c (s ++ b'.' ∷ t) (parse_uint_point (c ∷ s) t) d
