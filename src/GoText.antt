-- ===== src/GoText.antt =====
-- Functions of Go's standard library that the modelled code calls on strings: `strings.Split`,
-- `strings.TrimSpace`, `strings.Index` of one byte, and `strconv`'s `FormatUint`, `ParseUint` and
-- `ParseInt`. A string is its bytes; the texts are ASCII, so white space is ASCII white space.
pub mod Digits
pub mod Laws
pub mod Splits
use go_restconf.Common.{
  bytes_eq, bytes_eq_iff, bytes_eq_refl, Bytes, codes, length, take, drop, replicate, get_elem?,
  length-append, take-length_append, drop-length_append, take-append-drop, length-take, length-drop,
  length-replicate, All, All-append, ltb, leb, ◌==◌, if◌then◌else◌, ltb→lt, lt→ltb, ltb→le, le→ltb,
  ==_iff, Bool-cases, Option-cases, ℤ, pos, negsuc, pos_part, neg_part, ◌≤ℤ◌, ◌<ℤ◌, ltb_ℤ, eqb_ℤ,
  suc_ℤ, eqb_ℤ→eq, eqb_ℤ_refl, suc_ℤ_parts, Result, ok, err, panic, ◌>>=◌, passed_on, ℕ, zero, suc,
  ◌+◌, ◌-◌, ◌*◌, ◌/◌, ◌%◌, ◌^◌, ◌≤◌, ◌<◌, ◌≡◌, refl, sym, ap, ◌∙◌, ◌≢◌, ◌↔◌, ◌⊎◌, inl, inr, Bool,
  true, false, not, ◌&&◌, ◌||◌, Option, none, some, List, [], ◌∷◌, ◌++◌, map, append_assoc,
  append-nil, arith,
}

-- `strings.Index(s, c)` for a one-byte `c`; `none` is -1.
unfoldable pub index_byte : ℕ → Bytes → Option ℕ
index_byte c [] = none
index_byte c (x ∷ s) =
    if x == c then some 0 else elim (index_byte c s) [ none ↦ none | some i ↦ some (suc i) ]

unfoldable pub is_prefix : Bytes → Bytes → Bool
is_prefix [] s = true
is_prefix (c ∷ p) [] = false
is_prefix (c ∷ p) (x ∷ s) = c == x && is_prefix p s

-- `skip` bytes of a separator are still to be passed over, `cur` is the part so far.
unfoldable pub split_from : Bytes → ℕ → Bytes → Bytes → List Bytes
split_from sep skip cur [] = cur ∷ []
split_from sep (suc skip) cur (c ∷ s) = split_from sep skip cur s
split_from sep zero cur (c ∷ s) = elim (is_prefix sep (c ∷ s)) [
  | true ↦ cur ∷ split_from sep (length sep - 1) [] s
  | false ↦ split_from sep 0 (cur ++ c ∷ []) s
]

-- `strings.Split(s, sep)` for a separator that is not empty.
unfoldable pub split : Bytes → Bytes → List Bytes
unfolding split_from is_prefix
split s sep = split_from sep 0 [] s

unfoldable pub cons_first : ℕ → List Bytes → List Bytes
cons_first x [] = (x ∷ []) ∷ []
cons_first x (p ∷ ps) = (x ∷ p) ∷ ps

-- `strings.SplitN(s, sep, cuts + 1)` for a one-byte `sep`.
unfoldable pub split_cuts : ℕ → ℕ → Bytes → List Bytes
unfolding cons_first
split_cuts zero c s = s ∷ []
split_cuts (suc k) c [] = [] ∷ []
split_cuts (suc k) c (x ∷ s) = elim (x == c) [
  | true ↦ [] ∷ split_cuts k c s
  | false ↦ cons_first x (split_cuts (suc k) c s)
]

-- `strings.Join(parts, sep)`.
unfoldable pub join : List Bytes → Bytes → Bytes
join [] sep = []
join (p ∷ []) sep = p
join (p ∷ q ∷ ps) sep = p ++ (sep ++ join (q ∷ ps) sep)

unfoldable pub is_space : ℕ → Bool
is_space c = c == 32 || (leb 9 c && leb c 13)

unfoldable pub trim_left : Bytes → Bytes
trim_left [] = []
trim_left (c ∷ s) = elim (is_space c) [ true ↦ trim_left s | false ↦ c ∷ s ]

unfoldable pub trim_right : Bytes → Bytes
trim_right [] = []
trim_right (c ∷ s) = elim (trim_right s) [
  | [] ↦ if is_space c then [] else c ∷ []
  | x ∷ r ↦ c ∷ x ∷ r
]

-- `strings.TrimSpace(s)`.
unfoldable pub trim_space : Bytes → Bytes
unfolding trim_left trim_right is_space
trim_space s = trim_right (trim_left s)
