-- ===== src/Range.antt =====
-- The ranges of yang/types_builtin.go: `YRange`, `YangRange` and their parsing, sorting,
-- validation, coalescing and inclusion. The channel of `Contains` is the list of the ranges that
-- it has not yet sent.
pub mod Rank
pub mod Coalesce
pub mod Contains
use mathlib.Core.List.{reverse}
use go_restconf.GoText.{split, join}
use go_restconf.Number.{NumberKind, Number, is_min, is_max, less, equal, add}
use go_restconf.Number.Text.{ParseError, parse_number, to_string}
use go_restconf.Common.{
  bytes_eq, bytes_eq_iff, bytes_eq_refl, Bytes, codes, length, take, drop, replicate, get_elem?,
  length-append, take-length_append, drop-length_append, take-append-drop, length-take, length-drop,
  length-replicate, All, All-append, ltb, leb, ◌==◌, if◌then◌else◌, ltb→lt, lt→ltb, ltb→le, le→ltb,
  ==_iff, Bool-cases, Option-cases, ℤ, pos, negsuc, pos_part, neg_part, ◌≤ℤ◌, ◌<ℤ◌, ltb_ℤ, eqb_ℤ,
  suc_ℤ, eqb_ℤ→eq, eqb_ℤ_refl, suc_ℤ_parts, Result, ok, err, panic, ◌>>=◌, passed_on, ℕ, zero, suc,
  ◌+◌, ◌-◌, ◌*◌, ◌/◌, ◌%◌, ◌^◌, ◌≤◌, ◌<◌, ◌≡◌, refl, sym, ap, ◌∙◌, ◌≢◌, ◌↔◌, ◌⊎◌, inl, inr, Bool,
  true, false, not, ◌&&◌, ◌||◌, Option, none, some, List, [], ◌∷◌, ◌++◌, map, append_assoc,
  append-nil, arith,
}

pub record YRange : Type 0 where
  pub min : Number
  pub max : Number

abbrev pub YangRange : Type 0
YangRange = List YRange

pub data RangeError : Type 0 where
  number_error : ParseError → RangeError
  too_many_dots max_less_than_min invalid_number overlapping_ranges : RangeError

unfoldable pub valid : YRange → Bool
valid r = not (less r.max r.min)

-- `ParseNumber` with its error passed on.
abbrev number_of : Bytes → Result RangeError Number
number_of s = elim (parse_number s) [ ok n ↦ ok n | err e ↦ err (number_error e) | panic ↦ panic ]

abbrev ordered : Number → Number → Result RangeError YRange
ordered min max =
    if less max min then err max_less_than_min else ok (record { min = min; max = max })

-- One round of the loop of `ParseRanges`, on the parts between the `..`s.
unfoldable pub parse_range : List Bytes → Result RangeError YRange
parse_range [] = panic
parse_range (p ∷ []) = do min ← number_of p; ordered min min
parse_range (p ∷ q ∷ []) = do min ← number_of p; max ← number_of q; ordered min max
parse_range (p ∷ q ∷ r ∷ ps) = do min ← number_of p; err too_many_dots

unfoldable pub parse_each : List Bytes → Result RangeError YangRange
unfolding parse_range
parse_each [] = ok []
parse_each (s ∷ ss) = do r ← parse_range (split s (codes "..")); rs ← parse_each ss; ok (r ∷ rs)

-- `Less(i, j)` of the sort.
unfoldable pub range_less : YRange → YRange → Bool
range_less r q =
    if less r.min q.min then true else if less q.min r.min then false else less r.max q.max

-- The ranges before the next one stand last first: it moves down past those that it is less than.
unfoldable pub sift : YRange → YangRange → YangRange
sift r [] = r ∷ []
sift r (q ∷ qs) = if range_less r q then q ∷ sift r qs else r ∷ q ∷ qs

unfoldable pub sort_onto : YangRange → YangRange → YangRange
sort_onto done [] = done
sort_onto done (r ∷ rs) = sort_onto (sift r done) rs

-- `sort.Sort(r)` as an insertion sort, which Go uses for short lists. For longer ones it may put
-- ranges that compare equal in another order.
unfoldable pub sort_ranges : YangRange → YangRange
unfolding sort_onto sift range_less
sort_ranges r = reverse (sort_onto [] r)

-- The loop over `r[1:]`; `p` stays the first range.
unfoldable pub any_overlap : YRange → YangRange → Bool
any_overlap p [] = false
any_overlap p (n ∷ r) = less n.min p.max || any_overlap p r

unfoldable pub validate_sorted : YangRange → Result RangeError YangRange
unfolding valid any_overlap
validate_sorted [] = ok []
validate_sorted (p ∷ r) =
    if not (valid p)
    then err invalid_number
    else if any_overlap p r
    then err overlapping_ranges
    else ok (p ∷ r)

-- The result of success is the slice as the sort leaves it.
unfoldable pub validate : YangRange → Result RangeError YangRange
unfolding validate_sorted sort_ranges
validate r = validate_sorted (sort_ranges r)

-- The loop of `coalesce`; `cur` is `cr[i]`, and the result is `cr[i:]` at its end.
unfoldable pub coalesce_loop : YRange → YangRange → Result RangeError YangRange
coalesce_loop cur [] = ok (cur ∷ [])
coalesce_loop cur (r1 ∷ rs) = elim (add cur.max 1) [
  | none ↦ panic
  | some next ↦ elim (less next r1.min) [
    | true ↦ do out ← coalesce_loop r1 rs; ok (cur ∷ out)
    | false ↦ elim (less cur.max r1.max) [
      | true ↦ coalesce_loop (record cur { max = r1.max }) rs
      | false ↦ coalesce_loop cur rs
    ]
  ]
]

unfoldable pub coalesce : YangRange → Result RangeError YangRange
unfolding coalesce_loop
coalesce [] = ok []
coalesce (r ∷ []) = ok (r ∷ [])
coalesce (r ∷ q ∷ rs) = coalesce_loop r (q ∷ rs)

unfoldable pub parse_ranges : Bytes → Result RangeError YangRange
unfolding parse_each validate coalesce
parse_ranges s = do r ← parse_each (split s (codes "|")); sorted ← validate r; coalesce sorted

unfoldable pub range_string : YRange → Bytes
range_string r =
    if equal r.min r.max
    then to_string r.min
    else to_string r.min ++ (codes ".." ++ to_string r.max)

unfoldable pub ranges_string : YangRange → Bytes
unfolding range_string
ranges_string r = join (map range_string r) (codes "|")

-- The test `==` of Go on the structures.
unfoldable pub kind_eq : NumberKind → NumberKind → Bool
kind_eq NumberKind.positive NumberKind.positive = true
kind_eq NumberKind.negative NumberKind.negative = true
kind_eq NumberKind.min_number NumberKind.min_number = true
kind_eq NumberKind.max_number NumberKind.max_number = true
kind_eq _ _ = false

unfoldable pub number_eq : Number → Number → Bool
unfolding kind_eq
number_eq n m =
    kind_eq n.kind m.kind && n.value == m.value && n.fraction_digits == m.fraction_digits

unfoldable pub ranges_equal : YangRange → YangRange → Bool
unfolding number_eq
ranges_equal [] [] = true
ranges_equal (r ∷ rs) (q ∷ qs) =
    (number_eq r.min q.min && number_eq r.max q.max) && ranges_equal rs qs
ranges_equal _ _ = false

-- `for rr.Max.Less(ss.Min) { rr, ok = <-rc }`; `none` is the end of the channel.
unfoldable pub advance : Number → YRange → YangRange → Option (YRange × YangRange)
advance low rr [] = if less rr.max low then none else some (rr, [])
advance low rr (r ∷ rc) = elim (less rr.max low) [
  | true ↦ advance low r rc
  | false ↦ some (rr, r ∷ rc)
]

abbrev pub next_range : YRange → YRange → YangRange → Option (YRange × YangRange)
next_range ss rr rc = if is_min ss.min.kind then some (rr, rc) else advance ss.min rr rc

-- The loop over `s`: `rr` is the range at hand, `rc` what the channel still holds.
unfoldable pub contains_loop : YangRange → YRange → YangRange → Bool
unfolding advance
contains_loop [] rr rc = true
contains_loop (ss ∷ s) rr rc = elim (next_range ss rr rc) [
  | none ↦ false
  | some (r, rest) ↦
      let more = contains_loop s r rest in
      if is_max ss.max.kind || is_min ss.min.kind
      then more
      else if less ss.min r.min || less r.max ss.max
      then false
      else more
]

unfoldable pub contains : YangRange → YangRange → Bool
unfolding contains_loop
contains [] s = true
contains (rr ∷ rc) [] = true
contains (rr ∷ rc) (ss ∷ s) = contains_loop (ss ∷ s) rr rc
