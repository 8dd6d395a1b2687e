-- ===== src/Values/Bounds.antt =====
-- The integers that `asRangeInt` gives.
use go_restconf.Number.{
  NumberKind, negative, positive, min_number, max_number, Number, IntError, int,
}
use go_restconf.Number.Text.{ParseError, parse_number}
use go_restconf.Ast.{Node}
use go_restconf.Values.{name_of, check_range, kind_range, parsed_range, as_range_int}
use go_restconf.Common.{ℤ, ◌≤ℤ◌, Result, ok, err, panic, Option, none, some, ◌≡◌, arith}

module _ (lo hi i : ℤ) (bounds : lo ≤ℤ hi) where
  check_range_lem : (r : Result IntError ℤ) → check_range lo hi r ≡ ok i → (lo ≤ℤ i) × (i ≤ℤ hi)
  check_range_lem (err e) h = absurd (cc)
  check_range_lem panic h = absurd (cc)
  check_range_lem (ok j) h = ground arith

  kind_range_lem :
      (k : NumberKind) (n : Number) → kind_range k n lo hi ≡ ok i → (lo ≤ℤ i) × (i ≤ℤ hi)
  unfolding kind_range
  kind_range_lem min_number n h = ground arith
  kind_range_lem max_number n h = ground arith
  kind_range_lem positive n h = check_range_lem (int n) h
  kind_range_lem negative n h = check_range_lem (int n) h

  parsed_range_lem :
      (r : Result ParseError Number) → parsed_range lo hi r ≡ ok i → (lo ≤ℤ i) × (i ≤ℤ hi)
  unfolding parsed_range
  parsed_range_lem (err e) h = absurd (cc)
  parsed_range_lem panic h = absurd (cc)
  parsed_range_lem (ok n) h = kind_range_lem n.kind n h

-- Where the bounds are in order, an integer that `asRangeInt` gives lies between them.
pub as_range_int_bounds :
    (v : Option Node) (lo hi i : ℤ) → lo ≤ℤ hi → as_range_int v lo hi ≡ ok i → (lo ≤ℤ i) × (i ≤ℤ hi)
unfolding as_range_int
as_range_int_bounds none lo hi i b h = absurd (cc)
as_range_int_bounds (some v) lo hi i b h = parsed_range_lem lo hi i b (parse_number (name_of v)) h
