-- ===== src/Tests/Numbers.antt =====
-- Numbers, ranges and enumerations of yang/types_builtin.go at concrete inputs.
use go_restconf.Number.{
  NumberKind, positive, negative, Number, less, less_magnitude, trunc, frac, pow10, add, add_kind,
}
use go_restconf.GoText.{split, trim_space}
use go_restconf.GoText.Digits.{format_uint, parse_uint}
use go_restconf.Number.Order.{IsNumber, less-before, before, denote}
use go_restconf.Number.Text.{parse_number, to_string}
use go_restconf.Number.Text.RoundTrip.{parse_number-to_string}
use go_restconf.Range.{YRange, YangRange, coalesce, contains, parse_ranges}
use go_restconf.Range.Rank.{IsInteger}
use go_restconf.Range.Coalesce.{in_ranges, within, IsPlain, AllApart, coalesce_lem}
use go_restconf.Range.Contains.{IsBounded, contains_sound}
use go_restconf.EnumType.{EnumError, new_enum_type, set, set_next, lookup_value, value}
use go_restconf.EnumType.Cases.{IsEnum, IsAllowed, assigned, new_enum_type-IsEnum, set-cases}
use go_restconf.EnumType.Invariant.{set-IsEnum, set_next_fresh}
use go_restconf.Common.{
  Bytes, codes, All, ℤ, pos, negsuc, ◌<ℤ◌, suc_ℤ, ok, ℕ, ◌-◌, ◌^◌, ◌≤◌, ◌<◌, ◌≡◌, refl, ◌⊎◌, true,
  none, some, [], ◌∷◌, arith,
}

abbrev decimal : NumberKind → ℕ → ℕ → Number
decimal k v fd = record { kind = k; value = v; fraction_digits = fd }

-- -0.05
abbrev small : Number
small = decimal negative 5 2

abbrev two_below : Number
two_below = decimal negative 2 0

small-IsNumber : IsNumber small
small-IsNumber = record {
  value_lt = omega arith;
  digits_le = omega arith;
  negative_pos = λ _. omega arith;
}

two_below-IsNumber : IsNumber two_below
two_below-IsNumber = record {
  value_lt = omega arith;
  digits_le = omega arith;
  negative_pos = λ _. omega arith;
}

less-before_example : less two_below small ≡ before (denote two_below) (denote small)
less-before_example = less-before two_below small two_below-IsNumber small-IsNumber

parse_number-to_string_example : parse_number (to_string small) ≡ ok small
parse_number-to_string_example = parse_number-to_string small (omega arith)

small_text : to_string small ≡ codes "-0.05"
unfolding to_string format_uint
small_text = refl

abbrev int_range : ℕ → ℕ → YRange
int_range a b = record { min = decimal positive a 0; max = decimal positive b 0 }

int-IsInteger : (a : ℕ) → a < 2 ^ 64 → IsInteger (decimal positive a 0)
int-IsInteger a h = record {
  is_number = record { value_lt = h; digits_le = omega arith; negative_pos = λ e. absurd (cc) };
  whole = refl;
}

int_range-IsPlain : (a b : ℕ) → a ≤ b → b < 2 ^ 64 - 1 → IsPlain (int_range a b)
int_range-IsPlain a b h k = record {
  min_integer = int-IsInteger a (omega arith);
  max_integer = int-IsInteger b (omega arith);
  not_empty = omega arith;
  room = k;
}

abbrev three_ranges : YangRange
three_ranges = int_range 1 5 ∷ int_range 6 10 ∷ int_range 20 30 ∷ []

three_ranges-IsPlain : All IsPlain three_ranges
three_ranges-IsPlain = (
  int_range-IsPlain 1 5 (omega arith) (omega arith),
  (
    int_range-IsPlain 6 10 (omega arith) (omega arith),
    (int_range-IsPlain 20 30 (omega arith) (omega arith), tt),
  ),
)

coalesce_lem_example :
    (out : YangRange) × (coalesce three_ranges ≡ ok out)
    × ((x : Number) → IsInteger x → in_ranges x out ≡ in_ranges x three_ranges)
    × AllApart out
    × All IsPlain out
coalesce_lem_example = coalesce_lem three_ranges three_ranges-IsPlain (omega arith)

joined : parse_ranges (codes "6..10|1..5") ≡ ok (int_range 1 10 ∷ [])
unfolding parse_ranges split parse_number trim_space parse_uint less less_magnitude trunc frac pow10
    add add_kind
joined = refl

int_range-IsBounded : (a b : ℕ) → a < 2 ^ 64 → b < 2 ^ 64 → IsBounded (int_range a b)
int_range-IsBounded a b h k = record {
  min_integer = int-IsInteger a h;
  max_integer = int-IsInteger b k;
  not_min = refl;
  not_max = refl;
}

abbrev eight : Number
eight = decimal positive 8 0

contains_sound_example : in_ranges eight (int_range 1 10 ∷ []) ≡ true
unfolding less less_magnitude trunc frac pow10 contains in_ranges within
contains_sound_example =
    contains_sound (int_range 1 10 ∷ []) (int_range 7 9 ∷ []) (λ e. cc)
      (
        record {
          min_integer = int-IsInteger 1 (omega arith);
          max_integer = int-IsInteger 10 (omega arith);
        },
        tt,
      )
      (int_range-IsBounded 7 9 (omega arith) (omega arith), tt) refl eight
      (int-IsInteger 8 (omega arith)) refl

abbrev red : Bytes
red = codes "red"

set-cases_example :
    ((err : EnumError) × (set new_enum_type red (pos 3) ≡ (new_enum_type, some err))
      × ¬ IsAllowed new_enum_type red (pos 3))
    ⊎ ((set new_enum_type red (pos 3) ≡ (assigned new_enum_type red (pos 3), none))
        × IsAllowed new_enum_type red (pos 3))
set-cases_example = set-cases new_enum_type red (pos 3)

set-IsEnum_example : IsEnum (set new_enum_type red (pos 3)).0
set-IsEnum_example = set-IsEnum new_enum_type red (pos 3) new_enum_type-IsEnum

set_next_fresh_example :
    (set_next new_enum_type red ≡ (assigned new_enum_type red (suc_ℤ (negsuc 0)), none))
    × (value (set_next new_enum_type red).0 red ≡ suc_ℤ (negsuc 0))
    × ((t : Bytes) (w : ℤ)
        → lookup_value t [] ≡ some w
        → (w <ℤ suc_ℤ (negsuc 0)) × (lookup_value t (set_next new_enum_type red).0.to_int ≡ some w))
unfolding new_enum_type lookup_value
set_next_fresh_example =
    set_next_fresh new_enum_type red new_enum_type-IsEnum refl (omega arith) (omega arith)
      (omega arith)
