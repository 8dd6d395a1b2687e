-- ===== src/Number.antt =====
-- The numbers of yang/types_builtin.go: `Number` with its constructors, its arithmetic and its
-- order. A `uint64` is a natural number with `% 2 ^ 64` where the code can wrap around. `pow10`
-- wraps to 0 at 64 fractional digits, where Go's division panics: numbers here have fewer.
pub mod Pow10
pub mod Text
pub mod Order
use go_restconf.GoText.Digits.{u64_mod}
use go_restconf.Common.{
  ltb, leb, ◌==◌, if◌then◌else◌, ℤ, pos, negsuc, Result, ok, err, ℕ, zero, suc, ◌+◌, ◌-◌, ◌*◌, ◌/◌,
  ◌%◌, ◌^◌, Bool, true, false, not, ◌&&◌, Option, none, some,
}

pub data NumberKind : Type 0 where
  positive negative min_number max_number : NumberKind

pub record Number : Type 0 where
  pub kind : NumberKind
  pub value : ℕ
  pub fraction_digits : ℕ

abbrev pub max_int64 : ℕ
max_int64 = 2 ^ 63 - 1

abbrev pub abs_min_int64 : ℕ
abs_min_int64 = 2 ^ 63

abbrev pub max_fraction_digits : ℕ
max_fraction_digits = 18

abbrev pub max_number_value : Number
max_number_value = record { kind = max_number; value = 0; fraction_digits = 0 }

abbrev pub min_number_value : Number
min_number_value = record { kind = min_number; value = 0; fraction_digits = 0 }

-- The tests `k == Negative`, `k == MinNumber` and `k == MaxNumber`.
abbrev pub is_negative : NumberKind → Bool
is_negative negative = true
is_negative _ = false

abbrev pub is_min : NumberKind → Bool
is_min min_number = true
is_min _ = false

abbrev pub is_max : NumberKind → Bool
is_max max_number = true
is_max _ = false

unfoldable pub is_decimal : Number → Bool
is_decimal n = not (n.fraction_digits == 0)

-- The negation of the least `int64` is itself, and its bits are those of 2 ^ 63.
unfoldable pub from_int : ℤ → Number
from_int (pos n) = record { kind = positive; value = n; fraction_digits = 0 }
from_int (negsuc n) = record { kind = negative; value = (n + 1) % u64_mod; fraction_digits = 0 }

unfoldable pub from_uint : ℕ → Number
from_uint n = record { kind = positive; value = n; fraction_digits = 0 }

-- `for i := 0; i < e; i++ { out *= 10 }`, on the rounds left.
pow10_loop : ℕ → ℕ → ℕ
pow10_loop zero out = out
pow10_loop (suc e) out = pow10_loop e (out * 10 % u64_mod)

unfoldable pub pow10 : ℕ → ℕ
unfolding pow10_loop
pow10 e = pow10_loop e 1

unfoldable pub trunc : Number → ℕ
trunc n = n.value / pow10 n.fraction_digits

-- Products and the difference are those of `uint64`, `18-frac` is that of `uint8`.
unfoldable pub frac : Number → ℕ
frac n =
    let i = trunc n * pow10 n.fraction_digits % u64_mod in
    (n.value + u64_mod - i) % u64_mod * pow10 ((18 + 256 - n.fraction_digits) % 256) % u64_mod

-- The last part of `Less`, which compares integers with decimals too, for two numbers of the same sign.
unfoldable pub less_magnitude : Bool → ℕ → ℕ → ℕ → ℕ → Bool
less_magnitude neg nt mt nf mf =
    if nt == mt && nf == mf
    then false
    else let lt = if nt == mt then ltb nf mf else ltb nt mt in if neg then not lt else lt

unfoldable pub less : Number → Number → Bool
less n m =
    if is_min m.kind
    then false
    else if is_min n.kind
    then true
    else if is_max n.kind
    then false
    else if is_max m.kind
    then true
    else if is_negative n.kind && not (is_negative m.kind)
    then true
    else if not (is_negative n.kind) && is_negative m.kind
    then false
    else less_magnitude (is_negative n.kind) (trunc n) (trunc m) (frac n) (frac m)

unfoldable pub equal : Number → Number → Bool
equal n m = not (less n m) && not (less m n)

-- The switch of `add` on the kind of `n`.
unfoldable pub add_kind : NumberKind → Number → ℕ → Number
add_kind min_number n i = n
add_kind max_number n i = n
add_kind negative n i =
    if leb n.value i
    then record n { value = i - n.value; kind = positive }
    else record n { value = n.value - i }
add_kind positive n i = record n { value = (n.value + i) % u64_mod }

-- `none` is the panic on a decimal number.
unfoldable pub add : Number → ℕ → Option Number
unfolding is_decimal
add n i = if is_decimal n then none else some (add_kind n.kind n i)

pub data IntError : Type 0 where
  signed_integer_overflow unknown_number_type : IntError

-- The switch of `Int` on the kind of `n`; `nv` is the whole part.
int_kind : NumberKind → Number → ℕ → Result IntError ℤ
int_kind min_number n nv = ok (negsuc max_int64)
int_kind max_number n nv = ok (pos max_int64)
int_kind negative n nv =
    if nv == abs_min_int64
    then ok (negsuc max_int64)
    else if ltb nv abs_min_int64
    then ok (if nv == 0 then pos 0 else negsuc (nv - 1))
    else err unknown_number_type
int_kind positive n nv = if leb n.value max_int64 then ok (pos nv) else err signed_integer_overflow

-- `math.Pow10` is exact for the fractional digits that a number has.
unfoldable pub int : Number → Result IntError ℤ
unfolding int_kind is_decimal
int n = int_kind n.kind n (if is_decimal n then n.value / 10 ^ n.fraction_digits else n.value)
