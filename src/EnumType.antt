-- ===== src/EnumType.antt =====
-- The enumerations and bit fields of yang/types_builtin.go: `EnumType` with `Set` and `SetNext`. A
-- Go map is an association list, the most recent entry of a key first; its order is not observed.
pub mod Cases
pub mod Invariant
use go_restconf.Common.{
  bytes_eq, bytes_eq_iff, bytes_eq_refl, Bytes, codes, length, take, drop, replicate, get_elem?,
  length-append, take-length_append, drop-length_append, take-append-drop, length-take, length-drop,
  length-replicate, All, All-append, ltb, leb, ◌==◌, if◌then◌else◌, is_some, ltb→lt, lt→ltb, ltb→le,
  le→ltb, ==_iff, Bool-cases, Option-cases, ℤ, pos, negsuc, pos_part, neg_part, ◌≤ℤ◌, ◌<ℤ◌, ltb_ℤ,
  eqb_ℤ, suc_ℤ, eqb_ℤ→eq, eqb_ℤ_refl, suc_ℤ_parts, Result, ok, err, panic, ◌>>=◌, passed_on, ℕ,
  zero, suc, ◌+◌, ◌-◌, ◌*◌, ◌/◌, ◌%◌, ◌^◌, ◌≤◌, ◌<◌, ◌≡◌, refl, sym, ap, ◌∙◌, ◌≢◌, ◌↔◌, ◌⊎◌, inl,
  inr, Bool, true, false, not, ◌&&◌, ◌||◌, Option, none, some, List, [], ◌∷◌, ◌++◌, map,
  append_assoc, append-nil, arith,
}

pub record EnumType : Type 0 where
  pub last : ℤ
  pub min : ℤ
  pub max : ℤ
  pub unique : Bool
  pub to_string : List (ℤ × Bytes)
  pub to_int : List (Bytes × ℤ)

abbrev pub max_enum : ℤ
max_enum = pos (2 ^ 31 - 1)

abbrev pub min_enum : ℤ
min_enum = negsuc (2 ^ 31 - 1)

abbrev pub max_bitfield_size : ℕ
max_bitfield_size = 2 ^ 32

unfoldable pub new_enum_type : EnumType
new_enum_type = record {
  last = negsuc 0;
  min = min_enum;
  max = max_enum;
  unique = true;
  to_string = [];
  to_int = [];
}

unfoldable pub new_bitfield : EnumType
new_bitfield = record {
  last = negsuc 0;
  min = pos 0;
  max = pos (max_bitfield_size - 1);
  unique = false;
  to_string = [];
  to_int = [];
}

pub data EnumError : Type 0 where
  already_assigned conflict too_small too_large must_specify_value : EnumError

unfoldable pub lookup_name : ℤ → List (ℤ × Bytes) → Option Bytes
lookup_name v [] = none
lookup_name v ((w, name) ∷ m) = if eqb_ℤ w v then some name else lookup_name v m

unfoldable pub lookup_value : Bytes → List (Bytes × ℤ) → Option ℤ
lookup_value name [] = none
lookup_value name ((other, v) ∷ m) = if bytes_eq other name then some v else lookup_value name m

-- The new state and the error, if there is one.
unfoldable pub set : EnumType → Bytes → ℤ → EnumType × Option EnumError
set e name value =
    if is_some (lookup_value name e.to_int)
    then (e, some already_assigned)
    else if e.unique && is_some (lookup_name value e.to_string)
    then (e, some conflict)
    else if ltb_ℤ value e.min
    then (e, some too_small)
    else if ltb_ℤ e.max value
    then (e, some too_large)
    else (
      record e {
        to_string = (value, name) ∷ e.to_string;
        to_int = (name, value) ∷ e.to_int;
        last = if ltb_ℤ value e.last then e.last else value;
      },
      none,
    )

unfoldable pub set_next : EnumType → Bytes → EnumType × Option EnumError
set_next e name =
    if eqb_ℤ e.last max_enum then (e, some must_specify_value) else set e name (suc_ℤ e.last)

-- The zero value of a missing key is the empty string, or 0.
unfoldable pub name : EnumType → ℤ → Bytes
name e value = elim (lookup_name value e.to_string) [ none ↦ [] | some s ↦ s ]

unfoldable pub value : EnumType → Bytes → ℤ
value e s = elim (lookup_value s e.to_int) [ none ↦ pos 0 | some v ↦ v ]

unfoldable pub is_defined : EnumType → Bytes → Bool
is_defined e s = is_some (lookup_value s e.to_int)
