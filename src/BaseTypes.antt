-- ===== src/BaseTypes.antt =====
-- The types of yang/types_builtin.go: `TypeKind` with its names, `YangType` with `Equal`, and the types
-- that are built in. Of a YangType the fields that types.go alone reads and sets, `Base` and `Root`, are
-- left out; a pointer to an identity is its address.
pub mod Equal
pub mod Table
pub mod Names
use go_restconf.GoMap.{get}
use go_restconf.EnumType.{EnumType}
use go_restconf.Range.{YRange, YangRange, parse_ranges, ranges_equal, RangeError}
use go_restconf.Common.{
  bytes_eq, bytes_eq_iff, bytes_eq_refl, Bytes, codes, length, take, drop, replicate, get_elem?,
  length-append, take-length_append, drop-length_append, take-append-drop, length-take, length-drop,
  length-replicate, is_seen, All, Any, All-append, ltb, leb, ◌==◌, if◌then◌else◌, is_some, ltb→lt,
  lt→ltb, ltb→le, le→ltb, ==_iff, Bool-cases, Option-cases, ℤ, pos, negsuc, pos_part, neg_part,
  ◌≤ℤ◌, ◌<ℤ◌, ltb_ℤ, eqb_ℤ, suc_ℤ, eqb_ℤ→eq, eqb_ℤ_refl, suc_ℤ_parts, Result, ok, err, panic, ◌>>=◌,
  passed_on, ℕ, zero, suc, ◌+◌, ◌-◌, ◌*◌, ◌/◌, ◌%◌, ◌^◌, ◌≤◌, ◌<◌, ◌≡◌, refl, sym, ap, ◌∙◌, ◌≢◌,
  ◌↔◌, ◌⊎◌, inl, inr, Bool, true, false, not, ◌&&◌, ◌||◌, Option, none, some, List, [], ◌∷◌, ◌++◌,
  map, append_assoc, append-nil, arith,
}

pub data TypeKind : Type 0 where
  y_none y_int8 y_int16 y_int32 y_int64 y_uint8 y_uint16 : TypeKind
  y_uint32 y_uint64 y_binary y_bits y_bool y_decimal64 y_empty : TypeKind
  y_enum y_identityref y_instance_identifier y_leafref y_string y_union : TypeKind

unfoldable pub type_kind_from_name : List (Bytes × TypeKind)
type_kind_from_name =
    (codes "none", y_none)
    ∷ (codes "int8", y_int8)
    ∷ (codes "int16", y_int16)
    ∷ (codes "int32", y_int32)
    ∷ (codes "int64", y_int64)
    ∷ (codes "uint8", y_uint8)
    ∷ (codes "uint16", y_uint16)
    ∷ (codes "uint32", y_uint32)
    ∷ (codes "uint64", y_uint64)
    ∷ (codes "binary", y_binary)
    ∷ (codes "bits", y_bits)
    ∷ (codes "boolean", y_bool)
    ∷ (codes "decimal64", y_decimal64)
    ∷ (codes "empty", y_empty)
    ∷ (codes "enumeration", y_enum)
    ∷ (codes "identityref", y_identityref)
    ∷ (codes "instance-identifier", y_instance_identifier)
    ∷ (codes "leafref", y_leafref)
    ∷ (codes "string", y_string)
    ∷ (codes "union", y_union)
    ∷ []

unfoldable pub type_kind_to_name : TypeKind → Bytes
type_kind_to_name y_none = codes "none"
type_kind_to_name y_int8 = codes "int8"
type_kind_to_name y_int16 = codes "int16"
type_kind_to_name y_int32 = codes "int32"
type_kind_to_name y_int64 = codes "int64"
type_kind_to_name y_uint8 = codes "uint8"
type_kind_to_name y_uint16 = codes "uint16"
type_kind_to_name y_uint32 = codes "uint32"
type_kind_to_name y_uint64 = codes "uint64"
type_kind_to_name y_binary = codes "binary"
type_kind_to_name y_bits = codes "bits"
type_kind_to_name y_bool = codes "boolean"
type_kind_to_name y_decimal64 = codes "decimal64"
type_kind_to_name y_empty = codes "empty"
type_kind_to_name y_enum = codes "enumeration"
type_kind_to_name y_identityref = codes "identityref"
type_kind_to_name y_instance_identifier = codes "instance-identifier"
type_kind_to_name y_leafref = codes "leafref"
type_kind_to_name y_string = codes "string"
type_kind_to_name y_union = codes "union"

-- The number of a kind.
unfoldable pub kind_index : TypeKind → ℕ
kind_index y_none = 0
kind_index y_int8 = 1
kind_index y_int16 = 2
kind_index y_int32 = 3
kind_index y_int64 = 4
kind_index y_uint8 = 5
kind_index y_uint16 = 6
kind_index y_uint32 = 7
kind_index y_uint64 = 8
kind_index y_binary = 9
kind_index y_bits = 10
kind_index y_bool = 11
kind_index y_decimal64 = 12
kind_index y_empty = 13
kind_index y_enum = 14
kind_index y_identityref = 15
kind_index y_instance_identifier = 16
kind_index y_leafref = 17
kind_index y_string = 18
kind_index y_union = 19

-- `==` on kinds.
unfoldable pub type_kind_eq : TypeKind → TypeKind → Bool
unfolding kind_index
type_kind_eq a b = kind_index a == kind_index b

-- The fields that `Equal` compares, but for `Type`.
pub record Facts : Type 0 where
  pub kind : TypeKind
  pub units : Bytes
  pub default : Bytes
  pub fraction_digits : ℤ
  pub identity_base : Option ℕ
  pub length_range : YangRange
  pub optional_instance : Bool
  pub path : Bytes
  pub pattern : List Bytes
  pub value_range : YangRange

mutual
  -- The name, what is compared, `Bit`, `Enum` and `Type`.
  pub data YangType : Type 0 where
    yang_type : Bytes → Facts → Option EnumType → Option EnumType → YangTypes → YangType

  pub data YangTypes : Type 0 where
    no_types : YangTypes
    one_more : YangType → YangTypes → YangTypes

-- `ssEqual`: the test of the lengths is met where both end.
unfoldable pub ss_equal : List Bytes → List Bytes → Bool
ss_equal [] [] = true
ss_equal (s ∷ s1) (t ∷ s2) = bytes_eq s t && ss_equal s1 s2
ss_equal _ _ = false

unfoldable pub pointer_eq : Option ℕ → Option ℕ → Bool
pointer_eq none none = true
pointer_eq (some a) (some b) = a == b
pointer_eq _ _ = false

unfoldable pub bool_eq : Bool → Bool → Bool
bool_eq true b = b
bool_eq false b = not b

-- The cases of the switch but for the last one.
unfoldable pub facts_equal : Facts → Facts → Bool
unfolding type_kind_eq pointer_eq ss_equal bool_eq ranges_equal
facts_equal y t =
    type_kind_eq y.kind t.kind
    && (bytes_eq y.units t.units
        && (bytes_eq y.default t.default
            && (eqb_ℤ y.fraction_digits t.fraction_digits
                && (pointer_eq y.identity_base t.identity_base
                    && (ranges_equal y.length_range t.length_range
                        && (bool_eq y.optional_instance t.optional_instance
                            && (bytes_eq y.path t.path
                                && (ss_equal y.pattern t.pattern
                                    && ranges_equal y.value_range t.value_range))))))))

unfoldable mutual
  unfolding facts_equal

  pub type_equal : YangType → YangType → Bool
  type_equal (yang_type n y b e ys) (yang_type m t c f ts) = facts_equal y t && ts_equal ys ts

  pub ts_equal : YangTypes → YangTypes → Bool
  ts_equal no_types no_types = true
  ts_equal (one_more y ys) (one_more t ts) = type_equal y t && ts_equal ys ts
  ts_equal no_types (one_more t ts) = false
  ts_equal (one_more y ys) no_types = false
