-- ===== src/BaseTypes/Table.antt =====
-- The types that are built in, of yang/types_builtin.go: the ranges of the integers, `baseTypes`, and the
-- typedefs that `init` makes of them.
use go_restconf.Range.{YangRange, parse_ranges}
use go_restconf.BaseTypes.{TypeKind, Facts, YangType, yang_type, no_types}
use go_restconf.Common.{Bytes, codes, pos, ok, err, panic, false, Option, none, some, List, [], ◌∷◌}

-- `mustParseRanges`, which panics on an error; `none` is a panic.
unfoldable pub must_parse_ranges : Bytes → Option YangRange
unfolding parse_ranges
must_parse_ranges s = elim (parse_ranges s) [ ok r ↦ some r | err e ↦ none | panic ↦ none ]

abbrev pub int8_range : Bytes
int8_range = codes "-128..127"

abbrev pub int16_range : Bytes
int16_range = codes "-32768..32767"

abbrev pub int32_range : Bytes
int32_range = codes "-2147483648..2147483647"

abbrev pub int64_range : Bytes
int64_range = codes "-9223372036854775808..9223372036854775807"

abbrev pub uint8_range : Bytes
uint8_range = codes "0..255"

abbrev pub uint16_range : Bytes
uint16_range = codes "0..65535"

abbrev pub uint32_range : Bytes
uint32_range = codes "0..4294967295"

abbrev pub uint64_range : Bytes
uint64_range = codes "0..18446744073709551615"

abbrev pub decimal64_range : Bytes
decimal64_range = codes "min..max"

abbrev pub no_range : Option YangRange
no_range = some []

-- The fields of a type that is built in.
unfoldable pub base_facts : TypeKind → YangRange → Facts
base_facts kind range = record {
  kind = kind;
  units = [];
  default = [];
  fraction_digits = pos 0;
  identity_base = none;
  length_range = [];
  optional_instance = false;
  path = [];
  pattern = [];
  value_range = range;
}

unfoldable pub base_type : Bytes → TypeKind → Option YangRange → Bytes × Option YangType
unfolding base_facts
base_type name kind none = (name, none)
base_type name kind (some range) =
    (name, some (yang_type name (base_facts kind range) none none no_types))

unfoldable pub base_types : List (Bytes × Option YangType)
unfolding base_type must_parse_ranges
base_types =
    base_type (codes "int8") TypeKind.y_int8 (must_parse_ranges int8_range)
    ∷ base_type (codes "int16") TypeKind.y_int16 (must_parse_ranges int16_range)
    ∷ base_type (codes "int32") TypeKind.y_int32 (must_parse_ranges int32_range)
    ∷ base_type (codes "int64") TypeKind.y_int64 (must_parse_ranges int64_range)
    ∷ base_type (codes "uint8") TypeKind.y_uint8 (must_parse_ranges uint8_range)
    ∷ base_type (codes "uint16") TypeKind.y_uint16 (must_parse_ranges uint16_range)
    ∷ base_type (codes "uint32") TypeKind.y_uint32 (must_parse_ranges uint32_range)
    ∷ base_type (codes "uint64") TypeKind.y_uint64 (must_parse_ranges uint64_range)
    ∷ base_type (codes "decimal64") TypeKind.y_decimal64 (must_parse_ranges decimal64_range)
    ∷ base_type (codes "string") TypeKind.y_string no_range
    ∷ base_type (codes "boolean") TypeKind.y_bool no_range
    ∷ base_type (codes "enumeration") TypeKind.y_enum no_range
    ∷ base_type (codes "bits") TypeKind.y_bits no_range
    ∷ base_type (codes "binary") TypeKind.y_binary no_range
    ∷ base_type (codes "leafref") TypeKind.y_leafref no_range
    ∷ base_type (codes "identityref") TypeKind.y_identityref no_range
    ∷ base_type (codes "empty") TypeKind.y_empty no_range
    ∷ base_type (codes "union") TypeKind.y_union no_range
    ∷ base_type (codes "instance-identifier") TypeKind.y_instance_identifier no_range
    ∷ []

pub record Typedef : Type 0 where
  pub name : Bytes
  pub type_name : Bytes
  pub target : YangType

-- The method `typedef`.
unfoldable pub typedef : YangType → Typedef
typedef (yang_type n y b e ys) = record { name = n; type_name = n; target = yang_type n y b e ys }

-- The loop of `init`, which makes `BaseTypedefs`; `none` is a panic on the way.
unfoldable pub init_typedefs : List (Bytes × Option YangType) → Option (List (Bytes × Typedef))
unfolding typedef
init_typedefs [] = some []
init_typedefs ((k, none) ∷ ts) = none
init_typedefs ((k, some v) ∷ ts) = elim (init_typedefs ts) [
  | none ↦ none
  | some ds ↦ some ((k, typedef v) ∷ ds)
]
