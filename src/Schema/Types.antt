-- ===== src/Schema/Types.antt =====
-- yang/yang.go: types and their restrictions.
use go_restconf.Schema.Tags.{StructType, single, many, always, Struct}
use go_restconf.Common.{codes, [], ◌∷◌}

unfoldable pub typedef_struct : Struct
typedef_struct = record {
  kind = codes "typedef";
  fields =
      single "default" StructType.value
      ∷ single "description" StructType.value
      ∷ single "reference" StructType.value
      ∷ single "status" StructType.value
      ∷ always (single "type" StructType.type)
      ∷ single "units" StructType.value
      ∷ [];
}

unfoldable pub type_struct : Struct
type_struct = record {
  kind = codes "type";
  fields =
      single "base" StructType.value
      ∷ many "bit" StructType.bit
      ∷ many "enum" StructType.enum
      ∷ single "fraction-digits" StructType.value
      ∷ single "length" StructType.length
      ∷ single "path" StructType.value
      ∷ many "pattern" StructType.pattern
      ∷ single "range" StructType.range
      ∷ single "require-instance" StructType.value
      ∷ many "type" StructType.type
      ∷ [];
}

unfoldable pub must_struct : Struct
must_struct = record {
  kind = codes "must";
  fields =
      single "description" StructType.value
      ∷ single "error-app-tag" StructType.value
      ∷ single "error-message" StructType.value
      ∷ single "reference" StructType.value
      ∷ [];
}

unfoldable pub enum_struct : Struct
enum_struct = record {
  kind = codes "enum";
  fields =
      single "description" StructType.value
      ∷ single "reference" StructType.value
      ∷ single "status" StructType.value
      ∷ single "value" StructType.value
      ∷ [];
}

unfoldable pub bit_struct : Struct
bit_struct = record {
  kind = codes "bit";
  fields =
      single "description" StructType.value
      ∷ single "reference" StructType.value
      ∷ single "status" StructType.value
      ∷ single "position" StructType.value
      ∷ [];
}

unfoldable pub range_struct : Struct
range_struct = record {
  kind = codes "range";
  fields =
      single "description" StructType.value
      ∷ single "error-app-tag" StructType.value
      ∷ single "error-message" StructType.value
      ∷ single "reference" StructType.value
      ∷ [];
}

unfoldable pub length_struct : Struct
length_struct = record {
  kind = codes "length";
  fields =
      single "description" StructType.value
      ∷ single "error-app-tag" StructType.value
      ∷ single "error-message" StructType.value
      ∷ single "reference" StructType.value
      ∷ [];
}

unfoldable pub pattern_struct : Struct
pattern_struct = record {
  kind = codes "pattern";
  fields =
      single "description" StructType.value
      ∷ single "error-app-tag" StructType.value
      ∷ single "error-message" StructType.value
      ∷ single "reference" StructType.value
      ∷ [];
}
