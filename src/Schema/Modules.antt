-- ===== src/Schema/Modules.antt =====
-- yang/yang.go: modules and what stands in their header.
use go_restconf.Schema.Tags.{StructType, single, many, always, only_for, unmerged, Struct}
use go_restconf.Common.{codes, [], ◌∷◌}

-- `Kind` is `submodule` where there is a `belongs-to`.
unfoldable pub module_struct : Struct
module_struct = record {
  kind = codes "module";
  fields =
      many "anydata" StructType.any_data
      ∷ many "anyxml" StructType.any_xml
      ∷ many "augment" StructType.augment
      ∷ unmerged (only_for "submodule" (single "belongs-to" StructType.belongs_to))
      ∷ many "choice" StructType.choice
      ∷ unmerged (single "contact" StructType.value)
      ∷ many "container" StructType.container
      ∷ unmerged (single "description" StructType.value)
      ∷ many "deviation" StructType.deviation
      ∷ many "extension" StructType.extension
      ∷ many "feature" StructType.feature
      ∷ many "grouping" StructType.grouping
      ∷ many "identity" StructType.identity
      ∷ many "import" StructType.import
      ∷ many "include" StructType.include
      ∷ many "leaf" StructType.leaf
      ∷ many "leaf-list" StructType.leaf_list
      ∷ many "list" StructType.list
      ∷ unmerged (only_for "module" (single "namespace" StructType.value))
      ∷ many "notification" StructType.notification
      ∷ unmerged (single "organization" StructType.value)
      ∷ unmerged (only_for "module" (single "prefix" StructType.value))
      ∷ unmerged (single "reference" StructType.value)
      ∷ unmerged (many "revision" StructType.revision)
      ∷ many "rpc" StructType.rpc
      ∷ many "typedef" StructType.typedef
      ∷ many "uses" StructType.uses
      ∷ unmerged (single "yang-version" StructType.value)
      ∷ [];
}

unfoldable pub import_struct : Struct
import_struct = record {
  kind = codes "import";
  fields = always (single "prefix" StructType.value) ∷ single "revision-date" StructType.value ∷ [];
}

unfoldable pub include_struct : Struct
include_struct = record {
  kind = codes "include";
  fields = single "revision-date" StructType.value ∷ [];
}

unfoldable pub revision_struct : Struct
revision_struct = record {
  kind = codes "revision";
  fields = single "description" StructType.value ∷ single "reference" StructType.value ∷ [];
}

unfoldable pub belongs_to_struct : Struct
belongs_to_struct = record {
  kind = codes "belongs-to";
  fields = always (single "prefix" StructType.value) ∷ [];
}

unfoldable pub value_struct : Struct
value_struct = record { kind = codes "string"; fields = single "description" StructType.value ∷ [] }

unfoldable pub extension_struct : Struct
extension_struct = record {
  kind = codes "extension";
  fields =
      single "argument" StructType.argument
      ∷ single "description" StructType.value
      ∷ single "reference" StructType.value
      ∷ single "status" StructType.value
      ∷ [];
}

unfoldable pub argument_struct : Struct
argument_struct = record {
  kind = codes "argument";
  fields = single "yin-element" StructType.value ∷ [];
}

unfoldable pub element_struct : Struct
element_struct = record {
  kind = codes "element";
  fields = single "yin-element" StructType.value ∷ [];
}

unfoldable pub feature_struct : Struct
feature_struct = record {
  kind = codes "feature";
  fields =
      single "description" StructType.value
      ∷ many "if-feature" StructType.value
      ∷ single "status" StructType.value
      ∷ single "reference" StructType.value
      ∷ [];
}

unfoldable pub identity_struct : Struct
identity_struct = record {
  kind = codes "identity";
  fields =
      single "base" StructType.value
      ∷ single "description" StructType.value
      ∷ single "reference" StructType.value
      ∷ single "status" StructType.value
      ∷ [];
}
