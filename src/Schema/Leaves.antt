-- ===== src/Schema/Leaves.antt =====
-- yang/yang.go: leaves and lists.
use go_restconf.Schema.Tags.{StructType, single, many, always, Struct}
use go_restconf.Common.{codes, [], ◌∷◌}

unfoldable pub leaf_struct : Struct
leaf_struct = record {
  kind = codes "leaf";
  fields =
      single "config" StructType.value
      ∷ single "default" StructType.value
      ∷ single "description" StructType.value
      ∷ many "if-feature" StructType.value
      ∷ single "mandatory" StructType.value
      ∷ many "must" StructType.must
      ∷ single "reference" StructType.value
      ∷ single "status" StructType.value
      ∷ always (single "type" StructType.type)
      ∷ single "units" StructType.value
      ∷ single "when" StructType.value
      ∷ [];
}

unfoldable pub leaf_list_struct : Struct
leaf_list_struct = record {
  kind = codes "leaf-list";
  fields =
      single "config" StructType.value
      ∷ single "description" StructType.value
      ∷ many "if-feature" StructType.value
      ∷ single "max-elements" StructType.value
      ∷ single "min-elements" StructType.value
      ∷ many "must" StructType.must
      ∷ single "ordered-by" StructType.value
      ∷ single "reference" StructType.value
      ∷ single "status" StructType.value
      ∷ always (single "type" StructType.type)
      ∷ single "units" StructType.value
      ∷ single "when" StructType.value
      ∷ [];
}

unfoldable pub list_struct : Struct
list_struct = record {
  kind = codes "list";
  fields =
      many "anydata" StructType.any_data
      ∷ many "action" StructType.action
      ∷ many "anyxml" StructType.any_xml
      ∷ many "choice" StructType.choice
      ∷ single "config" StructType.value
      ∷ many "container" StructType.container
      ∷ single "description" StructType.value
      ∷ many "grouping" StructType.grouping
      ∷ many "if-feature" StructType.value
      ∷ single "key" StructType.value
      ∷ many "leaf" StructType.leaf
      ∷ many "leaf-list" StructType.leaf_list
      ∷ many "list" StructType.list
      ∷ single "max-elements" StructType.value
      ∷ single "min-elements" StructType.value
      ∷ many "must" StructType.must
      ∷ single "ordered-by" StructType.value
      ∷ single "reference" StructType.value
      ∷ single "status" StructType.value
      ∷ many "typedef" StructType.typedef
      ∷ many "unique" StructType.value
      ∷ many "uses" StructType.uses
      ∷ single "when" StructType.value
      ∷ [];
}

unfoldable pub any_xml_struct : Struct
any_xml_struct = record {
  kind = codes "anyxml";
  fields =
      single "config" StructType.value
      ∷ single "description" StructType.value
      ∷ many "if-feature" StructType.value
      ∷ single "mandatory" StructType.value
      ∷ many "must" StructType.must
      ∷ single "reference" StructType.value
      ∷ single "status" StructType.value
      ∷ single "when" StructType.value
      ∷ [];
}

unfoldable pub any_data_struct : Struct
any_data_struct = record {
  kind = codes "anydata";
  fields =
      single "config" StructType.value
      ∷ single "description" StructType.value
      ∷ many "if-feature" StructType.value
      ∷ single "mandatory" StructType.value
      ∷ many "must" StructType.must
      ∷ single "reference" StructType.value
      ∷ single "status" StructType.value
      ∷ single "when" StructType.value
      ∷ [];
}
