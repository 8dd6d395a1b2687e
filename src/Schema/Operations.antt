-- ===== src/Schema/Operations.antt =====
-- yang/yang.go: operations, notifications and deviations.
use go_restconf.Schema.Tags.{StructType, single, many, always, Struct}
use go_restconf.Common.{codes, [], ◌∷◌}

unfoldable pub rpc_struct : Struct
rpc_struct = record {
  kind = codes "rpc";
  fields =
      single "description" StructType.value
      ∷ many "grouping" StructType.grouping
      ∷ many "if-feature" StructType.value
      ∷ single "input" StructType.input
      ∷ single "output" StructType.output
      ∷ single "reference" StructType.value
      ∷ single "status" StructType.value
      ∷ many "typedef" StructType.typedef
      ∷ [];
}

unfoldable pub input_struct : Struct
input_struct = record {
  kind = codes "input";
  fields =
      many "anydata" StructType.any_data
      ∷ many "anyxml" StructType.any_xml
      ∷ many "choice" StructType.choice
      ∷ many "container" StructType.container
      ∷ many "grouping" StructType.grouping
      ∷ many "leaf" StructType.leaf
      ∷ many "leaf-list" StructType.leaf_list
      ∷ many "list" StructType.list
      ∷ many "typedef" StructType.typedef
      ∷ many "uses" StructType.uses
      ∷ [];
}

unfoldable pub output_struct : Struct
output_struct = record {
  kind = codes "output";
  fields =
      many "anydata" StructType.any_data
      ∷ many "anyxml" StructType.any_xml
      ∷ many "choice" StructType.choice
      ∷ many "container" StructType.container
      ∷ many "grouping" StructType.grouping
      ∷ many "leaf" StructType.leaf
      ∷ many "leaf-list" StructType.leaf_list
      ∷ many "list" StructType.list
      ∷ many "typedef" StructType.typedef
      ∷ many "uses" StructType.uses
      ∷ [];
}

unfoldable pub notification_struct : Struct
notification_struct = record {
  kind = codes "notification";
  fields =
      many "anydata" StructType.any_data
      ∷ many "anyxml" StructType.any_xml
      ∷ many "choice" StructType.choice
      ∷ many "container" StructType.container
      ∷ single "description" StructType.value
      ∷ many "grouping" StructType.grouping
      ∷ many "if-feature" StructType.value
      ∷ many "leaf" StructType.leaf
      ∷ many "leaf-list" StructType.leaf_list
      ∷ many "list" StructType.list
      ∷ single "reference" StructType.value
      ∷ single "status" StructType.value
      ∷ many "typedef" StructType.typedef
      ∷ many "uses" StructType.uses
      ∷ [];
}

unfoldable pub action_struct : Struct
action_struct = record {
  kind = codes "action";
  fields =
      single "description" StructType.value
      ∷ many "grouping" StructType.grouping
      ∷ many "if-feature" StructType.value
      ∷ single "input" StructType.input
      ∷ single "output" StructType.output
      ∷ single "reference" StructType.value
      ∷ single "status" StructType.value
      ∷ many "typedef" StructType.typedef
      ∷ [];
}

unfoldable pub deviation_struct : Struct
deviation_struct = record {
  kind = codes "deviation";
  fields =
      single "description" StructType.value
      ∷ always (many "deviate" StructType.deviate)
      ∷ single "reference" StructType.value
      ∷ [];
}

unfoldable pub deviate_struct : Struct
deviate_struct = record {
  kind = codes "deviate";
  fields =
      single "config" StructType.value
      ∷ single "default" StructType.value
      ∷ single "mandatory" StructType.value
      ∷ single "max-elements" StructType.value
      ∷ single "min-elements" StructType.value
      ∷ many "must" StructType.must
      ∷ single "type" StructType.type
      ∷ many "unique" StructType.value
      ∷ single "units" StructType.value
      ∷ [];
}
