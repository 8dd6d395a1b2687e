-- ===== src/Schema/Containers.antt =====
-- yang/yang.go: containers, choices and groupings.
use go_restconf.Schema.Tags.{StructType, single, many, Struct}
use go_restconf.Common.{codes, [], ◌∷◌}

unfoldable pub container_struct : Struct
container_struct = record {
  kind = codes "container";
  fields =
      many "anydata" StructType.any_data
      ∷ many "action" StructType.action
      ∷ many "anyxml" StructType.any_xml
      ∷ many "choice" StructType.choice
      ∷ single "config" StructType.value
      ∷ many "container" StructType.container
      ∷ single "description" StructType.value
      ∷ many "grouping" StructType.grouping
      ∷ many "if-feature" StructType.value
      ∷ many "leaf" StructType.leaf
      ∷ many "leaf-list" StructType.leaf_list
      ∷ many "list" StructType.list
      ∷ many "must" StructType.must
      ∷ single "presence" StructType.value
      ∷ single "reference" StructType.value
      ∷ single "status" StructType.value
      ∷ many "typedef" StructType.typedef
      ∷ many "uses" StructType.uses
      ∷ single "when" StructType.value
      ∷ [];
}

unfoldable pub choice_struct : Struct
choice_struct = record {
  kind = codes "choice";
  fields =
      many "anydata" StructType.any_data
      ∷ many "anyxml" StructType.any_xml
      ∷ many "case" StructType.case
      ∷ single "config" StructType.value
      ∷ many "container" StructType.container
      ∷ single "default" StructType.value
      ∷ single "description" StructType.value
      ∷ many "if-feature" StructType.value
      ∷ many "leaf" StructType.leaf
      ∷ many "leaf-list" StructType.leaf_list
      ∷ many "list" StructType.list
      ∷ single "mandatory" StructType.value
      ∷ single "reference" StructType.value
      ∷ single "status" StructType.value
      ∷ single "when" StructType.value
      ∷ [];
}

unfoldable pub case_struct : Struct
case_struct = record {
  kind = codes "case";
  fields =
      many "anydata" StructType.any_data
      ∷ many "anyxml" StructType.any_xml
      ∷ many "choice" StructType.choice
      ∷ many "container" StructType.container
      ∷ single "description" StructType.value
      ∷ many "if-feature" StructType.value
      ∷ many "leaf" StructType.leaf
      ∷ many "leaf-list" StructType.leaf_list
      ∷ many "list" StructType.list
      ∷ single "reference" StructType.value
      ∷ single "status" StructType.value
      ∷ many "uses" StructType.uses
      ∷ single "when" StructType.value
      ∷ [];
}

unfoldable pub grouping_struct : Struct
grouping_struct = record {
  kind = codes "grouping";
  fields =
      many "anydata" StructType.any_data
      ∷ many "action" StructType.action
      ∷ many "anyxml" StructType.any_xml
      ∷ many "choice" StructType.choice
      ∷ many "container" StructType.container
      ∷ single "description" StructType.value
      ∷ many "grouping" StructType.grouping
      ∷ many "leaf" StructType.leaf
      ∷ many "leaf-list" StructType.leaf_list
      ∷ many "list" StructType.list
      ∷ single "reference" StructType.value
      ∷ single "status" StructType.value
      ∷ many "typedef" StructType.typedef
      ∷ many "uses" StructType.uses
      ∷ [];
}

unfoldable pub uses_struct : Struct
uses_struct = record {
  kind = codes "uses";
  fields =
      single "augment" StructType.augment
      ∷ single "description" StructType.value
      ∷ many "if-feature" StructType.value
      ∷ many "refine" StructType.refine
      ∷ single "reference" StructType.value
      ∷ single "status" StructType.value
      ∷ single "when" StructType.value
      ∷ [];
}

unfoldable pub refine_struct : Struct
refine_struct = record {
  kind = codes "refine";
  fields =
      single "default" StructType.value
      ∷ single "description" StructType.value
      ∷ single "reference" StructType.value
      ∷ single "config" StructType.value
      ∷ single "mandatory" StructType.value
      ∷ single "presence" StructType.value
      ∷ many "must" StructType.must
      ∷ single "max-elements" StructType.value
      ∷ single "min-elements" StructType.value
      ∷ [];
}

unfoldable pub augment_struct : Struct
augment_struct = record {
  kind = codes "augment";
  fields =
      many "anydata" StructType.any_data
      ∷ many "action" StructType.action
      ∷ many "anyxml" StructType.any_xml
      ∷ many "case" StructType.case
      ∷ many "choice" StructType.choice
      ∷ many "container" StructType.container
      ∷ single "description" StructType.value
      ∷ many "if-feature" StructType.value
      ∷ many "leaf" StructType.leaf
      ∷ many "leaf-list" StructType.leaf_list
      ∷ many "list" StructType.list
      ∷ single "reference" StructType.value
      ∷ single "status" StructType.value
      ∷ many "uses" StructType.uses
      ∷ single "when" StructType.value
      ∷ [];
}
