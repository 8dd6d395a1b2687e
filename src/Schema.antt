-- ===== src/Schema.antt =====
-- The structures by their types, and `nameMap` of yang/ast.go, which `initTypes` fills from the tags.
mod Tags
mod Modules
mod Types
mod Leaves
mod Containers
mod Operations
pub mod Consistent
pub use Tags.{StructType, Shape, pointer, slice, Field, Struct}
use Modules.{
  module_struct, import_struct, include_struct, revision_struct, belongs_to_struct, value_struct,
  extension_struct, argument_struct, element_struct, feature_struct, identity_struct,
}
use Types.{
  typedef_struct, type_struct, must_struct, enum_struct, bit_struct, range_struct, length_struct,
  pattern_struct,
}
use Leaves.{leaf_struct, leaf_list_struct, list_struct, any_xml_struct, any_data_struct}
use Containers.{
  container_struct, choice_struct, case_struct, grouping_struct, uses_struct, refine_struct,
  augment_struct,
}
use Operations.{
  rpc_struct, input_struct, output_struct, notification_struct, action_struct, deviation_struct,
  deviate_struct,
}
use Prim.Native.String.{String}
use go_restconf.Common.{
  bytes_eq, Bytes, codes, ◌||◌, if◌then◌else◌, Bool, true, false, Option, none, some, List, [], ◌∷◌,
}

unfoldable pub struct_of : StructType → Struct
unfolding value_struct module_struct import_struct include_struct revision_struct belongs_to_struct
    typedef_struct type_struct container_struct must_struct leaf_struct leaf_list_struct list_struct
    choice_struct case_struct any_xml_struct any_data_struct grouping_struct uses_struct
    refine_struct rpc_struct input_struct output_struct notification_struct augment_struct
    identity_struct extension_struct argument_struct element_struct feature_struct deviation_struct
    deviate_struct enum_struct bit_struct range_struct length_struct pattern_struct action_struct
struct_of StructType.value = value_struct
struct_of StructType.yang_module = module_struct
struct_of StructType.import = import_struct
struct_of StructType.include = include_struct
struct_of StructType.revision = revision_struct
struct_of StructType.belongs_to = belongs_to_struct
struct_of StructType.typedef = typedef_struct
struct_of StructType.type = type_struct
struct_of StructType.container = container_struct
struct_of StructType.must = must_struct
struct_of StructType.leaf = leaf_struct
struct_of StructType.leaf_list = leaf_list_struct
struct_of StructType.list = list_struct
struct_of StructType.choice = choice_struct
struct_of StructType.case = case_struct
struct_of StructType.any_xml = any_xml_struct
struct_of StructType.any_data = any_data_struct
struct_of StructType.grouping = grouping_struct
struct_of StructType.uses = uses_struct
struct_of StructType.refine = refine_struct
struct_of StructType.rpc = rpc_struct
struct_of StructType.input = input_struct
struct_of StructType.output = output_struct
struct_of StructType.notification = notification_struct
struct_of StructType.augment = augment_struct
struct_of StructType.identity = identity_struct
struct_of StructType.extension = extension_struct
struct_of StructType.argument = argument_struct
struct_of StructType.element = element_struct
struct_of StructType.feature = feature_struct
struct_of StructType.deviation = deviation_struct
struct_of StructType.deviate = deviate_struct
struct_of StructType.enum = enum_struct
struct_of StructType.bit = bit_struct
struct_of StructType.range = range_struct
struct_of StructType.length = length_struct
struct_of StructType.pattern = pattern_struct
struct_of StructType.action = action_struct

-- The keywords in the order in which `initTypes` meets them.
unfoldable pub keywords : List (Bytes × StructType)
keywords =
    (codes "module", StructType.yang_module)
    ∷ (codes "anydata", StructType.any_data)
    ∷ (codes "config", StructType.value)
    ∷ (codes "description", StructType.value)
    ∷ (codes "if-feature", StructType.value)
    ∷ (codes "mandatory", StructType.value)
    ∷ (codes "must", StructType.must)
    ∷ (codes "error-app-tag", StructType.value)
    ∷ (codes "error-message", StructType.value)
    ∷ (codes "reference", StructType.value)
    ∷ (codes "status", StructType.value)
    ∷ (codes "when", StructType.value)
    ∷ (codes "anyxml", StructType.any_xml)
    ∷ (codes "augment", StructType.augment)
    ∷ (codes "action", StructType.action)
    ∷ (codes "grouping", StructType.grouping)
    ∷ (codes "choice", StructType.choice)
    ∷ (codes "case", StructType.case)
    ∷ (codes "container", StructType.container)
    ∷ (codes "leaf", StructType.leaf)
    ∷ (codes "default", StructType.value)
    ∷ (codes "type", StructType.type)
    ∷ (codes "base", StructType.value)
    ∷ (codes "bit", StructType.bit)
    ∷ (codes "position", StructType.value)
    ∷ (codes "enum", StructType.enum)
    ∷ (codes "value", StructType.value)
    ∷ (codes "fraction-digits", StructType.value)
    ∷ (codes "length", StructType.length)
    ∷ (codes "path", StructType.value)
    ∷ (codes "pattern", StructType.pattern)
    ∷ (codes "range", StructType.range)
    ∷ (codes "require-instance", StructType.value)
    ∷ (codes "units", StructType.value)
    ∷ (codes "leaf-list", StructType.leaf_list)
    ∷ (codes "max-elements", StructType.value)
    ∷ (codes "min-elements", StructType.value)
    ∷ (codes "ordered-by", StructType.value)
    ∷ (codes "list", StructType.list)
    ∷ (codes "key", StructType.value)
    ∷ (codes "typedef", StructType.typedef)
    ∷ (codes "unique", StructType.value)
    ∷ (codes "uses", StructType.uses)
    ∷ (codes "refine", StructType.refine)
    ∷ (codes "presence", StructType.value)
    ∷ (codes "input", StructType.input)
    ∷ (codes "output", StructType.output)
    ∷ (codes "belongs-to", StructType.belongs_to)
    ∷ (codes "prefix", StructType.value)
    ∷ (codes "contact", StructType.value)
    ∷ (codes "deviation", StructType.deviation)
    ∷ (codes "deviate", StructType.deviate)
    ∷ (codes "extension", StructType.extension)
    ∷ (codes "argument", StructType.argument)
    ∷ (codes "yin-element", StructType.value)
    ∷ (codes "feature", StructType.feature)
    ∷ (codes "identity", StructType.identity)
    ∷ (codes "import", StructType.import)
    ∷ (codes "revision-date", StructType.value)
    ∷ (codes "include", StructType.include)
    ∷ (codes "namespace", StructType.value)
    ∷ (codes "notification", StructType.notification)
    ∷ (codes "organization", StructType.value)
    ∷ (codes "revision", StructType.revision)
    ∷ (codes "rpc", StructType.rpc)
    ∷ (codes "yang-version", StructType.value)
    ∷ []

pub lookup_keyword : Bytes → List (Bytes × StructType) → Option StructType
lookup_keyword k [] = none
lookup_keyword k ((other, t) ∷ m) = if bytes_eq other k then some t else lookup_keyword k m

-- `aliases[keyword]`, or the keyword itself.
unfoldable pub alias : Bytes → Bytes
alias k = if bytes_eq k (codes "submodule") then codes "module" else k

-- `nameMap[kind]`.
unfoldable pub name_map : Bytes → Option StructType
unfolding keywords lookup_keyword
name_map k = lookup_keyword k keywords

-- The field that `y.funcs[keyword]` fills.
unfoldable pub lookup_field : Bytes → List Field → Option Field
lookup_field k [] = none
lookup_field k (f ∷ fs) = if bytes_eq f.keyword k then some f else lookup_field k fs

-- The keywords that `build` looks up in its functions besides those of the fields.
abbrev pub is_special : Bytes → Bool
is_special k =
    bytes_eq k (codes "Name") || bytes_eq k (codes "Statement") || bytes_eq k (codes "Parent")
