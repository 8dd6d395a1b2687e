-- ===== src/Schema/Tags.antt =====
-- The structures of yang/yang.go that the AST is made of, by their `yang` tags. The four tags `Name`,
-- `Statement`, `Parent` and `Ext`, which every structure has, are fields of `Ast.Node`.
use Prim.Native.String.{String}
use go_restconf.Common.{Bytes, codes, Bool, true, false, Option, none, some, List}

-- The pointer types that stand behind a field.
pub data StructType : Type 0 where
  value yang_module import include revision belongs_to typedef : StructType
  type container must leaf leaf_list list choice : StructType
  case any_xml any_data grouping uses refine rpc : StructType
  input output notification augment identity extension argument : StructType
  element feature deviation deviate enum bit range : StructType
  length pattern action : StructType

-- A pointer, or a slice of pointers.
pub data Shape : Type 0 where
  pointer slice : Shape

-- A field of a structure with its tag: the keyword, `required`, `required=KIND` and `nomerge`.
pub record Field : Type 0 where
  pub keyword : Bytes
  pub shape : Shape
  pub target : StructType
  pub required : Bool
  pub required_for : Option Bytes
  pub nomerge : Bool

abbrev field_of : Shape → String → StructType → Field
field_of shape keyword target = record {
  keyword = codes keyword;
  shape = shape;
  target = target;
  required = false;
  required_for = none;
  nomerge = false;
}

abbrev pub single : String → StructType → Field
single = field_of pointer

abbrev pub many : String → StructType → Field
many = field_of slice

abbrev pub always : Field → Field
always f = record f { required = true }

abbrev pub only_for : String → Field → Field
only_for kind f = record f { required_for = some (codes kind) }

abbrev pub unmerged : Field → Field
unmerged f = record f { nomerge = true }

-- A structure: the constant of its `Kind` method, and its fields in order.
pub record Struct : Type 0 where
  pub kind : Bytes
  pub fields : List Field
