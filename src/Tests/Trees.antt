-- ===== src/Tests/Trees.antt =====
-- The AST of a small module, and the parser on the text of one.
use Prim.Native.String.{String}
use go_restconf.Parser.{parse, Parsed}
use go_restconf.Parser.Ends.Whole.{parse_ends, parse_returns}
use go_restconf.Schema.{
  StructType, pointer, Field, struct_of, name_map, alias, lookup_field, keywords,
}
use go_restconf.Statement.{
  Header, Statement, Statements, stmt, end, sub, has_keyword, count_keyword,
}
use go_restconf.Ast.{
  Node, node, Children, no_children, child, children_of, fields_of, count_child, add_child,
  fill_field, other_sub, build_sub, required, required_if, first_missing, first_found,
  check_required, build_as, build, build_subs, build_ast,
}
use go_restconf.Lexer.{blocked}
use go_restconf.Lexer.Cursor.{contains_rune}
use go_restconf.Common.{◌⊎◌, Bytes, err}
use go_restconf.GoText.{trim_space}
use go_restconf.GoText.Digits.{parse_uint}
use go_restconf.Number.{int}
use go_restconf.Number.Text.{parse_number}
use go_restconf.Values.{
  get_prefix, as_bool, full_name, current, newest, text_less, as_range_int, parsed_range,
  kind_range,
}
use go_restconf.Values.Bounds.{as_range_int_bounds}
use go_restconf.Values.Revisions.{IsRevision, current_lem}
use go_restconf.Common.{pos, ◌≤ℤ◌, arith}
use go_restconf.Schema.{is_special}
use go_restconf.Schema.Consistent.{lookup_field_lem}
use go_restconf.Ast.Nodes.{IsNode}
use go_restconf.Ast.Sound.{build_ast-IsNode, build_ast-count, build_ast-required_for}
use go_restconf.Common.{codes, ok, ◌≤◌, ◌≡◌, refl, ◌≢◌, true, false, some, []}

abbrev head : String → String → Header
head k a = record {
  keyword = codes k;
  has_argument = true;
  argument = codes a;
  file = codes "m.yang";
  line = 1;
  col = 1;
}

abbrev leaf_of : String → String → Statement
leaf_of k a = stmt (head k a) end

abbrev subs : Statements
subs = sub (leaf_of "namespace" "urn:m") (
    sub (leaf_of "prefix" "p")
      (sub (stmt (head "leaf" "a") (sub (leaf_of "type" "string") end)) end))

abbrev value_node : String → String → Node
value_node k a = node StructType.value (codes a) (leaf_of k a) no_children end

abbrev module_node : Node
module_node =
    node StructType.yang_module (codes "m") (stmt (head "module" "m") subs)
      (child (codes "namespace") (value_node "namespace" "urn:m") (
        child (codes "prefix") (value_node "prefix" "p") (
          child (codes "leaf")
            (node StructType.leaf (codes "a")
              (stmt (head "leaf" "a") (sub (leaf_of "type" "string") end))
              (child (codes "type")
                (node StructType.type (codes "string") (leaf_of "type" "string") no_children end)
                no_children)
              end)
            no_children)))
      end

built_module : build_ast (stmt (head "module" "m") subs) ≡ ok module_node
unfolding build_ast build build_subs build_as name_map alias keywords struct_of build_sub
    lookup_field fill_field other_sub check_required required required_if first_missing first_found
    count_child add_child has_keyword
built_module = refl

abbrev namespace_field : Field
namespace_field = record {
  keyword = codes "namespace";
  shape = pointer;
  target = StructType.value;
  required = false;
  required_for = some (codes "module");
  nomerge = true;
}

namespace_found : lookup_field (codes "namespace") (fields_of module_node) ≡ some namespace_field
unfolding lookup_field struct_of
namespace_found = refl

build_ast-IsNode_example : IsNode module_node
build_ast-IsNode_example = build_ast-IsNode (stmt (head "module" "m") subs) module_node built_module

build_ast-count_example :
    count_child (codes "namespace") (children_of module_node)
    ≡ count_keyword (codes "namespace") subs
build_ast-count_example =
    build_ast-count (head "module" "m") subs module_node (codes "namespace") namespace_field
      built_module namespace_found

build_ast-required_for_example :
    (codes "module" ≡ codes "module"
      → 1 ≤ count_child (codes "namespace") (children_of module_node))
    × (codes "module" ≢ codes "module"
        → count_child (codes "namespace") (children_of module_node) ≡ 0)
build_ast-required_for_example =
    build_ast-required_for (head "module" "m") subs module_node (codes "namespace") (codes "module")
      namespace_field built_module namespace_found refl

-- A text, and one with escapes.
abbrev concatenated : Bytes
concatenated = codes "leaf a { type \"s\" + \"t\"; }"

abbrev escaped : Bytes
escaped = codes "a \"\\x\\y\\z\";"

parse_ends_example : (parse escaped [] ≡ err blocked) ⊎ ((r : Parsed) × (parse escaped [] ≡ ok r))
parse_ends_example = parse_ends escaped []

parse_returns_example : (r : Parsed) × (parse concatenated [] ≡ ok r)
unfolding contains_rune
parse_returns_example = parse_returns concatenated [] refl

lookup_field_lem_example :
    (codes "namespace" ≡ codes "namespace")
    × (name_map (alias (codes "namespace")) ≡ some StructType.value)
    × (is_special (codes "namespace") ≡ false)
lookup_field_lem_example =
    lookup_field_lem StructType.yang_module (codes "namespace") namespace_field namespace_found

abbrev revisions : Children
revisions = child (codes "revision") (value_node "revision" "2016-06-21") (
    child (codes "revision") (value_node "revision" "2019-01-02")
      (child (codes "revision") (value_node "revision" "2018-12-31") no_children))

abbrev revised : Node
revised = node StructType.yang_module (codes "m") (stmt (head "module" "m") end) revisions end

name_with_revision : full_name revised ≡ codes "m@2019-01-02"
unfolding full_name current newest text_less
name_with_revision = refl

current_lem_example :
    ((s : Bytes) → IsRevision s revisions → text_less (current revised) s ≡ false)
    × ((current revised ≡ []) ⊎ IsRevision (current revised) revisions)
current_lem_example = current_lem revised

seven_parsed : as_range_int (some (value_node "min-elements" "7")) (pos 0) (pos 10) ≡ ok (pos 7)
unfolding as_range_int parsed_range kind_range parse_number trim_space parse_uint int
seven_parsed = refl

as_range_int_bounds_example : (pos 0 ≤ℤ pos 7) × (pos 7 ≤ℤ pos 10)
as_range_int_bounds_example =
    as_range_int_bounds (some (value_node "min-elements" "7")) (pos 0) (pos 10) (pos 7)
      (omega arith) seven_parsed

prefix_found : get_prefix module_node ≡ codes "p"
unfolding get_prefix
prefix_found = refl

true_read : as_bool (some (value_node "config" "true")) ≡ ok true
unfolding as_bool
true_read = refl
