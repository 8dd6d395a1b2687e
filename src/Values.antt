-- ===== src/Values.antt =====
-- yang/yang.go: what a value stands for, and the revision, the full name and the prefix of a module.
-- The field of a node is the first child with its keyword.
pub mod Bounds
pub mod Revisions
use go_restconf.Number.{
  NumberKind, negative, positive, min_number, max_number, Number, IntError, int,
}
use go_restconf.Number.Text.{ParseError, parse_number}
use go_restconf.Ast.{Node, node, Children, no_children, child, children_of}
use go_restconf.Common.{
  bytes_eq, Bytes, codes, ◌&&◌, ◌||◌, ◌==◌, if◌then◌else◌, ltb, ltb_ℤ, ℤ, Result, ok, err, panic,
  Bool, true, false, Option, none, some, [], ◌∷◌, ◌++◌,
}

pub data ValueError : Type 0 where
  value_required out_of_range : ValueError
  not_a_number : ParseError → ValueError
  not_an_integer : IntError → ValueError
  invalid_boolean : Bytes → ValueError

abbrev pub name_of : Node → Bytes
name_of (node t name source cs exts) = name

abbrev check_range : ℤ → ℤ → Result IntError ℤ → Result ValueError ℤ
check_range lo hi (err e) = err (not_an_integer e)
check_range lo hi panic = panic
check_range lo hi (ok i) = if ltb_ℤ i lo || ltb_ℤ hi i then err out_of_range else ok i

-- The switch on the kind of the number, and what is behind it.
unfoldable pub kind_range : NumberKind → Number → ℤ → ℤ → Result ValueError ℤ
kind_range min_number n lo hi = ok lo
kind_range max_number n lo hi = ok hi
kind_range positive n lo hi = check_range lo hi (int n)
kind_range negative n lo hi = check_range lo hi (int n)

unfoldable pub parsed_range : ℤ → ℤ → Result ParseError Number → Result ValueError ℤ
unfolding kind_range
parsed_range lo hi (err e) = err (not_a_number e)
parsed_range lo hi panic = panic
parsed_range lo hi (ok n) = kind_range n.kind n lo hi

unfoldable pub as_range_int : Option Node → ℤ → ℤ → Result ValueError ℤ
unfolding parsed_range
as_range_int none lo hi = err value_required
as_range_int (some v) lo hi = parsed_range lo hi (parse_number (name_of v))

unfoldable pub as_bool : Option Node → Result ValueError Bool
as_bool none = ok false
as_bool (some v) =
    if bytes_eq (name_of v) (codes "true")
    then ok true
    else if bytes_eq (name_of v) (codes "false")
    then ok false
    else err (invalid_boolean (name_of v))

-- The order of Go strings.
unfoldable pub text_less : Bytes → Bytes → Bool
text_less s [] = false
text_less [] (y ∷ t) = true
text_less (x ∷ s) (y ∷ t) = ltb x y || (x == y && text_less s t)

-- The loop of `Current` over the revisions.
unfoldable pub newest : Bytes → Children → Bytes
unfolding text_less
newest rev no_children = rev
newest rev (child k n cs) =
    newest (if bytes_eq k (codes "revision") && text_less rev (name_of n) then name_of n else rev)
      cs

unfoldable pub current : Node → Bytes
unfolding newest
current m = newest [] (children_of m)

unfoldable pub full_name : Node → Bytes
unfolding current
full_name m =
    let rev = current m in if bytes_eq rev [] then name_of m else name_of m ++ (b'@' ∷ rev)

unfoldable pub field_child : Bytes → Children → Option Node
field_child k no_children = none
field_child k (child j n cs) = if bytes_eq j k then some n else field_child k cs

-- `getPrefix`, of a module that is there.
prefix_value : Node → Option Node
unfolding field_child
prefix_value m = elim (field_child (codes "prefix") (children_of m)) [
  | some p ↦ some p
  | none ↦ elim (field_child (codes "belongs-to") (children_of m)) [
    | some b ↦ field_child (codes "prefix") (children_of b)
    | none ↦ none
  ]
]

unfoldable pub get_prefix : Node → Bytes
unfolding prefix_value
get_prefix m = elim (prefix_value m) [ some p ↦ name_of p | none ↦ [] ]
