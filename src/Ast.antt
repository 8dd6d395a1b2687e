-- ===== src/Ast.antt =====
-- yang/ast.go: `BuildAST` and `build`, over the structures that `initTypes` reads from the tags of
-- yang/yang.go. A structure is a node with its children in the order of the statements; a field
-- holds the children that have its keyword. The parent of a node is the node that holds it. The
-- dictionary of typedefs that `build` also fills is not part of this model.
pub mod Step
pub mod Nodes
pub mod Checks
pub mod Sound
use go_restconf.GoText.{index_byte, split}
use go_restconf.Schema.{
  StructType, Shape, pointer, slice, Field, Struct, struct_of, name_map, alias, lookup_field,
}
use go_restconf.Statement.{
  Header, Statement, Statements, stmt, end, sub, header, add_sub, has_keyword,
}
use go_restconf.Common.{
  bytes_eq, bytes_eq_iff, bytes_eq_refl, Bytes, codes, length, take, drop, replicate, get_elem?,
  length-append, take-length_append, drop-length_append, take-append-drop, length-take, length-drop,
  length-replicate, All, All-append, ltb, leb, ◌==◌, if◌then◌else◌, ltb→lt, lt→ltb, ltb→le, le→ltb,
  ==_iff, Bool-cases, Option-cases, ℤ, pos, negsuc, pos_part, neg_part, ◌≤ℤ◌, ◌<ℤ◌, ltb_ℤ, eqb_ℤ,
  suc_ℤ, eqb_ℤ→eq, eqb_ℤ_refl, suc_ℤ_parts, Result, ok, err, panic, ◌>>=◌, passed_on, ℕ, zero, suc,
  ◌+◌, ◌-◌, ◌*◌, ◌/◌, ◌%◌, ◌^◌, ◌≤◌, ◌<◌, ◌≡◌, refl, sym, ap, ◌∙◌, ◌≢◌, ◌↔◌, ◌⊎◌, inl, inr, Bool,
  true, false, not, ◌&&◌, ◌||◌, Option, none, some, List, [], ◌∷◌, ◌++◌, map, append_assoc,
  append-nil, arith,
}

pub data BuildError : Type 0 where
  unknown_statement : Header → BuildError
  unknown_field : Header → Bytes → Bytes → BuildError
  missing_field : Header → Bytes → BuildError
  already_set : Bytes → BuildError

-- The structure with its `Name`, its `Statement`, its fields and its `Ext`.
mutual
  pub data Node : Type 0 where
    node : StructType → Bytes → Statement → Children → Statements → Node

  pub data Children : Type 0 where
    no_children : Children
    child : Bytes → Node → Children → Children

abbrev pub type_of : Node → StructType
type_of (node t name source cs exts) = t

abbrev pub children_of : Node → Children
children_of (node t name source cs exts) = cs

abbrev pub fields_of : Node → List Field
fields_of n = (struct_of (type_of n)).fields

-- The structure `v` while it is filled in.
pub record Building : Type 0 where
  pub name : Bytes
  pub source : Statement
  pub children : Children
  pub extensions : Statements

unfoldable pub add_child : Children → Bytes → Node → Children
add_child no_children k n = child k n no_children
add_child (child j m cs) k n = child j m (add_child cs k n)

-- How many nodes a field holds.
unfoldable pub count_child : Bytes → Children → ℕ
count_child k no_children = 0
count_child k (child j m cs) = if bytes_eq j k then 1 + count_child k cs else count_child k cs

abbrev pub Built : Type 0
Built = Result BuildError (Option Node)

abbrev pub is_pointer : Shape → Bool
is_pointer pointer = true
is_pointer slice = false

-- The functions for pointers and slices, on what `build` makes of the substatement; a value that is
-- no node cannot be set.
set_field : Bytes → Built → Building → Result BuildError Building
set_field k (ok (some n)) b = ok (record b { children = add_child b.children k n })
set_field k (ok none) b = panic
set_field k (err e) b = err e
set_field k panic b = panic

unfoldable pub fill_field : Field → Bytes → Built → Building → Result BuildError Building
unfolding set_field
fill_field f k built b =
    if is_pointer f.shape && not (count_child k b.children == 0)
    then err (already_set k)
    else set_field k built b

-- `len(strings.Split(ss.Keyword, ":")) == 2`.
unfoldable pub is_extension : Bytes → Bool
is_extension k = length (split k (codes ":")) == 2

-- Every structure has an `Ext` field, so there is always an extension function.
unfoldable pub other_sub : Bytes → Statement → Building → Result BuildError Building
unfolding is_extension
other_sub kind s b =
    if is_extension (header s).keyword
    then ok (record b { extensions = add_sub b.extensions s })
    else err (unknown_field (header s) kind (header s).keyword)

-- One round of the loop over the substatements. The functions of the special tags are found by
-- their names too; that of `Parent` panics where there is no parent.
unfoldable pub build_sub :
    StructType → Bool → Bytes → Statement → Built → Building → Result BuildError Building
unfolding fill_field other_sub
build_sub t parented kind s built b =
    let k = (header s).keyword in
    if bytes_eq k (codes "Name")
    then (if bytes_eq b.name []
        then ok (record b { name = (header s).argument })
        else err (already_set k))
    else if bytes_eq k (codes "Statement")
    then ok (record b { source = s })
    else if bytes_eq k (codes "Parent")
    then (if parented then ok b else panic)
    else elim (lookup_field k (struct_of t).fields) [
      | some f ↦ fill_field f k built b
      | none ↦ other_sub kind s b
    ]

-- `y.required`, and `y.sRequired[kind]`.
unfoldable pub required : List Field → List Bytes
required [] = []
required (f ∷ fs) = if f.required then f.keyword ∷ required fs else required fs

abbrev pub for_kind : Bytes → Option Bytes → Bool
for_kind kind none = false
for_kind kind (some k) = bytes_eq k kind

abbrev pub for_other : Bytes → Option Bytes → Bool
for_other kind none = false
for_other kind (some k) = not (bytes_eq k kind)

unfoldable pub required_if : (Option Bytes → Bool) → List Field → List Bytes
required_if test [] = []
required_if test (f ∷ fs) =
    if test f.required_for then f.keyword ∷ required_if test fs else required_if test fs

-- The first of the keywords that no substatement has, and the first that one has.
unfoldable pub first_missing : List Bytes → Statements → Option Bytes
first_missing [] ss = none
first_missing (r ∷ rs) ss = if has_keyword r ss then first_missing rs ss else some r

unfoldable pub first_found : List Bytes → Statements → Option Bytes
first_found [] ss = none
first_found (r ∷ rs) ss = if has_keyword r ss then some r else first_found rs ss

-- The checks behind the loop.
unfoldable pub check_required : List Field → Header → Statements → Option BuildError
unfolding required required_if first_missing first_found
check_required fs h ss = elim (first_missing (required fs) ss) [
  | some r ↦ some (missing_field h r)
  | none ↦ elim (first_missing (required_if (for_kind h.keyword) fs) ss) [
    | some r ↦ some (missing_field h r)
    | none ↦ elim (first_found (required_if (for_other h.keyword) fs) ss) [
      | some r ↦ some (unknown_field h h.keyword r)
      | none ↦ none
    ]
  ]
]

abbrev pub finish : StructType → Header → Statements → Building → Built
finish t h ss b = elim (check_required (struct_of t).fields h ss) [
  | some e ↦ err e
  | none ↦ ok (some (node t b.name b.source b.children b.extensions))
]

-- A keyword of no structure: an extension is no error if its colon does not stand first.
unfoldable pub no_struct : Header → Built
no_struct h = elim (index_byte b':' h.keyword) [
  | some (suc i) ↦ ok none
  | _ ↦ err (unknown_statement h)
]

abbrev pub start : Header → Statements → Building
start h ss = record {
  name = h.argument;
  source = stmt h ss;
  children = no_children;
  extensions = end;
}

-- The substatements run only where the keyword names a structure.
unfoldable pub build_as :
    Option StructType → Header → Statements → (StructType → Result BuildError Building) → Built
unfolding no_struct
build_as none h ss loop = no_struct h
build_as (some t) h ss loop = loop t >>= λ b. finish t h ss b

-- The flag says whether there is a parent.
unfoldable mutual
  pub build : Bool → Statement → Built
  build parented (stmt h ss) =
      build_as (name_map (alias h.keyword)) h ss (λ t. build_subs ss t parented h (start h ss))

  pub build_subs : Statements → StructType → Bool → Header → Building → Result BuildError Building
  build_subs end t parented h b = ok b
  build_subs (sub s ss) t parented h b =
      let built = build true s in
      build_sub t parented h.keyword s built b >>= λ b'. build_subs ss t parented h b'

-- The value behind `v.Interface()`: there is none for an extension.
unfoldable pub build_ast : Statement → Result BuildError Node
build_ast s = elim (build false s) [
  | ok (some n) ↦ ok n
  | ok none ↦ panic
  | err e ↦ err e
  | panic ↦ panic
]
