-- ===== src/ModuleSet.antt =====
-- The set of modules of yang/modules.go: `Modules`, `add`, `Parse`, `Read`, `FindModule` and the
-- lookups by namespace and by prefix. A module is a node with the address of its structure, which `==`
-- on pointers compares; the set that it points to is the set that holds it.
pub mod Newest
pub mod Lookup
pub mod Loading
pub mod Includes
use go_restconf.GoMap.{get, put}
use go_restconf.Statement.{Statement, Statements, end, sub}
use go_restconf.Lexer.{LexError, Run}
use go_restconf.Schema.{StructType, struct_of, Struct}
use go_restconf.Ast.{BuildError, Node, type_of, children_of, build_ast}
use go_restconf.Parser.{Parsed, parsed, failed, parse}
use go_restconf.Values.{name_of, text_less, full_name, field_child}
use go_restconf.Common.{
  bytes_eq, bytes_eq_iff, bytes_eq_refl, Bytes, codes, length, take, drop, replicate, get_elem?,
  length-append, take-length_append, drop-length_append, take-append-drop, length-take, length-drop,
  length-replicate, All, Any, All-append, ltb, leb, ◌==◌, if◌then◌else◌, is_some, ltb→lt, lt→ltb,
  ltb→le, le→ltb, ==_iff, Bool-cases, Option-cases, ℤ, pos, negsuc, pos_part, neg_part, ◌≤ℤ◌, ◌<ℤ◌,
  ltb_ℤ, eqb_ℤ, suc_ℤ, eqb_ℤ→eq, eqb_ℤ_refl, suc_ℤ_parts, Result, ok, err, panic, ◌>>=◌, passed_on,
  ℕ, zero, suc, ◌+◌, ◌-◌, ◌*◌, ◌/◌, ◌%◌, ◌^◌, ◌≤◌, ◌<◌, ◌≡◌, refl, sym, ap, ◌∙◌, ◌≢◌, ◌↔◌, ◌⊎◌, inl,
  inr, Bool, true, false, not, ◌&&◌, ◌||◌, Option, none, some, List, [], ◌∷◌, ◌++◌, map,
  append_assoc, append-nil, arith,
}

pub record Module : Type 0 where
  pub address : ℕ
  pub node : Node

-- The pointer that `include` stores in the statement at a position of a module.
pub record Link : Type 0 where
  pub holder : ℕ
  pub keyword : Bytes
  pub position : ℕ
  pub target : ℕ

pub record Modules : Type 0 where
  pub modules : List (Bytes × Module)
  pub sub_modules : List (Bytes × Module)
  pub includes : List ℕ
  pub by_prefix : List (Bytes × Option Module)
  pub by_ns : List (Bytes × Option Module)
  pub links : List Link
  pub next : ℕ

unfoldable pub new_modules : Modules
new_modules = record {
  modules = [];
  sub_modules = [];
  includes = [];
  by_prefix = [];
  by_ns = [];
  links = [];
  next = 0;
}

is_module : StructType → Bool
is_module StructType.yang_module = true
is_module _ = false

-- `n.Kind()`, which a module computes.
unfoldable pub kind_of : Node → Bytes
unfolding is_module struct_of field_child
kind_of n =
    if is_module (type_of n)
    then (if is_some (field_child (codes "belongs-to") (children_of n))
        then codes "submodule"
        else codes "module")
    else (struct_of (type_of n)).kind

pub data AddError : Type 0 where
  not_a_module : Bytes → Bytes → AddError
  duplicate : Bytes → Bytes → AddError

-- Whether `add` lets the name of a module stand for it: `o` is what the name stands for.
unfoldable pub takes_name : Option Module → Bytes → Bool
unfolding text_less full_name
takes_name none full = true
takes_name (some o) full = text_less (full_name o.node) full

-- `add` behind its switch, on the map that the switch chose.
unfoldable pub add_to : List (Bytes × Module) → Module → List (Bytes × Module) × Bool
unfolding get put takes_name full_name
add_to m new =
    let name = name_of new.node in
    let full = full_name new.node in
    if is_some (get full m)
    then (m, false)
    else if bytes_eq full name
    then (put full new m, true)
    else if takes_name (get name (put full new m)) full
    then (put name new (put full new m), true)
    else (put full new m, true)

added : Bytes → Bytes → Bool → Option AddError
added kind full true = none
added kind full false = some (duplicate kind full)

-- The new structure has the next address.
unfoldable pub add : Modules → Node → Modules × Option AddError
unfolding add_to kind_of added full_name
add ms n =
    let new : Module = record { address = ms.next; node = n } in
    let full = full_name n in
    let counted : Modules = record ms { next = suc ms.next } in
    if bytes_eq (kind_of n) (codes "module")
    then (
      record counted { modules = (add_to ms.modules new).0 },
      added (codes "module") full (add_to ms.modules new).1,
    )
    else if bytes_eq (kind_of n) (codes "submodule")
    then (
      record counted { sub_modules = (add_to ms.sub_modules new).0 },
      added (codes "submodule") full (add_to ms.sub_modules new).1,
    )
    else (counted, some (not_a_module (name_of n) (kind_of n)))
