-- ===== src/ModuleSet/Lookup.antt =====
-- `FindModuleByNamespace` and `FindModuleByPrefix` of yang/modules.go, which differ in the field of a
-- module that they compare and in their cache.
pub mod Caches
use go_restconf.GoMap.{get, put}
use go_restconf.Ast.{Node, children_of}
use go_restconf.Values.{name_of, field_child}
use go_restconf.ModuleSet.{Module, Modules}
use go_restconf.Common.{
  bytes_eq, bytes_eq_iff, bytes_eq_refl, Bytes, codes, length, take, drop, replicate, get_elem?,
  length-append, take-length_append, drop-length_append, take-append-drop, length-take, length-drop,
  length-replicate, All, Any, All-append, ltb, leb, ◌==◌, if◌then◌else◌, is_some, ltb→lt, lt→ltb,
  ltb→le, le→ltb, ==_iff, Bool-cases, Option-cases, ℤ, pos, negsuc, pos_part, neg_part, ◌≤ℤ◌, ◌<ℤ◌,
  ltb_ℤ, eqb_ℤ, suc_ℤ, eqb_ℤ→eq, eqb_ℤ_refl, suc_ℤ_parts, Result, ok, err, panic, ◌>>=◌, passed_on,
  ℕ, zero, suc, ◌+◌, ◌-◌, ◌*◌, ◌/◌, ◌%◌, ◌^◌, ◌≤◌, ◌<◌, ◌≡◌, refl, sym, ap, ◌∙◌, ◌≢◌, ◌↔◌, ◌⊎◌, inl,
  inr, Bool, true, false, not, ◌&&◌, ◌||◌, Option, none, some, List, [], ◌∷◌, ◌++◌, map,
  append_assoc, append-nil, arith,
}

-- What the lookups return; `nil_field` is the panic of a module without the field.
pub data Found : Type 0 where
  found : Module → Found
  no_such : Bytes → Found
  matches_more : Bytes → Bytes → Bytes → Found
  nil_field : Found

pub data Search : Type 0 where
  searched : Option Module → Search
  two : Module → Module → Search
  stopped : Search

-- The name of the value in a field of a module.
unfoldable pub field_name : Bytes → Module → Option Bytes
unfolding field_child
field_name field m = elim (field_child field (children_of m.node)) [
  | none ↦ none
  | some v ↦ some (name_of v)
]

-- A round of the loop over the modules; `so_far` is `found`.
abbrev pub search_round :
    Bytes → Module → Option Bytes → Option Module → (Option Module → Search) → Search
search_round key m none so_far rest = stopped
search_round key m (some v) none rest = if bytes_eq v key then rest (some m) else rest none
search_round key m (some v) (some f) rest =
    if bytes_eq v key
    then (if f.address == m.address then rest (some f) else two f m)
    else rest (some f)

unfoldable pub search : Bytes → Bytes → List (Bytes × Module) → Option Module → Search
unfolding field_name
search field key [] so_far = searched so_far
search field key ((k, m) ∷ ms) so_far =
    search_round key m (field_name field m) so_far (search field key ms)

-- What the cache is behind the loop, and what is returned.
unfoldable pub remember :
    Bytes → List (Bytes × Option Module) → Search → List (Bytes × Option Module) × Found
unfolding put
remember key cache (searched none) = (put key none cache, no_such key)
remember key cache (searched (some m)) = (put key (some m) cache, found m)
remember key cache (two f m) = (cache, matches_more key (name_of f.node) (name_of m.node))
remember key cache stopped = (cache, nil_field)

unfoldable pub find_cached :
    Bytes
    → Bytes
    → List (Bytes × Module)
    → List (Bytes × Option Module)
    → List (Bytes × Option Module) × Found
unfolding get remember search
find_cached field key ms cache = elim (get key cache) [
  | some (some m) ↦ (cache, found m)
  | some none ↦ (cache, no_such key)
  | none ↦ remember key cache (search field key ms none)
]

unfoldable pub find_module_by_namespace : Modules → Bytes → Modules × Found
unfolding find_cached
find_module_by_namespace ms ns =
    let r = find_cached (codes "namespace") ns ms.modules ms.by_ns in
    (record ms { by_ns = r.0 }, r.1)

unfoldable pub find_module_by_prefix : Modules → Bytes → Modules × Found
unfolding find_cached
find_module_by_prefix ms prefix =
    let r = find_cached (codes "prefix") prefix ms.modules ms.by_prefix in
    (record ms { by_prefix = r.0 }, r.1)
