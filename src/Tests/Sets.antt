-- ===== src/Tests/Sets.antt =====
-- Sets of modules, types and requests at concrete inputs.
use go_restconf.GoMap.{get}
use go_restconf.Statement.{stmt, end}
use go_restconf.Schema.{StructType}
use go_restconf.Ast.{Node, node, Children, no_children, child}
use go_restconf.BaseTypes.{y_int8, YangType, yang_type, no_types, type_equal}
use go_restconf.BaseTypes.Table.{base_facts}
use go_restconf.BaseTypes.Equal.{meaning_of, type_equal-meaning_of}
use go_restconf.ModuleSet.{Module, Modules, new_modules, add}
use go_restconf.ModuleSet.Newest.{IsModuleSet, new_modules-IsModuleSet, add-IsModuleSet}
use go_restconf.ModuleSet.Lookup.{find_module_by_prefix}
use go_restconf.ModuleSet.Lookup.Caches.Meaning.{IsAnswer}
use go_restconf.ModuleSet.Lookup.Caches.{IsCache, find_module_by_prefix_lem}
use go_restconf.ModuleSet.Loading.{include}
use go_restconf.ModuleSet.Includes.Growth.{IsBounded, unseen}
use go_restconf.ModuleSet.Includes.{Returns, include-Returns}
use go_restconf.Identity.{Values, sweep}
use go_restconf.Identity.Closure.{IsRanked, IsDerived}
use go_restconf.Identity.Sweep.{sweep_lem}
use go_restconf.RestConf.{Request, Document, Mux, root, serve_http, clean_path}
use go_restconf.RestConf.Paths.{IsClean, clean_path-IsClean, clean_path_idempotent}
use go_restconf.RestConf.Answers.{IsServed, NotPrefix, serve_http_lem}
use go_restconf.Common.{
  bytes_eq, Bytes, codes, is_seen, All, if◌then◌else◌, ℕ, zero, suc, ◌+◌, ◌<◌, ◌≡◌, refl, ◌↔◌, ◌⊎◌,
  inl, Bool, true, false, Option, none, some, [], ◌∷◌, arith,
}

abbrev field_of : Bytes → Bytes → Children → Children
field_of k v cs =
    child k
      (node StructType.value v
        (stmt
          (record {
            keyword = k;
            has_argument = true;
            argument = v;
            file = codes "m.yang";
            line = 1;
            col = 1;
          })
          end)
        no_children end)
      cs

abbrev small_module : Bytes → Children → Node
small_module n cs =
    node StructType.yang_module n
      (stmt
        (record {
          keyword = codes "module";
          has_argument = true;
          argument = n;
          file = codes "m.yang";
          line = 1;
          col = 1;
        })
        end)
      cs end

abbrev m_node : Node
m_node = small_module (codes "m") (field_of (codes "prefix") (codes "p") no_children)

-- It imports a module that is not in the set.
abbrev n_node : Node
n_node = small_module (codes "n") (
    child (codes "import")
      (node StructType.import (codes "x")
        (stmt
          (record {
            keyword = codes "import";
            has_argument = true;
            argument = codes "x";
            file = codes "n.yang";
            line = 2;
            col = 1;
          })
          end)
        no_children end)
      no_children)

abbrev one_module : Modules
one_module = (add new_modules m_node).0

add-IsModuleSet_example : IsModuleSet (add new_modules m_node).0
add-IsModuleSet_example =
    add-IsModuleSet new_modules m_node (ground arith, tt) new_modules-IsModuleSet

new_modules-IsCache : IsCache (codes "prefix") new_modules.by_prefix new_modules.modules
unfolding new_modules get
new_modules-IsCache k c h = absurd (cc)

abbrev filled : Modules
filled = record {
  modules = (codes "m", record { address = 0; node = m_node }) ∷ [];
  sub_modules = [];
  includes = [];
  by_prefix = [];
  by_ns = [];
  links = [];
  next = 1;
}

filled_run : (add new_modules m_node).0 ≡ filled
unfolding add new_modules
filled_run = refl

filled-IsCache : IsCache (codes "prefix") filled.by_prefix filled.modules
unfolding get
filled-IsCache k c h = absurd (cc)

find_module_by_prefix_lem_example :
    IsAnswer
      (codes "prefix")
      (codes "p")
      (find_module_by_prefix filled (codes "p")).1
      filled.modules
    × IsCache (codes "prefix") (find_module_by_prefix filled (codes "p")).0.by_prefix filled.modules
find_module_by_prefix_lem_example = find_module_by_prefix_lem filled (codes "p") filled-IsCache

abbrev importing : Modules
importing = record {
  modules = (codes "n", record { address = 0; node = n_node }) ∷ [];
  sub_modules = [];
  includes = [];
  by_prefix = [];
  by_ns = [];
  links = [];
  next = 1;
}

one_below :
    (b : Bool) (x a : Module) (n : ℕ)
    → (if b then some x else none) ≡ some a
    → x.address < n
    → a.address < n
one_below true x a n h l = let q : x ≡ a = cc in rw (← q) l
one_below false x a n h l = absurd (cc)

importing-IsBounded : IsBounded importing
unfolding get
importing-IsBounded = record {
  modules_below = λ k a h.
      one_below (bytes_eq (codes "n") k) (record { address = 0; node = n_node }) a 1 h
        (omega arith);
  sub_modules_below = λ k a h. absurd (cc);
}

abbrev no_file : Bytes → ℕ → ℕ × Option (Bytes × Bytes)
no_file name reads = (reads + 1, none)

include-Returns_example :
    Returns no_file
      (λ name w. refl)
      (importing, 0)
      (include no_file 2 (record { address = 0; node = n_node }) (importing, 0))
unfolding unseen
include-Returns_example =
    include-Returns no_file (λ name w. refl) 2 (record { address = 0; node = n_node })
      (importing, 0) (omega arith) importing-IsBounded (omega arith)

abbrev alike : Bytes → YangType
alike n = yang_type n (base_facts y_int8 []) none none no_types

type_equal-meaning_of_example :
    (type_equal (alike (codes "a")) (alike (codes "b")) ≡ true)
    ↔ (meaning_of (alike (codes "a")) ≡ meaning_of (alike (codes "b")))
type_equal-meaning_of_example = type_equal-meaning_of (alike (codes "a")) (alike (codes "b"))

clean_path_run : clean_path (codes "a/./b/..//c/") ≡ codes "/a/c/"
unfolding clean_path
clean_path_run = refl

clean_path-IsClean_example : IsClean (clean_path (codes "a/./b/..//c/"))
clean_path-IsClean_example = clean_path-IsClean (codes "a/./b/..//c/")

clean_path_idempotent_example :
    clean_path (clean_path (codes "a/./b/..//c/")) ≡ clean_path (codes "a/./b/..//c/")
clean_path_idempotent_example = clean_path_idempotent (codes "a/./b/..//c/")

abbrev no_encoder : Bytes → Document → Bytes ⊎ Bytes
no_encoder format d = inl (codes "none")

abbrev get_root : Request
get_root = record {
  method = codes "GET";
  accept = codes "application/yang-data+xml";
  url_path = codes "/restconf/";
}

abbrev one_handler : Mux
one_handler = (codes "/restconf", root) ∷ []

serve_http_lem_example :
    ((serve_http no_encoder (codes "now") one_handler get_root).status ≡ 404)
      × All (NotPrefix (clean_path get_root.url_path)) one_handler
    ⊎ IsServed (codes "now") get_root (serve_http no_encoder (codes "now") one_handler get_root)
serve_http_lem_example = serve_http_lem no_encoder (codes "now") one_handler get_root

-- The first identity is derived from the second one, and that one from the third.
abbrev chain : Values
chain zero = []
chain (suc zero) = 0 ∷ []
chain (suc (suc zero)) = 1 ∷ []
chain (suc (suc (suc n))) = []

abbrev chain_rank : ℕ → ℕ
chain_rank zero = 0
chain_rank (suc zero) = 1
chain_rank (suc (suc zero)) = 2
chain_rank (suc (suc (suc n))) = 0

chain-IsRanked : IsRanked chain_rank chain
chain-IsRanked zero c h = absurd (cc)
chain-IsRanked (suc zero) zero h = omega arith
chain-IsRanked (suc zero) (suc c) h = absurd (ground arith)
chain-IsRanked (suc (suc zero)) zero h = omega arith
chain-IsRanked (suc (suc zero)) (suc zero) h = omega arith
chain-IsRanked (suc (suc zero)) (suc (suc c)) h = absurd (ground arith)
chain-IsRanked (suc (suc (suc n))) c h = absurd (cc)

chain_deep : (x : ℕ) → chain_rank x < 3
chain_deep zero = omega arith
chain_deep (suc zero) = omega arith
chain_deep (suc (suc zero)) = omega arith
chain_deep (suc (suc (suc n))) = omega arith

sweep_lem_example :
    (final : Values) × (sweep 3 chain (1 ∷ 2 ∷ 0 ∷ []) ≡ some final)
    × ((x : ℕ)
        → is_seen x (1 ∷ 2 ∷ 0 ∷ []) ≡ true
        → (y : ℕ) → (is_seen y (final x) ≡ true) ↔ IsDerived chain x y)
sweep_lem_example = sweep_lem 3 chain chain_rank (1 ∷ 2 ∷ 0 ∷ []) chain-IsRanked chain_deep
