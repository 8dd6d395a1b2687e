-- ===== src/ModuleSet/Lookup/Caches.antt =====
-- What the lookups by namespace and by prefix find, and that their caches do not change it.
pub mod Meaning
use mathlib.Core.Path.{subst}
use go_restconf.GoMap.{get, put, get-put}
use go_restconf.Values.{name_of}
use go_restconf.ModuleSet.{Module, Modules}
use go_restconf.ModuleSet.Lookup.{
  Found, found, no_such, matches_more, nil_field, Search, searched, two, stopped, field_name,
  search_round, search, remember, find_cached, find_module_by_namespace, find_module_by_prefix,
}
use go_restconf.Common.{
  bytes_eq, bytes_eq_iff, bytes_eq_refl, Bytes, codes, length, take, drop, replicate, get_elem?,
  length-append, take-length_append, drop-length_append, take-append-drop, length-take, length-drop,
  length-replicate, All, Any, All-append, ltb, leb, ◌==◌, if◌then◌else◌, is_some, ltb→lt, lt→ltb,
  ltb→le, le→ltb, ==_iff, Bool-cases, Option-cases, ℤ, pos, negsuc, pos_part, neg_part, ◌≤ℤ◌, ◌<ℤ◌,
  ltb_ℤ, eqb_ℤ, suc_ℤ, eqb_ℤ→eq, eqb_ℤ_refl, suc_ℤ_parts, Result, ok, err, panic, ◌>>=◌, passed_on,
  ℕ, zero, suc, ◌+◌, ◌-◌, ◌*◌, ◌/◌, ◌%◌, ◌^◌, ◌≤◌, ◌<◌, ◌≡◌, refl, sym, ap, ◌∙◌, ◌≢◌, ◌↔◌, ◌⊎◌, inl,
  inr, Bool, true, false, not, ◌&&◌, ◌||◌, Option, none, some, List, [], ◌∷◌, ◌++◌, map,
  append_assoc, append-nil, arith,
}
use go_restconf.ModuleSet.Lookup.Caches.Meaning.{
  IsMatch, IsOnly, IsThere, Means, Any-skip, Means-skip, some_eq, some_none, Means-again,
  Means-first, Means-two, Means-stopped, Means-end, some_bytes, no_match, match, round-Means,
  search-Means, IsAnswer, answers,
}

-- What a cached module or its absence stands for.
abbrev pub of_cache : Bytes → Option Module → Found
of_cache k none = no_such k
of_cache k (some m) = found m

-- Each entry of a cache is what the loop would answer.
abbrev pub IsCache : Bytes → List (Bytes × Option Module) → List (Bytes × Module) → Type 0
IsCache field cache ms =
    (k : Bytes) (c : Option Module) → get k cache ≡ some c → IsAnswer field k (of_cache k c) ms

cached_eq : {c d : Option Module} → some c ≡ some d → c ≡ d
cached_eq h = cc

module _ (field key : Bytes) (ms : List (Bytes × Module)) where
  put-IsCache :
      (c : Option Module) (cache : List (Bytes × Option Module))
      → IsCache field cache ms
      → IsAnswer field key (of_cache key c) ms
      → IsCache field (put key c cache) ms
  put-IsCache c cache h new k d e = elim (Bool-cases (bytes_eq key k)) [
    | inl same ↦
        let q : c ≡ d = cached_eq (rw same at (sym (get-put k key c cache) ∙ e)) in
        subst (λ j. IsAnswer field j (of_cache j d) ms) ((bytes_eq_iff key k).0 same)
          (subst (λ x. IsAnswer field key (of_cache key x) ms) q new)
    | inr other ↦ h k d (rw other at (sym (get-put k key c cache) ∙ e))
  ]

  remember-IsCache :
      (r : Search) (cache : List (Bytes × Option Module))
      → IsCache field cache ms
      → IsAnswer field key (remember key cache r).1 ms
      → IsCache field (remember key cache r).0 ms
  unfolding remember
  remember-IsCache (searched none) cache h a = put-IsCache none cache h a
  remember-IsCache (searched (some m)) cache h a = put-IsCache (some m) cache h a
  remember-IsCache (two f m) cache h a = h
  remember-IsCache stopped cache h a = h

  find_cached_lem :
      (cache : List (Bytes × Option Module))
      → IsCache field cache ms
      → IsAnswer field key (find_cached field key ms cache).1 ms
        × IsCache field (find_cached field key ms cache).0 ms
  unfolding find_cached
  find_cached_lem cache h = elim (Option-cases (get key cache)) [
    | inl e ↦
        let a =
          answers field key (search field key ms none) cache ms (search-Means field key ms none) in
        rw (e, find_cached) (a, remember-IsCache (search field key ms none) cache h a)
    | inr (none, e) ↦ rw (e, find_cached) (h key none e, h)
    | inr (some m, e) ↦ rw (e, find_cached) (h key (some m) e, h)
  ]

-- FindModuleByPrefix, on a cache that agrees with the modules, returns a module with the prefix where
-- all modules with it are the same one, no module where none has it, and an error where two have it;
-- it panics only where a module has no prefix; and the cache agrees with the modules again.
pub find_module_by_prefix_lem :
    (ms : Modules) (prefix : Bytes)
    → IsCache (codes "prefix") ms.by_prefix ms.modules
    → IsAnswer (codes "prefix") prefix (find_module_by_prefix ms prefix).1 ms.modules
      × IsCache (codes "prefix") (find_module_by_prefix ms prefix).0.by_prefix ms.modules
unfolding find_module_by_prefix
find_module_by_prefix_lem ms prefix h =
    find_cached_lem (codes "prefix") prefix ms.modules ms.by_prefix h

-- FindModuleByNamespace does the same with namespaces.
pub find_module_by_namespace_lem :
    (ms : Modules) (ns : Bytes)
    → IsCache (codes "namespace") ms.by_ns ms.modules
    → IsAnswer (codes "namespace") ns (find_module_by_namespace ms ns).1 ms.modules
      × IsCache (codes "namespace") (find_module_by_namespace ms ns).0.by_ns ms.modules
unfolding find_module_by_namespace
find_module_by_namespace_lem ms ns h = find_cached_lem (codes "namespace") ns ms.modules ms.by_ns h
