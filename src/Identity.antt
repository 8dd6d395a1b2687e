-- ===== src/Identity.antt =====
-- The identities of yang/identity.go: `appendIfNotIn`, `addChildren`, and the final sweep of
-- `resolveIdentities`, which makes the values of each identity all that are derived from it. An
-- identity is its address, and what it has as `Values` is a function of it, which the sweep changes.
pub mod Closure
pub mod Sweep
use go_restconf.Common.{
  bytes_eq, bytes_eq_iff, bytes_eq_refl, Bytes, codes, length, take, drop, replicate, get_elem?,
  length-append, take-length_append, drop-length_append, take-append-drop, length-take, length-drop,
  length-replicate, is_seen, All, Any, All-append, ltb, leb, ◌==◌, if◌then◌else◌, is_some, ltb→lt,
  lt→ltb, ltb→le, le→ltb, ==_iff, Bool-cases, Option-cases, ℤ, pos, negsuc, pos_part, neg_part,
  ◌≤ℤ◌, ◌<ℤ◌, ltb_ℤ, eqb_ℤ, suc_ℤ, eqb_ℤ→eq, eqb_ℤ_refl, suc_ℤ_parts, Result, ok, err, panic, ◌>>=◌,
  passed_on, ℕ, zero, suc, ◌+◌, ◌-◌, ◌*◌, ◌/◌, ◌%◌, ◌^◌, ◌≤◌, ◌<◌, ◌≡◌, refl, sym, ap, ◌∙◌, ◌≢◌,
  ◌↔◌, ◌⊎◌, inl, inr, Bool, true, false, not, ◌&&◌, ◌||◌, Option, none, some, List, [], ◌∷◌, ◌++◌,
  map, append_assoc, append-nil, arith,
}

abbrev pub Values : Type 0
Values = ℕ → List ℕ

unfoldable pub append_if_not_in : List ℕ → ℕ → List ℕ
append_if_not_in ids chk = if is_seen chk ids then ids else ids ++ chk ∷ []

-- The loop over the values, with what `addChildren` does to each.
unfoldable pub each_child : (ℕ → List ℕ → Option (List ℕ)) → List ℕ → List ℕ → Option (List ℕ)
each_child add [] ids = some ids
each_child add (ch ∷ chs) ids = elim (add ch ids) [
  | none ↦ none
  | some more ↦ each_child add chs more
]

-- `none` is too little fuel for the depth of the recursion.
unfoldable pub add_children : ℕ → Values → ℕ → List ℕ → Option (List ℕ)
unfolding append_if_not_in each_child
add_children zero values r ids = none
add_children (suc f) values r ids =
    each_child (add_children f values) (values r) (append_if_not_in ids r)

-- `i.Identity.Values = newValues`.
unfoldable pub assign : Values → ℕ → List ℕ → Values
assign values i new x = if x == i then new else values x

-- A round of the sweep, and the sweep over the identities in the order of the dictionary.
unfoldable pub sweep_round : ℕ → Values → ℕ → Option Values
unfolding add_children assign each_child
sweep_round f values i = elim (each_child (add_children f values) (values i) []) [
  | none ↦ none
  | some new ↦ some (assign values i new)
]

unfoldable pub sweep : ℕ → Values → List ℕ → Option Values
unfolding sweep_round
sweep f values [] = some values
sweep f values (i ∷ is) = elim (sweep_round f values i) [ none ↦ none | some v ↦ sweep f v is ]
