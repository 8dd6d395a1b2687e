-- ===== src/Tests/Entries.antt =====
-- Entries at concrete inputs.
use go_restconf.GoText.{join, split_cuts}
use go_restconf.Entry.{
  ts_unset, EntryKind, leaf_entry, directory_entry, choice_entry, GoError, NodeView, Info, Entry,
  entry, nil_dir, dir, Entries, no_entries, item, nil_rpc, IsMap, lookup, entries_of, dir_of,
}
use go_restconf.Entry.Sort.{error_sort, less, compare_field, nless}
use go_restconf.Entry.Sort.Order.{IsSorted, error_sort_lem}
use go_restconf.GoText.Digits.{parse_int}
use go_restconf.Entry.Errors.{get_errors, check_list}
use go_restconf.Entry.Errors.Complete.{errors_of, get_errors_lem}
use go_restconf.Entry.Choice.{fix_choice}
use go_restconf.Entry.Choice.Fixed.{
  IsFixed, fix_choice-IsFixed, fix_choice_idempotent, leaves, leaves-fix_choice,
}
use go_restconf.Entry.Merge.{merge, mounted}
use go_restconf.Entry.Merge.Merged.{IsMerged, merge_lem}
use go_restconf.Entry.Place.{find_relative, namespace_of}
use go_restconf.Entry.Place.Finding.{
  IsPlain, Reaches, here, down, find_relative-Reaches, find_relative_back,
}
use go_restconf.Entry.Place.Inherit.{merge-namespace_of}
use go_restconf.Common.{
  Bytes, codes, ℕ, zero, suc, ◌<◌, ◌≡◌, refl, ◌⊎◌, inr, false, none, some, List, [], ◌∷◌, arith,
}

abbrev view : Bytes → NodeView
view n = record {
  location = codes "m.yang:1:1";
  node_name = n;
  is_leaf_node = false;
  mandatory = none;
  root_namespace = none;
}

abbrev plain_info : Bytes → EntryKind → List GoError → Info
plain_info n k es = record {
  source = view n;
  name = n;
  description = [];
  default = [];
  errors = es;
  kind = k;
  config = ts_unset;
  prefix = none;
  key = [];
  type_default = none;
  list_attr = none;
  namespace = none;
}

abbrev first_error : GoError
first_error = record { id = 0; text = codes "m.yang:9: bad" }

abbrev second_error : GoError
second_error = record { id = 1; text = codes "m.yang:10: worse" }

abbrev texts : ℕ → Bytes
texts zero = codes "m.yang:9: bad"
texts (suc n) = codes "m.yang:10: worse"

abbrev a_leaf : Entry
a_leaf = entry (plain_info (codes "a") leaf_entry (first_error ∷ [])) nil_rpc nil_dir

abbrev b_leaf : Entry
b_leaf = entry (plain_info (codes "b") leaf_entry []) nil_rpc nil_dir

abbrev a_only : Entries
a_only = item (codes "a") a_leaf no_entries

abbrev a_choice : Entry
a_choice = entry (plain_info (codes "c") choice_entry []) nil_rpc (dir a_only)

abbrev tree_info : Info
tree_info = plain_info (codes "top") directory_entry (second_error ∷ first_error ∷ [])

abbrev tree : Entry
tree = entry tree_info nil_rpc (dir a_only)

get_errors_run : get_errors (λ es. none) tree ≡ some (first_error ∷ second_error ∷ [])
unfolding get_errors error_sort check_list less split_cuts compare_field nless parse_int
get_errors_run = refl

get_errors_lem_example :
    (out : List GoError) × (get_errors (λ es. none) tree ≡ some out) × IsSorted (errors_of tree) out
unfolding errors_of split_cuts
get_errors_lem_example =
    get_errors_lem (λ es. none) tree texts (omega arith) (refl, (refl, (refl, tt)))
      (omega arith, (omega arith, (omega arith, tt)))

error_sort_lem_example :
    (out : List GoError) × (error_sort (λ es. none) (second_error ∷ first_error ∷ []) ≡ some out)
    × IsSorted (second_error ∷ first_error ∷ []) out
unfolding split_cuts
error_sort_lem_example =
    error_sort_lem (λ es. none) (second_error ∷ first_error ∷ []) (omega arith)
      (omega arith, (omega arith, tt))

fix_choice-IsFixed_example : IsFixed (fix_choice a_choice)
fix_choice-IsFixed_example = fix_choice-IsFixed a_choice

fix_choice_idempotent_example : fix_choice (fix_choice a_choice) ≡ fix_choice a_choice
fix_choice_idempotent_example = fix_choice_idempotent a_choice

leaves-fix_choice_example : leaves (fix_choice a_choice) ≡ leaves a_choice
leaves-fix_choice_example = leaves-fix_choice a_choice

abbrev both_leaves : Entries
both_leaves = item (codes "a") a_leaf (item (codes "b") b_leaf no_entries)

abbrev other : Entry
other = entry (plain_info (codes "aug") directory_entry []) nil_rpc (dir both_leaves)

a_only-IsMap : IsMap a_only
unfolding IsMap lookup
a_only-IsMap = (refl, tt)

both_leaves-IsMap : IsMap both_leaves
unfolding IsMap lookup
both_leaves-IsMap = (refl, (refl, tt))

merge_lem_example :
    IsMerged 2 none
      (some (codes "urn:x"))
      tree_info
      nil_rpc
      a_only
      other
      (merge 2 none (some (codes "urn:x")) tree other)
merge_lem_example =
    merge_lem 2 none (some (codes "urn:x")) tree_info nil_rpc a_only other a_only-IsMap
      both_leaves-IsMap

abbrev merged : Entry
merged =
    entry
      (plain_info (codes "top") directory_entry (
        second_error
        ∷ first_error
        ∷ first_error
        ∷ record {
          id = 2;
          text =
              codes
                "m.yang:1:1: Duplicate node \"a\" in \"top\" from:\n   m.yang:1:1: a\n   m.yang:1:1: a";
        }
        ∷ []))
      nil_rpc
      (dir (
        item (codes "a") a_leaf
          (item (codes "b") (mounted none (some (codes "urn:x")) b_leaf) no_entries)))

merge_run : merge 2 none (some (codes "urn:x")) tree other ≡ some merged
unfolding merge mounted
merge_run = refl

a_has_no_b : lookup (codes "b") a_only ≡ none
unfolding lookup
a_has_no_b = refl

other_has_b : lookup (codes "b") both_leaves ≡ some b_leaf
unfolding lookup
other_has_b = refl

merge-namespace_of_example :
    (c : Entry) × (lookup (codes "b") (entries_of (dir_of merged)) ≡ some c)
    × (namespace_of c (merged ∷ []) ≡ some (codes "urn:x"))
merge-namespace_of_example =
    merge-namespace_of 2 none (codes "urn:x") tree_info nil_rpc a_only other b_leaf merged
      (codes "b") [] a_only-IsMap both_leaves-IsMap a_has_no_b other_has_b merge_run

a_has_a : lookup (codes "a") a_only ≡ some a_leaf
unfolding lookup
a_has_a = refl

top_has_c : lookup (codes "c") (item (codes "c") a_choice no_entries) ≡ some a_choice
unfolding lookup
top_has_c = refl

abbrev above : Entry
above = entry tree_info nil_rpc (dir (item (codes "c") a_choice no_entries))

letter-IsPlain : (c : ℕ) → 47 < c → c < 58 ⊎ 58 < c → IsPlain (c ∷ [])
letter-IsPlain c low apart = record {
  not_empty = refl;
  no_slash = (ground arith, tt);
  no_colon = (ground arith, tt);
  not_self = ground arith;
  not_parent = ground arith;
}

way_down : Reaches (above ∷ []) (codes "c" ∷ codes "a" ∷ []) (a_leaf ∷ a_choice ∷ above ∷ [])
way_down =
    down above [] (codes "c") a_choice (codes "a" ∷ []) (a_leaf ∷ a_choice ∷ above ∷ [])
      (letter-IsPlain b'c' (omega arith) (inr (omega arith))) refl top_has_c
      (down a_choice (above ∷ []) (codes "a") a_leaf [] (a_leaf ∷ a_choice ∷ above ∷ [])
        (letter-IsPlain b'a' (omega arith) (inr (omega arith))) refl a_has_a
        (here (a_leaf ∷ a_choice ∷ above ∷ [])))

find_relative-Reaches_example :
    find_relative (above ∷ []) (codes "c/a") ≡ a_leaf ∷ a_choice ∷ above ∷ []
unfolding join
find_relative-Reaches_example =
    find_relative-Reaches above [] (a_leaf ∷ a_choice ∷ above ∷ []) (codes "c") (codes "a" ∷ [])
      way_down

find_relative_back_example :
    find_relative (a_leaf ∷ a_choice ∷ above ∷ []) (codes "../..") ≡ above ∷ []
unfolding join
find_relative_back_example =
    find_relative_back above [] (a_leaf ∷ a_choice ∷ above ∷ []) (codes "c") (codes "a" ∷ [])
      way_down
