-- ===== src/Entry/Merge/Merged.antt =====
-- `merge` against the two maps of children.
use go_restconf.Entry.{
  GoError, Info, Entry, entry, nil_dir, dir, Entries, no_entries, item, Rpc, entries_of, dir_of,
  lookup, insert, IsMap,
}
use go_restconf.Entry.Errors.{add_error, import_errors}
use go_restconf.Entry.Merge.{put, mounted, merge_round, merge_each, merge}
use go_restconf.Entry.Merge.Maps.{dup_same, lookup-insert, insert-IsMap}
use go_restconf.Entry.Merge.Reports.{
  errors_down, import_errors_lem, report, new_error-report, reports, reports-insert,
}
use go_restconf.Common.{
  append-nil, append_assoc, sym, ap, bytes_eq, bytes_eq_iff, Bytes, Bool-cases, Option-cases, ℕ,
  suc, ◌≡◌, refl, ◌∙◌, inl, inr, Option, none, some, List, [], ◌∷◌, ◌++◌,
}

-- What a key has in two maps, of which the first goes first; the second one's entry is mounted.
abbrev pub first_of : Option Bytes → Option Bytes → Option Entry → Option Entry → Option Entry
first_of prefix namespace (some e) other = some e
first_of prefix namespace none none = none
first_of prefix namespace none (some v) = some (mounted prefix namespace v)

module _ (prefix namespace : Option Bytes) (oe : Entry) (r : Rpc) where
  first_old :
      (j k : Bytes) (se v : Entry) (cs vs : Entries)
      → lookup k cs ≡ some se
      → first_of prefix namespace (lookup j cs) (lookup j vs)
        ≡ first_of prefix namespace (lookup j cs) (lookup j (item k v vs))
  unfolding lookup
  first_old j k se v cs vs h = elim (Bool-cases (bytes_eq k j)) [
    | inl same ↦ let q : lookup j cs ≡ some se = rw (← (bytes_eq_iff k j).0 same) h in rw q refl
    | inr other ↦ rw other refl
  ]

  first_new :
      (j k : Bytes) (v : Entry) (cs vs : Entries)
      → lookup k cs ≡ none
      → first_of prefix namespace
          (lookup j (insert k (mounted prefix namespace v) cs))
          (lookup j vs)
        ≡ first_of prefix namespace (lookup j cs) (lookup j (item k v vs))
  unfolding lookup
  first_new j k v cs vs h =
      let l = lookup-insert j k (mounted prefix namespace v) cs h in
      elim (Bool-cases (bytes_eq k j)) [
        | inl same ↦
            let q : lookup j cs ≡ none = rw (← (bytes_eq_iff k j).0 same) h in rw (l, same, q) refl
        | inr other ↦ rw (l, other) refl
      ]

  -- The loop over `vs` gives the entry with errors `es` and children `cs` more errors and children.
  record Loop (fresh : ℕ) (vs : Entries) (i : Info) (es : List GoError) (cs : Entries)
      : Type 0 where
    reported : List GoError
    children : Entries
    runs :
        merge_each fresh prefix namespace oe vs (entry (record i { errors = es }) r (dir cs))
        ≡ some (entry (record i { errors = reported }) r (dir children))
    found : (j : Bytes) → lookup j children ≡ first_of prefix namespace (lookup j cs) (lookup j vs)
    listed : reported ≡ es ++ reports fresh oe i.name vs cs
    is_map : IsMap children

  loop_old :
      (fresh : ℕ) (k : Bytes) (v se : Entry) (vs : Entries) (i : Info) (es : List GoError)
      (cs : Entries)
      → lookup k cs ≡ some se
      → Loop (suc fresh) vs i (es ++ report fresh oe i.name k v se ∷ []) cs
      → Loop fresh (item k v vs) i es cs
  unfolding merge_each merge_round add_error lookup
  loop_old fresh k v se vs i es cs h next = record {
    reported = next.reported;
    children = next.children;
    runs =
        rw (h, dup_same v, new_error-report fresh oe i.name k prefix namespace v se, merge_each)
          next.runs;
    found = λ j. next.found j ∙ first_old j k se v cs vs h;
    listed =
        unfold reports in
        rw (h, reports)
          (next.listed
            ∙ append_assoc es (report fresh oe i.name k v se ∷ [])
                (reports (suc fresh) oe i.name vs cs));
    is_map = next.is_map;
  }

  loop_new :
      (fresh : ℕ) (k : Bytes) (v : Entry) (vs : Entries) (i : Info) (es : List GoError)
      (cs : Entries)
      → lookup k cs ≡ none
      → lookup k vs ≡ none
      → Loop (suc fresh) vs i es (insert k (mounted prefix namespace v) cs)
      → Loop fresh (item k v vs) i es cs
  unfolding merge_each merge_round put lookup
  loop_new fresh k v vs i es cs h g next = record {
    reported = next.reported;
    children = next.children;
    runs = rw (h, dup_same v, merge_each) next.runs;
    found = λ j. next.found j ∙ first_new j k v cs vs h;
    listed =
        unfold reports in
        rw (h, reports)
          (next.listed
            ∙ ap (λ rest. es ++ rest)
                (reports-insert (suc fresh) oe i.name k (mounted prefix namespace v) vs cs g h));
    is_map = next.is_map;
  }

  merge_loop :
      (fresh : ℕ) (vs : Entries) (i : Info) (es : List GoError) (cs : Entries)
      → IsMap vs
      → IsMap cs
      → Loop fresh vs i es cs
  unfolding merge_each reports lookup IsMap
  merge_loop fresh no_entries i es cs m n = record {
    reported = es;
    children = cs;
    runs = refl;
    found = λ j. elim (Option-cases (lookup j cs)) [ inl e ↦ rw e refl | inr (se, e) ↦ rw e refl ];
    listed = sym (append-nil es);
    is_map = n;
  }
  merge_loop fresh (item k v vs) i es cs (f, m) n = elim (Option-cases (lookup k cs)) [
    | inl new ↦ loop_new fresh k v vs i es cs new f (
        merge_loop (suc fresh) vs i es (insert k (mounted prefix namespace v) cs) m
          (insert-IsMap k (mounted prefix namespace v) cs new n))
    | inr (se, old) ↦
        loop_old fresh k v se vs i es cs old
          (merge_loop (suc fresh) vs i (es ++ report fresh oe i.name k v se ∷ []) cs m n)
  ]

-- What `merge` makes of an entry with children `cs`: the children with what the other entry has for
-- keys that are new, and its errors, then those of the other entry and of what is below it, and then
-- one for each common key.
pub record IsMerged (fresh : ℕ) (prefix namespace : Option Bytes) (i : Info) (r : Rpc)
    (cs : Entries) (oe : Entry) (run : Option Entry) : Type 0 where
  pub reported : List GoError
  pub children : Entries
  pub runs : run ≡ some (entry (record i { errors = reported }) r (dir children))
  pub found :
      (j : Bytes)
      → lookup j children
        ≡ first_of prefix namespace (lookup j cs) (lookup j (entries_of (dir_of oe)))
  pub listed :
      reported ≡ i.errors ++ errors_down oe ++ reports fresh oe i.name (entries_of (dir_of oe)) cs
  pub is_map : IsMap children

-- `merge` into an entry that has a map of children does not panic: a key of the entry keeps what it
-- had, a new key of the other entry has its child with the prefix and the namespace that are given,
-- and its errors are those it had, then those of the other entry and of what is below it through
-- children, and then one for each common key, which names the key, the entry, and the places and the
-- names of both children.
pub merge_lem :
    (fresh : ℕ) (prefix namespace : Option Bytes) (i : Info) (r : Rpc) (cs : Entries) (oe : Entry)
    → IsMap cs
    → IsMap (entries_of (dir_of oe))
    → IsMerged fresh prefix namespace i r cs oe
        (merge fresh prefix namespace (entry i r (dir cs)) oe)
unfolding merge
merge_lem fresh prefix namespace i r cs oe n m =
    let l =
      merge_loop prefix namespace oe r fresh (entries_of (dir_of oe)) i (import_errors i.errors oe)
        cs m n in
    record {
      reported = l.reported;
      children = l.children;
      runs = l.runs;
      found = l.found;
      listed =
          l.listed
          ∙ ap (λ es. es ++ reports fresh oe i.name (entries_of (dir_of oe)) cs)
              (import_errors_lem i.errors oe);
      is_map = l.is_map;
    }

-- `merge` of an entry that has a child into one whose map is nil panics.
pub merge_panics :
    (fresh : ℕ) (prefix namespace : Option Bytes) (i o : Info) (r q : Rpc) (k : Bytes) (v : Entry)
    (vs : Entries)
    → merge fresh prefix namespace (entry i r nil_dir) (entry o q (dir (item k v vs))) ≡ none
unfolding merge merge_each merge_round put lookup
merge_panics fresh prefix namespace i o r q k v vs = refl
