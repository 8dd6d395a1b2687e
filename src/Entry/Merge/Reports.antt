-- ===== src/Entry/Merge/Reports.antt =====
-- The errors that `merge` of yang/entry.go adds to an entry, listed.
use go_restconf.Entry.{
  GoError, Entry, entry, nil_dir, dir, Entries, no_entries, item, info, lookup, insert,
}
use go_restconf.Entry.Errors.{new_error, import_errors, import_each}
use go_restconf.Entry.Merge.{duplicate_text, mounted, quoted}
use go_restconf.Entry.Merge.Maps.{lookup-insert}
use go_restconf.Common.{
  bytes_eq, bytes_eq_iff, Bytes, codes, Bool-cases, ℕ, suc, ◌≡◌, refl, sym, ◌∙◌, inl, inr, Option,
  none, some, List, [], ◌∷◌, ◌++◌, append_assoc, append-nil,
}

-- Texts one behind the other.
unfoldable pub concat : List Bytes → Bytes
concat [] = []
concat (t ∷ []) = t
concat (t ∷ u ∷ ts) = t ++ concat (u ∷ ts)

-- The errors of an entry and behind them those of its children, and so on.
unfoldable mutual
  pub errors_down : Entry → List GoError
  errors_down (entry i r nil_dir) = i.errors
  errors_down (entry i r (dir cs)) = i.errors ++ errors_down_each cs

  pub errors_down_each : Entries → List GoError
  errors_down_each no_entries = []
  errors_down_each (item k c cs) = errors_down c ++ errors_down_each cs

mutual
  unfolding import_errors errors_down

  pub import_errors_lem : (es : List GoError) (e : Entry) → import_errors es e ≡ es ++ errors_down e
  import_errors_lem es (entry i r nil_dir) = refl
  import_errors_lem es (entry i r (dir cs)) =
      import_each_lem (es ++ i.errors) cs ∙ append_assoc es i.errors (errors_down_each cs)

  import_each_lem :
      (es : List GoError) (cs : Entries) → import_each es cs ≡ es ++ errors_down_each cs
  import_each_lem es no_entries = sym (append-nil es)
  import_each_lem es (item k c cs) = rw (import_errors_lem es c) (
      import_each_lem (es ++ errors_down c) cs
      ∙ append_assoc es (errors_down c) (errors_down_each cs))

-- The error for a key that two entries have: the place of the entry that is merged, the key, the name
-- of the entry that is merged into, and the place and the name of both children.
unfoldable pub report : ℕ → Entry → Bytes → Bytes → Entry → Entry → GoError
unfolding concat quoted
report id oe name k v se = record {
  id = id;
  text = concat (
      (info oe).source.location
      ∷ codes ": "
      ∷ codes "Duplicate node "
      ∷ quoted k
      ∷ codes " in "
      ∷ quoted name
      ∷ codes " from:\n   "
      ∷ (info v).source.location
      ∷ codes ": "
      ∷ (info v).name
      ∷ codes "\n   "
      ∷ (info se).source.location
      ∷ codes ": "
      ∷ (info se).name
      ∷ []);
}

pub new_error-report :
    (id : ℕ) (oe : Entry) (name k : Bytes) (prefix namespace : Option Bytes) (v se : Entry)
    → new_error id (info oe).source.location (duplicate_text k name (mounted prefix namespace v) se)
      ≡ report id oe name k v se
unfolding new_error duplicate_text mounted report concat
new_error-report id oe name k prefix namespace (entry i r d) se = refl

-- The error for a key, where the entry has it.
abbrev pub report_of : ℕ → Entry → Bytes → Bytes → Entry → Option Entry → List GoError
report_of id oe name k v none = []
report_of id oe name k v (some se) = report id oe name k v se ∷ []

-- The errors for the keys of the first map that the second one has, in the order of the first.
unfoldable pub reports : ℕ → Entry → Bytes → Entries → Entries → List GoError
unfolding lookup report
reports id oe name no_entries cs = []
reports id oe name (item k v vs) cs =
    report_of id oe name k v (lookup k cs) ++ reports (suc id) oe name vs cs

pub reports-insert :
    (id : ℕ) (oe : Entry) (name k : Bytes) (v : Entry) (vs cs : Entries)
    → lookup k vs ≡ none
    → lookup k cs ≡ none
    → reports id oe name vs (insert k v cs) ≡ reports id oe name vs cs
unfolding reports lookup
reports-insert id oe name k v no_entries cs h g = refl
reports-insert id oe name k v (item j w vs) cs h g =
    let l = lookup-insert j k v cs g in
    elim (Bool-cases (bytes_eq j k)) [
      | inl same ↦ absurd (let q : some w ≡ none = rw (same, lookup) at h in cc)
      | inr other ↦
          let h' : lookup k vs ≡ none = rw (other, lookup) at h in
          let rest = reports-insert (suc id) oe name k v vs cs h' g in
          elim (Bool-cases (bytes_eq k j)) [
            | inl same ↦
                let q = (bytes_eq_iff j k).1 (sym ((bytes_eq_iff k j).0 same)) in absurd (cc)
            | inr apart ↦
                let e : lookup j (insert k v cs) ≡ lookup j cs = l ∙ rw apart refl in
                rw (e, rest, reports) refl
          ]
    ]
