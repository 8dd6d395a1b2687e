-- ===== src/Entry/Merge/Maps.antt =====
-- What the map of children holds after `add` and `merge`.
use go_restconf.Entry.{Entry, entry, nil_dir, dir, Entries, no_entries, item, lookup, insert, IsMap}
use go_restconf.Entry.Merge.{dup, dup_each}
use go_restconf.Common.{
  bytes_eq, bytes_eq_iff, Bytes, if◌then◌else◌, ◌≡◌, refl, sym, ◌∙◌, true, none, some, arith,
}

mutual
  unfolding dup

  pub dup_same : (e : Entry) → dup e ≡ e
  dup_same (entry i r nil_dir) = refl
  dup_same (entry i r (dir cs)) = rw (dup_each_same cs) refl

  dup_each_same : (cs : Entries) → dup_each cs ≡ cs
  dup_each_same no_entries = refl
  dup_each_same (item k c cs) = rw (dup_same c, dup_each_same cs) refl

pub lookup-insert :
    (j k : Bytes) (v : Entry) (cs : Entries)
    → lookup k cs ≡ none
    → lookup j (insert k v cs) ≡ (if bytes_eq k j then some v else lookup j cs)
unfolding lookup insert
lookup-insert j k v no_entries h = refl
lookup-insert j k v (item i e cs) h =
    let q = bytes_eq_iff i j in
    let q' = bytes_eq_iff k j in
    let q'' = bytes_eq_iff i k in
    let both : bytes_eq i j ≡ true → bytes_eq k j ≡ true → bytes_eq i k ≡ true =
      λ a b. q''.1 (q.0 a ∙ sym (q'.0 b)) in
    let rest = lookup-insert j k v cs in ground arith

pub insert-IsMap :
    (k : Bytes) (v : Entry) (cs : Entries) → lookup k cs ≡ none → IsMap cs → IsMap (insert k v cs)
unfolding lookup insert IsMap
insert-IsMap k v no_entries h m = (refl, tt)
insert-IsMap k v (item j e cs) h (f, m) =
    let q = bytes_eq_iff j k in
    let rest = insert-IsMap k v cs in
    let l = lookup-insert j k v cs in
    let turned : bytes_eq k j ≡ true → bytes_eq j k ≡ true =
      λ a. q.1 (sym ((bytes_eq_iff k j).0 a)) in
    ground arith
