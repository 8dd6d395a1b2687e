-- ===== src/Entry/Place/Inherit.antt =====
-- What an entry takes over from its parents: whether it is read only, and the namespace.
use go_restconf.Entry.{
  ts_unset, output_entry, Info, Entry, entry, dir, Entries, Rpc, info, entries_of, dir_of, lookup,
  kind_eq, IsMap,
}
use go_restconf.Entry.Merge.{mounted, merge}
use go_restconf.Entry.Merge.Merged.{merge_lem}
use go_restconf.Entry.Place.{Place, own_or, read_only, namespace_of}
use go_restconf.Common.{Bytes, All, ℕ, ◌≡◌, refl, ◌∙◌, false, Option, none, some, [], ◌∷◌, ◌++◌}

-- An entry that is no output and does not say whether it is configuration.
abbrev pub IsSilent : Entry → Type 0
IsSilent e = (kind_eq (info e).kind output_entry ≡ false) × ((info e).config ≡ ts_unset)

-- An entry below entries that say nothing themselves is read only just as they are.
pub read_only-append :
    (below up : Place) → All IsSilent below → read_only (below ++ up) ≡ read_only up
unfolding read_only own_or
read_only-append [] up h = refl
read_only-append (e ∷ below) up ((k, c), h) = rw (k, c) (read_only-append below up h)

mounted_namespace :
    (prefix : Option Bytes) (ns : Bytes) (v up : Entry) (ups : Place)
    → namespace_of (mounted prefix (some ns) v) (up ∷ ups) ≡ some ns
unfolding mounted namespace_of
mounted_namespace prefix ns (entry i r d) up ups = refl

-- A node that `merge` puts into an entry under a new key, with a namespace, has that namespace there.
pub merge-namespace_of :
    (fresh : ℕ) (prefix : Option Bytes) (ns : Bytes) (i : Info) (r : Rpc) (cs : Entries)
    (oe v e : Entry) (k : Bytes) (up : Place)
    → IsMap cs
    → IsMap (entries_of (dir_of oe))
    → lookup k cs ≡ none
    → lookup k (entries_of (dir_of oe)) ≡ some v
    → merge fresh prefix (some ns) (entry i r (dir cs)) oe ≡ some e
    → (c : Entry) × (lookup k (entries_of (dir_of e)) ≡ some c)
      × (namespace_of c (e ∷ up) ≡ some ns)
merge-namespace_of fresh prefix ns i r cs oe v e k up n m h g q =
    let merged = merge_lem fresh prefix (some ns) i r cs oe n m in
    let e' = entry (record i { errors = merged.reported }) r (dir merged.children) in
    let same : e' ≡ e = let w = merged.runs in cc in
    let there : lookup k merged.children ≡ some (mounted prefix (some ns) v) =
      merged.found k ∙ rw (h, g) refl in
    (mounted prefix (some ns) v, rw (← same) there, mounted_namespace prefix ns v e up)
