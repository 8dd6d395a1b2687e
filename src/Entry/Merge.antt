-- ===== src/Entry/Merge.antt =====
-- `add`, `dup` and `merge` of yang/entry.go. The identities of new errors
-- are passed along. `none` is a panic, an assignment to an entry of a nil map.
pub mod Maps
pub mod Reports
pub mod Merged
use go_restconf.Entry.{
  GoError, Info, NodeView, Entry, entry, Dir, nil_dir, dir, Entries, no_entries, item, Rpc, info,
  entries_of, dir_of, lookup, insert,
}
use go_restconf.Entry.Errors.{errorf, add_error, new_error, import_errors}
use go_restconf.Common.{
  bytes_eq, bytes_eq_iff, bytes_eq_refl, Bytes, codes, length, take, drop, replicate, get_elem?,
  length-append, take-length_append, drop-length_append, take-append-drop, length-take, length-drop,
  length-replicate, All, Any, All-append, ltb, leb, ◌==◌, if◌then◌else◌, is_some, ltb→lt, lt→ltb,
  ltb→le, le→ltb, ==_iff, Bool-cases, Option-cases, ℤ, pos, negsuc, pos_part, neg_part, ◌≤ℤ◌, ◌<ℤ◌,
  ltb_ℤ, eqb_ℤ, suc_ℤ, eqb_ℤ→eq, eqb_ℤ_refl, suc_ℤ_parts, Result, ok, err, panic, ◌>>=◌, passed_on,
  ℕ, zero, suc, ◌+◌, ◌-◌, ◌*◌, ◌/◌, ◌%◌, ◌^◌, ◌≤◌, ◌<◌, ◌≡◌, refl, sym, ap, ◌∙◌, ◌≢◌, ◌↔◌, ◌⊎◌, inl,
  inr, Bool, true, false, not, ◌&&◌, ◌||◌, Option, none, some, List, [], ◌∷◌, ◌++◌, map,
  append_assoc, append-nil, arith,
}

-- `e.Dir[key] = value` for a key that is not there; a nil map panics.
unfoldable pub put : Entry → Bytes → Entry → Option Entry
unfolding insert
put (entry i r nil_dir) k value = none
put (entry i r (dir cs)) k value = some (entry i r (dir (insert k value cs)))

-- `add`, with the identity of the error it may make.
unfoldable pub add : ℕ → Entry → Bytes → Entry → Option Entry
unfolding put errorf lookup
add fresh e key value = elim (lookup key (entries_of (dir_of e))) [
  | some other ↦ some (
      errorf fresh e (
        (info e).source.location
        ++ (codes ": duplicate key from "
            ++ ((info value).source.location ++ (codes ": " ++ key)))))
  | none ↦ put e key value
]

-- `dup`: the copy of an entry that holds its children is the entry, with its copies below it. What an
-- RPC holds is shared with the original, and its parent is the original still: the model has it in
-- both, and says of its parents nothing behind a `dup`.
unfoldable mutual
  pub dup : Entry → Entry
  dup (entry i r nil_dir) = entry i r nil_dir
  dup (entry i r (dir cs)) = entry i r (dir (dup_each cs))

  pub dup_each : Entries → Entries
  dup_each no_entries = no_entries
  dup_each (item k c cs) = item k (dup c) (dup_each cs)

-- What `fmt` writes for `%q` of printable ASCII.
quoted_byte : ℕ → Bytes
quoted_byte c = if c == b'"' || c == b'\\' then b'\\' ∷ c ∷ [] else c ∷ []

quoted_bytes : Bytes → Bytes
unfolding quoted_byte
quoted_bytes [] = []
quoted_bytes (c ∷ s) = quoted_byte c ++ quoted_bytes s

unfoldable pub quoted : Bytes → Bytes
unfolding quoted_bytes
quoted s = b'"' ∷ (quoted_bytes s ++ b'"' ∷ [])

-- A value that is not nil replaces the one of before.
replaced : Option Bytes → Option Bytes → Option Bytes
replaced none old = old
replaced (some new) old = some new

-- The copy of `v` that `merge` puts in.
unfoldable pub mounted : Option Bytes → Option Bytes → Entry → Entry
unfolding replaced
mounted prefix namespace (entry i r d) =
    entry
      (record i { prefix = replaced prefix i.prefix; namespace = replaced namespace i.namespace }) r
      d

unfoldable pub duplicate_text : Bytes → Bytes → Entry → Entry → Bytes
unfolding quoted
duplicate_text k name v se =
    codes "Duplicate node "
    ++ (quoted k
        ++ (codes " in "
            ++ (quoted name
                ++ (codes " from:\n   "
                    ++ ((info v).source.location
                        ++ (codes ": "
                            ++ ((info v).name
                                ++ (codes "\n   "
                                    ++ ((info se).source.location
                                        ++ (codes ": " ++ (info se).name))))))))))

-- A round of the loop of `merge`, with what `e` has for the key.
unfoldable pub merge_round :
    ℕ → Option Bytes → Option Bytes → Entry → Bytes → Entry → Option Entry → Entry → Option Entry
unfolding put add_error new_error duplicate_text mounted
merge_round fresh prefix namespace oe k v (some se) e = some (
    add_error e (
      new_error fresh (info oe).source.location
        (duplicate_text k (info e).name (mounted prefix namespace v) se)))
merge_round fresh prefix namespace oe k v none e = put e k (mounted prefix namespace v)

unfoldable pub merge_each : ℕ → Option Bytes → Option Bytes → Entry → Entries → Entry → Option Entry
unfolding merge_round lookup dup
merge_each fresh prefix namespace oe no_entries e = some e
merge_each fresh prefix namespace oe (item k v vs) e =
    elim (merge_round fresh prefix namespace oe k (dup v) (lookup k (entries_of (dir_of e))) e) [
      | none ↦ none
      | some e' ↦ merge_each (suc fresh) prefix namespace oe vs e'
    ]

unfoldable pub merge : ℕ → Option Bytes → Option Bytes → Entry → Entry → Option Entry
unfolding merge_each import_errors
merge fresh prefix namespace (entry i r d) oe =
    merge_each fresh prefix namespace oe (entries_of (dir_of oe))
      (entry (record i { errors = import_errors i.errors oe }) r d)
