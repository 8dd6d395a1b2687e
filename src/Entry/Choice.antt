-- ===== src/Entry/Choice.antt =====
-- `FixChoice` of yang/entry.go, which inserts the missing case entries.
pub mod Fixed
use go_restconf.Entry.{
  GoError, TriState, Info, case_entry, Entry, entry, Dir, nil_dir, dir, Entries, no_entries, item,
  Rpc, nil_rpc, NodeView, info, is_choice, is_case, lookup,
}
use go_restconf.Common.{
  bytes_eq, bytes_eq_iff, bytes_eq_refl, Bytes, codes, length, take, drop, replicate, get_elem?,
  length-append, take-length_append, drop-length_append, take-append-drop, length-take, length-drop,
  length-replicate, All, Any, All-append, ltb, leb, ◌==◌, if◌then◌else◌, is_some, ltb→lt, lt→ltb,
  ltb→le, le→ltb, ==_iff, Bool-cases, Option-cases, ℤ, pos, negsuc, pos_part, neg_part, ◌≤ℤ◌, ◌<ℤ◌,
  ltb_ℤ, eqb_ℤ, suc_ℤ, eqb_ℤ→eq, eqb_ℤ_refl, suc_ℤ_parts, Result, ok, err, panic, ◌>>=◌, passed_on,
  ℕ, zero, suc, ◌+◌, ◌-◌, ◌*◌, ◌/◌, ◌%◌, ◌^◌, ◌≤◌, ◌<◌, ◌≡◌, refl, sym, ap, ◌∙◌, ◌≢◌, ◌↔◌, ◌⊎◌, inl,
  inr, Bool, true, false, not, ◌&&◌, ◌||◌, Option, none, some, List, [], ◌∷◌, ◌++◌, map,
  append_assoc, append-nil, arith,
}

-- The fields of the case entry that is put around the entry with these.
unfoldable pub case_info : Info → Info
case_info i = record {
  source = i.source;
  name = i.name;
  description = [];
  default = [];
  errors = [];
  kind = case_entry;
  config = i.config;
  prefix = i.prefix;
  key = [];
  type_default = none;
  list_attr = none;
  namespace = none;
}

-- The case entry around `ce`, whose fields are given.
unfoldable pub in_case : Info → Entry → Entry
unfolding case_info
in_case i ce = entry (case_info i) nil_rpc (dir (item i.name ce no_entries))

is_nil : List GoError → Bool
is_nil [] = true
is_nil (e ∷ es) = false

-- The test at the start: a choice without errors.
unfoldable pub puts_cases : Info → Bool
unfolding is_nil is_choice
puts_cases i = is_choice (entry i nil_rpc nil_dir) && is_nil i.errors

-- A round of the first loop.
unfoldable pub put_in_case : Bool → Entry → Entry → Entry
unfolding in_case is_case
put_in_case puts ce inner = elim (puts && not (is_case ce)) [
  | true ↦ in_case (info ce) inner
  | false ↦ inner
]

unfoldable pub put_each : Bool → Entries → Entries
unfolding put_in_case
put_each puts no_entries = no_entries
put_each puts (item k ce cs) = item k (put_in_case puts ce ce) (put_each puts cs)

-- Both loops: an entry that the first puts into a case the second fixes through the case, which is no
-- choice.
unfoldable mutual
  unfolding put_in_case puts_cases

  pub fix_choice : Entry → Entry
  fix_choice (entry i r nil_dir) = entry i r nil_dir
  fix_choice (entry i r (dir cs)) = entry i r (dir (fix_each (puts_cases i) cs))

  pub fix_each : Bool → Entries → Entries
  fix_each puts no_entries = no_entries
  fix_each puts (item k ce cs) = item k (put_in_case puts ce (fix_choice ce)) (fix_each puts cs)
