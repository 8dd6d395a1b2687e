-- ===== src/Entry/Errors.antt =====
-- The errors of entries in yang/entry.go: `newError`, `errorf`, `addError`, `importErrors`,
-- `checkErrors` and `GetErrors`.
pub mod Complete
use go_restconf.Entry.{GoError, Info, Entry, entry, Dir, nil_dir, dir, Entries, no_entries, item}
use go_restconf.Entry.Sort.{error_sort}
use go_restconf.Common.{
  bytes_eq, bytes_eq_iff, bytes_eq_refl, Bytes, codes, length, take, drop, replicate, get_elem?,
  length-append, take-length_append, drop-length_append, take-append-drop, length-take, length-drop,
  length-replicate, is_seen, All, Any, All-append, ltb, leb, ◌==◌, if◌then◌else◌, is_some, ltb→lt,
  lt→ltb, ltb→le, le→ltb, ==_iff, Bool-cases, Option-cases, ℤ, pos, negsuc, pos_part, neg_part,
  ◌≤ℤ◌, ◌<ℤ◌, ltb_ℤ, eqb_ℤ, suc_ℤ, eqb_ℤ→eq, eqb_ℤ_refl, suc_ℤ_parts, Result, ok, err, panic, ◌>>=◌,
  passed_on, ℕ, zero, suc, ◌+◌, ◌-◌, ◌*◌, ◌/◌, ◌%◌, ◌^◌, ◌≤◌, ◌<◌, ◌≡◌, refl, sym, ap, ◌∙◌, ◌≢◌,
  ◌↔◌, ◌⊎◌, inl, inr, Bool, true, false, not, ◌&&◌, ◌||◌, Option, none, some, List, [], ◌∷◌, ◌++◌,
  map, append_assoc, append-nil, arith,
}

-- `addError` with an error that is not nil.
unfoldable pub add_error : Entry → GoError → Entry
add_error (entry i r d) why = entry (record i { errors = i.errors ++ why ∷ [] }) r d

-- `errorf`: the error is a new one, with an identity of its own, and the text that is formatted.
unfoldable pub errorf : ℕ → Entry → Bytes → Entry
unfolding add_error
errorf fresh e text = add_error e (record { id = fresh; text = text })

-- The error of `newError`, with the location of the node before the text.
unfoldable pub new_error : ℕ → Bytes → Bytes → GoError
new_error fresh location text = record { id = fresh; text = location ++ (codes ": " ++ text) }

-- `importErrors`: the errors of an entry behind those of `e`, and then of what is below the entry.
unfoldable mutual
  pub import_errors : List GoError → Entry → List GoError
  import_errors es (entry i r nil_dir) = es ++ i.errors
  import_errors es (entry i r (dir cs)) = import_each (es ++ i.errors) cs

  pub import_each : List GoError → Entries → List GoError
  import_each es no_entries = es
  import_each es (item k c cs) = import_each (import_errors es c) cs

-- The call of `f` on each error, on a state that the calls share.
unfoldable pub check_list {ℓ} : {S : Type ℓ} → (GoError → S → S) → List GoError → S → S
check_list f [] s = s
check_list f (e ∷ es) s = check_list f es (f e s)

unfoldable mutual
  pub check_errors {ℓ} : {S : Type ℓ} → (GoError → S → S) → Entry → S → S
  check_errors f (entry i r nil_dir) s = check_list f i.errors s
  check_errors f (entry i r (dir cs)) s = check_list f i.errors (check_each f cs s)

  pub check_each {ℓ} : {S : Type ℓ} → (GoError → S → S) → Entries → S → S
  check_each f no_entries s = s
  check_each f (item k c cs) s = check_each f cs (check_errors f c s)

-- The map `seen` and the slice `errs` of `GetErrors`.
pub record Collected : Type 0 where
  pub seen : List ℕ
  pub errs : List GoError

unfoldable pub collect : GoError → Collected → Collected
collect e c =
    if is_seen e.id c.seen then c else record { seen = e.id ∷ c.seen; errs = c.errs ++ e ∷ [] }

-- `long_sort` is what `sort.Sort` makes of more than twelve errors.
unfoldable pub get_errors : (List GoError → Option (List GoError)) → Entry → Option (List GoError)
unfolding check_errors collect
get_errors long_sort e =
    error_sort long_sort (check_errors collect e (record { seen = []; errs = [] })).errs
