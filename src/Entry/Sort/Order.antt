-- ===== src/Entry/Sort/Order.antt =====
-- `errorSort` sorts the errors and keeps one of each text.
pub mod Sifting
use mathlib.Core.Path.{subst}
use go_restconf.Entry.{GoError}
use go_restconf.Entry.Sort.{
  less, sift, sort_onto, strip_behind, strip, reverse_onto, error_sort, sort_errors, max_insertion,
}
use go_restconf.Entry.Sort.Fields.{less-IsInOrder}
use go_restconf.Entry.Sort.Laws.{less_asym, less_total, HasFields}
use go_restconf.Common.{
  bytes_eq, bytes_eq_iff, bytes_eq_refl, Bytes, codes, length, take, drop, replicate, get_elem?,
  length-append, take-length_append, drop-length_append, take-append-drop, length-take, length-drop,
  length-replicate, All, Any, All-append, ltb, leb, ◌==◌, if◌then◌else◌, is_some, ltb→lt, lt→ltb,
  ltb→le, le→ltb, ==_iff, Bool-cases, Option-cases, ℤ, pos, negsuc, pos_part, neg_part, ◌≤ℤ◌, ◌<ℤ◌,
  ltb_ℤ, eqb_ℤ, suc_ℤ, eqb_ℤ→eq, eqb_ℤ_refl, suc_ℤ_parts, Result, ok, err, panic, ◌>>=◌, passed_on,
  ℕ, zero, suc, ◌+◌, ◌-◌, ◌*◌, ◌/◌, ◌%◌, ◌^◌, ◌≤◌, ◌<◌, ◌≡◌, refl, sym, ap, ◌∙◌, ◌≢◌, ◌↔◌, ◌⊎◌, inl,
  inr, Bool, true, false, not, ◌&&◌, ◌||◌, Option, none, some, List, [], ◌∷◌, ◌++◌, map,
  append_assoc, append-nil, arith,
}
use go_restconf.Entry.Sort.Order.Sifting.{
  Next, Chain, NotLess, Falling, IsBefore, HasErrorFields, Same, less_decided, Sifted, Same-swap,
  sift_moves, sift_stays, sift_lem, Sorting, sort_onto_step, sort_onto_lem,
}

abbrev Link : List GoError → List GoError → Type 0
Link [] out = Unit
Link (d ∷ ds) out = Next NotLess d out

reverse_onto_chain :
    (out ds : List GoError)
    → Chain NotLess out
    → Chain Falling ds
    → Link ds out
    → Chain NotLess (reverse_onto out ds)
unfolding reverse_onto
reverse_onto_chain out [] h k l = h
reverse_onto_chain out (d ∷ []) h k l = (l, h)
reverse_onto_chain out (d ∷ c ∷ ds) h (n, k) l = reverse_onto_chain (d ∷ out) (c ∷ ds) (l, h) k n

reverse_onto_keeps :
    (P : GoError → Type 0) (out ds : List GoError)
    → (Any P out ⊎ Any P ds) ↔ Any P (reverse_onto out ds)
unfolding reverse_onto
reverse_onto_keeps P out [] = ground arith
reverse_onto_keeps P out (d ∷ ds) = let k = reverse_onto_keeps P (d ∷ out) ds in ground arith

next_same :
    (e d : GoError) (es : List GoError)
    → bytes_eq e.text d.text ≡ true
    → Next NotLess e es
    → Next NotLess d es
next_same e d [] h n = tt
next_same e d (f ∷ es) h n = let q = (bytes_eq_iff e.text d.text).0 h in rw (← q) n

strip_behind_chain :
    (last : GoError) (es : List GoError)
    → Next NotLess last es
    → Chain NotLess es
    → Chain IsBefore (last ∷ strip_behind last es)
unfolding strip_behind
strip_behind_chain last [] h k = (tt, tt)
strip_behind_chain last (e ∷ es) h (n, k) = elim (Bool-cases (bytes_eq e.text last.text)) [
  | inl again ↦
      rw (again, strip_behind) (strip_behind_chain last es (next_same e last es again n) k)
  | inr other ↦
      rw (other, strip_behind)
        ((less-IsInOrder last.text e.text h, other), strip_behind_chain e es n k)
]

-- A text that one of the errors has, one of the kept ones has.
strip_behind_keeps :
    (Q : Bytes → Type 0) (last : GoError) (es : List GoError)
    → (Q last.text ⊎ Any (λ e. Q e.text) es)
      ↔ (Q last.text ⊎ Any (λ e. Q e.text) (strip_behind last es))
unfolding strip_behind
strip_behind_keeps Q last [] = ground arith
strip_behind_keeps Q last (e ∷ es) = elim (Bool-cases (bytes_eq e.text last.text)) [
  | inl again ↦
      let q = (bytes_eq_iff e.text last.text).0 again in
      let k = strip_behind_keeps Q last es in
      let to : Q e.text → Q last.text = λ h. subst Q q h in rw (again, strip_behind) (ground arith)
  | inr other ↦ let k = strip_behind_keeps Q e es in rw (other, strip_behind) (ground arith)
]

strip_behind_from :
    (P : GoError → Type 0) (last : GoError) (es : List GoError)
    → Any P (strip_behind last es)
    → Any P es
unfolding strip_behind
strip_behind_from P last [] h = h
strip_behind_from P last (e ∷ es) h =
    let k = strip_behind_from P last es in let l = strip_behind_from P e es in ground arith

-- What `errorSort` promises of the errors it is given and the errors it returns.
pub record IsSorted (es out : List GoError) : Type 1 where
  pub ordered : Chain IsBefore out
  pub from : (P : GoError → Type 0) → Any P out → Any P es
  pub kept : (Q : Bytes → Type 0) → Any (λ e. Q e.text) es → Any (λ e. Q e.text) out

strip-IsSorted :
    (es sorted : List GoError) → Chain NotLess sorted → Same es sorted → IsSorted es (strip sorted)
unfolding strip
strip-IsSorted es [] h same = record {
  ordered = tt;
  from = λ P. let k = same P in ground arith;
  kept = λ Q. let k = same (λ e. Q e.text) in ground arith;
}
strip-IsSorted es (e ∷ sorted) (n, h) same = record {
  ordered = strip_behind_chain e sorted n h;
  from = λ P. let k = same P in let l = strip_behind_from P e sorted in ground arith;
  kept = λ Q. let k = same (λ e. Q e.text) in let l = strip_behind_keeps Q e sorted in ground arith;
}

sort_errors_few :
    (long_sort : List GoError → Option (List GoError)) (es ds : List GoError)
    → length es ≤ max_insertion
    → sort_onto [] es ≡ some ds
    → sort_errors long_sort es ≡ some (reverse_onto [] ds)
unfolding sort_errors
sort_errors_few long_sort es ds few runs =
    let e : leb (length es) max_insertion ≡ true = ground arith in rw (e, runs, sort_errors) refl

falling_link : (ds : List GoError) → Link ds []
falling_link [] = tt
falling_link (d ∷ ds) = tt

-- Of up to twelve errors, of which each has a field behind its first, `errorSort` does not panic: it
-- returns errors it was given, one at least of each text. Of two neighbours the texts differ, the file
-- of the first is not after that of the second, and in one file a line that is a number is not greater
-- than the next one, where that is a number.
pub error_sort_lem :
    (long_sort : List GoError → Option (List GoError)) (es : List GoError)
    → length es ≤ max_insertion
    → All HasErrorFields es
    → (out : List GoError) × (error_sort long_sort es ≡ some out) × IsSorted es out
unfolding error_sort
error_sort_lem long_sort [] few fs =
    ([], refl, record { ordered = tt; from = λ P h. h; kept = λ Q h. h })
error_sort_lem long_sort (e ∷ []) few fs =
    (e ∷ [], refl, record { ordered = (tt, tt); from = λ P h. h; kept = λ Q h. h })
error_sort_lem long_sort (e ∷ d ∷ es) few fs =
    let s = sort_onto_lem [] (e ∷ d ∷ es) tt fs tt in
    let sorted = reverse_onto [] s.result in
    let same : Same (e ∷ d ∷ es) sorted =
      λ P. let k = s.keeps P in let l = reverse_onto_keeps P [] s.result in ground arith in
    (
      strip sorted,
      rw (sort_errors_few long_sort (e ∷ d ∷ es) s.result few s.runs, error_sort) refl,
      strip-IsSorted (e ∷ d ∷ es) sorted
          (reverse_onto_chain [] s.result tt s.falls (falling_link s.result)) same,
    )
