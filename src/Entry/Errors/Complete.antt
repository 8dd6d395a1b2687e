-- ===== src/Entry/Errors/Complete.antt =====
-- `GetErrors` against the errors of an entry and of what is below it.
use mathlib.Core.Path.{subst}
use go_restconf.Entry.{GoError, Entry, entry, nil_dir, dir, Entries, no_entries, item}
use go_restconf.Entry.Sort.Order.Sifting.{HasErrorFields}
use go_restconf.Entry.Sort.Order.{IsSorted, error_sort_lem}
use go_restconf.Entry.Errors.{check_list, check_errors, check_each, Collected, collect, get_errors}
use go_restconf.Entry.Sort.{max_insertion}
use go_restconf.Common.{
  Option, length, length-append, ◌+◌, ◌≤◌, Bytes, is_seen, All, Any, ◌==◌, Bool-cases, ℕ, ◌≡◌, refl,
  sym, ◌↔◌, ◌⊎◌, inl, inr, true, some, List, [], ◌∷◌, ◌++◌, arith,
}

-- The errors of what is below an entry through children, and of the entry.
unfoldable mutual
  pub errors_of : Entry → List GoError
  errors_of (entry i r nil_dir) = i.errors
  errors_of (entry i r (dir cs)) = errors_below cs ++ i.errors

  pub errors_below : Entries → List GoError
  errors_below no_entries = []
  errors_below (item k c cs) = errors_of c ++ errors_below cs

module _ {S : Type 0} (f : GoError → S → S) where
  check_list-append :
      (es ds : List GoError) (s : S)
      → check_list f (es ++ ds) s ≡ check_list f ds (check_list f es s)
  unfolding check_list
  check_list-append [] ds s = refl
  check_list-append (e ∷ es) ds s = check_list-append es ds (f e s)

  mutual
    unfolding check_errors errors_of check_list

    check_errors_lem : (e : Entry) (s : S) → check_errors f e s ≡ check_list f (errors_of e) s
    check_errors_lem (entry i r nil_dir) s = refl
    check_errors_lem (entry i r (dir cs)) s =
        rw (check_list-append (errors_below cs) i.errors s, check_each_lem cs s) refl

    check_each_lem : (cs : Entries) (s : S) → check_each f cs s ≡ check_list f (errors_below cs) s
    check_each_lem no_entries s = refl
    check_each_lem (item k c cs) s =
        rw (check_list-append (errors_of c) (errors_below cs) s, check_errors_lem c s)
          (check_each_lem cs (check_list f (errors_of c) s))

-- An identity is that of one text.
abbrev HasText : (ℕ → Bytes) → GoError → Type 0
HasText text_of e = e.text ≡ text_of e.id

module _ (text_of : ℕ → Bytes) where
  -- What was seen is kept.
  Known : Collected → Type 0
  Known c = (x : ℕ) → is_seen x c.seen ≡ true → Any (λ d. d.text ≡ text_of x) c.errs

  record Step (c : Collected) (es : List GoError) (out : Collected) : Type 1 where
    known : Known out
    shorter : length out.errs ≤ length c.errs + length es
    from : (P : GoError → Type 0) → Any P out.errs → Any P c.errs ⊎ Any P es
    kept :
        (Q : Bytes → Type 0)
        → Any (λ e. Q e.text) c.errs ⊎ Any (λ e. Q e.text) es
        → Any (λ e. Q e.text) out.errs

  Any-append :
      (P : GoError → Type 0) (es : List GoError) (e : GoError)
      → Any P (es ++ e ∷ []) ↔ (Any P es ⊎ P e)
  Any-append P [] e = ground arith
  Any-append P (d ∷ es) e = let k = Any-append P es e in ground arith

  Any-text :
      (Q : Bytes → Type 0) (t : Bytes) (es : List GoError)
      → Q t
      → Any (λ d. d.text ≡ t) es
      → Any (λ e. Q e.text) es
  Any-text Q t [] q h = elim h [ ]
  Any-text Q t (e ∷ es) q (inl h) = inl (subst Q (sym h) q)
  Any-text Q t (e ∷ es) q (inr h) = inr (Any-text Q t es q h)

  collect_seen :
      (c : Collected) (e : GoError)
      → HasText text_of e
      → Known c
      → is_seen e.id c.seen ≡ true
      → Step c (e ∷ []) c
  unfolding Known
  collect_seen c e h k known = record {
    known = k;
    shorter = omega arith;
    from = λ P a. inl a;
    kept = λ Q a. elim a [
      | inl old ↦ old
      | inr (inl q) ↦ Any-text Q (text_of e.id) c.errs (subst Q h q) (k e.id known)
      | inr (inr none_left) ↦ elim none_left [ ]
    ];
  }

  collect_new :
      (c : Collected) (e : GoError)
      → HasText text_of e
      → Known c
      → Step c (e ∷ []) (record { seen = e.id ∷ c.seen; errs = c.errs ++ e ∷ [] })
  unfolding Known
  collect_new c e h k = record {
    known = λ x here.
        let a = Any-append (λ d. d.text ≡ text_of x) c.errs e in
        let old = k x in
        elim (Bool-cases (x == e.id)) [
          | inl same ↦ let q : x ≡ e.id = ground arith in a.1 (inr (rw q h))
          | inr other ↦ a.1 (inl (old (rw other at here)))
        ];
    shorter = omega (arith, length-append c.errs (e ∷ []));
    from = λ P. let a = Any-append P c.errs e in ground arith;
    kept = λ Q. let a = Any-append (λ d. Q d.text) c.errs e in ground arith;
  }

  collect_step :
      (c : Collected) (e : GoError) → HasText text_of e → Known c → Step c (e ∷ []) (collect e c)
  unfolding collect
  collect_step c e h k = elim (Bool-cases (is_seen e.id c.seen)) [
    | inl known ↦ rw (known, collect) (collect_seen c e h k known)
    | inr new ↦ rw (new, collect) (collect_new c e h k)
  ]

  collect_all :
      (es : List GoError) (c : Collected)
      → All (HasText text_of) es
      → Known c
      → Step c es (check_list collect es c)
  unfolding check_list
  collect_all [] c hs k = record {
    known = k;
    shorter = omega arith;
    from = λ P a. inl a;
    kept = λ Q. ground arith;
  }
  collect_all (e ∷ es) c (h, hs) k =
      let first = collect_step c e h k in
      let rest = collect_all es (collect e c) hs first.known in
      record {
        known = rest.known;
        shorter = let a = first.shorter in let b = rest.shorter in omega arith;
        from = λ P. let a = first.from P in let b = rest.from P in ground arith;
        kept = λ Q. let a = first.kept Q in let b = rest.kept Q in ground arith;
      }

All-from_Any :
    {P : GoError → Type 0} (es : List GoError)
    → ((Q : GoError → Type 0) → Any Q es → (e : GoError) × P e × Q e)
    → All P es
All-from_Any [] h = tt
All-from_Any {P} (e ∷ es) h =
    let (d, p, q) = h (λ x. x ≡ e) (inl refl) in (subst P q p, All-from_Any es (λ Q a. h Q (inr a)))

Any_All :
    {P : GoError → Type 0} (Q : GoError → Type 0) (es : List GoError)
    → All P es
    → Any Q es
    → (e : GoError) × P e × Q e
Any_All Q [] hs a = elim a [ ]
Any_All Q (e ∷ es) (h, hs) (inl q) = (e, h, q)
Any_All Q (e ∷ es) (h, hs) (inr a) = Any_All Q es hs a

abbrev nothing : Collected
nothing = record { seen = []; errs = [] }

collected :
    (es : List GoError) (text_of : ℕ → Bytes)
    → All (HasText text_of) es
    → Step text_of nothing es (check_list collect es nothing)
unfolding Known
collected es text_of hs = collect_all text_of es nothing hs (λ x h. absurd (cc))

-- Where the errors of an entry and of what is below it through children are twelve at most, each has a
-- field behind its first, and an identity is that of one text, `GetErrors` does not panic: what it
-- returns are some of these errors, one at least of each text. Of two neighbours the texts differ, the
-- file of the first is not after that of the second, and in one file a line that is a number is not
-- greater than the next one, where that is a number.
pub get_errors_lem :
    (long_sort : List GoError → Option (List GoError)) (e : Entry) (text_of : ℕ → Bytes)
    → length (errors_of e) ≤ max_insertion
    → All (HasText text_of) (errors_of e)
    → All HasErrorFields (errors_of e)
    → (out : List GoError) × (get_errors long_sort e ≡ some out) × IsSorted (errors_of e) out
unfolding get_errors
get_errors_lem long_sort e text_of few hs fs =
    let es = errors_of e in
    let c = check_list collect es nothing in
    let step = collected es text_of hs in
    let origin : (P : GoError → Type 0) → Any P c.errs → Any P es =
      λ P a. elim (step.from P a) [ inl old ↦ elim old [ ] | inr new ↦ new ] in
    let (out, runs, sorted) =
      error_sort_lem long_sort c.errs (let k = step.shorter in omega arith)
        (All-from_Any c.errs (λ Q a. Any_All Q es fs (origin Q a))) in
    (
      out,
      rw (check_errors_lem collect e nothing) runs,
      record {
        ordered = sorted.ordered;
        from = λ P a. origin P (sorted.from P a);
        kept = λ Q a. sorted.kept Q (step.kept Q (inr a));
      },
    )
