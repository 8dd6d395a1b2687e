-- ===== src/ModuleSet/Lookup/Caches/Meaning.antt =====
-- What the loop over the modules finds.
use go_restconf.Values.{name_of}
use go_restconf.ModuleSet.{Module}
use go_restconf.ModuleSet.Lookup.{
  Found, found, no_such, matches_more, nil_field, Search, searched, two, stopped, field_name,
  search_round, search, remember,
}
use go_restconf.Common.{
  bytes_eq, bytes_eq_iff, Bytes, All, Any, ◌==◌, Bool-cases, Option-cases, ◌≡◌, refl, sym, ap, ◌∙◌,
  ◌≢◌, ◌⊎◌, inl, inr, true, false, Option, none, some, List, [], ◌∷◌, arith,
}

module _ (field key : Bytes) where
  -- A module that is stored has the key in the field.
  abbrev pub IsMatch : Bytes × Module → Type 0
  IsMatch a = field_name field a.1 ≡ some key

  abbrev pub IsOnly : Module → Bytes × Module → Type 0
  IsOnly m a = IsMatch a → m.address ≡ a.1.address

  abbrev pub IsThere : Module → Bytes × Module → Type 0
  IsThere m a = (a.1 ≡ m) × IsMatch a

  -- What the end of the loop says of the modules that are left.
  pub Means : Search → Option Module → List (Bytes × Module) → Type 0
  Means (searched none) so_far ms = (so_far ≡ none) × All (λ a. IsMatch a → ⊥) ms
  Means (searched (some m)) so_far ms =
      ((so_far ≡ some m) ⊎ ((so_far ≡ none) × Any (IsThere m) ms)) × All (IsOnly m) ms
  Means (two f m) so_far ms =
      ((so_far ≡ some f) ⊎ Any (IsThere f) ms) × Any (IsThere m) ms × (f.address ≢ m.address)
  Means stopped so_far ms = Any (λ a. field_name field a.1 ≡ none) ms

  pub Any-skip :
      (P : Bytes × Module → Type 0) (so_far : Option Module) (m : Module) (a : Bytes × Module)
      (ms : List (Bytes × Module))
      → (so_far ≡ some m) ⊎ ((so_far ≡ none) × Any P ms)
      → (so_far ≡ some m) ⊎ ((so_far ≡ none) × Any P (a ∷ ms))
  Any-skip P so_far m a ms (inl h) = inl h
  Any-skip P so_far m a ms (inr (h, x)) = inr (h, inr x)

  -- A round that leaves what was found.
  pub Means-skip :
      (r : Search) (so_far : Option Module) (a : Bytes × Module) (ms : List (Bytes × Module))
      → (IsMatch a → ⊥)
      → Means r so_far ms
      → Means r so_far (a ∷ ms)
  unfolding Means
  Means-skip (searched none) so_far a ms h (e, hs) = (e, (h, hs))
  Means-skip (searched (some m)) so_far a ms h (w, hs) =
      (Any-skip (IsThere m) so_far m a ms w, ((λ q. absurd (h q)), hs))
  Means-skip (two f m) so_far a ms h means = ground arith
  Means-skip stopped so_far a ms h means = ground arith

  pub some_eq : {f m : Module} → some f ≡ some m → f ≡ m
  some_eq h = cc

  pub some_none : {A : Type 0} {f : Module} → some f ≡ none → A
  some_none h = absurd (cc)

  -- A round that meets the module again.
  pub Means-again :
      (r : Search) (f : Module) (a : Bytes × Module) (ms : List (Bytes × Module))
      → f.address ≡ a.1.address
      → Means r (some f) ms
      → Means r (some f) (a ∷ ms)
  unfolding Means
  Means-again (searched none) f a ms h (e, hs) = some_none e
  Means-again (searched (some m)) f a ms h (inl e, hs) =
      (inl e, ((λ q. ap (λ x. x.address) (sym (some_eq e)) ∙ h), hs))
  Means-again (searched (some m)) f a ms h (inr (e, x), hs) = some_none e
  Means-again (two g m) f a ms h means = ground arith
  Means-again stopped f a ms h means = ground arith

  -- A round that finds the first module.
  pub Means-first :
      (r : Search) (k : Bytes) (f : Module) (ms : List (Bytes × Module))
      → IsMatch (k, f)
      → Means r (some f) ms
      → Means r none ((k, f) ∷ ms)
  unfolding Means
  Means-first (searched none) k f ms h (e, hs) = some_none e
  Means-first (searched (some m)) k f ms h (inl e, hs) =
      (inr (refl, inl (some_eq e, h)), ((λ q. ap (λ x. x.address) (sym (some_eq e))), hs))
  Means-first (searched (some m)) k f ms h (inr (e, x), hs) = some_none e
  Means-first (two g m) k f ms h (inl e, x, ne) = (inr (inl (some_eq e, h)), inr x, ne)
  Means-first (two g m) k f ms h (inr y, x, ne) = (inr (inr y), inr x, ne)
  Means-first stopped k f ms h means = ground arith

  pub Means-two :
      (k : Bytes) (f m : Module) (ms : List (Bytes × Module))
      → IsMatch (k, m)
      → f.address ≢ m.address
      → Means (two f m) (some f) ((k, m) ∷ ms)
  unfolding Means
  Means-two k f m ms h ne = (inl refl, inl (refl, h), ne)

  pub Means-stopped :
      (k : Bytes) (so_far : Option Module) (m : Module) (ms : List (Bytes × Module))
      → field_name field m ≡ none
      → Means stopped so_far ((k, m) ∷ ms)
  unfolding Means
  Means-stopped k so_far m ms h = inl h

  pub Means-end : (so_far : Option Module) → Means (searched so_far) so_far []
  unfolding Means
  Means-end none = (refl, tt)
  Means-end (some m) = (inl refl, tt)

  pub some_bytes : {a b : Bytes} → some a ≡ some b → a ≡ b
  some_bytes h = cc

  pub no_match :
      (k : Bytes) (m : Module) (v : Bytes)
      → field_name field m ≡ some v
      → bytes_eq v key ≡ false
      → IsMatch (k, m)
      → ⊥
  no_match k m v e f q =
      let same : v ≡ key = some_bytes (sym e ∙ q) in
      let t = (bytes_eq_iff v key).1 same in let clash : true ≡ false = sym t ∙ f in cc

  pub match :
      (m : Module) (v : Bytes)
      → field_name field m ≡ some v
      → bytes_eq v key ≡ true
      → field_name field m ≡ some key
  match m v e t = e ∙ ap some ((bytes_eq_iff v key).0 t)

  pub round-Means :
      (k : Bytes) (m : Module) (v : Bytes) (so_far : Option Module) (ms : List (Bytes × Module))
      (rest : Option Module → Search)
      → ((o : Option Module) → Means (rest o) o ms)
      → field_name field m ≡ some v
      → Means (search_round key m (some v) so_far rest) so_far ((k, m) ∷ ms)
  round-Means k m v none ms rest h e = elim (Bool-cases (bytes_eq v key)) [
    | inl t ↦ rw t (Means-first (rest (some m)) k m ms (match m v e t) (h (some m)))
    | inr f ↦ rw f (Means-skip (rest none) none (k, m) ms (no_match k m v e f) (h none))
  ]
  round-Means k m v (some g) ms rest h e = elim (Bool-cases (bytes_eq v key)) [
    | inl t ↦ elim (Bool-cases (g.address == m.address)) [
      | inl same ↦
          rw (t, same) (Means-again (rest (some g)) g (k, m) ms (ground arith) (h (some g)))
      | inr other ↦ rw (t, other) (Means-two k g m ms (match m v e t) (ground arith))
    ]
    | inr f ↦ rw f (Means-skip (rest (some g)) (some g) (k, m) ms (no_match k m v e f) (h (some g)))
  ]

  pub search-Means :
      (ms : List (Bytes × Module)) (so_far : Option Module)
      → Means (search field key ms so_far) so_far ms
  unfolding search
  search-Means [] so_far = Means-end so_far
  search-Means ((k, m) ∷ ms) so_far = elim (Option-cases (field_name field m)) [
    | inl e ↦ rw (e, search) (Means-stopped k so_far m ms e)
    | inr (v, e) ↦
        rw (e, search) (round-Means k m v so_far ms (search field key ms) (search-Means ms) e)
  ]

  -- What a lookup returns, of the modules that are stored.
  unfoldable pub IsAnswer : Found → List (Bytes × Module) → Type 0
  IsAnswer (found m) ms = Any (IsThere m) ms × All (IsOnly m) ms
  IsAnswer (no_such k) ms = (k ≡ key) × All (λ a. IsMatch a → ⊥) ms
  IsAnswer (matches_more k f m) ms =
      (k ≡ key)
      × (a b : Module) × Any (IsThere a) ms
      × Any (IsThere b) ms
      × (name_of a.node ≡ f)
      × (name_of b.node ≡ m)
      × (a.address ≢ b.address)
  IsAnswer nil_field ms = Any (λ a. field_name field a.1 ≡ none) ms

  pub answers :
      (r : Search) (cache : List (Bytes × Option Module)) (ms : List (Bytes × Module))
      → Means r none ms
      → IsAnswer (remember key cache r).1 ms
  unfolding Means remember IsAnswer
  answers (searched none) cache ms (e, h) = (refl, h)
  answers (searched (some m)) cache ms (inl e, h) = some_none (sym e)
  answers (searched (some m)) cache ms (inr (e, x), h) = (x, h)
  answers (two f m) cache ms (inl e, x, ne) = some_none (sym e)
  answers (two f m) cache ms (inr y, x, ne) = (refl, f, m, y, x, refl, refl, ne)
  answers stopped cache ms x = x
