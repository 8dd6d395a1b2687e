-- ===== src/Identity/Sweep.antt =====
-- The sweep of `resolveIdentities` gives each identity all that are derived from it, in any order of
-- the dictionary.
use mathlib.Core.Path.{subst}
use go_restconf.Identity.{Values, assign, sweep_round, sweep}
use go_restconf.Identity.Closure.{
  Reaches, self, through, IsDerived, IsRanked, All-is_seen, Any-is_seen, is_seen-Any, Reaches-iff,
  each_child-IsAdded, add_children-IsAdded,
}
use go_restconf.Common.{
  is_seen, Any, ◌==◌, Bool-cases, ℕ, ◌≤◌, ◌<◌, ◌≡◌, refl, sym, ◌↔◌, ◌⊎◌, inl, inr, true, Option,
  some, List, [], ◌∷◌, arith,
}

module _ (start : Values) where
  -- The values in the midst of a sweep: those of the start are kept, and all are derived.
  pub record IsBetween (values : Values) : Type 0 where
    pub kept : (x c : ℕ) → is_seen c (start x) ≡ true → is_seen c (values x) ≡ true
    pub derived : (x c : ℕ) → is_seen c (values x) ≡ true → IsDerived start x c

  -- The values of an identity are all that are derived from it.
  abbrev pub IsComplete : Values → ℕ → Type 0
  IsComplete values x = (y : ℕ) → (is_seen y (values x) ≡ true) ↔ IsDerived start x y

  Reaches-trans : (x y z : ℕ) → Reaches start x y → Reaches start y z → Reaches start x z
  Reaches-trans x y z (self w) next = next
  Reaches-trans x y z (through w c v h way) next = through x c z h (Reaches-trans c y z way next)

  Reaches-back :
      (values : Values) → IsBetween values → (x y : ℕ) → Reaches values x y → Reaches start x y
  Reaches-back values b x y (self w) = self x
  Reaches-back values b x y (through w c v h way) =
      Reaches-trans x c y ((Reaches-iff start x c).1 (inr (b.derived x c h)))
        (Reaches-back values b c y way)

  Reaches-on :
      (values : Values) → IsBetween values → (x y : ℕ) → Reaches start x y → Reaches values x y
  Reaches-on values b x y (self w) = self x
  Reaches-on values b x y (through w c v h way) =
      through x c y (b.kept x c h) (Reaches-on values b c y way)

  -- Derived in the midst of a sweep is derived at the start.
  IsDerived-same :
      (values : Values)
      → IsBetween values
      → (x y : ℕ) → Any (λ c. Reaches values c y) (values x) ↔ IsDerived start x y
  IsDerived-same values b x y = (to, back)
    where
      to : Any (λ c. Reaches values c y) (values x) → IsDerived start x y
      to a =
          let (c, h, way) = is_seen-Any (λ z. Reaches values z y) (values x) a in
          let (d, k, down) = is_seen-Any (λ z. Reaches start z c) (start x) (b.derived x c h) in
          Any-is_seen (λ z. Reaches start z y) d (start x) k
            (Reaches-trans d c y down (Reaches-back values b c y way))

      back : IsDerived start x y → Any (λ c. Reaches values c y) (values x)
      back a =
          let (c, h, way) = is_seen-Any (λ z. Reaches start z y) (start x) a in
          Any-is_seen (λ z. Reaches values z y) c (values x) (b.kept x c h)
            (Reaches-on values b c y way)

  module _ (rank : ℕ → ℕ) (ranked : IsRanked rank start) where
    Reaches-rank : (x y : ℕ) → Reaches start x y → rank y ≤ rank x
    Reaches-rank x y (self w) = omega arith
    Reaches-rank x y (through w c v h way) = omega (arith, ranked x c h, Reaches-rank c y way)

    between-IsRanked : (values : Values) → IsBetween values → IsRanked rank values
    between-IsRanked values b x c h =
        let (d, k, way) = is_seen-Any (λ z. Reaches start z c) (start x) (b.derived x c h) in
        omega (arith, ranked x d k, Reaches-rank d c way)

    -- A round makes the values of one identity complete, and keeps those of the others.
    record Round (f : ℕ) (values : Values) (i : ℕ) : Type 0 where
      next : Values
      runs : sweep_round f values i ≡ some next
      between : IsBetween next
      complete : IsComplete next i
      others : (x : ℕ) → IsComplete values x → IsComplete next x

    module _ (values : Values) (i : ℕ) (new : List ℕ) (b : IsBetween values)
        (whole : (y : ℕ) → (is_seen y new ≡ true) ↔ IsDerived start i y) where
      -- The values of the identity itself, and those of another one.
      assigned_self : (x y : ℕ) → x ≡ i → (is_seen y new ≡ true) ↔ IsDerived start x y
      assigned_self x y q =
          subst (λ z. (is_seen y new ≡ true) ↔ IsDerived start z y) (sym q) (whole y)

      assign-IsComplete :
          (x : ℕ) → (x ≡ i) ⊎ IsComplete values x → IsComplete (assign values i new) x
      unfolding assign
      assign-IsComplete x h y = elim (Bool-cases (x == i)) [
        | inl same ↦ rw (same, assign) (assigned_self x y (ground arith))
        | inr other ↦ rw (other, assign) (elim h [ inl q ↦ absurd (ground arith) | inr c ↦ c y ])
      ]

      assign-IsBetween : IsBetween (assign values i new)
      unfolding assign
      assign-IsBetween = record {
        kept = λ x c h. elim (Bool-cases (x == i)) [
          | inl same ↦
              rw (same, assign)
                ((assigned_self x c (ground arith)).1
                  (Any-is_seen (λ z. Reaches start z c) c (start x) h (self c)))
          | inr other ↦ rw (other, assign) (b.kept x c h)
        ];
        derived = λ x c h. elim (Bool-cases (x == i)) [
          | inl same ↦ (assigned_self x c (ground arith)).0 (rw (same, assign) at h)
          | inr other ↦ b.derived x c (rw (other, assign) at h)
        ];
      }

    sweep_round_lem :
        (f : ℕ) (values : Values) (i : ℕ)
        → ((x : ℕ) → rank x < f)
        → IsBetween values
        → Round f values i
    unfolding sweep_round
    sweep_round_lem f values i deep b =
        let ranks = between-IsRanked values b in
        let all = each_child-IsAdded values f (values i) [] (
          All-is_seen (values i)
            (λ c q more. add_children-IsAdded values rank ranks f c more (deep c))) in
        let whole : (y : ℕ) → (is_seen y all.result ≡ true) ↔ IsDerived start i y =
          λ y. let p = all.added y in let q = IsDerived-same values b i y in ground arith in
        record {
          next = assign values i all.result;
          runs = rw (all.runs, sweep_round) refl;
          between = assign-IsBetween values i all.result b whole;
          complete = assign-IsComplete values i all.result b whole i (inl refl);
          others = λ x c. assign-IsComplete values i all.result b whole x (inr c);
        }

    -- What a sweep leaves.
    pub record IsSwept (run : Option Values) (values : Values) (is : List ℕ) : Type 0 where
      pub final : Values
      pub ends : run ≡ some final
      pub between : IsBetween final
      pub complete : (x : ℕ) → (is_seen x is ≡ true) ⊎ IsComplete values x → IsComplete final x

    sweep-IsSwept :
        (f : ℕ) (values : Values) (is : List ℕ)
        → ((x : ℕ) → rank x < f)
        → IsBetween values
        → IsSwept (sweep f values is) values is
    unfolding sweep
    sweep-IsSwept f values [] deep b = record {
      final = values;
      ends = refl;
      between = b;
      complete = λ x h. elim h [ inl q ↦ absurd (cc) | inr c ↦ c ];
    }
    sweep-IsSwept f values (i ∷ is) deep b =
        let r = sweep_round_lem f values i deep b in
        let rest = sweep-IsSwept f r.next is deep r.between in
        record {
          final = rest.final;
          ends = rw (r.runs, sweep) rest.ends;
          between = rest.between;
          complete = λ x h. elim h [
            | inr c ↦ rest.complete x (inr (r.others x c))
            | inl q ↦ elim (Bool-cases (x == i)) [
              | inl same ↦
                  let e : x ≡ i = ground arith in
                  rest.complete x (inr (subst (λ z. IsComplete r.next z) (sym e) r.complete))
              | inr other ↦ rest.complete x (inl (rw other at q))
            ]
          ];
        }

-- Where no identity is derived from itself, and the fuel is more than each rank, the sweep ends, and the
-- values of each identity of the dictionary are then exactly the identities that were derived from it
-- when it began, through any number of others, whatever the order of the dictionary.
pub sweep_lem :
    (f : ℕ) (start : Values) (rank : ℕ → ℕ) (is : List ℕ)
    → IsRanked rank start
    → ((x : ℕ) → rank x < f)
    → (final : Values) × (sweep f start is ≡ some final)
      × ((x : ℕ)
          → is_seen x is ≡ true
          → (y : ℕ) → (is_seen y (final x) ≡ true) ↔ IsDerived start x y)
sweep_lem f start rank is ranked deep =
    let b : IsBetween start start = record {
      kept = λ x c h. h;
      derived = λ x c h. Any-is_seen (λ z. Reaches start z c) c (start x) h (self c);
    } in
    let s = sweep-IsSwept start rank ranked f start is deep b in
    (s.final, s.ends, λ x h. s.complete x (inl h))
