-- ===== src/Identity/Closure.antt =====
-- `addChildren` adds an identity and all that are derived from it.
use mathlib.Core.Path.{subst}
use go_restconf.Identity.{Values, append_if_not_in, each_child, add_children}
use go_restconf.Common.{
  is_seen, All, Any, ◌==◌, Bool-cases, ℕ, zero, suc, ◌<◌, ◌≡◌, refl, ◌↔◌, ◌⊎◌, inl, inr, true, ◌||◌,
  Option, some, List, [], ◌∷◌, ◌++◌, arith,
}

-- One identity is another one, or derived from it through the values.
pub data Reaches (values : Values) : ℕ → ℕ → Type 0 where
  self : (x : ℕ) → Reaches values x x
  through : (x c y : ℕ) → is_seen c (values x) ≡ true → Reaches values c y → Reaches values x y

-- Derived from a value of an identity.
abbrev pub IsDerived : Values → ℕ → ℕ → Type 0
IsDerived values x y = Any (λ c. Reaches values c y) (values x)

-- Values have a smaller rank: no identity is derived from itself.
abbrev pub IsRanked : (ℕ → ℕ) → Values → Type 0
IsRanked rank values = (x c : ℕ) → is_seen c (values x) ≡ true → rank c < rank x

seen_first : (c : ℕ) (xs : List ℕ) → is_seen c (c ∷ xs) ≡ true
seen_first c xs = ground arith

seen_behind : (a x : ℕ) (xs : List ℕ) → is_seen x xs ≡ true → is_seen x (a ∷ xs) ≡ true
seen_behind a x xs h = ground arith

pub All-is_seen : {P : ℕ → Type 0} (xs : List ℕ) → ((c : ℕ) → is_seen c xs ≡ true → P c) → All P xs
All-is_seen [] h = tt
All-is_seen (x ∷ xs) h = (h x (seen_first x xs), All-is_seen xs (λ c q. h c (seen_behind x c xs q)))

pub Any-is_seen : (P : ℕ → Type 0) (c : ℕ) (xs : List ℕ) → is_seen c xs ≡ true → P c → Any P xs
Any-is_seen P c [] h p = absurd (cc)
Any-is_seen P c (x ∷ xs) h p = elim (Bool-cases (c == x)) [
  | inl same ↦ inl (let q : c ≡ x = ground arith in subst P q p)
  | inr other ↦ inr (Any-is_seen P c xs (rw other at h) p)
]

pub is_seen-Any : (P : ℕ → Type 0) (xs : List ℕ) → Any P xs → (c : ℕ) × (is_seen c xs ≡ true) × P c
is_seen-Any P [] a = elim a [ ]
is_seen-Any P (x ∷ xs) (inl p) = (x, seen_first x xs, p)
is_seen-Any P (x ∷ xs) (inr a) = let (c, h, p) = is_seen-Any P xs a in (c, seen_behind x c xs h, p)

-- An identity reaches itself and what is derived from it.
pub Reaches-iff :
    (values : Values) (x y : ℕ) → Reaches values x y ↔ ((x ≡ y) ⊎ IsDerived values x y)
Reaches-iff values x y = (to x y, back x y)
  where
    to : (a b : ℕ) → Reaches values a b → (a ≡ b) ⊎ IsDerived values a b
    to a b (self c) = inl refl
    to a b (through d c e h way) = inr (Any-is_seen (λ z. Reaches values z b) c (values a) h way)

    back : (a b : ℕ) → (a ≡ b) ⊎ IsDerived values a b → Reaches values a b
    back a b (inl q) = subst (λ z. Reaches values a z) q (self a)
    back a b (inr d) =
        let (c, h, way) = is_seen-Any (λ z. Reaches values z b) (values a) d in through a c b h way

seen_append : (x y : ℕ) (xs : List ℕ) → is_seen x (xs ++ y ∷ []) ≡ (is_seen x xs || x == y)
seen_append x y [] = ground arith
seen_append x y (z ∷ xs) = let k = seen_append x y xs in ground arith

seen_append_if_not_in :
    (x r : ℕ) (ids : List ℕ)
    → (is_seen x (append_if_not_in ids r) ≡ true) ↔ ((is_seen x ids ≡ true) ⊎ (r ≡ x))
unfolding append_if_not_in
seen_append_if_not_in x r ids = elim (Bool-cases (is_seen r ids)) [
  | inl there ↦
      rw (there, append_if_not_in)
        (λ h. inl h, λ s. elim s [ inl h ↦ h | inr q ↦ subst (λ z. is_seen z ids ≡ true) q there ])
  | inr fresh ↦ rw (fresh, append_if_not_in, seen_append x r ids) (ground arith)
]

-- What a run that adds identities returns: those of before, and the ones that are described.
pub record IsAdded (run : Option (List ℕ)) (ids : List ℕ) (which : ℕ → Type 0) : Type 0 where
  pub result : List ℕ
  pub runs : run ≡ some result
  pub added : (x : ℕ) → (is_seen x result ≡ true) ↔ ((is_seen x ids ≡ true) ⊎ which x)

module _ (values : Values) where
  pub each_child-IsAdded :
      (f : ℕ) (chs ids : List ℕ)
      → All
          (λ c. (more : List ℕ) → IsAdded (add_children f values c more) more (Reaches values c))
          chs
      → IsAdded
          (each_child (add_children f values) chs ids)
          ids
          (λ y. Any (λ c. Reaches values c y) chs)
  unfolding each_child
  each_child-IsAdded f [] ids h = record { result = ids; runs = refl; added = λ x. ground arith }
  each_child-IsAdded f (ch ∷ chs) ids (h, hs) =
      let first = h ids in
      let rest = each_child-IsAdded f chs first.result hs in
      record {
        result = rest.result;
        runs = rw (first.runs, each_child) rest.runs;
        added = λ x. let p = first.added x in let q = rest.added x in ground arith;
      }

  module _ (rank : ℕ → ℕ) (ranked : IsRanked rank values) where
    -- Where no identity is derived from itself, with more fuel than the rank, `addChildren` returns the
    -- identities it was given, the new one, and all that are derived from that one.
    pub add_children-IsAdded :
        (f r : ℕ) (ids : List ℕ)
        → rank r < f
        → IsAdded (add_children f values r ids) ids (Reaches values r)
    unfolding add_children
    add_children-IsAdded zero r ids h = absurd (omega arith)
    add_children-IsAdded (suc f) r ids h =
        let below = All-is_seen (values r) (λ c q more.
          let less = ranked r c q in add_children-IsAdded f c more (omega (arith, less, h))) in
        let all = each_child-IsAdded f (values r) (append_if_not_in ids r) below in
        record {
          result = all.result;
          runs = all.runs;
          added = λ x.
              let p = all.added x in
              let q = seen_append_if_not_in x r ids in
              let e = Reaches-iff values r x in ground arith;
        }
