-- ===== src/EnumType/Invariant.antt =====
-- What `Set` and `SetNext` do to the invariant of an enumeration or bit field.
use go_restconf.EnumType.{EnumType, max_enum, lookup_name, lookup_value, set, set_next, value}
use go_restconf.Common.{
  is_some, bytes_eq, bytes_eq_iff, bytes_eq_refl, Bytes, Bool-cases, Option-cases, ℤ, ◌≤ℤ◌, ◌<ℤ◌,
  eqb_ℤ, suc_ℤ, eqb_ℤ→eq, eqb_ℤ_refl, suc_ℤ_parts, ◌≡◌, sym, ap, ◌∙◌, inl, inr, true, false, none,
  some, arith,
}
use go_restconf.EnumType.Cases.{IsEnum, assigned, IsAllowed, set-cases}

some_eq {ℓ} : {A : Type ℓ} {a b : A} → some a ≡ some b → a ≡ b
some_eq h = cc

not_self : {v w : ℤ} → eqb_ℤ v w ≡ false → some v ≡ some w → ⊥
not_self {v} h q = let r = eqb_ℤ_refl v in let q' = some_eq q in cc

module _ (e : EnumType) (i : IsEnum e) (s : Bytes) (v : ℤ) (a : IsAllowed e s v) where
  other_name : (t : Bytes) (w : ℤ) → lookup_value t e.to_int ≡ some w → bytes_eq s t ≡ false
  other_name t w h = elim (Bool-cases (bytes_eq s t)) [
    | inl same ↦ let q = (bytes_eq_iff s t).0 same in let f = a.fresh in cc
    | inr other ↦ other
  ]

  new_value :
      (t : Bytes) (w : ℤ) → e.unique ≡ true → lookup_value t e.to_int ≡ some w → eqb_ℤ v w ≡ false
  new_value t w u h = elim (Bool-cases (eqb_ℤ v w)) [
    | inl same ↦
        let q = eqb_ℤ→eq v w same in
        let f = a.no_conflict u in
        let g = i.named t w h in
        let f' : is_some (lookup_name w e.to_string) ≡ false = rw (← q) (rw f) in cc
    | inr other ↦ other
  ]

  last_grows : (w : ℤ) → w ≤ℤ e.last → w ≤ℤ (assigned e s v).last
  last_grows w h = ground arith

  last_covers : v ≤ℤ (assigned e s v).last
  last_covers = ground arith

  assigned_named :
      (t : Bytes) (w : ℤ)
      → lookup_value t (assigned e s v).to_int ≡ some w
      → is_some (lookup_name w (assigned e s v).to_string) ≡ true
  unfolding lookup_value lookup_name
  assigned_named t w h = elim (Bool-cases (eqb_ℤ v w)) [
    | inl same ↦ rw same
    | inr other ↦ rw other (elim (Bool-cases (bytes_eq s t)) [
      | inl known ↦ absurd (not_self other (rw known at h))
      | inr unknown ↦ i.named t w (rw unknown at h)
    ])
  ]

  assigned_valued :
      (w : ℤ) (t : Bytes)
      → lookup_name w (assigned e s v).to_string ≡ some t
      → lookup_value t (assigned e s v).to_int ≡ some w
  unfolding lookup_value lookup_name
  assigned_valued w t h = elim (Bool-cases (eqb_ℤ v w)) [
    | inl same ↦
        let q : s ≡ t = some_eq (rw same at h) in
        rw ((bytes_eq_iff s t).1 q) (ap some (eqb_ℤ→eq v w same))
    | inr other ↦ let k = i.valued w t (rw other at h) in rw (other_name t w k) k
  ]

  assigned_bounded :
      (t : Bytes) (w : ℤ)
      → lookup_value t (assigned e s v).to_int ≡ some w
      → (e.min ≤ℤ w) × (w ≤ℤ e.max) × (w ≤ℤ (assigned e s v).last)
  unfolding lookup_value
  assigned_bounded t w h = elim (Bool-cases (bytes_eq s t)) [
    | inl known ↦
        let q : v ≡ w = some_eq (rw known at h) in rw (← q) (a.not_small, a.not_large, last_covers)
    | inr unknown ↦
        let (low, high, under) = i.bounded t w (rw unknown at h) in (low, high, last_grows w under)
  ]

  assigned_injective :
      e.unique ≡ true
      → (t u : Bytes) (w : ℤ) → lookup_value t (assigned e s v).to_int ≡ some w
      → lookup_value u (assigned e s v).to_int ≡ some w
      → t ≡ u
  unfolding lookup_value
  assigned_injective uniq t u w h k = elim (Bool-cases (bytes_eq s t)) [
    | inl first ↦ elim (Bool-cases (bytes_eq s u)) [
      | inl second ↦ sym ((bytes_eq_iff s t).0 first) ∙ (bytes_eq_iff s u).0 second
      | inr other ↦ absurd (not_self (new_value u w uniq (rw other at k)) (rw first at h))
    ]
    | inr other ↦ elim (Bool-cases (bytes_eq s u)) [
      | inl second ↦ absurd (not_self (new_value t w uniq (rw other at h)) (rw second at k))
      | inr last ↦ i.injective uniq t u w (rw other at h) (rw last at k)
    ]
  ]

  assigned-IsEnum : IsEnum (assigned e s v)
  assigned-IsEnum = record {
    named = assigned_named;
    valued = assigned_valued;
    bounded = assigned_bounded;
    injective = assigned_injective;
  }

-- `Set` keeps the invariant, whether it succeeds or not.
pub set-IsEnum : (e : EnumType) (s : Bytes) (v : ℤ) → IsEnum e → IsEnum (set e s v).0
set-IsEnum e s v i = elim (set-cases e s v) [
  | inl (why, r, _) ↦ rw r i
  | inr (r, a) ↦ rw r (assigned-IsEnum e i s v a)
]

value_assigned : (e : EnumType) (s : Bytes) (v : ℤ) → value (assigned e s v) s ≡ v
unfolding value lookup_value
value_assigned e s v = rw (bytes_eq_refl s, value)

value_kept :
    (e : EnumType) (s : Bytes) (v : ℤ) (t : Bytes) (w : ℤ)
    → lookup_value s e.to_int ≡ none
    → lookup_value t e.to_int ≡ some w
    → lookup_value t (assigned e s v).to_int ≡ some w
unfolding lookup_value
value_kept e s v t w fresh h = elim (Bool-cases (bytes_eq s t)) [
  | inl same ↦ let q = (bytes_eq_iff s t).0 same in absurd (cc)
  | inr other ↦ rw other h
]

no_name_above : (e : EnumType) (v : ℤ) → IsEnum e → e.last <ℤ v → lookup_name v e.to_string ≡ none
no_name_above e v i above = elim (Option-cases (lookup_name v e.to_string)) [
  | inl free ↦ free
  | inr (t, taken) ↦ let (_, _, under) = i.bounded t v (i.valued v t taken) in absurd (omega arith)
]

below_ne : (a b : ℤ) → a <ℤ b → eqb_ℤ a b ≡ false
below_ne a b h = ground arith

set_next-assigned :
    (e : EnumType) (s : Bytes)
    → IsEnum e
    → lookup_value s e.to_int ≡ none
    → e.last <ℤ max_enum
    → e.last <ℤ e.max
    → e.min ≤ℤ suc_ℤ e.last
    → set_next e s ≡ (assigned e s (suc_ℤ e.last), none)
unfolding set_next
set_next-assigned e s i fresh below room low =
    rw (below_ne e.last max_enum below) (elim (set-cases e s (suc_ℤ e.last)) [
      | inr (r, _) ↦ r
      | inl (why, r, refused) ↦ absurd (
          refused (record {
            fresh = fresh;
            no_conflict = λ u. no_name_above e (suc_ℤ e.last) i (omega (arith, suc_ℤ_parts e.last));
            not_small = low;
            not_large = omega (arith, suc_ℤ_parts e.last);
          }))
    ])

-- In an enumeration or bit field that holds its invariant and whose last value is less than the
-- greatest of an enumeration and than its own maximum, `SetNext` of a new name succeeds, if the
-- minimum is at most the value behind the last one. The name's value is that one, which is greater
-- than every value assigned before, and the names of before keep their values.
pub set_next_fresh :
    (e : EnumType) (s : Bytes)
    → IsEnum e
    → lookup_value s e.to_int ≡ none
    → e.last <ℤ max_enum
    → e.last <ℤ e.max
    → e.min ≤ℤ suc_ℤ e.last
    → (set_next e s ≡ (assigned e s (suc_ℤ e.last), none))
      × (value (set_next e s).0 s ≡ suc_ℤ e.last)
      × ((t : Bytes) (w : ℤ)
          → lookup_value t e.to_int ≡ some w
          → (w <ℤ suc_ℤ e.last) × (lookup_value t (set_next e s).0.to_int ≡ some w))
set_next_fresh e s i fresh below room low =
    let done = set_next-assigned e s i fresh below room low in
    (
      done,
      rw done (value_assigned e s (suc_ℤ e.last)),
      λ t w h.
          let (_, _, under) = i.bounded t w h in
          (omega (arith, suc_ℤ_parts e.last), rw done (value_kept e s (suc_ℤ e.last) t w fresh h)),
    )
