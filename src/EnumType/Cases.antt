-- ===== src/EnumType/Cases.antt =====
-- The invariant of an enumeration or bit field, and the cases of `Set`.
use go_restconf.EnumType.{
  EnumType, EnumError, new_enum_type, new_bitfield, lookup_name, lookup_value, set,
  already_assigned, conflict, too_small, too_large,
}
use go_restconf.Common.{
  is_some, Bytes, if◌then◌else◌, Bool-cases, Option-cases, ℤ, ◌≤ℤ◌, ◌<ℤ◌, ltb_ℤ, ◌≡◌, ◌⊎◌, inl, inr,
  true, false, ◌&&◌, none, some, ◌∷◌, arith,
}

-- Every value has a name, and the name of a value has that value. Values lie between the bounds and
-- are at most `last`. In an enumeration no two names share a value.
pub record IsEnum (e : EnumType) : Type 0 where
  pub named :
      (s : Bytes) (v : ℤ)
      → lookup_value s e.to_int ≡ some v
      → is_some (lookup_name v e.to_string) ≡ true
  pub valued :
      (v : ℤ) (s : Bytes) → lookup_name v e.to_string ≡ some s → lookup_value s e.to_int ≡ some v
  pub bounded :
      (s : Bytes) (v : ℤ)
      → lookup_value s e.to_int ≡ some v
      → (e.min ≤ℤ v) × (v ≤ℤ e.max) × (v ≤ℤ e.last)
  pub injective :
      e.unique ≡ true
      → (s t : Bytes) (v : ℤ) → lookup_value s e.to_int ≡ some v
      → lookup_value t e.to_int ≡ some v
      → s ≡ t

pub new_enum_type-IsEnum : IsEnum new_enum_type
unfolding new_enum_type lookup_name lookup_value
new_enum_type-IsEnum = record {
  named = λ s v h. cc;
  valued = λ v s h. cc;
  bounded = λ s v h. absurd (cc);
  injective = λ u s t v h k. cc;
}

new_bitfield-IsEnum : IsEnum new_bitfield
unfolding new_bitfield lookup_name lookup_value
new_bitfield-IsEnum = record {
  named = λ s v h. cc;
  valued = λ v s h. cc;
  bounded = λ s v h. absurd (cc);
  injective = λ u s t v h k. cc;
}

-- The state after a successful `Set`.
abbrev pub assigned : EnumType → Bytes → ℤ → EnumType
assigned e s v = record e {
  to_string = (v, s) ∷ e.to_string;
  to_int = (s, v) ∷ e.to_int;
  last = if ltb_ℤ v e.last then e.last else v;
}

-- The name is new, the value is new where it has to be, and it lies between the bounds.
pub record IsAllowed (e : EnumType) (s : Bytes) (v : ℤ) : Type 0 where
  pub fresh : lookup_value s e.to_int ≡ none
  pub no_conflict : e.unique ≡ true → lookup_name v e.to_string ≡ none
  pub not_small : e.min ≤ℤ v
  pub not_large : v ≤ℤ e.max

small_lt : (a b : ℤ) → ltb_ℤ a b ≡ true → a <ℤ b
small_lt a b h = ground arith

large_le : (a b : ℤ) → ltb_ℤ a b ≡ false → b ≤ℤ a
large_le a b h = ground arith

no_clash :
    (e : EnumType) (v : ℤ)
    → (e.unique && is_some (lookup_name v e.to_string)) ≡ true
    → (e.unique ≡ true → lookup_name v e.to_string ≡ none)
    → ⊥
no_clash e v h n = ground arith

clear_conflict :
    (e : EnumType) (v : ℤ)
    → (e.unique && is_some (lookup_name v e.to_string)) ≡ false
    → e.unique ≡ true
    → lookup_name v e.to_string ≡ none
clear_conflict e v h u = ground arith

-- `Set` assigns what is allowed, and otherwise returns an error and the state it was given.
pub set-cases :
    (e : EnumType) (s : Bytes) (v : ℤ)
    → ((err : EnumError) × (set e s v ≡ (e, some err)) × ¬ IsAllowed e s v)
      ⊎ ((set e s v ≡ (assigned e s v, none)) × IsAllowed e s v)
set-cases e s v = elim (Option-cases (lookup_value s e.to_int)) [
  | inr (w, known) ↦ inl (already_assigned, unfold set in rw known, λ a. let f = a.fresh in cc)
  | inl fresh ↦ elim (Bool-cases (e.unique && is_some (lookup_name v e.to_string))) [
    | inl clash ↦
        inl (conflict, unfold set in rw (fresh, clash), λ a. no_clash e v clash a.no_conflict)
    | inr clear ↦ elim (Bool-cases (ltb_ℤ v e.min)) [
      | inl small ↦ inl (
        too_small,
        unfold set in rw (fresh, clear, small),
        λ a. let h = a.not_small in let k = small_lt v e.min small in omega arith,
      )
      | inr not_small ↦ elim (Bool-cases (ltb_ℤ e.max v)) [
        | inl large ↦ inl (
          too_large,
          unfold set in rw (fresh, clear, not_small, large),
          λ a. let h = a.not_large in let k = small_lt e.max v large in omega arith,
        )
        | inr not_large ↦ inr (
          unfold set in rw (fresh, clear, not_small, not_large),
          record {
            fresh = fresh;
            no_conflict = clear_conflict e v clear;
            not_small = large_le v e.min not_small;
            not_large = large_le e.max v not_large;
          },
        )
      ]
    ]
  ]
]
