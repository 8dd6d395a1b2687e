-- ===== src/BaseTypes/Equal.antt =====
-- `Equal` of two types holds exactly when they agree in all but their names, bits and enums, also in
-- the types of a union.
pub mod Fields
use go_restconf.Number.{Number, NumberKind}
use go_restconf.Range.{YRange, YangRange, kind_eq, number_eq, ranges_equal}
use go_restconf.BaseTypes.{
  TypeKind, kind_index, type_kind_eq, Facts, YangType, yang_type, YangTypes, no_types, one_more,
  ss_equal, pointer_eq, bool_eq, facts_equal, type_equal, ts_equal,
}
use go_restconf.Common.{
  bytes_eq, bytes_eq_iff, bytes_eq_refl, Bytes, codes, length, take, drop, replicate, get_elem?,
  length-append, take-length_append, drop-length_append, take-append-drop, length-take, length-drop,
  length-replicate, is_seen, All, Any, All-append, ltb, leb, ◌==◌, if◌then◌else◌, is_some, ltb→lt,
  lt→ltb, ltb→le, le→ltb, ==_iff, Bool-cases, Option-cases, ℤ, pos, negsuc, pos_part, neg_part,
  ◌≤ℤ◌, ◌<ℤ◌, ltb_ℤ, eqb_ℤ, suc_ℤ, eqb_ℤ→eq, eqb_ℤ_refl, suc_ℤ_parts, Result, ok, err, panic, ◌>>=◌,
  passed_on, ℕ, zero, suc, ◌+◌, ◌-◌, ◌*◌, ◌/◌, ◌%◌, ◌^◌, ◌≤◌, ◌<◌, ◌≡◌, refl, sym, ap, ◌∙◌, ◌≢◌,
  ◌↔◌, ◌⊎◌, inl, inr, Bool, true, false, not, ◌&&◌, ◌||◌, Option, none, some, List, [], ◌∷◌, ◌++◌,
  map, append_assoc, append-nil, arith,
}
use go_restconf.BaseTypes.Equal.Fields.{
  nth, all_kinds, nth-kind_index, type_kind_eq_iff, number_kind_eq_iff, number_parts,
  number_eq_refl, number_eq_iff, cons_parts, ranges_equal_iff, ss_equal_iff, pointer_eq_iff,
  bool_eq_iff,
}

-- Equal in each field.
record Agree (a b : Facts) : Type 0 where
  kind : a.kind ≡ b.kind
  units : a.units ≡ b.units
  default : a.default ≡ b.default
  fraction_digits : a.fraction_digits ≡ b.fraction_digits
  identity_base : a.identity_base ≡ b.identity_base
  length_range : a.length_range ≡ b.length_range
  optional_instance : a.optional_instance ≡ b.optional_instance
  path : a.path ≡ b.path
  pattern : a.pattern ≡ b.pattern
  value_range : a.value_range ≡ b.value_range

both : {p q : Bool} → p && q ≡ true → (p ≡ true) × (q ≡ true)
both {p} {q} h = ground arith

facts-Agree : (a b : Facts) → facts_equal a b ≡ true → Agree a b
unfolding facts_equal
facts-Agree a b h =
    let (h1, t1) = both h in
    let (h2, t2) = both t1 in
    let (h3, t3) = both t2 in
    let (h4, t4) = both t3 in
    let (h5, t5) = both t4 in
    let (h6, t6) = both t5 in
    let (h7, t7) = both t6 in
    let (h8, t8) = both t7 in
    let (h9, h10) = both t8 in
    record {
      kind = (type_kind_eq_iff a.kind b.kind).0 h1;
      units = (bytes_eq_iff a.units b.units).0 h2;
      default = (bytes_eq_iff a.default b.default).0 h3;
      fraction_digits = eqb_ℤ→eq a.fraction_digits b.fraction_digits h4;
      identity_base = (pointer_eq_iff a.identity_base b.identity_base).0 h5;
      length_range = (ranges_equal_iff a.length_range b.length_range).0 h6;
      optional_instance = (bool_eq_iff a.optional_instance b.optional_instance).0 h7;
      path = (bytes_eq_iff a.path b.path).0 h8;
      pattern = (ss_equal_iff a.pattern b.pattern).0 h9;
      value_range = (ranges_equal_iff a.value_range b.value_range).0 h10;
    }

facts_equal_refl : (a : Facts) → facts_equal a a ≡ true
unfolding facts_equal
facts_equal_refl a =
    rw
      (
        (type_kind_eq_iff a.kind a.kind).1 refl,
        bytes_eq_refl a.units,
        bytes_eq_refl a.default,
        eqb_ℤ_refl a.fraction_digits,
        (pointer_eq_iff a.identity_base a.identity_base).1 refl,
        (ranges_equal_iff a.length_range a.length_range).1 refl,
        (bool_eq_iff a.optional_instance a.optional_instance).1 refl,
        bytes_eq_refl a.path,
        (ss_equal_iff a.pattern a.pattern).1 refl,
        (ranges_equal_iff a.value_range a.value_range).1 refl,
      )
      refl

facts_equal_iff : (a b : Facts) → (facts_equal a b ≡ true) ↔ (a ≡ b)
facts_equal_iff a b = (
  λ h.
      let g = facts-Agree a b h in
      λ i. record {
        kind = g.kind i;
        units = g.units i;
        default = g.default i;
        fraction_digits = g.fraction_digits i;
        identity_base = g.identity_base i;
        length_range = g.length_range i;
        optional_instance = g.optional_instance i;
        path = g.path i;
        pattern = g.pattern i;
        value_range = g.value_range i;
      },
  λ q. rw q (facts_equal_refl b),
)

-- What a type says, without names, bits and enums.
mutual
  pub data Meaning : Type 0 where
    meaning : Facts → Meanings → Meaning

  pub data Meanings : Type 0 where
    no_meanings : Meanings
    one_meaning : Meaning → Meanings → Meanings

unfoldable mutual
  pub meaning_of : YangType → Meaning
  meaning_of (yang_type n y b e ys) = meaning y (meanings_of ys)

  pub meanings_of : YangTypes → Meanings
  meanings_of no_types = no_meanings
  meanings_of (one_more y ys) = one_meaning (meaning_of y) (meanings_of ys)

mutual
  unfolding type_equal meaning_of

  equal_means : (y t : YangType) → (type_equal y t ≡ true) ↔ (meaning_of y ≡ meaning_of t)
  equal_means (yang_type n y b e ys) (yang_type m t c f ts) =
      let here = facts_equal_iff y t in
      let below = equals_mean ys ts in
      (
        λ h. let (p, q) = both h in let p' = here.0 p in let q' = below.0 q in cc,
        λ q.
            let p' : y ≡ t = cc in
            let q' : meanings_of ys ≡ meanings_of ts = cc in rw (here.1 p', below.1 q') refl,
      )

  equals_mean : (ys ts : YangTypes) → (ts_equal ys ts ≡ true) ↔ (meanings_of ys ≡ meanings_of ts)
  equals_mean no_types no_types = (λ h. refl, λ q. refl)
  equals_mean no_types (one_more t ts) = (λ h. absurd (cc), λ q. absurd (cc))
  equals_mean (one_more y ys) no_types = (λ h. absurd (cc), λ q. absurd (cc))
  equals_mean (one_more y ys) (one_more t ts) =
      let here = equal_means y t in
      let below = equals_mean ys ts in
      (
        λ h. let (p, q) = both h in let p' = here.0 p in let q' = below.0 q in cc,
        λ q.
            let p' : meaning_of y ≡ meaning_of t = cc in
            let q' : meanings_of ys ≡ meanings_of ts = cc in rw (here.1 p', below.1 q') refl,
      )

-- `Equal` holds exactly when the types have the same meaning: the fields that it compares are the
-- same, and so on, pair by pair, in the types of a union. So it is reflexive, symmetric and transitive.
pub type_equal-meaning_of :
    (y t : YangType) → (type_equal y t ≡ true) ↔ (meaning_of y ≡ meaning_of t)
type_equal-meaning_of y t = equal_means y t
