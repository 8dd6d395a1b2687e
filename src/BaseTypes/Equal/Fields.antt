-- ===== src/BaseTypes/Equal/Fields.antt =====
-- The tests of fields hold exactly where the fields are the same.
use go_restconf.Number.{Number, NumberKind}
use go_restconf.Range.{YRange, YangRange, kind_eq, number_eq, ranges_equal}
use go_restconf.BaseTypes.{TypeKind, kind_index, type_kind_eq, ss_equal, pointer_eq, bool_eq}
use go_restconf.Common.{
  bytes_eq_iff, Bytes, ==_iff, ℕ, zero, suc, ◌≡◌, refl, sym, ap, ◌∙◌, ◌↔◌, Bool, true, false,
  Option, none, some, List, [], ◌∷◌, arith,
}

pub nth : List TypeKind → ℕ → TypeKind
nth [] i = TypeKind.y_none
nth (k ∷ ks) zero = k
nth (k ∷ ks) (suc i) = nth ks i

pub all_kinds : List TypeKind
all_kinds =
    TypeKind.y_none ∷ TypeKind.y_int8 ∷ TypeKind.y_int16 ∷ TypeKind.y_int32 ∷ TypeKind.y_int64
    ∷ TypeKind.y_uint8 ∷ TypeKind.y_uint16 ∷ TypeKind.y_uint32 ∷ TypeKind.y_uint64
    ∷ TypeKind.y_binary ∷ TypeKind.y_bits ∷ TypeKind.y_bool ∷ TypeKind.y_decimal64
    ∷ TypeKind.y_empty ∷ TypeKind.y_enum ∷ TypeKind.y_identityref ∷ TypeKind.y_instance_identifier
    ∷ TypeKind.y_leafref ∷ TypeKind.y_string ∷ TypeKind.y_union ∷ []

pub nth-kind_index : (k : TypeKind) → nth all_kinds (kind_index k) ≡ k
unfolding kind_index nth all_kinds
nth-kind_index TypeKind.y_none = refl
nth-kind_index TypeKind.y_int8 = refl
nth-kind_index TypeKind.y_int16 = refl
nth-kind_index TypeKind.y_int32 = refl
nth-kind_index TypeKind.y_int64 = refl
nth-kind_index TypeKind.y_uint8 = refl
nth-kind_index TypeKind.y_uint16 = refl
nth-kind_index TypeKind.y_uint32 = refl
nth-kind_index TypeKind.y_uint64 = refl
nth-kind_index TypeKind.y_binary = refl
nth-kind_index TypeKind.y_bits = refl
nth-kind_index TypeKind.y_bool = refl
nth-kind_index TypeKind.y_decimal64 = refl
nth-kind_index TypeKind.y_empty = refl
nth-kind_index TypeKind.y_enum = refl
nth-kind_index TypeKind.y_identityref = refl
nth-kind_index TypeKind.y_instance_identifier = refl
nth-kind_index TypeKind.y_leafref = refl
nth-kind_index TypeKind.y_string = refl
nth-kind_index TypeKind.y_union = refl

pub type_kind_eq_iff : (a b : TypeKind) → (type_kind_eq a b ≡ true) ↔ (a ≡ b)
unfolding type_kind_eq
type_kind_eq_iff a b = (
  λ h.
      let q : kind_index a ≡ kind_index b = ground arith in
      sym (nth-kind_index a) ∙ ap (nth all_kinds) q ∙ nth-kind_index b,
  λ q. rw q (ground arith),
)

pub number_kind_eq_iff : (a b : NumberKind) → (kind_eq a b ≡ true) ↔ (a ≡ b)
unfolding kind_eq
number_kind_eq_iff NumberKind.positive NumberKind.positive = (λ h. refl, λ q. refl)
number_kind_eq_iff NumberKind.positive NumberKind.negative = (λ h. absurd (cc), λ q. absurd (cc))
number_kind_eq_iff NumberKind.positive NumberKind.min_number = (λ h. absurd (cc), λ q. absurd (cc))
number_kind_eq_iff NumberKind.positive NumberKind.max_number = (λ h. absurd (cc), λ q. absurd (cc))
number_kind_eq_iff NumberKind.negative NumberKind.positive = (λ h. absurd (cc), λ q. absurd (cc))
number_kind_eq_iff NumberKind.negative NumberKind.negative = (λ h. refl, λ q. refl)
number_kind_eq_iff NumberKind.negative NumberKind.min_number = (λ h. absurd (cc), λ q. absurd (cc))
number_kind_eq_iff NumberKind.negative NumberKind.max_number = (λ h. absurd (cc), λ q. absurd (cc))
number_kind_eq_iff NumberKind.min_number NumberKind.positive = (λ h. absurd (cc), λ q. absurd (cc))
number_kind_eq_iff NumberKind.min_number NumberKind.negative = (λ h. absurd (cc), λ q. absurd (cc))
number_kind_eq_iff NumberKind.min_number NumberKind.min_number = (λ h. refl, λ q. refl)
number_kind_eq_iff NumberKind.min_number NumberKind.max_number =
    (λ h. absurd (cc), λ q. absurd (cc))
number_kind_eq_iff NumberKind.max_number NumberKind.positive = (λ h. absurd (cc), λ q. absurd (cc))
number_kind_eq_iff NumberKind.max_number NumberKind.negative = (λ h. absurd (cc), λ q. absurd (cc))
number_kind_eq_iff NumberKind.max_number NumberKind.min_number =
    (λ h. absurd (cc), λ q. absurd (cc))
number_kind_eq_iff NumberKind.max_number NumberKind.max_number = (λ h. refl, λ q. refl)

pub number_parts :
    (a b : Number)
    → number_eq a b ≡ true
    → (a.kind ≡ b.kind) × (a.value ≡ b.value) × (a.fraction_digits ≡ b.fraction_digits)
unfolding number_eq
number_parts a b h = let k = number_kind_eq_iff a.kind b.kind in ground arith

pub number_eq_refl : (a : Number) → number_eq a a ≡ true
unfolding number_eq
number_eq_refl a = let k = (number_kind_eq_iff a.kind a.kind).1 refl in ground arith

pub number_eq_iff : (a b : Number) → (number_eq a b ≡ true) ↔ (a ≡ b)
number_eq_iff a b = (
  λ h.
      let (k, v, f) = number_parts a b h in
      λ i. record { kind = k i; value = v i; fraction_digits = f i },
  λ q. rw q (number_eq_refl b),
)

pub cons_parts :
    {r q : YRange} {rs qs : YangRange}
    → r ∷ rs ≡ q ∷ qs
    → (r.min ≡ q.min) × (r.max ≡ q.max) × (rs ≡ qs)
cons_parts e = (cc, cc, cc)

pub ranges_equal_iff : (a b : YangRange) → (ranges_equal a b ≡ true) ↔ (a ≡ b)
unfolding ranges_equal
ranges_equal_iff [] [] = ground arith
ranges_equal_iff [] (q ∷ qs) = ground arith
ranges_equal_iff (r ∷ rs) [] = ground arith
ranges_equal_iff (r ∷ rs) (q ∷ qs) =
    let low = number_eq_iff r.min q.min in
    let high = number_eq_iff r.max q.max in
    let rest = ranges_equal_iff rs qs in
    (
      λ h.
          let (l, m, n) : (r.min ≡ q.min) × (r.max ≡ q.max) × (rs ≡ qs) = ground arith in
          λ i. record { min = l i; max = m i } ∷ n i,
      λ e.
          let (l, m, n) : (r.min ≡ q.min) × (r.max ≡ q.max) × (rs ≡ qs) = cons_parts e in
          ground arith,
    )

pub ss_equal_iff : (a b : List Bytes) → (ss_equal a b ≡ true) ↔ (a ≡ b)
unfolding ss_equal
ss_equal_iff [] [] = ground arith
ss_equal_iff [] (q ∷ qs) = ground arith
ss_equal_iff (r ∷ rs) [] = ground arith
ss_equal_iff (r ∷ rs) (q ∷ qs) = ground (arith, bytes_eq_iff r q, ss_equal_iff rs qs)

pub pointer_eq_iff : (a b : Option ℕ) → (pointer_eq a b ≡ true) ↔ (a ≡ b)
unfolding pointer_eq
pointer_eq_iff none none = ground arith
pointer_eq_iff none (some b) = ground arith
pointer_eq_iff (some a) none = ground arith
pointer_eq_iff (some a) (some b) = ground (arith, ==_iff a b)

pub bool_eq_iff : (a b : Bool) → (bool_eq a b ≡ true) ↔ (a ≡ b)
unfolding bool_eq
bool_eq_iff true true = ground arith
bool_eq_iff true false = ground arith
bool_eq_iff false true = ground arith
bool_eq_iff false false = ground arith
