-- ===== src/Schema/Consistent.antt =====
-- What `initTypes` of yang/ast.go relies on: no field sends a keyword to another type than the map
-- of keywords does (it would panic), and no field is spelled like one of the four special tags.
use go_restconf.Schema.{StructType, Field, struct_of, name_map, alias, lookup_field, is_special}
use go_restconf.Common.{
  bytes_eq_iff, Bytes, ◌≡◌, refl, ap, ◌⊎◌, inl, inr, Bool, true, false, not, ◌&&◌, Option, none,
  some, List, [], ◌∷◌, arith,
}

StructType-discrete : Discrete StructType
StructType-discrete = hlevel

same_type : StructType → StructType → Bool
same_type a b = elim (StructType-discrete a b) [ yes _ ↦ true | no _ ↦ false ]

same_type→eq : (a b : StructType) → same_type a b ≡ true → a ≡ b
unfolding same_type
same_type→eq a b h = elim (decided (StructType-discrete a b)) [ inl e ↦ e | inr e ↦ absurd (e h) ]
  where
    decided :
        (d : Dec (a ≡ b))
        → (a ≡ b) ⊎ ¬ ((elim d as (λ _. Bool) [ yes _ ↦ true | no _ ↦ false ]) ≡ true)
    decided (yes e) = inl e
    decided (no n) = inr (λ e. cc)

names_type : Option StructType → StructType → Bool
names_type none t = false
names_type (some u) t = same_type u t

names_type→eq : (o : Option StructType) (t : StructType) → names_type o t ≡ true → o ≡ some t
unfolding names_type
names_type→eq none t h = absurd (cc)
names_type→eq (some u) t h = ap some (same_type→eq u t h)

field_agrees : Field → Bool
field_agrees f = names_type (name_map (alias f.keyword)) f.target && not (is_special f.keyword)

all_agree : List Field → Bool
all_agree [] = true
all_agree (f ∷ fs) = field_agrees f && all_agree fs

struct_agrees : (t : StructType) → all_agree (struct_of t).fields ≡ true
unfolding all_agree field_agrees names_type same_type StructType-discrete name_map alias struct_of
struct_agrees StructType.yang_module = refl
struct_agrees _ = refl

agree_lookup :
    (k : Bytes) (f : Field) (fs : List Field)
    → all_agree fs ≡ true
    → lookup_field k fs ≡ some f
    → (f.keyword ≡ k) × (field_agrees f ≡ true)
unfolding all_agree lookup_field
agree_lookup k f [] h e = absurd (cc)
agree_lookup k f (g ∷ fs) h e = ground (arith, bytes_eq_iff g.keyword k, agree_lookup k f fs)

-- A field has the keyword that it was looked up by, its type is the one that the keyword names, and
-- the keyword is not special.
pub lookup_field_lem :
    (t : StructType) (k : Bytes) (f : Field)
    → lookup_field k (struct_of t).fields ≡ some f
    → (f.keyword ≡ k) × (name_map (alias k) ≡ some f.target) × (is_special k ≡ false)
unfolding field_agrees
lookup_field_lem t k f e =
    let (q, a) = agree_lookup k f (struct_of t).fields (struct_agrees t) e in
    let a' : (names_type (name_map (alias k)) f.target && not (is_special k)) ≡ true = rw q at a in
    (q, names_type→eq (name_map (alias k)) f.target (ground arith), ground arith)
