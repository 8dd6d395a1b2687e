-- ===== src/Ast/Step.antt =====
-- What one round of the loop of `build` does to the children of the structure.
use go_restconf.Schema.{StructType, pointer, Field, struct_of, lookup_field, is_special}
use go_restconf.Schema.Consistent.{lookup_field_lem}
use go_restconf.Statement.{Statement, header}
use go_restconf.Ast.{
  Node, Building, add_child, count_child, Built, fill_field, other_sub, build_sub, BuildError,
}
use go_restconf.Common.{
  bytes_eq, bytes_eq_iff, Bytes, codes, Bool-cases, Result, ok, err, panic, ◌≡◌, refl, sym, inl,
  inr, Bool, true, false, Option, none, some, arith,
}

-- Either the keyword is that of no field and the children stay, or it is that of a field, which gets
-- the node that the substatement became.
pub data Step (t : StructType) (s : Statement) (built : Built) (b b' : Building) : Type 0 where
  kept :
      b'.children ≡ b.children
      → ((k : Bytes) (f : Field)
          → lookup_field k (struct_of t).fields ≡ some f
          → bytes_eq (header s).keyword k ≡ false)
      → Step t s built b b'
  filled :
      (f : Field) (n : Node)
      → lookup_field (header s).keyword (struct_of t).fields ≡ some f
      → built ≡ ok (some n)
      → (f.shape ≡ pointer → count_child (header s).keyword b.children ≡ 0)
      → b'.children ≡ add_child b.children (header s).keyword n
      → Step t s built b b'

bytes_eq-sym_false : (a b : Bytes) → (b ≡ a → ⊥) → bytes_eq a b ≡ false
bytes_eq-sym_false a b h = elim (Bool-cases (bytes_eq a b)) [
  | inl same ↦ absurd (h (sym ((bytes_eq_iff a b).0 same)))
  | inr other ↦ other
]

-- A special keyword is that of no field.
special_kept :
    (t : StructType) (s : Statement) (built : Built) (b b' : Building)
    → is_special (header s).keyword ≡ true
    → b'.children ≡ b.children
    → Step t s built b b'
special_kept t s built b b' h e = kept e (λ k f l. bytes_eq-sym_false (header s).keyword k (λ q.
    let (_, _, plain) = lookup_field_lem t k f l in
    let plain' : is_special (header s).keyword ≡ false = rw (← q) plain in cc))

fill_field_lem :
    (f : Field) (k : Bytes) (built : Built) (b b' : Building)
    → fill_field f k built b ≡ ok b'
    → (n : Node) × (built ≡ ok (some n))
      × (f.shape ≡ pointer → count_child k b.children ≡ 0)
      × (b'.children ≡ add_child b.children k n)
unfolding fill_field
fill_field_lem f k (ok (some n)) b b' h = (n, refl, ground arith, ground arith)
fill_field_lem f k (ok none) b b' h = absurd (ground arith)
fill_field_lem f k (err e) b b' h = absurd (ground arith)
fill_field_lem f k panic b b' h = absurd (ground arith)

other_sub_lem :
    (kind : Bytes) (s : Statement) (b b' : Building)
    → other_sub kind s b ≡ ok b'
    → b'.children ≡ b.children
unfolding other_sub
other_sub_lem kind s b b' h = ground arith

module _ (t : StructType) (parented : Bool) (kind : Bytes) (s : Statement) (built : Built)
    (b b' : Building) where
  field-Step :
      (o : Option Field)
      → lookup_field (header s).keyword (struct_of t).fields ≡ o
      → (elim o as (λ _. Result BuildError Building) [
        | some f ↦ fill_field f (header s).keyword built b
        | none ↦ other_sub kind s b
      ])
        ≡ ok b'
      → Step t s built b b'
  field-Step none e h = kept (other_sub_lem kind s b b' h) (λ k f l.
      bytes_eq-sym_false (header s).keyword k (λ q.
        let l' : lookup_field (header s).keyword (struct_of t).fields ≡ some f = rw (← q) l in cc))
  field-Step (some f) e h =
      let (n, is_node, free, added) = fill_field_lem f (header s).keyword built b b' h in
      filled f n e is_node free added

  pub build_sub-Step : build_sub t parented kind s built b ≡ ok b' → Step t s built b b'
  unfolding build_sub
  build_sub-Step h = elim (Bool-cases (bytes_eq (header s).keyword (codes "Name"))) [
    | inl name ↦ special_kept t s built b b' (ground arith) (ground arith)
    | inr e1 ↦ elim (Bool-cases (bytes_eq (header s).keyword (codes "Statement"))) [
      | inl statement ↦ special_kept t s built b b' (ground arith) (ground arith)
      | inr e2 ↦ elim (Bool-cases (bytes_eq (header s).keyword (codes "Parent"))) [
        | inl parent ↦ special_kept t s built b b' (ground arith) (ground arith)
        | inr e3 ↦ field-Step _ refl (rw (e1, e2, e3) at h)
      ]
    ]
  ]
