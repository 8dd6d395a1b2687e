-- ===== src/GoMap.antt =====
-- Go maps with texts as keys: association lists in which a key stands once, in the order that the map
-- is ranged over, which is any order.
use go_restconf.Common.{
  bytes_eq, bytes_eq_iff, Bytes, if◌then◌else◌, Bool-cases, ◌≡◌, refl, sym, ap, ◌∙◌, inl, inr, true,
  false, Option, none, some, List, [], ◌∷◌, arith,
}

module _ {ℓ} {A : Type ℓ} where
  unfoldable pub get : Bytes → List (Bytes × A) → Option A
  get k [] = none
  get k ((j, a) ∷ m) = if bytes_eq j k then some a else get k m

  -- `m[k] = a`.
  unfoldable pub put : Bytes → A → List (Bytes × A) → List (Bytes × A)
  put k a [] = (k, a) ∷ []
  put k a ((j, b) ∷ m) = elim (bytes_eq j k) [ true ↦ (j, a) ∷ m | false ↦ (j, b) ∷ put k a m ]

  pub get-put :
      (j k : Bytes) (a : A) (m : List (Bytes × A))
      → get j (put k a m) ≡ (if bytes_eq k j then some a else get j m)
  unfolding get put
  get-put j k a [] = refl
  get-put j k a ((i, b) ∷ m) =
      let rest = get-put j k a m in
      elim (Bool-cases (bytes_eq i k)) [
        | inl same ↦
            let q : bytes_eq i j ≡ bytes_eq k j =
              ap (λ x. bytes_eq x j) ((bytes_eq_iff i k).0 same) in
            rw (same, put, q) (ground arith)
        | inr other ↦
            let both : bytes_eq i j ≡ true → bytes_eq k j ≡ true → bytes_eq i k ≡ true =
              λ x y. (bytes_eq_iff i k).1 ((bytes_eq_iff i j).0 x ∙ sym ((bytes_eq_iff k j).0 y)) in
            rw (other, put, rest) (ground arith)
      ]
