-- ===== src/Values/Revisions.antt =====
-- `Current` finds the newest revision.
use go_restconf.Ast.{Node, Children, no_children, child, children_of}
use go_restconf.Values.{name_of, text_less, newest, current}
use mathlib.Core.Path.{subst}
use go_restconf.Common.{
  bytes_eq, Bytes, codes, ◌&&◌, Bool-cases, ◌≡◌, refl, sym, ◌⊎◌, inl, inr, Bool, true, false, [],
  ◌∷◌, arith,
}

pub text_less_refl : (s : Bytes) → text_less s s ≡ false
unfolding text_less
text_less_refl [] = refl
text_less_refl (x ∷ s) = ground (arith, text_less_refl s)

pub text_less_asym : (s t : Bytes) → text_less s t ≡ true → text_less t s ≡ false
unfolding text_less
text_less_asym s [] h = absurd (cc)
text_less_asym [] (y ∷ t) h = refl
text_less_asym (x ∷ s) (y ∷ t) h = ground (arith, text_less_asym s t)

pub text_less_trans :
    (a b c : Bytes) → text_less b a ≡ false → text_less c b ≡ false → text_less c a ≡ false
unfolding text_less
text_less_trans [] b c h k = refl
text_less_trans (x ∷ a) [] c h k = absurd (cc)
text_less_trans (x ∷ a) (y ∷ b) [] h k = absurd (cc)
text_less_trans (x ∷ a) (y ∷ b) (z ∷ c) h k = ground (arith, text_less_trans a b c)

-- A text is the name of a revision.
abbrev pub IsRevision : Bytes → Children → Type 0
IsRevision s no_children = ⊥
IsRevision s (child k n cs) =
    (bytes_eq k (codes "revision") ≡ true) × (name_of n ≡ s) ⊎ IsRevision s cs

-- A round of the loop takes the name of a revision that is newer.
takes : Bytes → Bytes → Node → Bool
takes rev k n = bytes_eq k (codes "revision") && text_less rev (name_of n)

newest_child :
    (rev k : Bytes) (n : Node) (cs : Children)
    → ((takes rev k n ≡ true) × (newest rev (child k n cs) ≡ newest (name_of n) cs))
      ⊎ ((takes rev k n ≡ false) × (newest rev (child k n cs) ≡ newest rev cs))
unfolding newest takes
newest_child rev k n cs =
    elim (Bool-cases (bytes_eq k (codes "revision") && text_less rev (name_of n))) [
      | inl e ↦ inl (e, rw (e, newest) refl)
      | inr e ↦ inr (e, rw (e, newest) refl)
    ]

takes_less :
    (rev k : Bytes) (n : Node)
    → takes rev k n ≡ true
    → (bytes_eq k (codes "revision") ≡ true) × (text_less rev (name_of n) ≡ true)
unfolding takes
takes_less rev k n h = ground arith

takes_not :
    (rev k : Bytes) (n : Node)
    → takes rev k n ≡ false
    → bytes_eq k (codes "revision") ≡ true
    → text_less rev (name_of n) ≡ false
unfolding takes
takes_not rev k n h r = ground arith

newest_above : (rev : Bytes) (cs : Children) → text_less (newest rev cs) rev ≡ false
newest_above rev no_children = unfold newest in text_less_refl rev
newest_above rev (child k n cs) = elim (newest_child rev k n cs) [
  | inl (t, e) ↦
      let (_, less) = takes_less rev k n t in
      rw e (
        text_less_trans rev (name_of n) (newest (name_of n) cs)
          (text_less_asym rev (name_of n) less) (newest_above (name_of n) cs))
  | inr (t, e) ↦ rw e (newest_above rev cs)
]

newest_all :
    (rev : Bytes) (cs : Children) (s : Bytes)
    → IsRevision s cs
    → text_less (newest rev cs) s ≡ false
newest_all rev no_children s h = absurd h
newest_all rev (child k n cs) s (inl (r, q)) = elim (newest_child rev k n cs) [
  | inl (t, e) ↦ rw (e, ← q) (newest_above (name_of n) cs)
  | inr (t, e) ↦
      rw (e, ← q)
        (text_less_trans (name_of n) rev (newest rev cs) (takes_not rev k n t r)
          (newest_above rev cs))
]
newest_all rev (child k n cs) s (inr h) = elim (newest_child rev k n cs) [
  | inl (t, e) ↦ rw e (newest_all (name_of n) cs s h)
  | inr (t, e) ↦ rw e (newest_all rev cs s h)
]

newest_found : (rev : Bytes) (cs : Children) → (newest rev cs ≡ rev) ⊎ IsRevision (newest rev cs) cs
newest_found rev no_children = inl (unfold newest in refl)
newest_found rev (child k n cs) = elim (newest_child rev k n cs) [
  | inl (t, e) ↦
      subst (λ x. (x ≡ rev) ⊎ IsRevision x (child k n cs)) (sym e)
        (elim (newest_found (name_of n) cs) [
          | inl q ↦ inr (inl ((takes_less rev k n t).0, sym q))
          | inr r ↦ inr (inr r)
        ])
  | inr (t, e) ↦
      subst (λ x. (x ≡ rev) ⊎ IsRevision x (child k n cs)) (sym e)
        (elim (newest_found rev cs) [ inl q ↦ inl q | inr r ↦ inr (inr r) ])
]

-- `Current` is no older than any revision of the module, and it is one of them, or empty.
pub current_lem :
    (m : Node)
    → ((s : Bytes) → IsRevision s (children_of m) → text_less (current m) s ≡ false)
      × ((current m ≡ []) ⊎ IsRevision (current m) (children_of m))
unfolding current
current_lem m = (λ s h. newest_all [] (children_of m) s h, newest_found [] (children_of m))
