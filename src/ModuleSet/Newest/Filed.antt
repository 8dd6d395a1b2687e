-- ===== src/ModuleSet/Newest/Filed.antt =====
-- What it means that the name of a module stands for its newest revision, and maps that are put to.
use mathlib.Core.Path.{subst}
use go_restconf.GoMap.{get, put, get-put}
use go_restconf.GoText.Laws.{Lacks}
use go_restconf.Ast.{Node}
use go_restconf.Values.{name_of, text_less, current, full_name}
use go_restconf.ModuleSet.{Module}
use go_restconf.Common.{
  bytes_eq, bytes_eq_iff, Bytes, Bool-cases, ◌≡◌, refl, sym, ◌∙◌, ◌⊎◌, inl, inr, true, false, some,
  List, [], ◌∷◌, ◌++◌,
}

-- The name of a module stands for a module of that name, whose full name is not less than its own.
pub record IsShadowed (m : List (Bytes × Module)) (a : Module) : Type 0 where
  pub holder : Module
  pub held : get (name_of a.node) m ≡ some holder
  pub same_name : name_of holder.node ≡ name_of a.node
  pub newest : text_less (full_name holder.node) (full_name a.node) ≡ false

-- A module stands under its full name or its name, which has no `@`.
pub record IsFiled (m : List (Bytes × Module)) (k : Bytes) (a : Module) : Type 0 where
  pub plain : Lacks b'@' (name_of a.node)
  pub key : (k ≡ full_name a.node) ⊎ (k ≡ name_of a.node)
  pub shadowed : IsShadowed m a

abbrev pub AreFiled : List (Bytes × Module) → Type 0
AreFiled m = (k : Bytes) (a : Module) → get k m ≡ some a → IsFiled m k a

pub Lacks-not_at : (s t u : Bytes) → Lacks b'@' s → s ≡ t ++ b'@' ∷ u → ⊥
Lacks-not_at [] [] u h q = cc
Lacks-not_at [] (x ∷ t) u h q = cc
Lacks-not_at (y ∷ s) [] u (ne, h) q = ne (cc)
Lacks-not_at (y ∷ s) (x ∷ t) u (ne, h) q = Lacks-not_at s t u h (cc)

-- A full name is the name, or has an `@`.
pub full_name-cases :
    (n : Node) → (full_name n ≡ name_of n) ⊎ (full_name n ≡ name_of n ++ (b'@' ∷ current n))
unfolding full_name
full_name-cases n = elim (Bool-cases (bytes_eq (current n) [])) [
  | inl none_there ↦ inl (rw (none_there, full_name) refl)
  | inr some_there ↦ inr (rw (some_there, full_name) refl)
]

-- The full name of a module with a revision is the name of no module.
pub full_name_other :
    (n o : Node)
    → Lacks b'@' (name_of o)
    → bytes_eq (full_name n) (name_of n) ≡ false
    → bytes_eq (full_name n) (name_of o) ≡ false
full_name_other n o plain h = elim (full_name-cases n) [
  | inl short ↦ absurd (
      let e = (bytes_eq_iff (full_name n) (name_of n)).1 short in
      let f : true ≡ false = sym e ∙ h in cc)
  | inr long ↦ elim (Bool-cases (bytes_eq (full_name n) (name_of o))) [
    | inl same ↦ absurd (
        Lacks-not_at (name_of o) (name_of n) (current n) plain
          (sym ((bytes_eq_iff (full_name n) (name_of o)).0 same) ∙ long))
    | inr other ↦ other
  ]
]

pub some_eq : {a b : Module} → some a ≡ some b → a ≡ b
some_eq h = cc

-- What stands under the name of a module has that name.
pub held_name :
    (m : List (Bytes × Module)) (a o : Module)
    → AreFiled m
    → Lacks b'@' (name_of a.node)
    → get (name_of a.node) m ≡ some o
    → name_of o.node ≡ name_of a.node
held_name m a o filed plain h = elim ((filed (name_of a.node) o h).key) [
  | inr named ↦ sym named
  | inl full ↦ elim (full_name-cases o.node) [
    | inl short ↦ sym (full ∙ short)
    | inr long ↦
        absurd (Lacks-not_at (name_of a.node) (name_of o.node) (current o.node) plain (full ∙ long))
  ]
]

-- A new key that is not the name of a module leaves what stands under that name.
pub put-IsShadowed :
    (k : Bytes) (a x : Module) (m : List (Bytes × Module))
    → bytes_eq k (name_of x.node) ≡ false
    → IsShadowed m x
    → IsShadowed (put k a m) x
put-IsShadowed k a x m h s = record {
  holder = s.holder;
  held = get-put (name_of x.node) k a m ∙ rw h s.held;
  same_name = s.same_name;
  newest = s.newest;
}

-- A module that is put under its own name stands for the modules of that name that are not newer.
pub put_name-IsShadowed :
    (a x : Module) (m : List (Bytes × Module))
    → name_of a.node ≡ name_of x.node
    → text_less (full_name a.node) (full_name x.node) ≡ false
    → IsShadowed (put (name_of a.node) a m) x
put_name-IsShadowed a x m q h = record {
  holder = a;
  held =
      get-put (name_of x.node) (name_of a.node) a m
      ∙ rw ((bytes_eq_iff (name_of a.node) (name_of x.node)).1 q) refl;
  same_name = q;
  newest = h;
}

-- What a map that was put to holds: the new module under the new key, or what it held.
pub put-AreFiled :
    (k : Bytes) (a : Module) (m : List (Bytes × Module))
    → IsFiled (put k a m) k a
    → ((j : Bytes) (x : Module) → bytes_eq k j ≡ false → get j m ≡ some x → IsFiled (put k a m) j x)
    → AreFiled (put k a m)
put-AreFiled k a m new old j x h = elim (Bool-cases (bytes_eq k j)) [
  | inl same ↦
      let q : a ≡ x = some_eq (rw same at (sym (get-put j k a m) ∙ h)) in
      subst (λ i. IsFiled (put k a m) i x) ((bytes_eq_iff k j).0 same)
        (subst (λ y. IsFiled (put k a m) k y) q new)
  | inr other ↦ old j x other (rw other at (sym (get-put j k a m) ∙ h))
]
