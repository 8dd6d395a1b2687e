-- ===== src/ModuleSet/Includes/Growth.antt =====
-- How many modules are left to mark, and what `include` keeps of a set.
use go_restconf.GoMap.{get}
use go_restconf.Ast.{Node}
use go_restconf.Values.{name_of}
use go_restconf.ModuleSet.{Module, Modules}
use go_restconf.ModuleSet.Loading.{
  map_for, known, revision_wanted, Reference, to_submodule, to_module, other_node,
}
use go_restconf.Common.{
  Bytes, is_seen, if◌then◌else◌, Option-cases, ℕ, zero, suc, ◌+◌, ◌≤◌, ◌<◌, ◌≡◌, refl, ◌∙◌, inl,
  inr, true, false, some, List, ◌∷◌, arith,
}

-- How many numbers below a bound are not in a list.
unfoldable pub unseen : ℕ → List ℕ → ℕ
unseen zero xs = 0
unseen (suc n) xs = let rest = unseen n xs in if is_seen n xs then rest else 1 + rest

pub unseen_mono :
    (n : ℕ) (xs ys : List ℕ)
    → ((x : ℕ) → is_seen x xs ≡ true → is_seen x ys ≡ true)
    → unseen n ys ≤ unseen n xs
unfolding unseen
unseen_mono zero xs ys h = omega arith
unseen_mono (suc n) xs ys h = let k = h n in let rest = unseen_mono n xs ys h in ground arith

pub seen_behind : (a x : ℕ) (xs : List ℕ) → is_seen x xs ≡ true → is_seen x (a ∷ xs) ≡ true
seen_behind a x xs h = ground arith

pub seen_first : (a : ℕ) (xs : List ℕ) → is_seen a (a ∷ xs) ≡ true
seen_first a xs = ground arith

pub unseen_mark :
    (n a : ℕ) (xs : List ℕ) → a < n → is_seen a xs ≡ false → unseen n (a ∷ xs) < unseen n xs
unfolding unseen
unseen_mark zero a xs h k = absurd (omega arith)
unseen_mark (suc n) a xs h k =
    let first = seen_first a xs in
    let behind = seen_behind a n xs in
    let mono = unseen_mono n xs (a ∷ xs) (λ x. seen_behind a x xs) in
    let rest = unseen_mark n a xs in ground arith

-- The modules of a map have addresses below a bound.
abbrev pub Below : ℕ → List (Bytes × Module) → Type 0
Below n m = (k : Bytes) (a : Module) → get k m ≡ some a → a.address < n

pub record IsBounded (ms : Modules) : Type 0 where
  pub modules_below : Below ms.next ms.modules
  pub sub_modules_below : Below ms.next ms.sub_modules

pub known-Below :
    (n : Node) (m : List (Bytes × Module)) (b : ℕ) (a : Module)
    → Below b m
    → known n (some m) ≡ some a
    → a.address < b
unfolding known
known-Below n m b a h q = elim (Option-cases (get (revision_wanted n) m)) [
  | inl e ↦ h (name_of n) a (rw (e, known) at q)
  | inr (c, e) ↦ h (revision_wanted n) a (e ∙ rw (e, known) at q)
]

pub map_for-Below :
    (r : Reference) (ms : Modules) (m : List (Bytes × Module))
    → IsBounded ms
    → map_for r ms ≡ some m
    → Below ms.next m
unfolding map_for
map_for-Below to_submodule ms m h q =
    let e : ms.sub_modules ≡ m = cc in rw (← e) h.sub_modules_below
map_for-Below to_module ms m h q = let e : ms.modules ≡ m = cc in rw (← e) h.modules_below
map_for-Below other_node ms m h q = absurd (cc)

-- The set has the modules it had, and marks that it had are kept.
pub record Grows {W : Type 0} (s s' : Modules × W) : Type 0 where
  pub same_modules : s'.0.modules ≡ s.0.modules
  pub same_sub_modules : s'.0.sub_modules ≡ s.0.sub_modules
  pub same_next : s'.0.next ≡ s.0.next
  pub kept_marks : (x : ℕ) → is_seen x s.0.includes ≡ true → is_seen x s'.0.includes ≡ true

pub Grows-refl : {W : Type 0} (s : Modules × W) → Grows s s
Grows-refl s = record {
  same_modules = refl;
  same_sub_modules = refl;
  same_next = refl;
  kept_marks = λ x h. h;
}

pub Grows-trans : {W : Type 0} {s t u : Modules × W} → Grows s t → Grows t u → Grows s u
Grows-trans g h = record {
  same_modules = h.same_modules ∙ g.same_modules;
  same_sub_modules = h.same_sub_modules ∙ g.same_sub_modules;
  same_next = h.same_next ∙ g.same_next;
  kept_marks = λ x k. h.kept_marks x (g.kept_marks x k);
}

pub Grows-IsBounded : {W : Type 0} {s t : Modules × W} → Grows s t → IsBounded s.0 → IsBounded t.0
Grows-IsBounded g h = record {
  modules_below = λ k a e. rw g.same_next (h.modules_below k a (rw g.same_modules at e));
  sub_modules_below =
      λ k a e. rw g.same_next (h.sub_modules_below k a (rw g.same_sub_modules at e));
}

pub Grows-unseen :
    {W : Type 0} {s t : Modules × W}
    → Grows s t
    → unseen t.0.next t.0.includes ≤ unseen s.0.next s.0.includes
Grows-unseen {s = s} {t = t} g =
    rw g.same_next (unseen_mono s.0.next s.0.includes t.0.includes g.kept_marks)
