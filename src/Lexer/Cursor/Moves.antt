-- ===== src/Lexer/Cursor/Moves.antt =====
-- Where the cursor stands behind each operation, and what is pending.
use go_restconf.Lexer.{eof, Lexer, blocked, out_of_fuel, Run}
use go_restconf.Lexer.Cursor.{after_rune, next, backup, peek}
use go_restconf.Common.{
  ltb, ltb→lt, ltb→le, ◌⊎◌, Bytes, length, get_elem?, ◌==◌, Bool-cases, Option-cases, ok, err,
  panic, ◌>>=◌, ℕ, zero, suc, ◌+◌, ◌-◌, ◌≤◌, ◌<◌, ◌≡◌, refl, ap, ◌∙◌, inl, inr, false, none, some,
  [], ◌∷◌, arith,
}

-- The run gives a result that has the property, or it blocks at a full channel and `B` holds: it
-- neither panics nor runs out of fuel.
abbrev pub Ensures : {A : Type 0} → Type 0 → (A → Type 0) → Run A → Type 0
Ensures B P (ok a) = P a
Ensures B P (err blocked) = B
Ensures B P (err out_of_fuel) = ⊥
Ensures B P panic = ⊥

pub Ensures-bind :
    (B : Type 0)
    → {A C : Type 0} (P : A → Type 0) (Q : C → Type 0) (m : Run A) (f : A → Run C) → Ensures B P m
    → ((a : A) → P a → Ensures B Q (f a))
    → Ensures B Q (m >>= f)
Ensures-bind B P Q (ok a) f h k = k a h
Ensures-bind B P Q (err blocked) f h k = h
Ensures-bind B P Q (err out_of_fuel) f h k = h
Ensures-bind B P Q panic f h k = h

pub Ensures-map :
    (B : Type 0)
    → {A : Type 0} (P Q : A → Type 0) (m : Run A) → ((a : A) → P a → Q a)
    → Ensures B P m
    → Ensures B Q m
Ensures-map B P Q (ok a) f h = f a h
Ensures-map B P Q (err blocked) f h = h
Ensures-map B P Q (err out_of_fuel) f h = h
Ensures-map B P Q panic f h = h

-- The two ways in which such a run ends.
pub Ensures-cases :
    (B : Type 0) {A : Type 0} (P : A → Type 0) (m : Run A)
    → Ensures B P m
    → ((m ≡ err blocked) × B) ⊎ ((a : A) × (m ≡ ok a) × P a)
Ensures-cases B P (ok a) h = inr (a, refl, h)
Ensures-cases B P (err blocked) h = inl (refl, h)
Ensures-cases B P (err out_of_fuel) h = absurd h
Ensures-cases B P panic h = absurd h

abbrev pub size : Lexer → ℕ
size l = length l.input

abbrev pub left : Lexer → ℕ
left l = length l.input - l.pos

-- The start of the token, the cursor and the end of the input stand in this order.
abbrev pub IsInBounds : Lexer → Type 0
IsInBounds l = (l.start ≤ l.pos) × (l.pos ≤ size l)

-- The rune at the cursor.
unfoldable pub rune_at : Lexer → ℕ
rune_at l = elim (get_elem? l.input l.pos) [ none ↦ eof | some r ↦ r ]

-- The input, the pending tokens and the start of the token are the same.
pub record Same (l l' : Lexer) : Type 0 where
  pub input : l'.input ≡ l.input
  pub size_is : size l' ≡ size l
  pub items : length l'.items ≡ length l.items
  pub start : l'.start ≡ l.start

Same-of : (l l' : Lexer) → l'.input ≡ l.input → l'.items ≡ l.items → l'.start ≡ l.start → Same l l'
Same-of l l' i t s = record { input = i; size_is = ap length i; items = ap length t; start = s }

Same-of_Same :
    (l l' m : Lexer)
    → Same l l'
    → m.input ≡ l'.input
    → m.items ≡ l'.items
    → m.start ≡ l'.start
    → Same l m
Same-of_Same l l' m s i t e = record {
  input = i ∙ s.input;
  size_is = ap length i ∙ s.size_is;
  items = ap length t ∙ s.items;
  start = e ∙ s.start;
}

-- `next` moves by one rune, or stays at the end of the input.
pub record Read (l l' : Lexer) : Type 0 where
  pub same : Same l l'
  pub step : l.pos < size l → l'.pos ≡ l.pos + 1
  pub stay : size l ≤ l.pos → l'.pos ≡ l.pos
  pub width_is : l'.pos ≡ l.pos + l'.width

get_elem?-none-le : (s : Bytes) (i : ℕ) → get_elem? s i ≡ none → length s ≤ i
get_elem?-none-le [] i e = omega arith
get_elem?-none-le (x ∷ s) zero e = absurd (cc)
get_elem?-none-le (x ∷ s) (suc i) e = omega (arith, get_elem?-none-le s i e)

get_elem?-some-lt : (s : Bytes) (i : ℕ) {r : ℕ} → get_elem? s i ≡ some r → i < length s
get_elem?-some-lt [] i e = absurd (cc)
get_elem?-some-lt (x ∷ s) zero e = omega arith
get_elem?-some-lt (x ∷ s) (suc i) e = omega (arith, get_elem?-some-lt s i e)

after_rune-Read : (l : Lexer) (r : ℕ) → l.pos < size l → Read l (after_rune r l)
after_rune-Read l r h = elim (Bool-cases (r == b'\n')) [
  | inl newline ↦ rw newline (record {
    same = Same-of l _ refl refl refl;
    step = λ _. refl;
    stay = λ k. absurd (omega arith);
    width_is = refl;
  })
  | inr e ↦ rw e (elim (Bool-cases (r == b'\t')) [
    | inl tab ↦ rw tab (record {
      same = Same-of l _ refl refl refl;
      step = λ _. refl;
      stay = λ k. absurd (omega arith);
      width_is = refl;
    })
    | inr other ↦ rw other (record {
      same = Same-of l _ refl refl refl;
      step = λ _. refl;
      stay = λ k. absurd (omega arith);
      width_is = refl;
    })
  ])
]

pub next-Read : (l : Lexer) → Read l (next l).1
unfolding next
next-Read l = elim (Option-cases (get_elem? l.input l.pos)) [
  | inl e ↦
      rw (e, next)
        (let h = get_elem?-none-le l.input l.pos e in
          record {
            same = Same-of l _ refl refl refl;
            step = λ k. absurd (omega arith);
            stay = λ _. refl;
            width_is = omega arith;
          })
  | inr (r, e) ↦ rw (e, next) (after_rune-Read l r (get_elem?-some-lt l.input l.pos e))
]

pub next-IsInBounds : (l : Lexer) → IsInBounds l → IsInBounds (next l).1
next-IsInBounds l (b, c) =
    let r = next-Read l in
    let s = r.same in
    let e = s.size_is in
    let v = s.start in
    elim (Bool-cases (ltb l.pos (size l))) [
      | inl inside ↦
          let p = r.step (ltb→lt _ _ inside) in
          let i = ltb→lt _ _ inside in (omega arith, omega arith)
      | inr outside ↦ let p = r.stay (ltb→le _ _ outside) in (omega arith, omega arith)
    ]

pub next-rune_at : (l : Lexer) → (next l).0 ≡ rune_at l
unfolding next rune_at
next-rune_at l = ground arith

pub rune_at-inside : (l : Lexer) → (rune_at l == eof) ≡ false → l.pos < size l
unfolding rune_at
rune_at-inside l h = elim (Option-cases (get_elem? l.input l.pos)) [
  | inl e ↦ absurd (let h' : (eof == eof) ≡ false = rw (e, rune_at) at h in cc)
  | inr (r, e) ↦ get_elem?-some-lt l.input l.pos e
]

-- To be where another lexer is.
pub record Stays (l l' : Lexer) : Type 0 where
  pub same : Same l l'
  pub pos_is : l'.pos ≡ l.pos

pub rune_at-Stays : (l l' : Lexer) → Stays l l' → rune_at l' ≡ rune_at l
unfolding rune_at
rune_at-Stays l l' s = rw (s.same.input, s.pos_is)

backup-Read : (l l' : Lexer) → Read l l' → Stays l (backup l')
unfolding backup
backup-Read l l' r = elim (Bool-cases (l'.width == 0)) [
  | inl e ↦ rw e (record { same = r.same; pos_is = let w = r.width_is in ground arith })
  | inr e ↦ rw e (elim (Bool-cases (l'.col == 0)) [
    | inl c ↦ rw c (record {
      same = Same-of_Same l l' _ r.same refl refl refl;
      pos_is = let w = r.width_is in omega arith;
    })
    | inr c ↦ rw c (record {
      same = Same-of_Same l l' _ r.same refl refl refl;
      pos_is = let w = r.width_is in omega arith;
    })
  ])
]

pub peek-Stays : (l : Lexer) → Stays l (peek l).1
unfolding peek
peek-Stays l = backup-Read l (next l).1 (next-Read l)

pub peek-rune_at : (l : Lexer) → (peek l).0 ≡ rune_at l
unfolding peek
peek-rune_at l = next-rune_at l
