-- ===== src/Lexer/Cursor/Sends.antt =====
-- Runs of runes, jumps, and what `emit` and `ErrorfAt` send.
use go_restconf.Lexer.{eof, items_cap, Code, t_error, Message, Lexer, LexError, max_errors}
use go_restconf.Lexer.Cursor.{
  next, backup, peek, contains_rune, accept_loop, rounds, accept_run, index, update_cursor, skip_to,
  after_text, in_bounds, consume, emit_text, emit, adderror, errorf, errorf_at, pending,
}
use go_restconf.Lexer.Cursor.Moves.{
  Ensures, Ensures-bind, size, left, rune_at, next-Read, next-rune_at, rune_at-inside, Stays,
  rune_at-Stays, peek-Stays, IsInBounds, next-IsInBounds,
}
use go_restconf.Common.{
  [], ◌∷◌, length-drop, some, Bytes, length, drop, length-append, ltb, leb, ◌==◌, ==_iff,
  Bool-cases, Option-cases, ℕ, zero, suc, ◌+◌, ◌≤◌, ◌<◌, ◌≡◌, refl, sym, ◌∙◌, ◌⊎◌, ltb→le, inl, inr,
  Bool, true, false, arith,
}

-- A cursor that moved forward, or not at all.
pub record Forward (l l' : Lexer) : Type 0 where
  pub input : l'.input ≡ l.input
  pub size_is : size l' ≡ size l
  pub items : length l'.items ≡ length l.items
  pub left_le : left l' ≤ left l
  pub bounds : IsInBounds l → IsInBounds l'

pub Forward-next : (l l' : Lexer) → Forward l l' → Forward l (next l').1
Forward-next l l' f =
    let r = next-Read l' in
    let s = r.same in
    record {
      input = s.input ∙ f.input;
      size_is = s.size_is ∙ f.size_is;
      items = s.items ∙ f.items;
      left_le = let e = s.size_is in let w = r.width_is in let h = f.left_le in omega arith;
      bounds = λ b. next-IsInBounds l' (f.bounds b);
    }

pub Forward-self : (l : Lexer) → Forward l l
Forward-self l = record {
  input = refl;
  size_is = refl;
  items = refl;
  left_le = omega arith;
  bounds = λ b. b;
}

pub Forward-Stays : (l l' m : Lexer) → Forward l l' → Stays l' m → Forward l m
Forward-Stays l l' m f t =
    let s = t.same in
    record {
      input = s.input ∙ f.input;
      size_is = s.size_is ∙ f.size_is;
      items = s.items ∙ f.items;
      left_le = let e = s.size_is in let w = t.pos_is in let h = f.left_le in omega arith;
      bounds = λ b.
          let (c, d) = f.bounds b in
          let e = s.size_is in let w = t.pos_is in let v = s.start in (omega arith, omega arith);
    }

-- What an accepted run leaves: a rune that is not of the set.
abbrev pub Accepted : Bytes → Lexer → Bool × Lexer → Type 0
Accepted valid l r = Forward l r.1 × (contains_rune valid (rune_at r.1) ≡ false)

not_eof :
    (valid : Bytes) (c : ℕ)
    → contains_rune valid eof ≡ false
    → contains_rune valid c ≡ true
    → (c == eof) ≡ false
not_eof valid c h k = elim (Bool-cases (c == eof)) [
  | inl e ↦
      let q : c ≡ eof = (==_iff c eof).0 e in
      let k' : contains_rune valid eof ≡ true = rw (← q) k in absurd (cc)
  | inr e ↦ e
]

accept_loop_lem :
    (B : Type 0) (f : ℕ) (valid : Bytes) (ret : Bool) (l₀ l : Lexer)
    → contains_rune valid eof ≡ false
    → Forward l₀ l
    → left l < f
    → Ensures B (Accepted valid l₀) (accept_loop f valid ret l)
unfolding accept_loop
accept_loop_lem B zero valid ret l₀ l v w h = absurd (omega arith)
accept_loop_lem B (suc f) valid ret l₀ l v w h =
    elim (Bool-cases (contains_rune valid (next l).0)) [
      | inl e ↦
          let c : (rune_at l == eof) ≡ false = rw next-rune_at at (not_eof valid (next l).0 v e) in
          let inside = rune_at-inside l c in
          let r = next-Read l in
          let s = r.same in
          let moved = r.step inside in
          let size_is = s.size_is in
          rw (e, accept_loop)
            (accept_loop_lem B f valid true l₀ (next l).1 v (Forward-next l₀ l w) (omega arith))
      | inr e ↦
          let t : Stays l (backup (next l).1) = unfold peek in peek-Stays l in
          let c : rune_at (backup (next l).1) ≡ (next l).0 =
            rune_at-Stays l _ t ∙ sym (next-rune_at l) in
          rw (e, accept_loop) (Forward-Stays l₀ l _ w t, rw c e)
    ]

pub accept_run_lem :
    (B : Type 0) (valid : Bytes) (l : Lexer)
    → contains_rune valid eof ≡ false
    → Ensures B (Accepted valid l) (accept_run valid l)
unfolding accept_run
accept_run_lem B valid l v =
    accept_loop_lem B (rounds l) valid false l l v (Forward-self l) (omega arith)

-- Where `strings.Index` finds the text, it is not behind the end.
index_le : (s sub : Bytes) (x : ℕ) → index s sub ≡ some x → x ≤ length s
unfolding index
index_le [] sub x h = ground arith
index_le (c ∷ s) sub x h = elim (Option-cases (index s sub)) [
  | inl e ↦ ground arith
  | inr (y, e) ↦ let k = index_le s sub y e in ground arith
]

update_cursor-Forward :
    (B : Type 0) (x : ℕ) (l : Lexer)
    → l.pos + x ≤ size l
    → Ensures B (Forward l) (update_cursor x l)
unfolding update_cursor
update_cursor-Forward B x l h =
    let e : leb (l.pos + x) (length l.input) ≡ true = ground arith in
    rw (e, update_cursor)
      (unfold after_text in
        record {
          input = refl;
          size_is = refl;
          items = refl;
          left_le = omega arith;
          bounds = λ (b, c). (omega arith, omega arith);
        })

-- Within its bounds, `skipTo` does not panic.
pub skip_to-Forward :
    (B : Type 0) (s : Bytes) (l : Lexer)
    → IsInBounds l
    → Ensures B (λ (r : Bool × Lexer). Forward l r.1) (skip_to s l)
unfolding skip_to
skip_to-Forward B s l (b, c) =
    let e : leb l.pos (length l.input) ≡ true = ground arith in
    elim (Option-cases (index (drop l.pos l.input) s)) [
      | inl n ↦ rw (e, n, skip_to) (Forward-self l)
      | inr (x, n) ↦
          let k = index_le (drop l.pos l.input) s x n in
          let d = length-drop l.pos l.input in
          rw (e, n, skip_to)
            (Ensures-bind B (Forward l) (λ (r : Bool × Lexer). Forward l r.1) (update_cursor x l) _
              (update_cursor-Forward B x l (omega arith)) (λ l' f. f))
    ]

-- There is room in the channel for a token.
abbrev pub Room : Type 0 → Lexer → Type 0
Room B l = (length l.items < items_cap) ⊎ B

-- No backslash, so no escape in a string.
abbrev pub HasNoEscape : Bytes → Type 0
HasNoEscape s = contains_rune s b'\\' ≡ false

-- The input has no escape, or `B` holds; and the cursor is within its bounds.
abbrev pub IsPlain : Type 0 → Lexer → Type 0
IsPlain B l = (HasNoEscape l.input ⊎ B) × IsInBounds l

-- No token waits and no string has an escape, so that no send finds the channel full, or `B` holds;
-- and the cursor is within its bounds.
abbrev pub IsQuiet : Type 0 → Lexer → Type 0
IsQuiet B l = ((length l.items ≡ 0) × HasNoEscape l.input ⊎ B) × IsInBounds l

pub Room-IsQuiet :
    (B : Type 0) (l l' : Lexer) → IsQuiet B l → length l'.items ≡ length l.items → Room B l'
Room-IsQuiet B l l' (inl (none_waits, plain), bounds) i = inl (omega arith)
Room-IsQuiet B l l' (inr b, bounds) i = inr b

-- One token more, and the token before the cursor is used up.
pub record Sent (l l' : Lexer) : Type 0 where
  pub input : l'.input ≡ l.input
  pub size_is : size l' ≡ size l
  pub items : length l'.items ≡ length l.items + 1
  pub pos_is : l'.pos ≡ l.pos
  pub bounds : IsInBounds l → IsInBounds l'

pub emit_text-Sent :
    (B : Type 0) (c : Code) (text : Bytes) (l : Lexer)
    → Room B l
    → Ensures B (Sent l) (emit_text c text l)
emit_text-Sent B c text l space = elim (Bool-cases (ltb (length l.items) items_cap)) [
  | inl room ↦
      unfold emit_text consume in
      rw (room, emit_text)
        (record {
          input = refl;
          size_is = refl;
          items = length-append l.items _;
          pos_is = refl;
          bounds = λ (b, c). (omega arith, c);
        })
  | inr full ↦
      unfold emit_text in
      rw (full, emit_text)
        (elim space [ inl h ↦ absurd (let k = ltb→le _ _ full in omega arith) | inr b ↦ b ])
]

pub emit-Sent :
    (B : Type 0) (c : Code) (l : Lexer) → Room B l → IsInBounds l → Ensures B (Sent l) (emit c l)
unfolding emit
emit-Sent B c l space (b, d) =
    let e : in_bounds l ≡ true = ground arith in
    rw (e, emit) (emit_text-Sent B c (pending l) l space)

-- An error: a token more; the input may be given up.
pub record Reported (l l' : Lexer) : Type 0 where
  pub items : length l'.items ≡ length l.items + 1
  pub left_le : left l' ≤ left l
  pub plain : HasNoEscape l.input → HasNoEscape l'.input
  pub bounds : IsInBounds l'

adderror_lem :
    (e : LexError) (l : Lexer)
    → IsInBounds l
    → (length (adderror e l).items ≡ length l.items)
      × (left (adderror e l) ≤ left l)
      × (HasNoEscape l.input → HasNoEscape (adderror e l).input)
      × IsInBounds (adderror e l)
unfolding adderror contains_rune
adderror_lem e l b = elim (Bool-cases (leb max_errors l.errcnt)) [
  | inl many ↦ rw many (refl, omega arith, λ _. refl, (omega arith, omega arith))
  | inr few ↦ rw few (refl, omega arith, λ h. h, b)
]

errorf-Reported :
    (B : Type 0) (m : Message) (l : Lexer)
    → Room B l
    → IsInBounds l
    → Ensures B (Reported l) (errorf m l)
unfolding errorf
errorf-Reported B m l space b =
    Ensures-bind B (Sent l) (Reported l) (emit t_error l) _ (emit-Sent B t_error l space b) λ l' s.
      let (i, h, c, d) =
        adderror_lem (record { line = l.line; col = l.col + 1; message = m }) l' (s.bounds b) in
      let n = s.items in
      let z = s.size_is in
      let p = s.pos_is in
      record { items = i ∙ n; left_le = omega arith; plain = λ q. c (rw s.input q); bounds = d }

pub errorf_at-Reported :
    (B : Type 0) (line col : ℕ) (m : Message) (l : Lexer)
    → Room B l
    → IsInBounds l
    → Ensures B (Reported l) (errorf_at line col m l)
unfolding errorf_at
errorf_at-Reported B line col m l space b =
    let moved = record l { line = line; col = col } in
    Ensures-bind B (Reported moved) (Reported l) (errorf m moved) _
      (errorf-Reported B m moved space b)
      λ l' r. record { items = r.items; left_le = r.left_le; plain = r.plain; bounds = r.bounds }
