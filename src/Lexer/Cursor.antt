-- ===== src/Lexer/Cursor.antt =====
-- The cursor of the lexer: `next`, `backup`, `peek`, `acceptRun`, `skipTo`, `updateCursor`, and what
-- it sends: `emit`, `Errorf`.
pub mod Moves
pub mod Sends
use go_restconf.Lexer.{
  eof, max_errors, items_cap, Code, t_error, Token, Message, too_many, LexError, Lexer, Stop,
  blocked, out_of_fuel, Run,
}
use go_restconf.Common.{
  bytes_eq, bytes_eq_iff, bytes_eq_refl, Bytes, codes, length, take, drop, replicate, get_elem?,
  length-append, take-length_append, drop-length_append, take-append-drop, length-take, length-drop,
  length-replicate, All, All-append, ltb, leb, ◌==◌, if◌then◌else◌, ltb→lt, lt→ltb, ltb→le, le→ltb,
  ==_iff, Bool-cases, Option-cases, ℤ, pos, negsuc, pos_part, neg_part, ◌≤ℤ◌, ◌<ℤ◌, ltb_ℤ, eqb_ℤ,
  suc_ℤ, eqb_ℤ→eq, eqb_ℤ_refl, suc_ℤ_parts, Result, ok, err, panic, ◌>>=◌, passed_on, ℕ, zero, suc,
  ◌+◌, ◌-◌, ◌*◌, ◌/◌, ◌%◌, ◌^◌, ◌≤◌, ◌<◌, ◌≡◌, refl, sym, ap, ◌∙◌, ◌≢◌, ◌↔◌, ◌⊎◌, inl, inr, Bool,
  true, false, not, ◌&&◌, ◌||◌, Option, none, some, List, [], ◌∷◌, ◌++◌, map, append_assoc,
  append-nil, arith,
}

-- The cursor behind a rune that was read.
abbrev pub after_rune : ℕ → Lexer → Lexer
after_rune r l =
    if r == b'\n'
    then record l { pos = l.pos + 1; width = 1; line = l.line + 1; col = 0; tcol = 0 }
    else if r == b'\t'
    then record l { pos = l.pos + 1; width = 1; col = l.col + 1; tcol = (l.tcol / 8 + 1) * 8 }
    else record l { pos = l.pos + 1; width = 1; col = l.col + 1; tcol = l.tcol + 1 }

unfoldable pub next : Lexer → ℕ × Lexer
next l = elim (get_elem? l.input l.pos) [
  | none ↦ (eof, record l { width = 0 })
  | some r ↦ (r, after_rune r l)
]

-- A column below 0 is the newline that was backed up over.
-- It stands behind `next` only, which moved by the width, so that the position does not get below 0.
unfoldable pub backup : Lexer → Lexer
backup l =
    if l.width == 0
    then l
    else if l.col == 0
    then record l { pos = l.pos - l.width; line = l.line - 1; col = 0; tcol = 0 }
    else record l { pos = l.pos - l.width; col = l.col - 1; tcol = l.tcol - 1 }

unfoldable pub peek : Lexer → ℕ × Lexer
peek l = let (c, l') = next l in (c, backup l')

unfoldable pub contains_rune : Bytes → ℕ → Bool
contains_rune [] c = false
contains_rune (x ∷ s) c = x == c || contains_rune s c

-- The loop of `acceptRun`, one round of fuel for each rune read.
unfoldable pub accept_loop : ℕ → Bytes → Bool → Lexer → Run (Bool × Lexer)
accept_loop zero valid ret l = err out_of_fuel
accept_loop (suc f) valid ret l =
    let (c, l') = next l in
    elim (contains_rune valid c) [
      | true ↦ accept_loop f valid true l'
      | false ↦ ok (ret, backup l')
    ]

-- The runes that are left, and one more.
abbrev pub rounds : Lexer → ℕ
rounds l = suc (length l.input - l.pos)

unfoldable pub accept_run : Bytes → Lexer → Run (Bool × Lexer)
unfolding accept_loop contains_rune
accept_run valid l = accept_loop (rounds l) valid false l

unfoldable pub starts_with : Bytes → Bytes → Bool
starts_with [] s = true
starts_with (c ∷ p) [] = false
starts_with (c ∷ p) (x ∷ s) = c == x && starts_with p s

-- `strings.Index(s, sub)`; `none` is -1.
unfoldable pub index : Bytes → Bytes → Option ℕ
unfolding starts_with
index [] sub = if starts_with sub [] then some 0 else none
index (c ∷ s) sub =
    if starts_with sub (c ∷ s)
    then some 0
    else elim (index s sub) [ none ↦ none | some i ↦ some (suc i) ]

unfoldable pub newlines : Bytes → ℕ
newlines [] = 0
newlines (c ∷ s) = if c == b'\n' then suc (newlines s) else newlines s

-- What follows the last newline of a text, or the whole text.
unfoldable pub last_line : Bytes → Bytes
unfolding newlines
last_line [] = []
last_line (c ∷ s) = if newlines (c ∷ s) == 0 then c ∷ s else last_line s

-- The cursor behind the text that was skipped.
unfoldable pub after_text : ℕ → Bytes → Lexer → Lexer
unfolding newlines last_line
after_text n s l =
    let c = newlines s in
    record l {
      pos = l.pos + n;
      width = n;
      line = l.line + c;
      col = (if c == 0 then l.col else 0) + length (last_line s);
    }

-- The slice `l.input[l.pos:l.pos+n]` panics out of bounds.
unfoldable pub update_cursor : ℕ → Lexer → Run Lexer
unfolding after_text
update_cursor n l =
    if leb (l.pos + n) (length l.input)
    then ok (after_text n (take n (drop l.pos l.input)) l)
    else panic

skip_found : Option ℕ → Lexer → Run (Bool × Lexer)
unfolding update_cursor
skip_found none l = ok (false, l)
skip_found (some x) l = update_cursor x l >>= (λ l'. ok (true, l'))

-- The slice `l.input[l.pos:]` panics out of bounds.
unfoldable pub skip_to : Bytes → Lexer → Run (Bool × Lexer)
unfolding index skip_found
skip_to s l =
    if leb l.pos (length l.input) then skip_found (index (drop l.pos l.input) s) l else panic

unfoldable pub consume : Lexer → Lexer
consume l = record l { start = l.pos }

-- The send blocks where the channel is full.
unfoldable pub emit_text : Code → Bytes → Lexer → Run Lexer
unfolding consume
emit_text c text l =
    let t : Token = record {
      code = c;
      text = text;
      file = l.file;
      line = l.sline;
      col = l.scol + 1;
    } in
    if ltb (length l.items) items_cap
    then ok (consume (record l { items = l.items ++ t ∷ [] }))
    else err blocked

-- `l.input[l.start:l.pos]`.
abbrev pub pending : Lexer → Bytes
pending l = take (l.pos - l.start) (drop l.start l.input)

-- Whether that slice is within bounds.
abbrev pub in_bounds : Lexer → Bool
in_bounds l = leb l.start l.pos && leb l.pos (length l.input)

unfoldable pub emit : Code → Lexer → Run Lexer
unfolding emit_text
emit c l = if in_bounds l then emit_text c (pending l) l else panic

unfoldable pub adderror : LexError → Lexer → Lexer
adderror e l =
    if leb max_errors l.errcnt
    then record l {
      pos = 0;
      start = 0;
      input = [];
      errout = l.errout ++ record { line = 0; col = 0; message = too_many } ∷ [];
    }
    else record l { errout = l.errout ++ e ∷ []; errcnt = l.errcnt + 1 }

unfoldable pub errorf : Message → Lexer → Run Lexer
unfolding emit adderror
errorf m l = do
  l' ← emit t_error l
  ok (adderror (record { line = l.line; col = l.col + 1; message = m }) l')

-- The line and the column of the caller are put back.
unfoldable pub errorf_at : ℕ → ℕ → Message → Lexer → Run Lexer
unfolding errorf
errorf_at line col m l = do
  l' ← errorf m (record l { line = line; col = col })
  ok (record l' { line = l.line; col = l.col })
