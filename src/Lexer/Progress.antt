-- ===== src/Lexer/Progress.antt =====
-- The states of the lexer use up the input: what a state does to the tokens and to what is left.
pub mod Ground
pub mod Quoted
pub mod Identifiers
pub mod Tokens
use go_restconf.Lexer.{
  eof, t_string, t_identifier, punct, Token, missing_quote, invalid_escape, Lexer, State, ground,
  qstring, identifier, Run,
}
use go_restconf.Lexer.Cursor.{
  next, peek, accept_run, skip_to, consume, emit_text, emit, errorf_at, rounds, contains_rune,
}
use go_restconf.Lexer.Cursor.Moves.{
  Ensures, Ensures-bind, size, left, rune_at, Same, Read, next-Read, next-rune_at, rune_at-inside,
  Stays, rune_at-Stays, peek-Stays, peek-rune_at, IsInBounds, next-IsInBounds,
}
use go_restconf.Lexer.Cursor.Sends.{
  Forward, Forward-next, Forward-self, Forward-Stays, Accepted, accept_run_lem, skip_to-Forward,
  HasNoEscape, IsQuiet, Room-IsQuiet, Sent, emit_text-Sent, emit-Sent, Reported, errorf_at-Reported,
}
use go_restconf.Lexer.States.{
  StateRun, is_punct, lex_punct, lex_single, lex_slash, lex_switch, white_space, mark_start,
  lex_ground, lex_escape, escaped, Round, again, finished, q_round, q_loop, lex_qstring,
  ends_identifier, identifier_loop, lex_identifier, run_state, trim_blanks,
}
use go_restconf.Common.{
  bytes_eq, bytes_eq_iff, bytes_eq_refl, Bytes, codes, length, take, drop, replicate, get_elem?,
  length-append, take-length_append, drop-length_append, take-append-drop, length-take, length-drop,
  length-replicate, All, All-append, ltb, leb, ◌==◌, if◌then◌else◌, ltb→lt, lt→ltb, ltb→le, le→ltb,
  ==_iff, Bool-cases, Option-cases, ℤ, pos, negsuc, pos_part, neg_part, ◌≤ℤ◌, ◌<ℤ◌, ltb_ℤ, eqb_ℤ,
  suc_ℤ, eqb_ℤ→eq, eqb_ℤ_refl, suc_ℤ_parts, Result, ok, err, panic, ◌>>=◌, passed_on, ℕ, zero, suc,
  ◌+◌, ◌-◌, ◌*◌, ◌/◌, ◌%◌, ◌^◌, ◌≤◌, ◌<◌, ◌≡◌, refl, sym, ap, ◌∙◌, ◌≢◌, ◌↔◌, ◌⊎◌, inl, inr, Bool,
  true, false, not, ◌&&◌, ◌||◌, Option, none, some, List, [], ◌∷◌, ◌++◌, map, append_assoc,
  append-nil, arith,
}

-- A token that a state still owes besides those for the runes that are left.
abbrev pub owed : Option State → Lexer → ℕ
owed none l = 0
owed (some ground) l = 0
owed (some qstring) l = 1
owed (some identifier) l = if ends_identifier (rune_at l) then 1 else 0

-- A bound on the tokens that are still to come.
abbrev pub potential : Option State → Lexer → ℕ
potential s l = length l.items + (2 * left l + owed s l)

-- The states that are run before a token is there.
abbrev pub rank : Option State → ℕ
rank none = 0
rank (some ground) = 2
rank (some qstring) = 1
rank (some identifier) = 1

-- What the run of a state leaves: no more to come, and a token or fewer states to run.
pub record Ran (s : State) (l : Lexer) (r : Option State × Lexer) : Type 0 where
  pub plain : HasNoEscape l.input → HasNoEscape r.1.input
  pub bounds : IsInBounds r.1
  pub bound : potential r.0 r.1 ≤ potential (some s) l
  pub progress : (1 ≤ length r.1.items) ⊎ (2 * left r.1 + rank r.0 < 2 * left l + rank (some s))

-- A rune was read.
pub record Stepped (l l' : Lexer) : Type 0 where
  pub input : l'.input ≡ l.input
  pub items : length l'.items ≡ length l.items
  pub left_is : left l' + 1 ≡ left l
  pub bounds : IsInBounds l → IsInBounds l'

pub next-Stepped : (l : Lexer) → (rune_at l == eof) ≡ false → Stepped l (next l).1
next-Stepped l e =
    let r = next-Read l in
    let s = r.same in
    let h = rune_at-inside l e in
    let p = r.step h in
    let z = s.size_is in
    record { input = s.input; items = s.items; left_is = omega arith; bounds = next-IsInBounds l }

-- A token was sent behind the cursor's move.
record SentOff (l l' : Lexer) : Type 0 where
  pub input : l'.input ≡ l.input
  pub items : length l'.items ≡ length l.items + 1
  pub left_le : left l' + 1 ≤ left l
  pub bounds : IsInBounds l'

SentOff-Ran : (s : State) (l l' : Lexer) → SentOff l l' → Ran s l (some ground, l')
SentOff-Ran s l l' o =
    let i = o.items in
    let h = o.left_le in
    record {
      plain = λ q. rw o.input q;
      bounds = o.bounds;
      bound = omega arith;
      progress = inl (omega arith);
    }

pub lex_punct-Ran :
    (B : Type 0) (c : ℕ) (l : Lexer)
    → IsQuiet B l
    → (rune_at l == eof) ≡ false
    → Ensures B (Ran ground l) (lex_punct c l)
unfolding lex_punct
lex_punct-Ran B c l y e =
    Ensures-bind B (Sent (next l).1) (Ran ground l) (emit (punct c) (next l).1) _
      (emit-Sent B (punct c) (next l).1 (Room-IsQuiet B l (next l).1 y (next-Stepped l e).items)
        ((next-Stepped l e).bounds y.1))
      λ l' s.
        let t = next-Stepped l e in
        let i = t.items in
        let j = t.left_is in
        let k = s.items in
        let z = s.size_is in
        let p = s.pos_is in
        SentOff-Ran ground l l' (record {
          input = s.input ∙ t.input;
          items = omega arith;
          left_le = omega arith;
          bounds = s.bounds (t.bounds y.1);
        })

consume-IsInBounds : (l : Lexer) → IsInBounds l → IsInBounds (consume l)
unfolding consume
consume-IsInBounds l (b, c) = (omega arith, c)

-- The end of a single-quoted string, from the lexer behind `skipTo`.
single_end :
    (B : Type 0) (l m : Lexer)
    → IsQuiet B l
    → (rune_at l == eof) ≡ false
    → IsInBounds (consume (next l).1)
    → Forward (consume (next l).1) m
    → Ensures B (Ran ground l) (emit t_string m >>= (λ l'. ok (some ground, (next l').1)))
unfolding consume
single_end B l m y e b f =
    let t = next-Stepped l e in
    let i = t.items in
    let fi : length m.items ≡ length (next l).1.items = f.items in
    let fp : m.input ≡ (next l).1.input = f.input in
    let space = Room-IsQuiet B l m y (fi ∙ i) in
    Ensures-bind B (Sent m) (Ran ground l) (emit t_string m) _
      (emit-Sent B t_string m space (f.bounds b))
      λ l' s.
        let j = t.left_is in
        let fl : left m ≤ left (next l).1 = f.left_le in
        let k = s.items in
        let z = s.size_is in
        let p = s.pos_is in
        let g = Forward-next l' l' (Forward-self l') in
        let gi = g.items in
        let gl = g.left_le in
        SentOff-Ran ground l (next l').1 (record {
          input = g.input ∙ s.input ∙ fp ∙ t.input;
          items = omega arith;
          left_le = omega arith;
          bounds = g.bounds (s.bounds (f.bounds b));
        })

pub lex_single-Ran :
    (B : Type 0) (l : Lexer)
    → IsQuiet B l
    → (rune_at l == eof) ≡ false
    → Ensures B (Ran ground l) (lex_single l)
unfolding lex_single
lex_single-Ran B l y e =
    let m = consume (next l).1 in
    let b = consume-IsInBounds (next l).1 ((next-Stepped l e).bounds y.1) in
    Ensures-bind B (λ (r : Bool × Lexer). Forward m r.1) (Ran ground l) (skip_to (b'\'' ∷ []) m) _
      (skip_to-Forward B (b'\'' ∷ []) m b) (λ (found, m') f. single_end B l m' y e b f)
