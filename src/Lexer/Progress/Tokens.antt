-- ===== src/Lexer/Progress/Tokens.antt =====
-- The tokens that `NextToken` takes out.
use go_restconf.Lexer.{blocked, out_of_fuel, Token, Lexer, State, ground, qstring, identifier, Run}
use go_restconf.Lexer.Cursor.{rounds}
use go_restconf.Lexer.Cursor.Moves.{Ensures, left, rune_at}
use go_restconf.Lexer.Cursor.Sends.{IsPlain}
use go_restconf.Lexer.States.{StateRun, run_state}
use go_restconf.Lexer.Progress.{owed, potential, rank, Ran}
use go_restconf.Common.{
  length, ok, err, panic, ℕ, zero, suc, ◌+◌, ◌*◌, ◌≤◌, ◌<◌, ◌≡◌, refl, ap, ◌⊎◌, inl, inr, Option,
  none, some, List, [], ◌∷◌, arith,
}
use go_restconf.Lexer.States.{token_rest, token_round, token_loop, next_token}
use go_restconf.Lexer.Progress.Identifiers.{owed_le, run_state-Ran}

-- 1 for a token that is taken out.
abbrev pub weight : {A : Type 0} → Option A → ℕ
weight none = 0
weight (some t) = 1

rank_pos : (s : State) → 1 ≤ rank (some s)
rank_pos ground = omega arith
rank_pos qstring = omega arith
rank_pos identifier = omega arith

rank_le : (s : Option State) → rank s ≤ 2
rank_le none = omega arith
rank_le (some ground) = omega arith
rank_le (some qstring) = omega arith
rank_le (some identifier) = omega arith

-- Taking a token leaves that much to come, and an input with no escape, or `B` holds.
abbrev pub Taken : Type 0 → ℕ → Option Token × Lexer → Type 0
Taken B n r = (potential r.1.state r.1 + weight r.0 ≤ n) × IsPlain B r.1

-- A token is there and a round, or there are rounds for all states to run.
abbrev Enough : ℕ → Lexer → Type 0
Enough f l = (1 ≤ length l.items) × (1 ≤ f) ⊎ (2 * left l + rank l.state < f)

owed_set : (s st : Option State) (l : Lexer) → owed s (record l { state = st }) ≡ owed s l
unfolding rune_at
owed_set none st l = refl
owed_set (some ground) st l = refl
owed_set (some qstring) st l = refl
owed_set (some identifier) st l = refl

token_rest-Taken :
    (B : Type 0) (n : ℕ) (loop : Lexer → Run (Option Token × Lexer)) (s : State) (l : Lexer)
    (r : StateRun)
    → potential (some s) l ≤ n
    → IsPlain B l
    → ((l' : Lexer)
        → potential l'.state l' ≤ n
        → IsPlain B l'
        → (1 ≤ length l'.items) ⊎ (2 * left l' + rank l'.state < 2 * left l + rank (some s))
        → Ensures B (Taken B n) (loop l'))
    → Ensures B (Ran s l) r
    → Ensures B (Taken B n) (token_rest loop r)
token_rest-Taken B n loop s l (err blocked) h pl rec p = p
token_rest-Taken B n loop s l (err out_of_fuel) h pl rec p = p
token_rest-Taken B n loop s l panic h pl rec p = p
token_rest-Taken B n loop s l (ok (s', l')) h pl rec p =
    let b = p.bound in
    let o = owed_set s' s' l' in
    rec (record l' { state = s' }) (omega arith)
      (elim pl.0 [ inl q ↦ inl (p.plain q) | inr x ↦ inr x ], p.bounds) p.progress

owed_items :
    (s : Option State) (ts : List Token) (l : Lexer) → owed s (record l { items = ts }) ≡ owed s l
unfolding rune_at
owed_items none ts l = refl
owed_items (some ground) ts l = refl
owed_items (some qstring) ts l = refl
owed_items (some identifier) ts l = refl

token_round-Taken :
    (B : Type 0) (n f : ℕ) (loop : Lexer → Run (Option Token × Lexer)) (ts : List Token)
    (st : Option State) (l : Lexer)
    → l.items ≡ ts
    → l.state ≡ st
    → potential l.state l ≤ n
    → IsPlain B l
    → Enough (suc f) l
    → ((l' : Lexer)
        → potential l'.state l' ≤ n
        → IsPlain B l'
        → Enough f l'
        → Ensures B (Taken B n) (loop l'))
    → Ensures B (Taken B n) (token_round loop ts st l)
unfolding token_round
token_round-Taken B n f loop (t ∷ ts) st l e e2 h pl g rec =
    let k : length l.items ≡ suc (length ts) = ap length e in
    let o = owed_items l.state ts l in (omega arith, pl)
token_round-Taken B n f loop [] none l e e2 h pl g rec = (omega arith, pl)
token_round-Taken B n f loop [] (some s) l e e2 h pl g rec =
    let k : length l.items ≡ 0 = ap length e in
    let g' : 2 * left l + rank l.state < suc f = elim g [ inl (a, b) ↦ omega arith | inr b ↦ b ] in
    let r : rank l.state ≡ rank (some s) = ap rank e2 in
    let q : potential l.state l ≡ potential (some s) l = ap (λ x. potential x l) e2 in
    token_rest-Taken B n loop s l (run_state s l) (omega arith) pl
      (λ l' b pl' p.
        rec l' b pl'
          (elim p [ inl c ↦ inl (c, omega (arith, rank_pos s)) | inr c ↦ inr (omega arith) ]))
      (run_state-Ran B s l (elim pl.0 [ inl q ↦ inl (k, q) | inr x ↦ inr x ], pl.1))

token_loop-Taken :
    (B : Type 0) (n f : ℕ) (l : Lexer)
    → potential l.state l ≤ n
    → IsPlain B l
    → Enough f l
    → Ensures B (Taken B n) (token_loop f l)
unfolding token_loop
token_loop-Taken B n zero l h pl g =
    absurd (elim g [ inl (a, b) ↦ omega arith | inr b ↦ omega arith ])
token_loop-Taken B n (suc f) l h pl g =
    token_round-Taken B n f (token_loop f) l.items l.state l refl refl h pl g
      (λ l' b pl' p. token_loop-Taken B n f l' b pl' p)

pub next_token-Taken :
    (B : Type 0) (l : Lexer)
    → IsPlain B l
    → Ensures B (Taken B (potential l.state l)) (next_token l)
unfolding next_token
next_token-Taken B l pl =
    token_loop-Taken B (potential l.state l) (2 * rounds l + 2) l (omega arith) pl
      (inr (omega (arith, rank_le l.state)))

pub owed_bound : (s : Option State) (l : Lexer) → owed s l ≤ 1
owed_bound none l = omega arith
owed_bound (some ground) l = omega arith
owed_bound (some qstring) l = omega arith
owed_bound (some identifier) l = owed_le l
