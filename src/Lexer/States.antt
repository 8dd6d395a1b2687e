-- ===== src/Lexer/States.antt =====
-- The states of the lexer, and `NextToken`.
use go_restconf.Lexer.{
  eof, t_string, t_identifier, punct, Token, missing_quote, invalid_escape, Lexer, State, ground,
  qstring, identifier, out_of_fuel, Run,
}
use go_restconf.Lexer.Cursor.{
  next, peek, accept_run, skip_to, consume, emit_text, emit, errorf_at, rounds,
}
use go_restconf.Common.{
  List, Bytes, leb, ◌==◌, if◌then◌else◌, ok, err, panic, ◌>>=◌, ℕ, zero, suc, ◌+◌, ◌-◌, ◌*◌, Bool,
  true, false, not, ◌&&◌, ◌||◌, Option, none, some, [], ◌∷◌, ◌++◌,
}

-- What a state returns: the next state, if there is one, and the lexer.
abbrev pub StateRun : Type 0
StateRun = Run (Option State × Lexer)

-- `case ';', openBrace, closeBrace`.
abbrev pub is_punct : ℕ → Bool
is_punct c = c == b';' || c == b'{' || c == b'}'

unfoldable pub lex_punct : ℕ → Lexer → StateRun
lex_punct c l = do l' ← emit (punct c) (next l).1; ok (some ground, l')

-- A single-quoted string: the text up to the next quote.
unfoldable pub lex_single : Lexer → StateRun
lex_single l = do
  (_, l1) ← skip_to (b'\'' ∷ []) (consume (next l).1)
  l' ← emit t_string l1
  ok (some ground, (next l').1)

-- `case '/'`, at the slash.
unfoldable pub lex_slash : Lexer → StateRun
lex_slash l =
    let (c, l') = peek (next l).1 in
    if c == b'/'
    then skip_to (b'\n' ∷ []) l' >>= (λ (_, l2). ok (some ground, l2))
    else if c == b'*'
    then skip_to (b'*' ∷ b'/' ∷ []) l' >>= (λ (_, l2). ok (some ground, (next (next l2).1).1))
    else ok (some identifier, l')

abbrev pub white_space : Bytes
white_space = 32 ∷ b'\t' ∷ b'\r' ∷ b'\n' ∷ []

-- The switch of `lexGround` on the rune that was peeked.
unfoldable pub lex_switch : ℕ → Lexer → StateRun
lex_switch c l =
    if c == eof
    then ok (none, l)
    else if is_punct c
    then lex_punct c l
    else if c == b'\''
    then lex_single l
    else if c == b'"'
    then ok (some qstring, (next l).1)
    else if c == b'/'
    then lex_slash l
    else ok (some identifier, l)

abbrev pub mark_start : Lexer → Lexer
mark_start l = record l { sline = l.line; scol = l.col }

unfoldable pub lex_ground : Lexer → StateRun
unfolding lex_switch lex_punct lex_single lex_slash
lex_ground l = do
  (_, l1) ← accept_run white_space l
  let l2 = mark_start (consume l1)
  lex_switch (peek l2).0 (peek l2).1

-- The text without the blanks at its end.
unfoldable pub trim_blanks : Bytes → Bytes
trim_blanks [] = []
trim_blanks (c ∷ s) = elim (trim_blanks s) [
  | [] ↦ if c == 32 || c == b'\t' then [] else c ∷ []
  | x ∷ r ↦ c ∷ x ∷ r
]

-- `string(c)` of no code point is U+FFFD.
abbrev rune_error : ℕ
rune_error = 0xfffd

-- The rune that an escape stands for, where it is defined.
unfoldable pub escaped : ℕ → Option ℕ
escaped c =
    if c == b'n'
    then some b'\n'
    else if c == b't'
    then some b'\t'
    else if c == b'"'
    then some c
    else if c == b'\\'
    then some c
    else none

-- `case '\\'`, behind the backslash: the text with what the escape adds.
unfoldable pub lex_escape : ℕ → ℕ → Bytes → Lexer → Run (Bytes × Lexer)
lex_escape line col text l =
    let (c, l') = next l in
    if c == eof
    then errorf_at line col missing_quote l' >>= (λ l2. ok (text ++ rune_error ∷ [], l2))
    else elim (escaped c) [
      | some r ↦ ok (text ++ r ∷ [], l')
      | none ↦ elim l'.in_pattern [
        | true ↦ ok (text ++ b'\\' ∷ c ∷ [], l')
        | false ↦
            errorf_at line col (invalid_escape c) l' >>= (λ l2. ok (text ++ b'\\' ∷ c ∷ [], l2))
      ]
    ]

-- How one round of the loop of `lexQString` ends.
pub data Round : Type 0 where
  again : Bool → Bytes → Lexer → Round
  finished : Option State → Lexer → Round

-- One round: `over` is set behind the indent of a line, `text` is the text so far.
unfoldable pub q_round : ℕ → ℕ → ℕ → Bool → Bytes → Lexer → Run Round
unfolding trim_blanks escaped lex_escape
q_round indent line col over text l =
    let (c, l') = next l in
    if c == eof
    then errorf_at line col missing_quote l' >>= (λ l2. ok (finished none l2))
    else if c == b'"'
    then emit_text t_string text l' >>= (λ l2. ok (finished (some ground) l2))
    else if c == b'\n'
    then ok (again false (trim_blanks text ++ b'\n' ∷ []) l')
    else if c == 32 || c == b'\t'
    then if not over && leb l'.tcol indent
      then ok (again over text l')
      else ok (again true (text ++ c ∷ []) l')
    else if c == b'\\'
    then lex_escape line col text l' >>= (λ (text', l2). ok (again true text' l2))
    else ok (again true (text ++ c ∷ []) l')

unfoldable pub q_loop : ℕ → ℕ → ℕ → ℕ → Bool → Bytes → Lexer → StateRun
unfolding q_round
q_loop zero indent line col over text l = err out_of_fuel
q_loop (suc f) indent line col over text l = elim (q_round indent line col over text l) [
  | err e ↦ err e
  | panic ↦ panic
  | ok (again over' text' l') ↦ q_loop f indent line col over' text' l'
  | ok (finished state l') ↦ ok (state, l')
]

unfoldable pub lex_qstring : Lexer → StateRun
unfolding q_loop
lex_qstring l = q_loop (rounds l) l.tcol l.line (l.col - 1) true [] l

-- The runes that end an identifier.
unfoldable pub ends_identifier : ℕ → Bool
ends_identifier c =
    c == 32
    || c == b'\r'
    || c == b'\n'
    || c == b'\t'
    || c == b';'
    || c == b'"'
    || c == b'{'
    || c == b'}'
    || c == eof

unfoldable pub identifier_loop : ℕ → Lexer → StateRun
identifier_loop zero l = err out_of_fuel
identifier_loop (suc f) l =
    let (c, l') = peek l in
    elim (ends_identifier c) [
      | true ↦ emit t_identifier l' >>= (λ l2. ok (some ground, l2))
      | false ↦ identifier_loop f (next l').1
    ]

unfoldable pub lex_identifier : Lexer → StateRun
unfolding identifier_loop ends_identifier
lex_identifier l = identifier_loop (rounds l) l

unfoldable pub run_state : State → Lexer → StateRun
unfolding lex_ground lex_qstring lex_identifier
run_state ground l = lex_ground l
run_state qstring l = lex_qstring l
run_state identifier l = lex_identifier l

-- How `token_loop` goes on behind a state.
abbrev pub token_rest : (Lexer → Run (Option Token × Lexer)) → StateRun → Run (Option Token × Lexer)
token_rest loop (err e) = err e
token_rest loop panic = panic
token_rest loop (ok (s, l)) = loop (record l { state = s })

-- A round of `token_loop`, with the tokens and the state of the lexer.
unfoldable pub token_round :
    (Lexer → Run (Option Token × Lexer))
    → List Token
    → Option State
    → Lexer
    → Run (Option Token × Lexer)
unfolding run_state
token_round loop (t ∷ ts) st l = ok (some t, record l { items = ts })
token_round loop [] none l = ok (none, l)
token_round loop [] (some s) l = token_rest loop (run_state s l)

-- One round of fuel for each state that is run; `none` is the end of the input.
unfoldable pub token_loop : ℕ → Lexer → Run (Option Token × Lexer)
unfolding token_round
token_loop zero l = err out_of_fuel
token_loop (suc f) l = token_round (token_loop f) l.items l.state l

-- Two states for each rune that is left, and one more at the end.
unfoldable pub next_token : Lexer → Run (Option Token × Lexer)
unfolding token_loop
next_token l = token_loop (2 * rounds l + 2) l
