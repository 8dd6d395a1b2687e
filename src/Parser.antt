-- ===== src/Parser.antt =====
-- The parser of yang/parse.go: `Parse`, `next` with its joining of strings, and `nextStatement`. Its
-- errors go where those of its lexer go. What it returns after an error it goes on behind, the empty
-- statement `ignoreMe`, is a statement like any other.
pub mod Ends
use go_restconf.Lexer.{
  Code, t_string, t_identifier, t_error, punct, Token, Message, unexpected_eof, unexpected_brace,
  not_an_identifier, syntax_error, LexError, Lexer, Stop, out_of_fuel, Run, new_lexer,
}
use go_restconf.Lexer.States.{next_token}
use go_restconf.Statement.{Header, Statement, Statements, stmt, end, sub, add_sub}
use go_restconf.Common.{
  bytes_eq, bytes_eq_iff, bytes_eq_refl, Bytes, codes, length, take, drop, replicate, get_elem?,
  length-append, take-length_append, drop-length_append, take-append-drop, length-take, length-drop,
  length-replicate, All, All-append, ltb, leb, ◌==◌, if◌then◌else◌, ltb→lt, lt→ltb, ltb→le, le→ltb,
  ==_iff, Bool-cases, Option-cases, ℤ, pos, negsuc, pos_part, neg_part, ◌≤ℤ◌, ◌<ℤ◌, ltb_ℤ, eqb_ℤ,
  suc_ℤ, eqb_ℤ→eq, eqb_ℤ_refl, suc_ℤ_parts, Result, ok, err, panic, ◌>>=◌, passed_on, ℕ, zero, suc,
  ◌+◌, ◌-◌, ◌*◌, ◌/◌, ◌%◌, ◌^◌, ◌≤◌, ◌<◌, ◌≡◌, refl, sym, ap, ◌∙◌, ◌≢◌, ◌↔◌, ◌⊎◌, inl, inr, Bool,
  true, false, not, ◌&&◌, ◌||◌, Option, none, some, List, [], ◌∷◌, ◌++◌, map, append_assoc,
  append-nil, arith,
}

-- The stack of pushed tokens, its top first, and the place of the last closing brace.
pub record Parser : Type 0 where
  pub lex : Lexer
  pub tokens : List Token
  pub brace_line : ℕ
  pub brace_col : ℕ

abbrev pub is_code : Code → Code → Bool
is_code t_string t_string = true
is_code t_identifier t_identifier = true
is_code t_error t_error = true
is_code (punct c) (punct d) = c == d
is_code _ _ = false

abbrev pub push : Token → Parser → Parser
push t p = record p { tokens = t ∷ p.tokens }

abbrev pub set_lex : Parser → Lexer → Parser
set_lex p l = record p { lex = l }

-- A write to `errout`.
abbrev pub report : ℕ → ℕ → Message → Parser → Parser
report line col m p = record p {
  lex = record p.lex {
    errout = p.lex.errout ++ record { line = line; col = col; message = m } ∷ [];
  };
}

-- The tokens that a lexer still has are at most its pending ones, and two for each rune left.
abbrev pub budget : Lexer → ℕ
budget l = length l.items + 2 * (length l.input - l.pos) + 2

-- A token that is an error is passed over.
abbrev pub lex_rest :
    (Lexer → Run (Option Token × Lexer)) → Option Token × Lexer → Run (Option Token × Lexer)
lex_rest loop (none, l) = ok (none, l)
lex_rest loop (some t, l) = elim (is_code t.code t_error) [ true ↦ loop l | false ↦ ok (some t, l) ]

-- The function `next` inside `next`: the first token that is no error.
unfoldable pub lex_next : ℕ → Lexer → Run (Option Token × Lexer)
lex_next zero l = err out_of_fuel
lex_next (suc f) l = next_token l >>= lex_rest (lex_next f)

unfoldable pub lex_token : Parser → Run (Option Token × Parser)
unfolding lex_next
lex_token p = do (t, l) ← lex_next (budget p.lex) p.lex; ok (t, set_lex p l)

abbrev pub is_plus : Token → Bool
is_plus t = is_code t.code t_identifier && bytes_eq t.text (codes "+")

-- How a round of the loop over `+` ends: with the token, or with a string to go on with.
pub data Joined : Type 0 where
  joined : Token → Parser → Joined
  more : Token → Parser → Joined

-- Behind a `+`, which is `nt`.
abbrev pub join_string : Token → Token → Option Token × Parser → Joined
join_string t nt (none, p) = joined t (push nt p)
join_string t nt (some st, p) =
    if is_code st.code t_string
    then more (record t { text = t.text ++ st.text }) p
    else joined t (push nt (push st p))

-- The token behind a string.
abbrev pub join_behind : Token → Option Token × Parser → Run Joined
join_behind t (none, p) = ok (joined t p)
join_behind t (some n, p) =
    if is_plus n then (lex_token p >>= λ r. ok (join_string t n r)) else ok (joined t (push n p))

unfoldable pub join_round : Token → Parser → Run Joined
unfolding lex_token
join_round t p = lex_token p >>= join_behind t

abbrev pub join_rest :
    (Token → Parser → Run (Option Token × Parser)) → Joined → Run (Option Token × Parser)
join_rest loop (joined t p) = ok (some t, p)
join_rest loop (more t p) = loop t p

unfoldable pub join_loop : ℕ → Token → Parser → Run (Option Token × Parser)
unfolding join_round
join_loop zero t p = err out_of_fuel
join_loop (suc f) t p = join_round t p >>= join_rest (join_loop f)

-- A token that was pushed, or one from the lexer.
abbrev pub join_first : Option Token × Parser → Run (Option Token × Parser)
join_first (none, p) = ok (none, p)
join_first (some t, p) =
    if is_code t.code t_string then join_loop (budget p.lex) t p else ok (some t, p)

unfoldable pub next : Parser → Run (Option Token × Parser)
unfolding lex_token join_loop
next p = elim p.tokens [
  | [] ↦ lex_token p >>= join_first
  | t ∷ ts ↦ ok (some t, record p { tokens = ts })
]

-- What `nextStatement` returns: `nil`, `p.hitBrace`, or a statement.
pub data Next : Type 0 where
  nothing hit_brace : Next
  statement : Statement → Next

abbrev pub ignore_me : Statement
ignore_me =
    stmt
      (record { keyword = []; has_argument = false; argument = []; file = []; line = 0; col = 0 })
      end

abbrev pub Loop : Type 0
Loop = Header → Parser → Run (Next × Parser)

-- The last switch of `nextStatement`.
unfoldable pub end_statement : Loop → Header → Option Token → Parser → Run (Next × Parser)
end_statement loop h none p = ok (nothing, report 0 0 unexpected_eof p)
end_statement loop h (some t) p =
    if is_code t.code (punct b';')
    then ok (statement (stmt h end), p)
    else elim (is_code t.code (punct b'{')) [
      | true ↦ loop h p
      | false ↦ ok (statement ignore_me, report t.line t.col (syntax_error t) p)
    ]

abbrev pub is_argument : Token → Bool
is_argument t = is_code t.code t_string || is_code t.code t_identifier

-- The switch on the token behind the keyword.
unfoldable pub after_keyword : Loop → Header → Option Token → Parser → Run (Next × Parser)
unfolding end_statement
after_keyword loop h none p = end_statement loop h none p
after_keyword loop h (some t) p =
    if is_argument t
    then next p >>= (λ (t2, p2).
      end_statement loop (record h { has_argument = true; argument = t.text }) t2 p2)
    else end_statement loop h (some t) p

abbrev pub set_pattern : Bool → Parser → Parser
set_pattern b p = record p { lex = record p.lex { in_pattern = b } }

unfoldable pub keyword : Loop → Token → Parser → Run (Next × Parser)
unfolding after_keyword
keyword loop t p = do
  (t2, p2) ← next (set_pattern (bytes_eq t.text (codes "pattern")) p)
  after_keyword loop
      (record {
        keyword = t.text;
        has_argument = false;
        argument = [];
        file = t.file;
        line = t.line;
        col = t.col;
      })
      t2 (set_pattern false p2)

-- The first switch of `nextStatement`.
unfoldable pub begin_statement : Loop → Option Token → Parser → Run (Next × Parser)
unfolding keyword
begin_statement loop none p = ok (nothing, p)
begin_statement loop (some t) p =
    if is_code t.code (punct b'}')
    then ok (hit_brace, record p { brace_line = t.line; brace_col = t.col })
    else elim (is_code t.code t_identifier) [
      | true ↦ keyword loop t p
      | false ↦ ok (statement ignore_me, report t.line t.col (not_an_identifier t) p)
    ]

abbrev pub next_with : Loop → Parser → Run (Next × Parser)
next_with loop p = do (t, p1) ← next p; begin_statement loop t p1

-- A round of the loop over the substatements of `h`.
abbrev pub sub_rest :
    (Statement → Parser → Run (Next × Parser)) → Statement → Next × Parser → Run (Next × Parser)
sub_rest loop s (nothing, p) = ok (nothing, p)
sub_rest loop s (hit_brace, p) = ok (statement s, p)
sub_rest loop s (statement s', p) = loop s' p

-- The loop over the substatements of `h`, of which it has `ss`.
unfoldable pub sub_loop : ℕ → Statements → Header → Parser → Run (Next × Parser)
unfolding begin_statement
sub_loop zero ss h p = err out_of_fuel
sub_loop (suc f) ss h p =
    next_with (sub_loop f end) p >>= sub_rest (λ s p'. sub_loop f (add_sub ss s) h p') (stmt h ss)

-- `nextStatement`, with fuel for the loops of the statements below.
unfoldable pub next_statement : ℕ → Parser → Run (Next × Parser)
unfolding sub_loop begin_statement
next_statement f p = next_with (sub_loop f end) p

-- A round of the loop of `Parse`.
abbrev pub parse_rest :
    (Statements → Parser → Run (Statements × Parser))
    → Statements
    → Next × Parser
    → Run (Statements × Parser)
parse_rest loop ss (nothing, p) = ok (ss, p)
parse_rest loop ss (hit_brace, p) = loop ss (report p.brace_line p.brace_col unexpected_brace p)
parse_rest loop ss (statement s, p) = loop (add_sub ss s) p

-- The loop of `Parse`; the fuel of its rounds is also that of the statements.
unfoldable pub parse_loop : ℕ → ℕ → Statements → Parser → Run (Statements × Parser)
unfolding next_statement
parse_loop zero depth ss p = err out_of_fuel
parse_loop (suc f) depth ss p = next_statement depth p >>= parse_rest (parse_loop f depth) ss

pub data Parsed : Type 0 where
  parsed : Statements → Parsed
  failed : List LexError → Parsed

abbrev pub parsed_of : Statements × Parser → Parsed
parsed_of (ss, p) = elim p.lex.errout [ [] ↦ parsed ss | e ∷ es ↦ failed (e ∷ es) ]

abbrev pub new_parser : Bytes → Bytes → Parser
new_parser input path = record {
  lex = new_lexer input path;
  tokens = [];
  brace_line = 0;
  brace_col = 0;
}

unfoldable pub parse : Bytes → Bytes → Run Parsed
unfolding parse_loop
parse input path =
    let p = new_parser input path in
    let fuel = budget p.lex in do r ← parse_loop fuel fuel end p; ok (parsed_of r)
