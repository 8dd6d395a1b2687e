-- ===== src/Lexer.antt =====
-- The lexer of yang/lex.go. The input is the list of its code points, so positions and widths count
-- runes and not bytes; it is valid UTF-8. `debug` is off. The channel of tokens holds three: a send
-- to a full one blocks for ever, since only `NextToken` receives, and it is what runs the states.
pub mod Cursor
pub mod States
pub mod Progress
use go_restconf.Common.{
  bytes_eq, bytes_eq_iff, bytes_eq_refl, Bytes, codes, length, take, drop, replicate, get_elem?,
  length-append, take-length_append, drop-length_append, take-append-drop, length-take, length-drop,
  length-replicate, All, All-append, ltb, leb, ◌==◌, if◌then◌else◌, ltb→lt, lt→ltb, ltb→le, le→ltb,
  ==_iff, Bool-cases, Option-cases, ℤ, pos, negsuc, pos_part, neg_part, ◌≤ℤ◌, ◌<ℤ◌, ltb_ℤ, eqb_ℤ,
  suc_ℤ, eqb_ℤ→eq, eqb_ℤ_refl, suc_ℤ_parts, Result, ok, err, panic, ◌>>=◌, passed_on, ℕ, zero, suc,
  ◌+◌, ◌-◌, ◌*◌, ◌/◌, ◌%◌, ◌^◌, ◌≤◌, ◌<◌, ◌≡◌, refl, sym, ap, ◌∙◌, ◌≢◌, ◌↔◌, ◌⊎◌, inl, inr, Bool,
  true, false, not, ◌&&◌, ◌||◌, Option, none, some, List, [], ◌∷◌, ◌++◌, map, append_assoc,
  append-nil, arith,
}

-- A code point that is none: the end of the input.
abbrev pub eof : ℕ
eof = 0x7fffffff

abbrev pub max_errors : ℕ
max_errors = 8

-- The capacity of the channel of tokens.
abbrev pub items_cap : ℕ
items_cap = 3

pub data Code : Type 0 where
  t_eof t_error t_string t_identifier : Code
  punct : ℕ → Code

pub record Token : Type 0 where
  pub code : Code
  pub text : Bytes
  pub file : Bytes
  pub line : ℕ
  pub col : ℕ

-- The last four are those of the parser, which writes to the same place.
pub data Message : Type 0 where
  missing_quote too_many unexpected_eof unexpected_brace : Message
  invalid_escape : ℕ → Message
  not_an_identifier syntax_error : Token → Message

-- A message as it is written, with the line and the column that stand before it.
pub record LexError : Type 0 where
  pub line : ℕ
  pub col : ℕ
  pub message : Message

-- The functions `lexGround`, `lexQString` and `lexIdentifier`.
pub data State : Type 0 where
  ground qstring identifier : State

pub record Lexer : Type 0 where
  pub errout : List LexError
  pub errcnt : ℕ
  pub file : Bytes
  pub input : Bytes
  pub start : ℕ
  pub pos : ℕ
  pub line : ℕ
  pub col : ℕ
  pub in_pattern : Bool
  pub items : List Token
  pub tcol : ℕ
  pub scol : ℕ
  pub sline : ℕ
  pub state : Option State
  pub width : ℕ

-- Why a run gives no result: a send that blocks for ever, or too little fuel.
pub data Stop : Type 0 where
  blocked out_of_fuel : Stop

abbrev pub Run : Type 0 → Type 0
Run A = Result Stop A

unfoldable pub ends_in_newline : Bytes → Bool
ends_in_newline [] = true
ends_in_newline (c ∷ []) = c == b'\n'
ends_in_newline (c ∷ d ∷ s) = ends_in_newline (d ∷ s)

-- The empty input needs no newline.
unfoldable pub new_lexer : Bytes → Bytes → Lexer
unfolding ends_in_newline
new_lexer input path = record {
  errout = [];
  errcnt = 0;
  file = path;
  input = if ends_in_newline input then input else input ++ b'\n' ∷ [];
  start = 0;
  pos = 0;
  line = 1;
  col = 0;
  in_pattern = false;
  items = [];
  tcol = 0;
  scol = 0;
  sline = 0;
  state = some ground;
  width = 0;
}
