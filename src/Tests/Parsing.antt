-- ===== src/Tests/Parsing.antt =====
-- The parser at a concrete text.
use Prim.Native.String.{String}
use go_restconf.Lexer.{new_lexer, ends_in_newline, blocked}
use go_restconf.Lexer.Cursor.{
  next, backup, peek, contains_rune, accept_loop, accept_run, starts_with, index, newlines,
  last_line, update_cursor, skip_to, consume, emit_text, emit, adderror, errorf, errorf_at,
}
use go_restconf.Lexer.States.{
  lex_punct, lex_single, lex_slash, lex_switch, lex_ground, trim_blanks, escaped, lex_escape,
  q_round, q_loop, lex_qstring, ends_identifier, identifier_loop, lex_identifier, run_state,
  token_round, token_loop, next_token,
}
use go_restconf.Statement.{Statement, Statements, stmt, end, sub, add_sub}
use go_restconf.Parser.{
  lex_next, lex_token, join_round, join_loop, end_statement, after_keyword, keyword,
  begin_statement, sub_loop, next_statement, parse_loop, Parsed, parsed, parse,
}
use go_restconf.Common.{Bytes, codes, ok, err, ℕ, ◌≡◌, refl, true, []}

abbrev module_text : Bytes
module_text = codes "module m {\n  prefix 'p';\n  leaf a { type \"st\" + \"ring\"; } // end\n}"

abbrev at : ℕ → ℕ → String → String → Statements → Statement
at line col k a ss =
    stmt
      (record {
        keyword = codes k;
        has_argument = true;
        argument = codes a;
        file = [];
        line = line;
        col = col;
      })
      ss

module_parsed :
    parse module_text []
    ≡ ok (
        parsed (
          sub
            (at 1 1 "module" "m" (
              sub
                (at 2 3 "prefix" "p" end)
                (sub (at 3 3 "leaf" "a" (sub (at 3 12 "type" "string" end) end)) end)))
            end))
unfolding parse parse_loop next_statement sub_loop begin_statement keyword after_keyword
    end_statement join_loop join_round lex_token lex_next next_token token_loop token_round
    run_state lex_identifier identifier_loop ends_identifier lex_qstring q_loop q_round lex_escape
    escaped trim_blanks lex_ground lex_switch lex_slash lex_single lex_punct errorf_at errorf
    adderror emit emit_text consume skip_to update_cursor last_line newlines index starts_with
    accept_run accept_loop contains_rune peek backup next new_lexer ends_in_newline add_sub
    go_restconf.Parser.next
module_parsed = refl

-- Three escapes that are not defined and the string fill the channel: the last send blocks.
escapes_block : parse (codes "a \"\\x\\y\\z\";") [] ≡ err blocked
unfolding parse parse_loop next_statement sub_loop begin_statement keyword after_keyword
    end_statement join_loop join_round lex_token lex_next next_token token_loop token_round
    run_state lex_identifier identifier_loop ends_identifier lex_qstring q_loop q_round lex_escape
    escaped trim_blanks lex_ground lex_switch lex_slash lex_single lex_punct errorf_at errorf
    adderror emit emit_text consume skip_to update_cursor last_line newlines index starts_with
    accept_run accept_loop contains_rune peek backup next new_lexer ends_in_newline add_sub
    go_restconf.Parser.next
escapes_block = refl
