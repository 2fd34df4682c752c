-- ===== src/QueryParser/Scanner/Lex.antt =====
-- What the scanner sees at a byte of the normal state: the tests of `scan_step` and
-- `handle_open_brace` of src/query_parser.c, in their order.
use psqlodbc_new.Prelude.{
  ℕ, ◌&&◌, ◌||◌, Option, none, some, [], ◌∷◌, ◌==◌, if◌then◌else◌, drop, Bytes, codes,
}
use psqlodbc_new.QueryParser.{
  match_keyword_at, next_is, match_dollar_quote_open, dollar_can_open_here,
}
use psqlodbc_new.QueryParser.Scanner.{Setting, Scanner}
use psqlodbc_new.QueryParser.Scanner.Rewrites.{default_values_rest, statement_is_insert}

-- What an escape's keyword selects, with the text behind it.
pub data Escape : Type 0 where
  fn ts d t oj escape call : Bytes → Escape
  no_escape : Escape

abbrev pub escape_of : Bytes → Escape
escape_of text =
    if match_keyword_at text (codes "fn")
    then fn (drop 2 text)
    else if match_keyword_at text (codes "ts")
    then ts (drop 2 text)
    else if match_keyword_at text (codes "d")
    then d (drop 1 text)
    else if match_keyword_at text (codes "t")
    then t (drop 1 text)
    else if match_keyword_at text (codes "oj")
    then oj (drop 2 text)
    else if match_keyword_at text (codes "escape")
    then escape (drop 6 text)
    else if match_keyword_at text (codes "call") || next_is b'?' text
    then call text
    else no_escape

-- What stands at a byte in the normal state.
pub data Lexed : Type 0 where
  identity brace question_question marker escape_string : Lexed
  dollar_quote : ℕ → Lexed
  single_quote double_quote line_comment block_comment : Lexed
  default_values : Bytes → Lexed
  close_paren plain : Lexed

abbrev pub head_of : Bytes → Option ℕ
head_of [] = none
head_of (x ∷ xs) = some x

abbrev pub dollar : Option ℕ → Lexed
dollar none = plain
dollar (some tag_length) = dollar_quote tag_length

abbrev pub open_paren : Option Bytes → Lexed
open_paren none = plain
open_paren (some rest) = default_values rest

module _ (c : Setting) where
  -- What stands at the byte `x` before `xs`.
  unfoldable pub lex : Scanner → ℕ → Bytes → Lexed
  unfolding match_keyword_at dollar_can_open_here match_dollar_quote_open default_values_rest
      statement_is_insert
  lex s x xs =
      if x == b'@' && match_keyword_at (x ∷ xs) (codes "@@identity")
      then identity
      else if x == b'{'
      then brace
      else if x == b'?'
      then if next_is b'?' xs then question_question else marker
      else if (x == b'E' || x == b'e') && next_is b'\'' xs
      then escape_string
      else if x == b'$' && dollar_can_open_here (head_of s.output)
      then dollar (match_dollar_quote_open xs)
      else if x == b'\''
      then single_quote
      else if x == b'"'
      then double_quote
      else if x == b'-' && next_is b'-' xs
      then line_comment
      else if x == b'/' && next_is b'*' xs
      then block_comment
      else if x == b'(' && statement_is_insert c.whole_input
      then open_paren (default_values_rest xs)
      else if x == b')'
      then close_paren
      else plain
