-- ===== src/QueryParser/Scanner/Step.antt =====
-- The heart of the scanner: `scan_step` of src/query_parser.c, with the escapes that call it again.
-- The handlers take the step for nested content as the argument `scan`, and an amount of fuel for
-- their own loops; `none` is what spent fuel gives.
use psqlodbc_new.Prelude.{
  ℕ, zero, suc, ◌-◌, Bool, true, false, not, ◌&&◌, ◌||◌, Option, none, some, [], ◌∷◌, ◌==◌, drop,
  Bytes, codes,
}
use psqlodbc_new.QueryParser.{
  ScanState, normal, in_single_quote, in_escape_string, in_double_quote, in_line_comment,
  in_block_comment, match_keyword_at, skip_space, skip_blank,
}
use psqlodbc_new.QueryParser.Scanner.{
  Setting, Scanner, emit_string, emit_char, emit_all, emit_parameter_marker, at_input,
}
use psqlodbc_new.QueryParser.Scanner.Functions.{function_pieces}
use psqlodbc_new.QueryParser.Scanner.Rewrites.{maybe_rewrite_msaccess_boolean}
use psqlodbc_new.QueryParser.Scanner.Escapes.{
  seek_brace, past_brace, handle_datetime_escape, handle_like_escape,
}
use psqlodbc_new.QueryParser.Scanner.Lex.{
  Escape, fn, ts, d, t, oj, escape, call, no_escape, escape_of, Lexed, identity, brace,
  question_question, marker, escape_string, dollar_quote, single_quote, double_quote, line_comment,
  block_comment, default_values, close_paren, plain, lex,
}
use psqlodbc_new.QueryParser.Scanner.Copy.{
  copy_one, copy_two, to_state, to_depth, copy_dollar, single_quote_step, escape_string_step,
  double_quote_step, line_comment_step, block_comment_step, dollar_pieces,
}
use psqlodbc_new.QueryParser.Scanner.Arguments.{
  is_normal, Scan, ◌>>=◌, Collected, collect_function_arguments,
}
use psqlodbc_new.QueryParser.Scanner.Call.{read_while, handle_call_escape}

module _ (c : Setting) where
  module _ (scan : Scan) where
    -- One round, with the loop `more` for the rest.
    abbrev pub escape_body_round : Scan → Scanner → Bytes → Option Scanner
    escape_body_round more s [] = some s
    escape_body_round more s (x ∷ xs) = elim (is_normal s.state && x == b'}') [
      | true ↦ some (at_input s xs)
      | false ↦ scan s >>= more
    ]

    -- To the `}` that ends the escape.
    unfoldable pub copy_escape_body : ℕ → Scan
    copy_escape_body zero s = none
    copy_escape_body (suc fuel) s = elim s.out_of_memory [
      | true ↦ some s
      | false ↦ escape_body_round (copy_escape_body fuel) s s.input
    ]

    abbrev pub close_function : Bytes → Collected → Scanner
    close_function name (s, none) = s
    close_function name (s, some arguments) =
        let emitted = emit_all c (function_pieces name arguments) s in
        at_input emitted (past_brace (skip_space emitted.input))

    abbrev pub closed : Bytes → Option Collected → Option Scanner
    closed name none = none
    closed name (some collected) = some (close_function name collected)

    abbrev pub in_function_name : ℕ → Bool
    in_function_name x = not (x == b'(' || x == b' ' || x == b'\t' || x == b'}')

    abbrev pub function_name_size : ℕ
    function_name_size = 64

    -- A name without parentheses is a constant.
    abbrev pub function_constant : Bytes → Bytes → Scanner → Scanner
    function_constant name rest s = at_input (emit_string c name s) (past_brace (seek_brace rest))

    abbrev pub function_call : ℕ → Scanner → Bytes → Bytes → Option Scanner
    function_call fuel s name [] = some (function_constant name [] s)
    function_call fuel s name (x ∷ xs) = elim (x == b'(') [
      | true ↦ closed name (collect_function_arguments c scan fuel (at_input s xs))
      | false ↦ some (function_constant name (x ∷ xs) s)
    ]

    abbrev pub named_function : ℕ → Scanner → Bytes × Bytes → Option Scanner
    named_function fuel s (name, rest) = function_call fuel s name (skip_space rest)

    unfoldable pub handle_function_escape : ℕ → Scan
    unfolding collect_function_arguments skip_space seek_brace read_while function_pieces
        emit_string
    handle_function_escape fuel s =
        named_function fuel s
          (read_while in_function_name (function_name_size - 1) (skip_space s.input))

    unfoldable pub run_escape : ℕ → Scanner → Bytes → Escape → Option Scanner
    unfolding handle_function_escape copy_escape_body skip_space emit_string
    run_escape fuel s xs (fn rest) = handle_function_escape fuel (at_input s rest)
    run_escape fuel s xs (ts rest) =
        some (handle_datetime_escape c (codes "::timestamp") (at_input s rest))
    run_escape fuel s xs (d rest) =
        some (handle_datetime_escape c (codes "::date") (at_input s rest))
    run_escape fuel s xs (t rest) =
        some (handle_datetime_escape c (codes "::time") (at_input s rest))
    run_escape fuel s xs (oj rest) = copy_escape_body fuel (at_input s (skip_space rest))
    run_escape fuel s xs (escape rest) = some (handle_like_escape c (at_input s rest))
    run_escape fuel s xs (call rest) = handle_call_escape c fuel (at_input s rest)
    run_escape fuel s xs no_escape = some (copy_one c s b'{' xs)

    -- At a `{`, with the text behind it.
    unfoldable pub handle_open_brace : ℕ → Scanner → Bytes → Option Scanner
    unfolding run_escape match_keyword_at skip_blank handle_datetime_escape handle_like_escape
        handle_call_escape
    handle_open_brace fuel s xs = run_escape fuel s xs (escape_of (skip_blank xs))

    -- The normal state, at a byte that was lexed.
    unfoldable pub normal_step : ℕ → Scanner → ℕ → Bytes → Lexed → Option Scanner
    unfolding handle_open_brace emit_string emit_parameter_marker dollar_pieces
        maybe_rewrite_msaccess_boolean
    normal_step fuel s x xs identity =
        some (at_input (emit_string c (codes "lastval()") s) (drop 10 (x ∷ xs)))
    normal_step fuel s x xs brace = handle_open_brace fuel s xs
    normal_step fuel s x xs question_question = some (at_input (emit_char c b'?' s) (drop 1 xs))
    normal_step fuel s x xs marker = some (at_input (emit_parameter_marker c s) xs)
    normal_step fuel s x xs escape_string = some (to_state in_escape_string (copy_two c s x xs))
    normal_step fuel s x xs (dollar_quote tag_length) = some (copy_dollar c s tag_length (x ∷ xs))
    normal_step fuel s x xs single_quote = some (to_state in_single_quote (copy_one c s x xs))
    normal_step fuel s x xs double_quote = some (to_state in_double_quote (copy_one c s x xs))
    normal_step fuel s x xs line_comment = some (to_state in_line_comment (copy_two c s x xs))
    normal_step fuel s x xs block_comment =
        some (to_depth 1 (to_state in_block_comment (copy_two c s x xs)))
    normal_step fuel s x xs (default_values rest) =
        some (at_input (emit_string c (codes "DEFAULT VALUES") s) rest)
    normal_step fuel s x xs close_paren =
        some (copy_one c (maybe_rewrite_msaccess_boolean c s) x xs)
    normal_step fuel s x xs plain = some (copy_one c s x xs)

  unfoldable pub step_at : Scan → ℕ → Scanner → ScanState → ℕ → Bytes → Option Scanner
  unfolding normal_step lex single_quote_step escape_string_step double_quote_step line_comment_step
      block_comment_step
  step_at scan fuel s normal x xs = normal_step scan fuel s x xs (lex c s x xs)
  step_at scan fuel s in_single_quote x xs = some (single_quote_step c s x xs)
  step_at scan fuel s in_escape_string x xs = some (escape_string_step c s x xs)
  step_at scan fuel s in_double_quote x xs = some (double_quote_step c s x xs)
  step_at scan fuel s in_line_comment x xs = some (line_comment_step c s x xs)
  step_at scan fuel s in_block_comment x xs = some (block_comment_step c s x xs)

  -- A step is only taken where the input has not ended.
  abbrev pub step_with : Scan → ℕ → Scanner → Bytes → Option Scanner
  step_with scan fuel s [] = some s
  step_with scan fuel s (x ∷ xs) = step_at scan fuel s s.state x xs

  -- The step, on fuel, which bounds the nesting of escapes and the rounds of each loop.
  unfoldable pub scan_step : ℕ → Scan
  unfolding step_at
  scan_step zero s = none
  scan_step (suc fuel) s = step_with (scan_step fuel) fuel s s.input
