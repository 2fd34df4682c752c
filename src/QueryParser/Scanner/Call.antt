-- ===== src/QueryParser/Scanner/Call.antt =====
-- Procedure calls: `parse_call_arguments` and `handle_call_escape` of src/query_parser.c.
use psqlodbc_new.Prelude.{
  ℕ, zero, suc, ◌-◌, Bool, true, false, not, ◌&&◌, ◌||◌, Option, none, some, [], ◌∷◌, ◌++◌, ltb,
  ◌==◌, if◌then◌else◌, length, drop, Bytes, codes,
}
use psqlodbc_new.QueryParser.{
  is_identifier_continuation_char, is_blank, match_keyword_at, next_is, pass, skip_space,
}
use psqlodbc_new.QueryParser.Scanner.{
  QueryCallArgument, role_input, role_return_value, query_max_call_arguments, query_max_cast_length,
  query_max_call_literal, Setting, Scanner, emit_string, at_input, count_parameter,
}
use psqlodbc_new.QueryParser.Scanner.Escapes.{seek_brace, past_brace}

-- Bytes up to one that stops, at most so many.
unfoldable pub read_while : (ℕ → Bool) → ℕ → Bytes → Bytes × Bytes
read_while goes_on zero text = ([], text)
read_while goes_on (suc limit) [] = ([], [])
read_while goes_on (suc limit) (c ∷ cs) =
    let more = pass c (read_while goes_on limit cs) in if goes_on c then more else ([], c ∷ cs)

-- The bytes of a literal, the text behind it and the depth of parentheses, the outermost being 0.
pub record Literal : Type 0 where
  pub text : Bytes
  pub behind : Bytes
  pub depth : ℕ

abbrev pub with_byte : ℕ → Literal → Literal
with_byte c l = record l { text = c ∷ l.text }

abbrev pub stop_at : ℕ → Bytes → Literal
stop_at depth rest = record { text = []; behind = rest; depth = depth }

unfoldable pub read_literal : ℕ → ℕ → Bytes → Literal
read_literal zero depth rest = stop_at depth rest
read_literal (suc limit) depth [] = stop_at depth []
read_literal (suc limit) depth (c ∷ cs) = elim (c == b'(') [
  | true ↦ with_byte c (read_literal limit (suc depth) cs)
  | false ↦ elim depth [
    | zero ↦ elim (c == b')' || c == b',') [
      | true ↦ stop_at 0 (c ∷ cs)
      | false ↦ with_byte c (read_literal limit 0 cs)
    ]
    | suc d ↦ with_byte c (read_literal limit (if c == b')' then d else suc d) cs)
  ]
]

abbrev trim_before : ℕ → Bytes → Bytes
trim_before c [] = if is_blank c then [] else c ∷ []
trim_before c (x ∷ xs) = c ∷ x ∷ xs

unfoldable pub trim_blanks : Bytes → Bytes
trim_blanks [] = []
trim_blanks (c ∷ cs) = trim_before c (trim_blanks cs)

-- A cast behind a marker, where there are two colons.
abbrev cast_with : Bytes × Bytes → Bytes × Bytes
cast_with (name, rest) = (b':' ∷ b':' ∷ name, rest)

unfoldable pub read_cast : Bytes → Bytes × Bytes
unfolding read_while is_identifier_continuation_char
read_cast (x ∷ y ∷ rest) =
    if x == b':' && y == b':'
    then cast_with (read_while is_identifier_continuation_char (query_max_cast_length - 3) rest)
    else ([], x ∷ y ∷ rest)
read_cast rest = ([], rest)

-- An argument past the array is dropped.
abbrev pub record_argument : QueryCallArgument → Scanner → Scanner
record_argument argument s =
    if ltb (length s.analysis.call_arguments) query_max_call_arguments
    then record s {
      analysis = record s.analysis { call_arguments = s.analysis.call_arguments ++ argument ∷ [] };
    }
    else s

abbrev pub past_comma : Bytes → Bytes
past_comma [] = []
past_comma (c ∷ cs) = if c == b',' then cs else c ∷ cs

abbrev pub finish_argument : QueryCallArgument → Bytes → Scanner → Scanner
finish_argument argument rest s =
    at_input (record_argument argument s) (past_comma (skip_space rest))

-- A marker argument, its `?` consumed.
abbrev marker_with : Bytes × Bytes → Scanner → Scanner
marker_with (cast, rest) s =
    finish_argument
      (record { parameter_number = s.param_number; cast_suffix = cast; literal_text = [] }) rest s

abbrev pub marker_argument : Scanner → Bytes → Scanner
marker_argument s rest = marker_with (read_cast (skip_space rest)) (count_parameter role_input s)

abbrev pub literal_argument : Scanner → Literal → Scanner
literal_argument s l =
    finish_argument
      (record { parameter_number = 0; cast_suffix = []; literal_text = trim_blanks l.text })
      l.behind s

-- The kind of the byte at an argument's place.
pub data Place : Type 0 where
  at_close at_comma at_marker at_literal : Place

abbrev pub place_of : ℕ → Bytes → Place
place_of c rest =
    if c == b')'
    then at_close
    else if c == b','
    then at_comma
    else if c == b'?' && not (next_is b'?' rest)
    then at_marker
    else at_literal

-- An argument that is no marker.
abbrev pub literal_then : (Scanner → ℕ → Option Scanner) → Scanner → Literal → Option Scanner
literal_then more s l = more (literal_argument s l) l.depth

-- One round, with the loop `more` for the rest.
abbrev pub call_at :
    (Scanner → ℕ → Option Scanner) → Scanner → ℕ → Place → ℕ → Bytes → Option Scanner
call_at more s depth at_close c rest = some (at_input s rest)
call_at more s depth at_comma c rest = more (at_input s rest) depth
call_at more s depth at_marker c rest = more (marker_argument s rest) depth
call_at more s depth at_literal c rest =
    literal_then more s (read_literal (query_max_call_literal - 1) depth (c ∷ rest))

abbrev pub call_round : (Scanner → ℕ → Option Scanner) → Scanner → ℕ → Bytes → Option Scanner
call_round more s depth [] = some (at_input s [])
call_round more s depth (c ∷ rest) = call_at more s depth (place_of c rest) c rest

-- The loop over the arguments, on fuel, where `depth` is `paren_depth` less one; `none` when the
-- fuel is spent.
unfoldable pub call_loop : ℕ → Scanner → ℕ → Option Scanner
unfolding skip_space read_cast trim_blanks read_literal
call_loop zero s depth = none
call_loop (suc fuel) s depth = elim s.out_of_memory [
  | true ↦ some s
  | false ↦ call_round (call_loop fuel) s depth (skip_space s.input)
]

abbrev pub past_equals : Bytes → Bytes
past_equals [] = []
past_equals (c ∷ cs) = if c == b'=' then cs else c ∷ cs

-- A leading `? =`: the marker is counted and takes the function's value.
abbrev pub return_value : Scanner → Bytes → Scanner
return_value s rest =
    let counted = count_parameter role_return_value s in
    record counted {
      input = skip_space (past_equals (skip_space rest));
      analysis = record counted.analysis {
        return_value_count = suc counted.analysis.return_value_count;
      };
    }

abbrev pub leading_marker : Bytes → Scanner → Scanner
leading_marker [] s = s
leading_marker (c ∷ rest) s = if c == b'?' then return_value s rest else s

abbrev pub past_call : Bytes → Bytes
past_call text = if match_keyword_at text (codes "call") then drop 4 text else text

abbrev pub in_name : ℕ → Bool
in_name c = not (c == b'(' || c == b' ' || c == b'\t' || c == b'}' || c == b'\n' || c == b'\r')

abbrev pub procedure_name_size : ℕ
procedure_name_size = 256

abbrev pub named : Scanner → Bytes × Bytes → Scanner
named s (name, rest) = record s {
  input = skip_space rest;
  analysis = record s.analysis { procedure_name = name };
}

-- The value marker, the keyword and the name are read.
abbrev pub read_head : Scanner → Scanner
read_head s =
    let valued =
      leading_marker s.input
        (record s { analysis = record s.analysis { is_procedure_call = true } }) in
    named valued
      (read_while in_name (procedure_name_size - 1) (skip_space (past_call valued.input)))

abbrev past_end : Scanner → Scanner
past_end s = at_input s (past_brace (seek_brace s.input))

abbrev pub ended : Option Scanner → Option Scanner
ended none = none
ended (some s) = some (past_end s)

module _ (c : Setting) where
  abbrev pub emit_head : Scanner → Scanner
  emit_head s = emit_string c s.analysis.procedure_name (
      emit_string c
        (if ltb 0 s.analysis.return_value_count then codes "SELECT " else codes "SELECT * FROM ") s)

  abbrev pub arguments_of : ℕ → Scanner → Bytes → Option Scanner
  arguments_of fuel s [] = some s
  arguments_of fuel s (x ∷ rest) = elim (x == b'(') [
    | true ↦ call_loop fuel (at_input s rest) 0
    | false ↦ some s
  ]

  -- From behind the brace and its blanks.
  unfoldable pub handle_call_escape : ℕ → Scanner → Option Scanner
  unfolding match_keyword_at skip_space seek_brace emit_string read_while call_loop
  handle_call_escape fuel s =
      let head = emit_head (read_head s) in ended (arguments_of fuel head head.input)
