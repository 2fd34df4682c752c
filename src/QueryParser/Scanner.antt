-- ===== src/QueryParser/Scanner.antt =====
-- The working state of the transforming scanner, the growable output buffer, and the parameter
-- markers: src/query_parser.c and src/query_parser.h.
-- The position in the input is the text from it on. The output is held with its last byte first;
-- its position is its length.
pub mod Functions
pub mod Rewrites
pub mod Escapes
pub mod Call
pub mod Lex
pub mod Copy
pub mod Arguments
pub mod Step
pub mod Analyze
pub mod Lengths
pub mod Progress
pub mod Plain
mod Tests
use psqlodbc_new.Prelude.{
  ℕ, suc, ◌+◌, ◌*◌, Bool, true, false, not, Option, some, List, [], ◌∷◌, ltb, leb, if◌then◌else◌,
  length, get_elem?, set, Bytes, c_str,
}
use psqlodbc_new.CLib.{decimal}
use psqlodbc_new.QueryParser.{ScanState, skip_space}

pub data QueryParamRole : Type 0 where
  role_input role_return_value : QueryParamRole

abbrev pub query_max_parameters : ℕ
query_max_parameters = 256

abbrev pub query_max_call_arguments : ℕ
query_max_call_arguments = 32

abbrev pub query_max_cast_length : ℕ
query_max_cast_length = 32

abbrev pub query_max_call_literal : ℕ
query_max_call_literal = 128

pub record QueryCallArgument : Type 0 where
  pub parameter_number : ℕ  -- 0 for a literal
  pub cast_suffix : Bytes
  pub literal_text : Bytes

pub record QueryParseOptions : Type 0 where
  pub standard_conforming_strings : Bool
  pub ms_jet : Bool

pub record QueryAnalysis : Type 0 where
  pub transformed_sql : Option Bytes
  pub parameter_count : ℕ
  pub is_procedure_call : Bool
  pub return_value_count : ℕ
  pub parameter_roles : List QueryParamRole
  pub procedure_name : Bytes
  pub call_arguments : List QueryCallArgument

-- What does not change during a scan: whether `realloc` and `malloc` of so many bytes succeed, the
-- whole input, the options, and the cast suffixes, where an absent one is NULL.
pub record Setting : Type 0 where
  pub allocates : ℕ → Bool
  pub whole_input : Bytes
  pub options : QueryParseOptions
  pub param_casts : List (Option Bytes)

pub record Scanner : Type 0 where
  pub input : Bytes
  pub output : Bytes
  pub output_capacity : ℕ
  pub state : ScanState
  pub param_number : ℕ
  pub block_comment_depth : ℕ
  pub analysis : QueryAnalysis
  pub out_of_memory : Bool

abbrev text_or_empty : Option (Option Bytes) → Bytes
text_or_empty (some (some cast)) = c_str cast
text_or_empty _ = []

unfoldable pub cast_for_parameter : List (Option Bytes) → ℕ → Bytes
cast_for_parameter param_casts zero_based_position =
    text_or_empty (get_elem? param_casts zero_based_position)

-- A text put behind the output.
abbrev pub append_reversed : Bytes → Bytes → Bytes
append_reversed [] output = output
append_reversed (c ∷ cs) output = append_reversed cs (c ∷ output)

-- The input behind white space.
abbrev pub skip_input_whitespace : Scanner → Scanner
skip_input_whitespace s = record s { input = skip_space s.input }

abbrev pub at_input : Scanner → Bytes → Scanner
at_input s text = record s { input = text }

abbrev pub new_capacity : ℕ → ℕ → ℕ
new_capacity capacity required = if ltb (capacity * 2) required then required else capacity * 2

abbrev pub set_role : ℕ → QueryParamRole → QueryAnalysis → QueryAnalysis
set_role zero_based role analysis = record analysis {
  parameter_roles = set analysis.parameter_roles zero_based role;
}

-- The roles of parameters past the array are not recorded; `set` leaves the list alone there.
abbrev pub count_parameter : QueryParamRole → Scanner → Scanner
count_parameter role s = record s {
  param_number = suc s.param_number;
  analysis = set_role s.param_number role s.analysis;
}

module _ (c : Setting) where
  -- Room for so many bytes and a terminator.
  unfoldable pub scanner_reserve : Scanner → ℕ → Scanner × Bool
  scanner_reserve s needed =
      let required = length s.output + needed + 1 in
      if leb required s.output_capacity
      then (s, true)
      else if c.allocates (new_capacity s.output_capacity required)
      then (record s { output_capacity = new_capacity s.output_capacity required }, true)
      else (record s { out_of_memory = true }, false)

  abbrev pub emit_reserved : Bytes → Scanner × Bool → Scanner
  emit_reserved text (s, true) = record s { output = append_reversed text s.output }
  emit_reserved text (s, false) = s

  unfoldable pub emit_string : Bytes → Scanner → Scanner
  unfolding scanner_reserve
  emit_string text s = emit_reserved text (scanner_reserve s (length text))

  abbrev pub emit_char : ℕ → Scanner → Scanner
  emit_char character s = emit_string (character ∷ []) s

  abbrev pub emit_chars : Bytes → Scanner → Scanner
  emit_chars [] s = s
  emit_chars (x ∷ xs) s = emit_chars xs (emit_char x s)

  -- Strings that are emitted one after the other.
  abbrev pub emit_all : List Bytes → Scanner → Scanner
  emit_all [] s = s
  emit_all (piece ∷ pieces) s = emit_all pieces (emit_string piece s)

  -- The cast of an input marker outside procedure calls.
  abbrev pub marker_cast : Scanner → Bytes
  marker_cast s =
      if s.analysis.is_procedure_call then [] else cast_for_parameter c.param_casts s.param_number

  abbrev pub emit_cast : Bytes → Scanner → Scanner
  emit_cast [] s = s
  emit_cast (x ∷ cast) s = emit_string (x ∷ cast) s

  -- The only calls of the source are for input markers.
  unfoldable pub emit_parameter_marker : Scanner → Scanner
  unfolding cast_for_parameter decimal emit_string
  emit_parameter_marker s =
      emit_cast (marker_cast s)
        (emit_string (b'$' ∷ decimal (suc s.param_number)) (count_parameter role_input s))
