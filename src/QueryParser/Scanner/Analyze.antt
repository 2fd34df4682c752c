-- ===== src/QueryParser/Scanner/Analyze.antt =====
-- The scan of a whole text: `query_analyze` and `query_translate_markers` of src/query_parser.c.
use psqlodbc_new.Prelude.{
  ℕ, zero, suc, ◌+◌, Bool, true, false, Option, none, some, List, [], ◌∷◌, if◌then◌else◌, length,
  Bytes, c_str,
}
use psqlodbc_new.QueryParser.{normal}
use psqlodbc_new.QueryParser.Scanner.{
  QueryParamRole, role_input, query_max_parameters, QueryParseOptions, QueryAnalysis, Setting,
  Scanner, append_reversed,
}
use psqlodbc_new.QueryParser.Scanner.Arguments.{Scan, ◌>>=◌}
use psqlodbc_new.QueryParser.Scanner.Step.{scan_step}

abbrev pub default_options : QueryParseOptions
default_options = record { standard_conforming_strings = true; ms_jet = false }

abbrev pub options_or_default : Option QueryParseOptions → QueryParseOptions
options_or_default none = default_options
options_or_default (some options) = options

abbrev pub roles : ℕ → List QueryParamRole
roles zero = []
roles (suc n) = role_input ∷ roles n

-- The analysis after `memset` to zero.
abbrev pub empty_analysis : QueryAnalysis
empty_analysis = record {
  transformed_sql = none;
  parameter_count = 0;
  is_procedure_call = false;
  return_value_count = 0;
  parameter_roles = roles query_max_parameters;
  procedure_name = [];
  call_arguments = [];
}

abbrev pub start_scanner : Bytes → Scanner
start_scanner input = record {
  input = input;
  output = [];
  output_capacity = length input + 64;
  state = normal;
  param_number = 0;
  block_comment_depth = 0;
  analysis = empty_analysis;
  out_of_memory = false;
}

abbrev pub scan_round : Setting → ℕ → Scan → Scanner → Bytes → Option Scanner
scan_round c depth more s [] = some s
scan_round c depth more s (x ∷ xs) = scan_step c depth s >>= more

-- The loop, on fuel for its rounds, with fuel for each step.
unfoldable pub scan_loop : Setting → ℕ → ℕ → Scan
unfolding scan_step
scan_loop c depth zero s = none
scan_loop c depth (suc fuel) s = elim s.out_of_memory [
  | true ↦ some s
  | false ↦ scan_round c depth (scan_loop c depth fuel) s s.input
]

-- The result and the analysis that is written through the pointer.
abbrev pub finish_scan : Scanner → Bool × QueryAnalysis
finish_scan s = if s.out_of_memory then (false, record s.analysis { transformed_sql = none }) else (
  true,
  record s.analysis {
    transformed_sql = some (append_reversed s.output []);
    parameter_count = s.param_number;
  },
)

abbrev pub finished : Option Scanner → Option (Bool × QueryAnalysis)
finished none = none
finished (some s) = some (finish_scan s)

abbrev pub setting : (ℕ → Bool) → Bytes → Option QueryParseOptions → List (Option Bytes) → Setting
setting allocates input options param_casts = record {
  allocates = allocates;
  whole_input = input;
  options = options_or_default options;
  param_casts = param_casts;
}

abbrev pub analyze_text :
    (ℕ → Bool)
    → Bytes
    → Option QueryParseOptions
    → List (Option Bytes)
    → Option (Bool × QueryAnalysis)
analyze_text allocates input options param_casts =
    if allocates (length input + 64)
    then finished (
        scan_loop (setting allocates input options param_casts) (suc (length input))
          (suc (length input)) (start_scanner input))
    else some (false, empty_analysis)

-- `none` is what spent fuel would give.
unfoldable pub query_analyze :
    (ℕ → Bool)
    → Option Bytes
    → Option QueryParseOptions
    → List (Option Bytes)
    → Option (Bool × QueryAnalysis)
unfolding scan_loop scan_step
query_analyze allocates none options param_casts = some (false, empty_analysis)
query_analyze allocates (some sql) options param_casts =
    analyze_text allocates (c_str sql) options param_casts

abbrev translated : Option (Bool × QueryAnalysis) → Option (Option Bytes × ℕ)
translated none = none
translated (some (false, analysis)) = some (none, 0)
translated (some (true, analysis)) = some (analysis.transformed_sql, analysis.parameter_count)

-- The text, or NULL, and the number of parameters.
unfoldable pub query_translate_markers :
    (ℕ → Bool) → Option Bytes → List (Option Bytes) → Option (Option Bytes × ℕ)
unfolding query_analyze
query_translate_markers allocates sql param_casts =
    translated (query_analyze allocates sql none param_casts)
