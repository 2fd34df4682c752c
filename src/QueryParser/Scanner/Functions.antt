-- ===== src/QueryParser/Scanner/Functions.antt =====
-- The ODBC scalar functions that have another name or form in PostgreSQL: the table of
-- src/query_parser.c, and the expansion of a template.
use psqlodbc_new.Prelude.{
  ℕ, ◌+◌, ◌-◌, Bool, true, false, ◌&&◌, Option, none, some, List, [], ◌∷◌, ◌++◌, leb, ◌==◌,
  if◌then◌else◌, length, get_elem?, Bytes, codes,
}
use Prim.Native.String.{String}
use psqlodbc_new.StringUtils.{pg_ascii_case_equal}

pub record OdbcFunctionMapping : Type 0 where
  pub odbc_name : Bytes
  pub pg_template : Bytes

abbrev row : String → String → OdbcFunctionMapping
row name template = record { odbc_name = codes name; pg_template = codes template }

abbrev pub odbc_function_mappings : List OdbcFunctionMapping
odbc_function_mappings =
    row "CONCAT" "concat($1::text, $2::text)"
    ∷ row "%2LOCATE" "strpos($2, $1)"
    ∷ row "%3LOCATE" "strpos(substring($2 from $3), $1) + $3 - 1"
    ∷ row "SUBSTRING" "substr($*)"
    ∷ row "SPACE" "repeat(' ', $1)"
    ∷ row "LENGTH" "char_length($*)"
    ∷ row "LCASE" "lower($*)"
    ∷ row "UCASE" "upper($*)"
    ∷ row "IFNULL" "coalesce($*)"
    ∷ []

-- A name behind '%' and a digit is matched only for that number of arguments.
abbrev pub candidate_matches : Bytes → Bytes → ℕ → Bool
candidate_matches (p ∷ k ∷ name) function_name argument_count =
    if p == b'%'
    then k == b'0' + argument_count && pg_ascii_case_equal name function_name
    else pg_ascii_case_equal (p ∷ k ∷ name) function_name
candidate_matches name function_name argument_count = pg_ascii_case_equal name function_name

unfoldable pub find_template : List OdbcFunctionMapping → Bytes → ℕ → Option Bytes
find_template [] function_name argument_count = none
find_template (m ∷ ms) function_name argument_count =
    let later : Option Bytes = find_template ms function_name argument_count in
    if candidate_matches m.odbc_name function_name argument_count then some m.pg_template else later

unfoldable pub find_function_template : Bytes → ℕ → Option Bytes
unfolding find_template pg_ascii_case_equal
find_function_template function_name argument_count =
    find_template odbc_function_mappings function_name argument_count

-- The strings that are emitted for the arguments, with ", " between them.
abbrev pub behind_comma : List Bytes → List Bytes
behind_comma [] = []
behind_comma (a ∷ arguments) = codes ", " ∷ a ∷ behind_comma arguments

abbrev pub joined : List Bytes → List Bytes
joined [] = []
joined (a ∷ arguments) = a ∷ behind_comma arguments

abbrev placeholder : ℕ → List Bytes → List Bytes
placeholder c arguments =
    if c == b'*'
    then joined arguments
    else if leb b'1' c && leb c b'9'
    then elim (get_elem? arguments (c - b'1')) [ none ↦ [] | some text ↦ text ∷ [] ]
    else (b'$' ∷ []) ∷ (c ∷ []) ∷ []

-- The strings that `emit_function_template` emits. No template ends in '$'.
unfoldable pub template_pieces : Bytes → List Bytes → List Bytes
template_pieces [] arguments = []
template_pieces (c ∷ []) arguments = (c ∷ []) ∷ []
template_pieces (c ∷ d ∷ cs) arguments = elim (c == b'$') [
  | true ↦ placeholder d arguments ++ template_pieces cs arguments
  | false ↦ (c ∷ []) ∷ template_pieces (d ∷ cs) arguments
]

-- A call of a function without a template.
abbrev pub verbatim_pieces : Bytes → List Bytes → List Bytes
verbatim_pieces function_name arguments =
    function_name ∷ (b'(' ∷ []) ∷ (joined arguments ++ (b')' ∷ []) ∷ [])

abbrev pub pieces_or_verbatim : Option Bytes → Bytes → List Bytes → List Bytes
pieces_or_verbatim none function_name arguments = verbatim_pieces function_name arguments
pieces_or_verbatim (some template) function_name arguments = template_pieces template arguments

-- What is emitted for a call with its arguments.
unfoldable pub function_pieces : Bytes → List Bytes → List Bytes
unfolding find_function_template template_pieces
function_pieces function_name arguments =
    pieces_or_verbatim (find_function_template function_name (length arguments)) function_name
      arguments
