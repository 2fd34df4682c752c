-- ===== src/QueryParser/Select.antt =====
-- The columns of a SELECT list that are string literals: `query_parse_select_columns` of
-- src/query_parser.c, with `skip_select_token` and `measure_string_literal`.
-- An index into the text is the text from it on.
mod Laws
mod Tests
use psqlodbc_new.Prelude.{
  ℕ, zero, suc, Bool, true, false, not, ◌&&◌, ◌||◌, Option, none, some, List, [], ◌∷◌, ◌++◌, ltb,
  ◌==◌, if◌then◌else◌, length, drop, Bytes, codes, c_str,
}
use psqlodbc_new.Prelude.Int.{ℤ, pos, negsuc}
use psqlodbc_new.CLib.{isspace, skip_spaces}
use psqlodbc_new.QueryParser.{match_keyword_at}

pub record QueryColumnOverride : Type 0 where
  pub is_string_literal : Bool
  pub character_length : ℕ

abbrev count_one : ℕ × Bytes → ℕ × Bytes
count_one (count, rest) = (suc count, rest)

-- The characters up to the closing quote, where a doubled quote counts as one, and the text behind
-- it; the text may end first.
pub measure_quoted : ℕ → Bytes → ℕ × Bytes
measure_quoted quote [] = (0, [])
measure_quoted quote (c ∷ []) = if c == quote then (0, []) else (1, [])
measure_quoted quote (c ∷ d ∷ cs) = elim (c == quote) [
  | true ↦ elim (d == quote) [ true ↦ count_one (measure_quoted quote cs) | false ↦ (0, d ∷ cs) ]
  | false ↦ count_one (measure_quoted quote (d ∷ cs))
]

-- From behind the opening quote of a literal.
abbrev pub measure_string_literal : Bytes → ℕ × Bytes
measure_string_literal text = measure_quoted b'\'' text

abbrev depth_up : ℤ → ℤ
depth_up (pos n) = pos (suc n)
depth_up (negsuc zero) = pos 0
depth_up (negsuc (suc n)) = negsuc n

abbrev depth_down : ℤ → ℤ
depth_down (pos zero) = negsuc 0
depth_down (pos (suc n)) = pos n
depth_down (negsuc n) = negsuc (suc n)

-- The text behind a token that begins with `c`, and the depth of parentheses.
pub skip_select_token : ℕ → Bytes → ℤ → Bytes × ℤ
skip_select_token c rest paren_depth =
    if c == b'\''
    then ((measure_quoted b'\'' rest).1, paren_depth)
    else if c == b'"'
    then ((measure_quoted b'"' rest).1, paren_depth)
    else if c == b'('
    then (rest, depth_up paren_depth)
    else if c == b')'
    then (rest, depth_down paren_depth)
    else (rest, paren_depth)

pub record SelectScan : Type 0 where
  pub overrides : List QueryColumnOverride
  pub paren_depth : ℤ
  pub at_column_start : Bool
  pub column_is_literal : Bool
  pub literal_length : ℕ

abbrev pub start_scan : SelectScan
start_scan = record {
  overrides = [];
  paren_depth = pos 0;
  at_column_start = true;
  column_is_literal = false;
  literal_length = 0;
}

abbrev is_top : ℤ → Bool
is_top (pos n) = n == 0
is_top (negsuc n) = false

-- A FROM outside parentheses.
abbrev pub from_here : SelectScan → ℕ → Bytes → Bool
from_here st c rest =
    is_top st.paren_depth && (c == b'f' || c == b'F') && match_keyword_at (c ∷ rest) (codes "from")

abbrev pub comma_here : SelectScan → ℕ → Bool
comma_here st c = is_top st.paren_depth && c == b','

-- Where the loop goes on: with a state at a text, or out of it, before the end of the text or not.
pub data Step : Type 0 where
  go_on : SelectScan → Bytes → Step
  leave : SelectScan → Bytes → Step

module _ (max_columns : ℕ) where
  -- The column is recorded where there is room for it.
  pub record_column : SelectScan → SelectScan
  record_column st =
      if ltb (length st.overrides) max_columns
      then record st {
        overrides =
            st.overrides
            ++ record {
              is_string_literal = st.column_is_literal;
              character_length = st.literal_length;
            }
              ∷ [];
      }
      else st

  -- The column before a comma is recorded, and the next one starts.
  abbrev pub comma_step : SelectScan → Bytes → Step
  comma_step st rest =
      go_on
        (record (record_column st) {
          at_column_start = true;
          column_is_literal = false;
          literal_length = 0;
        })
        rest

  abbrev pub skip_step : SelectScan → Bytes × ℤ → Step
  skip_step st (behind, depth) = go_on (record st { paren_depth = depth }) behind

  -- Behind the start of a column, at a byte.
  pub token_step : SelectScan → ℕ → Bytes → Step
  unfolding record_column skip_select_token
  token_step st c rest =
      if from_here st c rest
      then leave (record_column st) (c ∷ rest)
      else if comma_here st c
      then comma_step st rest
      else skip_step st (skip_select_token c rest st.paren_depth)

  abbrev pub after_literal : SelectScan → ℕ × Bytes → Step
  after_literal st (count, rest) =
      go_on
        (record st { literal_length = count; column_is_literal = true; at_column_start = false })
        rest

  -- At the start of a column, its white space skipped.
  pub start_step : SelectScan → Bytes → Step
  start_step st [] = leave st []
  start_step st (c ∷ rest) =
      if c == b'\''
      then after_literal st (measure_string_literal rest)
      else token_step (record st { column_is_literal = false; at_column_start = false }) c rest

  -- The body of the loop.
  pub select_step : SelectScan → ℕ → Bytes → Step
  unfolding start_step token_step
  select_step st c rest =
      if st.at_column_start then start_step st (skip_spaces (c ∷ rest)) else token_step st c rest

  -- The last column, where the text ran out inside it.
  pub finish : SelectScan → Bytes → SelectScan
  finish st (c ∷ rest) = st
  finish st [] = if st.at_column_start then st else record_column st

  -- The loop, on fuel; `none` is spent fuel.
  pub select_loop : ℕ → SelectScan → Bytes → Option (List QueryColumnOverride)
  unfolding finish
  select_loop zero st text = none
  select_loop (suc fuel) st [] = some (finish st []).overrides
  select_loop (suc fuel) st (c ∷ rest) = elim (ltb (length st.overrides) max_columns) [
    | false ↦ some st.overrides
    | true ↦ elim (select_step st c rest) [
      | go_on next text ↦ select_loop fuel next text
      | leave last text ↦ some (finish last text).overrides
    ]
  ]

  abbrev parse_at : Bytes → Option (List QueryColumnOverride)
  parse_at text =
      if match_keyword_at text (codes "select")
      then select_loop (suc (length text)) start_scan (drop 6 text)
      else some []

  -- The overrides that are written, whose number is written through the pointer.
  unfoldable pub query_parse_select_columns : Option Bytes → Option (List QueryColumnOverride)
  unfolding select_loop select_step finish measure_quoted skip_spaces match_keyword_at
  query_parse_select_columns none = some []
  query_parse_select_columns (some sql_input) = parse_at (skip_spaces (c_str sql_input))
