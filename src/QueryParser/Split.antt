-- ===== src/QueryParser/Split.antt =====
-- Splitting a text into its statements: `query_split_statements` of src/query_parser.c.
-- `fragment` is the text from `fragment_start` to the index, `previous` the byte before the index.
pub mod Trim
pub mod Partition
pub mod Total
mod Tests
use psqlodbc_new.Prelude.{
  ℕ, zero, suc, ◌-◌, Bool, true, false, not, ◌&&◌, ◌||◌, Option, none, some, List, [], ◌∷◌, ◌++◌,
  ◌==◌, if◌then◌else◌, length, take, drop, Bytes, c_str,
}
use psqlodbc_new.QueryParser.{
  ScanState, normal, in_single_quote, in_escape_string, in_double_quote, in_line_comment,
  in_block_comment, dollar_can_open_here, match_dollar_quote_open, next_is, is_space, dollar_body,
}

-- The lexical unit at the index, where it is no separator: its bytes, what stands behind it, and the
-- state and comment depth there.
pub record Lexeme : Type 0 where
  pub taken : Bytes
  pub rest : Bytes
  pub state : ScanState
  pub depth : ℕ

abbrev one : ScanState → ℕ → ℕ → Bytes → Lexeme
one state depth c cs = record { taken = c ∷ []; rest = cs; state = state; depth = depth }

abbrev two : ScanState → ℕ → ℕ → Bytes → Lexeme
two state depth c cs = record {
  taken = c ∷ take 1 cs;
  rest = drop 1 cs;
  state = state;
  depth = depth;
}

abbrev dollar_quoted : ℕ → Bytes → Bytes → Bytes × Bytes → Lexeme
dollar_quoted depth tag after (body, rest) = record {
  taken = tag ++ body;
  rest = rest;
  state = normal;
  depth = depth;
}

-- A dollar-quoted string whole, or the '$' alone where no delimiter opens.
abbrev dollar_unit : ℕ → ℕ → Bytes → Option ℕ → Lexeme
dollar_unit depth c cs none = one normal depth c cs
dollar_unit depth c cs (some tag_length) =
    let tag = take tag_length (c ∷ cs) in
    let after = drop tag_length (c ∷ cs) in dollar_quoted depth tag after (dollar_body tag after)

normal_unit : ℕ → Option ℕ → ℕ → Bytes → Lexeme
normal_unit depth previous c cs =
    if (c == b'E' || c == b'e') && next_is b'\'' cs
    then two in_escape_string depth c cs
    else if c == b'$' && dollar_can_open_here previous
    then dollar_unit depth c cs (match_dollar_quote_open cs)
    else if c == b'\''
    then one in_single_quote depth c cs
    else if c == b'"'
    then one in_double_quote depth c cs
    else if c == b'-' && next_is b'-' cs
    then two in_line_comment depth c cs
    else if c == b'/' && next_is b'*' cs
    then two in_block_comment 1 c cs
    else one normal depth c cs

-- The first argument is `standard_conforming_strings`.
single_quote_unit : Bool → ℕ → ℕ → Bytes → Lexeme
single_quote_unit conforming depth c [] =
    if c == b'\'' then one normal depth c [] else one in_single_quote depth c []
single_quote_unit conforming depth c (d ∷ cs) =
    if c == b'\\' && not conforming
    then two in_single_quote depth c (d ∷ cs)
    else if c == b'\'' && d == b'\''
    then two in_single_quote depth c (d ∷ cs)
    else if c == b'\''
    then one normal depth c (d ∷ cs)
    else one in_single_quote depth c (d ∷ cs)

escape_string_unit : ℕ → ℕ → Bytes → Lexeme
escape_string_unit depth c [] =
    if c == b'\'' then one normal depth c [] else one in_escape_string depth c []
escape_string_unit depth c (d ∷ cs) =
    if c == b'\\'
    then two in_escape_string depth c (d ∷ cs)
    else if c == b'\'' && d == b'\''
    then two in_escape_string depth c (d ∷ cs)
    else if c == b'\''
    then one normal depth c (d ∷ cs)
    else one in_escape_string depth c (d ∷ cs)

double_quote_unit : ℕ → ℕ → Bytes → Lexeme
double_quote_unit depth c cs =
    if c == b'"' && next_is b'"' cs
    then two in_double_quote depth c cs
    else if c == b'"'
    then one normal depth c cs
    else one in_double_quote depth c cs

line_comment_unit : ℕ → ℕ → Bytes → Lexeme
line_comment_unit depth c cs =
    if c == b'\n' then one normal depth c cs else one in_line_comment depth c cs

-- The depth is at least 1 here, so that it becomes 0 exactly where it is 1.
block_comment_unit : ℕ → ℕ → Bytes → Lexeme
block_comment_unit depth c cs =
    if c == b'/' && next_is b'*' cs
    then two in_block_comment (suc depth) c cs
    else if c == b'*' && next_is b'/' cs
    then two (if depth == 1 then normal else in_block_comment) (depth - 1) c cs
    else one in_block_comment depth c cs

pub split_unit : Bool → ScanState → ℕ → Option ℕ → ℕ → Bytes → Lexeme
unfolding dollar_can_open_here match_dollar_quote_open dollar_body normal_unit single_quote_unit
    escape_string_unit double_quote_unit line_comment_unit block_comment_unit
split_unit conforming normal depth previous c cs = normal_unit depth previous c cs
split_unit conforming in_single_quote depth previous c cs = single_quote_unit conforming depth c cs
split_unit conforming in_escape_string depth previous c cs = escape_string_unit depth c cs
split_unit conforming in_double_quote depth previous c cs = double_quote_unit depth c cs
split_unit conforming in_line_comment depth previous c cs = line_comment_unit depth c cs
split_unit conforming in_block_comment depth previous c cs = block_comment_unit depth c cs

-- A ';' ends a statement in the normal state alone.
abbrev pub is_separator : ScanState → ℕ → Bool
is_separator normal c = c == b';'
is_separator _ c = false

pub trim_start : Bytes → Bytes
trim_start [] = []
trim_start (c ∷ cs) = if is_space c then trim_start cs else c ∷ cs

abbrev pub trim_before : ℕ → Bytes → Bytes
trim_before c [] = if is_space c then [] else c ∷ []
trim_before c (x ∷ xs) = c ∷ x ∷ xs

pub trim_end : Bytes → Bytes
trim_end [] = []
trim_end (c ∷ cs) = trim_before c (trim_end cs)

abbrev pub trim : Bytes → Bytes
trim s = trim_end (trim_start s)

-- `allocates` is whether the two allocations for the next fragment succeed, given its length and the
-- number of fragments so far.
abbrev pub append_trimmed : (ℕ → ℕ → Bool) → List Bytes → Bytes → Option (List Bytes)
append_trimmed allocates statements [] = some statements
append_trimmed allocates statements (c ∷ cs) =
    if allocates (length (c ∷ cs)) (length statements)
    then some (statements ++ (c ∷ cs) ∷ [])
    else none

pub statement_list_append_range : (ℕ → ℕ → Bool) → List Bytes → Bytes → Option (List Bytes)
unfolding trim_start trim_end
statement_list_append_range allocates statements range =
    append_trimmed allocates statements (trim range)

abbrev pub last_byte : Bytes → Option ℕ
last_byte [] = none
last_byte (c ∷ []) = some c
last_byte (c ∷ d ∷ cs) = last_byte (d ∷ cs)

infixl 5 ◌>>=◌
abbrev pub ◌>>=◌ : Option (List Bytes) → (List Bytes → Option (List Bytes)) → Option (List Bytes)
none >>= f = none
some a >>= f = f a

-- The loop, on fuel; `none` is the result `false`, on an allocation that fails, and also what no
-- fuel gives.
module _ (allocates : ℕ → ℕ → Bool) (conforming : Bool) where
  pub split_loop : ℕ → ScanState → ℕ → Option ℕ → Bytes → List Bytes → Bytes → Option (List Bytes)
  split_loop zero state depth previous fragment statements input = none
  split_loop (suc fuel) state depth previous fragment statements [] =
      statement_list_append_range allocates statements fragment
  split_loop (suc fuel) state depth previous fragment statements (c ∷ cs) =
      elim (is_separator state c) [
        | true ↦ do
          more ← statement_list_append_range allocates statements fragment
          split_loop fuel state depth (some c) [] more cs
        | false ↦
            let u = split_unit conforming state depth previous c cs in
            split_loop fuel u.state u.depth (last_byte u.taken) (fragment ++ u.taken) statements
              u.rest
      ]

-- The options' flag is `true` where the caller gives none.
abbrev pub conforming_or_default : Option Bool → Bool
conforming_or_default none = true
conforming_or_default (some b) = b

unfoldable pub query_split_statements :
    (ℕ → ℕ → Bool) → Option Bytes → Option Bool → Option (List Bytes)
unfolding split_loop split_unit statement_list_append_range
query_split_statements allocates none options = some []
query_split_statements allocates (some sql) options =
    split_loop allocates (conforming_or_default options) (suc (length (c_str sql))) normal 0 none []
      [] (c_str sql)
