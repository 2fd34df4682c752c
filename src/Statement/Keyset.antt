-- ===== src/Statement/Keyset.antt =====
-- What an updatable cursor reads from the text of a command, and what a savepoint does to its rows:
-- src/statement.c. A text is the bytes before its terminator. A search for a place in a text gives
-- the text before and from there on.
pub mod Overlay
pub mod Savepoints
pub mod Spliced
use psqlodbc_new.Prelude.{
  ℕ, ◌+◌, ◌-◌, Bool, true, false, not, ◌&&◌, ◌||◌, Option, none, some, List, [], ◌∷◌, ◌++◌, leb,
  ◌==◌, if◌then◌else◌, length, drop, Bytes, codes,
}
use psqlodbc_new.CLib.{isspace, skip_spaces}
use psqlodbc_new.StringUtils.{pg_ascii_case_prefix, first_byte}
use psqlodbc_new.Libpq.{Libpq}
use psqlodbc_new.Connection.Handle.{same_text}
use psqlodbc_new.Statement.{KeysetRow, KeysetSavepoint, minus_one, OdbcStatement}

abbrev pub max_keyset_table_name_length : ℕ
max_keyset_table_name_length = 256

abbrev pub max_keyset_savepoint_name_length : ℕ
max_keyset_savepoint_name_length = 64

abbrev pub max_keyset_savepoints : ℕ
max_keyset_savepoints = 8

unfoldable pub skip_leading_spaces : Bytes → Bytes
unfolding skip_spaces
skip_leading_spaces text = skip_spaces text

unfoldable pub starts_with_keyword : Bytes → Bytes → Bool
unfolding pg_ascii_case_prefix isspace
starts_with_keyword text keyword =
    let following = first_byte (drop (length keyword) text) in
    pg_ascii_case_prefix text keyword (length keyword)
    && (following == 0 || isspace following || following == b'(' || following == b'*')

pub data Quoting : Type 0 where
  unquoted in_single_quote in_double_quote : Quoting

-- The quoting and the depth behind a byte.
abbrev pub after_byte : Quoting → ℕ → ℕ → Quoting × ℕ
after_byte in_single_quote depth c = (if c == b'\'' then unquoted else in_single_quote, depth)
after_byte in_double_quote depth c = (if c == b'"' then unquoted else in_double_quote, depth)
after_byte unquoted depth c =
    if c == b'\''
    then (in_single_quote, depth)
    else if c == b'"'
    then (in_double_quote, depth)
    else if c == b'('
    then (unquoted, depth + 1)
    else if c == b')'
    then (unquoted, depth - 1)
    else (unquoted, depth)

abbrev pub is_unquoted : Quoting → Bool
is_unquoted unquoted = true
is_unquoted _ = false

-- Whether FROM starts here; `after_space` is whether white space stands right before.
abbrev pub from_starts : Quoting → ℕ → Bool → Bytes → Bool
from_starts quoting depth after_space text =
    is_unquoted quoting && depth == 0 && after_space && starts_with_keyword text (codes "FROM")

abbrev pub found_after : ℕ → Option (Bytes × Bytes) → Option (Bytes × Bytes)
found_after c none = none
found_after c (some (before, from)) = some (c ∷ before, from)

unfoldable pub find_from : Quoting → ℕ → Bool → Bytes → Option (Bytes × Bytes)
unfolding starts_with_keyword isspace
find_from quoting depth after_space [] = none
find_from quoting depth after_space (c ∷ text) =
    let (quoting', depth') = after_byte quoting depth c in
    let later = found_after c (find_from quoting' depth' (isspace c) text) in
    if from_starts quoting depth after_space (c ∷ text) then some ([], c ∷ text) else later

unfoldable pub find_top_level_from : Bytes → Option (Bytes × Bytes)
unfolding find_from
find_top_level_from select_text = find_from unquoted 0 false select_text

abbrev pub ends_table : Bool → ℕ → Bool
ends_table in_quote c =
    not in_quote && not (c == b'"') && (isspace c || c == b',' || c == b'(' || c == b';')

-- The table's name and the text behind it; `none` where the name is too long.
unfoldable pub table_token : Bool → ℕ → Bytes → Option (Bytes × Bytes)
unfolding isspace
table_token in_quote size [] = some ([], [])
table_token in_quote size (c ∷ text) =
    let more =
      found_after c (table_token (if c == b'"' then not in_quote else in_quote) (size - 1) text) in
    if ends_table in_quote c then some ([], c ∷ text) else if leb size 1 then none else more

abbrev pub starts_with_any : List Bytes → Bytes → Bool
starts_with_any [] text = false
starts_with_any (keyword ∷ keywords) text =
    starts_with_keyword text keyword || starts_with_any keywords text

abbrev pub allowed_following_clauses : List Bytes
allowed_following_clauses =
    codes "WHERE"
    ∷ codes "ORDER"
    ∷ codes "GROUP"
    ∷ codes "LIMIT"
    ∷ codes "OFFSET"
    ∷ codes "HAVING"
    ∷ codes "FOR"
    ∷ []

abbrev pub has_text : Bytes → Bool
has_text [] = false
has_text (c ∷ text) = true

abbrev pub single_table : Option (Bytes × Bytes) → Option Bytes
single_table none = none
single_table (some (name, text)) =
    let rest = skip_leading_spaces text in
    if has_text name && (not (has_text rest) || starts_with_any allowed_following_clauses rest)
    then some name
    else none

unfoldable pub extract_from_table_name : Bytes → ℕ → Option Bytes
unfolding skip_leading_spaces table_token starts_with_keyword
extract_from_table_name from_keyword out_size =
    single_table (table_token false out_size (skip_leading_spaces (drop 4 from_keyword)))

-- The new text of the command and the table's name, which is empty where the text stays.
abbrev pub spliced : Bytes → Bytes × Bytes → Option Bytes → Bytes × Bytes
spliced original parts none = (original, [])
spliced original (before, from) (some name) = (before ++ codes ", ctid " ++ from, name)

abbrev pub splice_at : Bool → Bytes → Bytes → Option (Bytes × Bytes) → Bytes × Bytes
splice_at allocated original spaces none = (original, [])
splice_at allocated original spaces (some (before, from)) =
    if allocated
    then spliced original (spaces ++ before, from)
        (extract_from_table_name from max_keyset_table_name_length)
    else (original, [])

-- The spaces that `skip_leading_spaces` passes over.
unfoldable pub leading_spaces : Bytes → Bytes
unfolding isspace
leading_spaces [] = []
leading_spaces (c ∷ text) = if isspace c then c ∷ leading_spaces text else []

abbrev pub append_ctid_to : Bool → Bytes → Bytes × Bytes
append_ctid_to allocated original =
    let select_text = skip_leading_spaces original in
    if starts_with_keyword select_text (codes "SELECT")
    then splice_at allocated original (leading_spaces original) (find_top_level_from select_text)
    else (original, [])

abbrev pub append_ctid : Bool → Option Bytes → Option Bytes × Bytes
append_ctid allocated none = (none, [])
append_ctid allocated (some original) = let r = append_ctid_to allocated original in (some r.0, r.1)

-- `rewritable` is what the statement's flags say: an updatable cursor, one command, no procedure
-- call. The result has `translated_sql` and `keyset_table_name`; `hidden_ctid_column_index` is the
-- sentinel after every call.
unfoldable pub rewrite_select_append_ctid : Bool → Bool → Option Bytes → Option Bytes × Bytes
unfolding skip_leading_spaces starts_with_keyword find_top_level_from extract_from_table_name
    leading_spaces
rewrite_select_append_ctid allocated rewritable translated_sql =
    if rewritable then append_ctid allocated translated_sql else (translated_sql, [])

-- The savepoint's name and whether the command rolls back to it.
unfoldable pub savepoint_name : ℕ → Bytes → Option Bytes
unfolding isspace
savepoint_name size [] = some []
savepoint_name size (c ∷ text) =
    let more : Option Bytes = elim (savepoint_name (size - 1) text) [
      | none ↦ none
      | some name ↦ some (c ∷ name)
    ] in
    if isspace c || c == b';' then some [] else if leb size 1 then none else more

abbrev pub checked_name : Bool → Option Bytes → Option (Bytes × Bool)
checked_name is_rollback none = none
checked_name is_rollback (some []) = none
checked_name is_rollback (some (c ∷ name)) = some (c ∷ name, is_rollback)

abbrev pub after_keyword : Bytes → Bytes → Bytes
after_keyword keyword text = skip_leading_spaces (drop (length keyword) text)

abbrev pub skip_savepoint : Bytes → Bytes
skip_savepoint text =
    if starts_with_keyword text (codes "SAVEPOINT")
    then after_keyword (codes "SAVEPOINT") text
    else text

abbrev pub rollback_target : ℕ → Bytes → Option (Bytes × Bool)
rollback_target out_size text =
    if starts_with_keyword text (codes "TO")
    then checked_name true
        (savepoint_name out_size (skip_savepoint (after_keyword (codes "TO") text)))
    else none

unfoldable pub parse_savepoint_command : Bytes → ℕ → Option (Bytes × Bool)
unfolding skip_leading_spaces starts_with_keyword savepoint_name
parse_savepoint_command sql out_size =
    let text = skip_leading_spaces sql in
    if starts_with_keyword text (codes "SAVEPOINT")
    then checked_name false (savepoint_name out_size (after_keyword (codes "SAVEPOINT") text))
    else if starts_with_keyword text (codes "ROLLBACK")
    then rollback_target out_size (after_keyword (codes "ROLLBACK") text)
    else none
