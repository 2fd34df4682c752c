-- ===== src/Results/Text.antt =====
-- The conversions of a value's text that are made before it is delivered: src/results.c.
-- A C integer that starts at -1 is a ℤ here; a text that is given with its length is the list of
-- its bytes.
pub mod Laws
pub mod Money
use psqlodbc_new.Prelude.{
  ℕ, zero, suc, ◌+◌, ◌-◌, Bool, false, not, ◌&&◌, ◌||◌, Option, none, some, List, [], ◌∷◌, ◌++◌,
  leb, ◌==◌, if◌then◌else◌, length, Bytes, c_str,
}
use psqlodbc_new.Prelude.Int.{ℤ, pos, negsuc, sub_ℕ, ltb_ℤ}
use psqlodbc_new.CLib.{isdigit}
use psqlodbc_new.TypeMapping.Catalog.{
  pg_type_text, pg_type_bpchar, pg_type_varchar, pg_type_date, pg_type_time, pg_type_timestamp,
  pg_type_timestamptz,
}

-- One byte of the source, where `after_return` says whether a carriage return stands before it.
abbrev pub expand_byte : Bool → ℕ → Bytes → Bytes
expand_byte after_return current rest =
    if current == b'\n' && not after_return then b'\r' ∷ current ∷ rest else current ∷ rest

unfoldable pub expand_from : Bool → Bytes → Bytes
expand_from after_return [] = []
expand_from after_return (current ∷ source) =
    expand_byte after_return current (expand_from (current == b'\r') source)

unfoldable pub expand_line_feeds : Bool → Bytes → Option Bytes
unfolding expand_from
expand_line_feeds allocated source = if allocated then some (expand_from false source) else none

-- `statement_null_date_reads_as_empty`: the statement's connection, if any, is seen by its option
-- CvtNullDate, and the target type by whether it is SQL_C_CHAR or SQL_C_WCHAR.
unfoldable pub statement_null_date_reads_as_empty : Option Bool → ℕ → Bool → Bool
statement_null_date_reads_as_empty none column_oid is_character_target = false
statement_null_date_reads_as_empty (some cvt_null_date) column_oid is_character_target =
    cvt_null_date
    && (column_oid == pg_type_date
        || column_oid == pg_type_timestamp
        || column_oid == pg_type_timestamptz)
    && is_character_target

unfoldable pub field_type_is_datetime : ℕ → Bool
field_type_is_datetime postgres_oid =
    postgres_oid == pg_type_date
    || postgres_oid == pg_type_time
    || postgres_oid == pg_type_timestamp
    || postgres_oid == pg_type_timestamptz

-- Where the time starts: behind the first space, or at the front.
unfoldable pub behind_space : Bytes → Option ℕ
behind_space [] = none
behind_space (c ∷ text) =
    let later : Option ℕ = elim (behind_space text) [ none ↦ none | some n ↦ some (suc n) ] in
    if c == b' ' then some 1 else later

abbrev pub start_or_front : Option ℕ → ℕ
start_or_front none = 0
start_or_front (some n) = n

abbrev pub is_zone_sign : ℕ → Bool
is_zone_sign c = c == b'+' || c == b'-'

-- The index of the first sign at or behind the start, or the length.
unfoldable pub sign_from : ℕ → Bytes → ℕ
sign_from start [] = 0
sign_from (suc start) (c ∷ text) = suc (sign_from start text)
sign_from zero (c ∷ text) = if is_zone_sign c then 0 else suc (sign_from 0 text)

unfoldable pub timestamptz_text_length_without_zone : Bytes → ℕ
unfolding behind_space sign_from
timestamptz_text_length_without_zone text = sign_from (start_or_front (behind_space text)) text

-- The three indices that the first loop over a money text finds.
pub record MoneyScan : Type 0 where
  pub last_digit_index : ℤ
  pub first_period_index : ℤ
  pub first_comma_index : ℤ

abbrev pub first_or : ℤ → ℕ → ℤ
first_or (pos n) index = pos n
first_or (negsuc n) index = pos index

abbrev pub scan_money_byte : ℕ → ℕ → MoneyScan → MoneyScan
scan_money_byte index character s =
    if character == b'.'
    then record s { first_period_index = first_or s.first_period_index index }
    else if character == b','
    then record s { first_comma_index = first_or s.first_comma_index index }
    else if isdigit character
    then record s { last_digit_index = pos index }
    else s

unfoldable pub scan_money : ℕ → Bytes → MoneyScan → MoneyScan
unfolding isdigit
scan_money index [] s = s
scan_money index (character ∷ input) s =
    scan_money (suc index) input (scan_money_byte index character s)

abbrev pub no_index : MoneyScan
no_index = record {
  last_digit_index = negsuc 0;
  first_period_index = negsuc 0;
  first_comma_index = negsuc 0;
}

-- `a >= b - 2`.
abbrev pub near : ℤ → ℤ → Bool
near a (pos b) = not (ltb_ℤ a (sub_ℕ b 2))
near a (negsuc b) = not (ltb_ℤ a (negsuc (b + 2)))

-- 0 where there is no decimal separator.
unfoldable pub decimal_separator : MoneyScan → ℕ
decimal_separator s =
    if ltb_ℤ s.first_comma_index s.first_period_index
    then if near s.first_period_index s.last_digit_index then b'.' else 0
    else if not (ltb_ℤ s.first_comma_index (pos 0)) && near s.first_comma_index s.last_digit_index
    then b','
    else 0

-- What a character of the input becomes.
abbrev pub money_byte : ℕ → ℕ → Bytes
money_byte separator character =
    if character == b'(' || character == b'-'
    then b'-' ∷ []
    else if isdigit character
    then character ∷ []
    else if character == separator
    then b'.' ∷ []
    else []

-- The second loop; `none` is the result `false`, where the buffer has no room for one byte more
-- and the terminator.
unfoldable pub emit_money : ℕ → ℕ → Bytes → Bytes → Option Bytes
unfolding isdigit
emit_money size separator out [] = some out
emit_money size separator out (character ∷ input) =
    let rest = emit_money size separator (out ++ money_byte separator character) input in
    if leb size (length out + 1) then none else rest

unfoldable pub convert_money_to_plain_number : Bytes → ℕ → Option Bytes
unfolding scan_money decimal_separator emit_money
convert_money_to_plain_number input out_buffer_size =
    let text = c_str input in
    emit_money out_buffer_size (decimal_separator (scan_money 0 text no_index)) [] text

abbrev pub pg_type_unknown : ℕ
pg_type_unknown = 705

abbrev pub pg_type_xml : ℕ
pg_type_xml = 142

abbrev pub is_listed : ℕ → List ℕ → Bool
is_listed n [] = false
is_listed n (m ∷ ms) = n == m || is_listed n ms

-- The character types and the arrays of them: those of xml, text, bpchar and varchar.
unfoldable pub field_type_allows_text_binary : ℕ → Bool
field_type_allows_text_binary postgres_oid = is_listed postgres_oid (
    pg_type_unknown ∷ pg_type_bpchar ∷ pg_type_varchar ∷ pg_type_text ∷ pg_type_xml ∷ 1014 ∷ 1015
    ∷ 1009 ∷ 143 ∷ [])
