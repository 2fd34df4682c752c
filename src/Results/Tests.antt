-- ===== src/Results/Tests.antt =====
-- The conversions of values at concrete inputs.
use psqlodbc_new.Prelude.{
  ◌+◌, ◌*◌, ◌≤◌, ◌≡◌, refl, inr, true, false, none, some, [], ◌∷◌, ◌++◌, arith, length, Bytes,
  codes,
}
use psqlodbc_new.CLib.{isdigit}
use psqlodbc_new.Parameters.Bytea.{bytea_literal, encode_char_hex_as_bytea}
use psqlodbc_new.Results.Bytea.{decode_bytea_text}
use psqlodbc_new.Results.Bytea.RoundTrip.{decoded, escape_text, decode-bytea_literal}
use psqlodbc_new.Results.Text.{
  expand_line_feeds, statement_null_date_reads_as_empty, field_type_is_datetime,
  timestamptz_text_length_without_zone, convert_money_to_plain_number,
  field_type_allows_text_binary,
}
use psqlodbc_new.Results.Text.Laws.{
  has_bare_line_feed, without_returns, expand_line_feeds_lem, without_zone_lem,
}
use psqlodbc_new.Results.Text.Money.{plain, money_lem}

decode_octal : decode_bytea_text (codes "a\\\\b\\001\\9") ≡ codes "a\\b" ++ 1 ∷ codes "\\9"
unfolding decode_bytea_text
decode_octal = refl

decode_broken : decode_bytea_text (codes "\\x414g42") ≡ codes "A"
unfolding decode_bytea_text
decode_broken = refl

expand_mixed : expand_line_feeds true (codes "a\n\r\n\n") ≡ some (codes "a\r\n\r\n\r\n")
unfolding expand_line_feeds
expand_mixed = refl

-- A period in the currency symbol is taken for a separator, and the cents are not set off.
money_dotted_symbol : convert_money_to_plain_number (codes "Rs.1,234.50") 64 ≡ some (codes "123450")
unfolding convert_money_to_plain_number
money_dotted_symbol = refl

money_negative : convert_money_to_plain_number (codes "($1,234.56)") 64 ≡ some (codes "-1234.56")
unfolding convert_money_to_plain_number
money_negative = refl

money_no_room : convert_money_to_plain_number (codes "$1.00") 4 ≡ none
unfolding convert_money_to_plain_number
money_no_room = refl

null_dates :
    (statement_null_date_reads_as_empty (some true) 1082 true ≡ true)
    × (statement_null_date_reads_as_empty (some true) 1083 true ≡ false)
    × (field_type_is_datetime 1083 ≡ true)
    × (field_type_allows_text_binary 1043 ≡ true)
    × (field_type_allows_text_binary 20 ≡ false)
unfolding statement_null_date_reads_as_empty field_type_is_datetime field_type_allows_text_binary
null_dates = (refl, refl, refl, refl, refl)

hex_characters : encode_char_hex_as_bytea true (codes "666f") ≡ some (codes "\\x666f")
unfolding encode_char_hex_as_bytea
hex_characters = refl

decode-bytea_literal_example :
    (decoded (bytea_literal true (0 ∷ 92 ∷ 255 ∷ [])) ≡ some (0 ∷ 92 ∷ 255 ∷ []))
    × (decode_bytea_text (escape_text (0 ∷ 92 ∷ 255 ∷ [])) ≡ 0 ∷ 92 ∷ 255 ∷ [])
decode-bytea_literal_example = decode-bytea_literal (0 ∷ 92 ∷ 255 ∷ []) (omega arith)

without_zone_lem_case :
    (timestamptz_text_length_without_zone (codes "2011-02-16 06:49:18-08") ≡ 19)
    × (timestamptz_text_length_without_zone (codes "2011-02-16 06:49:18") ≡ 19)
without_zone_lem_case =
    without_zone_lem (codes "2011-02-16") (codes "06:49:18") (codes "08") b'-' (search (tt))
      (search (tt)) refl

money_lem_example :
    convert_money_to_plain_number (codes "-1.234" ++ b',' ∷ b'5' ∷ b'6' ∷ []) 64
    ≡ some (plain (codes "-1.234") ++ b'.' ∷ b'5' ∷ b'6' ∷ [])
money_lem_example =
    money_lem b',' b'5' b'6' 64 (codes "-1.234") (inr refl) (unfold isdigit in refl)
      (unfold isdigit in refl) (search (tt)) (omega arith)

expand_line_feeds_lem_example :
    (text : Bytes) × (expand_line_feeds true (codes "a\n\r\n") ≡ some text)
    × (length text + 1 ≤ length (codes "a\n\r\n") * 2 + 1)
    × (has_bare_line_feed false text ≡ false)
    × (expand_line_feeds true text ≡ some text)
    × (without_returns text ≡ without_returns (codes "a\n\r\n"))
expand_line_feeds_lem_example = expand_line_feeds_lem (codes "a\n\r\n")
