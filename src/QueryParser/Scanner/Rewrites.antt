-- ===== src/QueryParser/Scanner/Rewrites.antt =====
-- The two rewrites of the scanner: the boolean comparison of MS Access, and an INSERT without columns.
use psqlodbc_new.Prelude.{
  ℕ, Bool, true, false, ◌&&◌, Option, none, some, [], ◌∷◌, ◌==◌, if◌then◌else◌, drop, Bytes, codes,
}
use psqlodbc_new.QueryParser.{match_keyword_at, skip_space, skip_blank}
use psqlodbc_new.QueryParser.Scanner.{Setting, Scanner, scanner_reserve}

abbrev pub starts_with : ℕ → Bytes → Bool
starts_with q [] = false
starts_with q (c ∷ cs) = c == q

abbrev pub after_first : Bytes → Bytes
after_first [] = []
after_first (c ∷ cs) = cs

-- The output, last byte first, ends in `"`, an `=` and a `1`, with blanks around the `=`.
abbrev before_equals : Bytes → Bool
before_equals rest = starts_with b'=' rest && starts_with b'"' (skip_blank (after_first rest))

abbrev pub ends_in_comparison : Bytes → Bool
ends_in_comparison [] = false
ends_in_comparison (c ∷ rest) = c == b'1' && before_equals (skip_blank rest)

-- The digit in quotes.
abbrev quote_last : Bytes → Bytes
quote_last [] = []
quote_last (c ∷ rest) = b'\'' ∷ b'1' ∷ b'\'' ∷ rest

-- The text behind `(`, `)`, VALUES, `(` and `)`.
abbrev pub close_last : Bytes → Option Bytes
close_last text = if starts_with b')' text then some (after_first text) else none

abbrev pub after_values : Bytes → Option Bytes
after_values text =
    if starts_with b'(' text then close_last (skip_blank (after_first text)) else none

abbrev pub after_columns : Bytes → Option Bytes
after_columns text =
    if match_keyword_at text (codes "values") then after_values (skip_space (drop 6 text)) else none

unfoldable pub default_values_rest : Bytes → Option Bytes
unfolding match_keyword_at skip_space skip_blank
default_values_rest behind_open =
    let text = skip_blank behind_open in
    if starts_with b')' text then after_columns (skip_space (after_first text)) else none

unfoldable pub statement_is_insert : Bytes → Bool
unfolding match_keyword_at skip_space
statement_is_insert whole_input = match_keyword_at (skip_space whole_input) (codes "insert")

module _ (c : Setting) where
  abbrev quoted : Scanner × Bool → Scanner
  quoted (s, true) = record s { output = quote_last s.output }
  quoted (s, false) = s

  unfoldable pub maybe_rewrite_msaccess_boolean : Scanner → Scanner
  unfolding scanner_reserve skip_blank
  maybe_rewrite_msaccess_boolean s =
      if c.options.ms_jet && ends_in_comparison s.output then quoted (scanner_reserve c s 2) else s
