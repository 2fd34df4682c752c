-- ===== src/QueryParser/Scanner/Copy.antt =====
-- Copying: one byte or two, a dollar-quoted string, and the steps inside literals and comments, of
-- `scan_step` in src/query_parser.c.
use psqlodbc_new.Prelude.{
  ℕ, suc, ◌-◌, Bool, true, false, not, ◌&&◌, List, [], ◌∷◌, ◌==◌, if◌then◌else◌, length, take, drop,
  Bytes,
}
use psqlodbc_new.QueryParser.{ScanState, normal, next_is, has_prefix}
use psqlodbc_new.QueryParser.Scanner.{Setting, Scanner, emit_string, emit_char, emit_all, at_input}

-- The pieces of a dollar-quoted body, each byte and then the closing tag, and the text behind.
abbrev piece_before : Bytes → List Bytes × Bytes → List Bytes × Bytes
piece_before piece (pieces, rest) = (piece ∷ pieces, rest)

unfoldable pub dollar_pieces : Bytes → Bytes → List Bytes × Bytes
unfolding has_prefix
dollar_pieces tag [] = ([], [])
dollar_pieces tag (x ∷ xs) =
    let more = piece_before (x ∷ []) (dollar_pieces tag xs) in
    if x == b'$' && has_prefix tag (x ∷ xs) then (tag ∷ [], drop (length tag) (x ∷ xs)) else more

abbrev pub to_state : ScanState → Scanner → Scanner
to_state state s = record s { state = state }

abbrev pub to_depth : ℕ → Scanner → Scanner
to_depth depth s = record s { block_comment_depth = depth }

module _ (c : Setting) where
  -- One byte, or two, copied.
  abbrev pub copy_one : Scanner → ℕ → Bytes → Scanner
  copy_one s x xs = at_input (emit_char c x s) xs

  abbrev pub copy_two : Scanner → ℕ → Bytes → Scanner
  copy_two s x [] = copy_one s x []
  copy_two s x (y ∷ ys) = at_input (emit_char c y (emit_char c x s)) ys

  abbrev pub copy_pieces : Scanner → List Bytes × Bytes → Scanner
  copy_pieces s (pieces, rest) = at_input (emit_all c pieces s) rest

  abbrev pub copy_dollar : Scanner → ℕ → Bytes → Scanner
  copy_dollar s tag_length text =
      let tag = take tag_length text in
      copy_pieces (emit_string c tag s) (dollar_pieces tag (drop tag_length text))

  abbrev is_nonempty : Bytes → Bool
  is_nonempty [] = false
  is_nonempty (x ∷ xs) = true

  -- Inside a literal or a comment.
  unfoldable pub single_quote_step : Scanner → ℕ → Bytes → Scanner
  single_quote_step s x xs =
      if x == b'\\' && not c.options.standard_conforming_strings && is_nonempty xs
      then copy_two s x xs
      else if x == b'\'' && next_is b'\'' xs
      then copy_two s x xs
      else if x == b'\''
      then to_state normal (copy_one s x xs)
      else copy_one s x xs

  unfoldable pub escape_string_step : Scanner → ℕ → Bytes → Scanner
  escape_string_step s x xs =
      if x == b'\\' && is_nonempty xs
      then copy_two s x xs
      else if x == b'\'' && next_is b'\'' xs
      then copy_two s x xs
      else if x == b'\''
      then to_state normal (copy_one s x xs)
      else copy_one s x xs

  unfoldable pub double_quote_step : Scanner → ℕ → Bytes → Scanner
  double_quote_step s x xs =
      if x == b'"' && next_is b'"' xs
      then copy_two s x xs
      else if x == b'"'
      then to_state normal (copy_one s x xs)
      else copy_one s x xs

  unfoldable pub line_comment_step : Scanner → ℕ → Bytes → Scanner
  line_comment_step s x xs =
      if x == b'\n' then to_state normal (copy_one s x xs) else copy_one s x xs

  abbrev closed_comment : Scanner → ScanState
  closed_comment s = if s.block_comment_depth == 1 then normal else s.state

  unfoldable pub block_comment_step : Scanner → ℕ → Bytes → Scanner
  block_comment_step s x xs =
      if x == b'/' && next_is b'*' xs
      then to_depth (suc s.block_comment_depth) (copy_two s x xs)
      else if x == b'*' && next_is b'/' xs
      then to_depth (s.block_comment_depth - 1) (to_state (closed_comment s) (copy_two s x xs))
      else copy_one s x xs
