-- ===== src/QueryParser/Scanner/Escapes.antt =====
-- The escapes whose body is copied as it is: {d ...}, {t ...}, {ts ...} and {escape ...}.
use psqlodbc_new.Prelude.{◌&&◌, [], ◌∷◌, ◌==◌, if◌then◌else◌, Bytes, codes}
use psqlodbc_new.QueryParser.{is_blank, next_is, pass, skip_space, skip_blank}
use psqlodbc_new.QueryParser.Scanner.{Setting, Scanner, emit_string, emit_chars, at_input}

-- The text from the first `}` on, or its end.
unfoldable pub seek_brace : Bytes → Bytes
seek_brace [] = []
seek_brace (c ∷ cs) = if c == b'}' then c ∷ cs else seek_brace cs

-- Past a `}` that stands here.
abbrev pub past_brace : Bytes → Bytes
past_brace [] = []
past_brace (c ∷ cs) = if c == b'}' then cs else c ∷ cs

-- The bytes up to the `}`, less the blanks directly before it, and the text from the `}` on.
unfoldable pub copy_datetime : Bytes → Bytes × Bytes
unfolding skip_blank
copy_datetime [] = ([], [])
copy_datetime (c ∷ cs) =
    let more = pass c (copy_datetime cs) in
    if c == b'}'
    then ([], c ∷ cs)
    else if is_blank c && next_is b'}' (skip_blank (c ∷ cs))
    then ([], skip_blank (c ∷ cs))
    else more

-- The bytes up to the `}`, and the text from it on.
unfoldable pub copy_to_brace : Bytes → Bytes × Bytes
copy_to_brace [] = ([], [])
copy_to_brace (c ∷ cs) =
    let more = pass c (copy_to_brace cs) in if c == b'}' then ([], c ∷ cs) else more

module _ (c : Setting) where
  unfoldable pub handle_datetime_escape : Bytes → Scanner → Scanner
  unfolding copy_datetime skip_space emit_string
  handle_datetime_escape cast_suffix s =
      let (body, rest) = copy_datetime (skip_space s.input) in
      at_input (emit_string c cast_suffix (emit_chars c body s)) (past_brace rest)

  unfoldable pub handle_like_escape : Scanner → Scanner
  unfolding copy_to_brace skip_space emit_string
  handle_like_escape s =
      let (body, rest) = copy_to_brace (skip_space s.input) in
      at_input (emit_chars c body (emit_string c (codes "ESCAPE ") s)) (past_brace rest)
