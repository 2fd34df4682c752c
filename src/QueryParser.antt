-- ===== src/QueryParser.antt =====
-- The SQL scanner: src/query_parser.c. This module has the lexical helpers that its functions share.
-- A position in the text is the list of the bytes from it on.
pub mod Split
pub mod Exempt
pub mod Select
pub mod Scanner
use psqlodbc_new.Prelude.{
  ℕ, suc, Bool, true, false, not, ◌&&◌, ◌||◌, Option, none, some, [], ◌∷◌, leb, ◌==◌, if◌then◌else◌,
  length, take, drop, Bytes,
}
use psqlodbc_new.StringUtils.{pg_ascii_tolower}

pub data ScanState : Type 0 where
  normal in_single_quote in_escape_string in_double_quote in_line_comment in_block_comment :
      ScanState

unfoldable pub is_identifier_start_char : ℕ → Bool
is_identifier_start_char c = leb b'a' c && leb c b'z' || leb b'A' c && leb c b'Z' || c == b'_'

unfoldable pub is_identifier_continuation_char : ℕ → Bool
unfolding is_identifier_start_char
is_identifier_continuation_char c = is_identifier_start_char c || leb b'0' c && leb c b'9'

-- The argument is the byte before the position, `none` at the start.
unfoldable pub dollar_can_open_here : Option ℕ → Bool
unfolding is_identifier_continuation_char
dollar_can_open_here none = true
dollar_can_open_here (some previous) = not (is_identifier_continuation_char previous)

-- The rest of an identifier and the closing '$'; `count` bytes of the tag are behind.
unfoldable pub match_tag : Bytes → ℕ → Option ℕ
unfolding is_identifier_continuation_char
match_tag [] count = none
match_tag (c ∷ cs) count =
    let more = match_tag cs (suc count) in
    if c == b'$' then some (suc count) else if is_identifier_continuation_char c then more else none

-- The length of the delimiter that opens at a '$', given the bytes behind it.
unfoldable pub match_dollar_quote_open : Bytes → Option ℕ
unfolding is_identifier_start_char match_tag
match_dollar_quote_open [] = none
match_dollar_quote_open (c ∷ cs) =
    if c == b'$' then some 2 else if is_identifier_start_char c then match_tag cs 2 else none

-- `memcmp` of a prefix that the input is long enough for.
unfoldable pub has_prefix : Bytes → Bytes → Bool
has_prefix [] s = true
has_prefix (p ∷ ps) [] = false
has_prefix (p ∷ ps) (c ∷ cs) = p == c && has_prefix ps cs

-- The byte at the next position is there and is `q`.
abbrev pub next_is : ℕ → Bytes → Bool
next_is q [] = false
next_is q (c ∷ cs) = c == q

-- No identifier goes on here: the end of the input, or a byte of another kind.
abbrev pub at_boundary : Bytes → Bool
at_boundary [] = true
at_boundary (c ∷ cs) = not (is_identifier_continuation_char c)

unfoldable pub match_keyword_at : Bytes → Bytes → Bool
unfolding pg_ascii_tolower is_identifier_continuation_char
match_keyword_at input [] = at_boundary input
match_keyword_at [] (k ∷ keyword) = false
match_keyword_at (c ∷ input) (k ∷ keyword) =
    pg_ascii_tolower c == pg_ascii_tolower k && match_keyword_at input keyword

-- The four bytes that the parser takes for white space.
abbrev pub is_space : ℕ → Bool
is_space c = c == b' ' || c == b'\t' || c == b'\n' || c == b'\r'

-- The loop over leading white space.
unfoldable pub skip_space : Bytes → Bytes
skip_space [] = []
skip_space (c ∷ cs) = if is_space c then skip_space cs else c ∷ cs

-- The loop over spaces and tabs.
abbrev pub is_blank : ℕ → Bool
is_blank c = c == b' ' || c == b'\t'

unfoldable pub skip_blank : Bytes → Bytes
skip_blank [] = []
skip_blank (c ∷ cs) = if is_blank c then skip_blank cs else c ∷ cs

abbrev pub pass : ℕ → Bytes × Bytes → Bytes × Bytes
pass c (taken, rest) = (c ∷ taken, rest)

-- The body of a dollar-quoted string to the end of its closing delimiter, or to the end of the
-- input where there is none; and what stands behind it.
unfoldable pub dollar_body : Bytes → Bytes → Bytes × Bytes
unfolding has_prefix
dollar_body tag [] = ([], [])
dollar_body tag (c ∷ cs) =
    let more = pass c (dollar_body tag cs) in
    if c == b'$' && has_prefix tag (c ∷ cs)
    then (take (length tag) (c ∷ cs), drop (length tag) (c ∷ cs))
    else more
