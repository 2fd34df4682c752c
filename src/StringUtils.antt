-- ===== src/StringUtils.antt =====
-- The ASCII helpers of include/platform/string_utils.h.
-- A `const char *` is the list of the bytes it points to; its terminator is the end of the list
-- or a NUL in it, whichever comes first.
pub mod CaseFold
mod Tests
use psqlodbc_new.Prelude.{
  ℕ, zero, suc, ◌+◌, ◌-◌, Bool, true, false, ◌&&◌, ◌||◌, Option, none, some, [], ◌∷◌, leb, ◌==◌,
  if◌then◌else◌, Bytes,
}
use psqlodbc_new.Prelude.Int.{ℤ, pos, negsuc, sub_ℕ}

unfoldable pub pg_ascii_tolower : ℕ → ℕ
pg_ascii_tolower byte = if leb b'A' byte && leb byte b'Z' then byte - b'A' + b'a' else byte

-- `*s`: the first byte, or the terminator.
abbrev pub first_byte : Bytes → ℕ
first_byte [] = 0
first_byte (c ∷ cs) = c

unfoldable pub pg_ascii_strcasecmp : Bytes → Bytes → ℤ
unfolding pg_ascii_tolower
pg_ascii_strcasecmp [] right = sub_ℕ (pg_ascii_tolower 0) (pg_ascii_tolower (first_byte right))
pg_ascii_strcasecmp (a ∷ left) [] = sub_ℕ (pg_ascii_tolower a) (pg_ascii_tolower 0)
pg_ascii_strcasecmp (a ∷ left) (b ∷ right) =
    let rest = pg_ascii_strcasecmp left right in
    if a == 0 || b == 0
    then sub_ℕ (pg_ascii_tolower a) (pg_ascii_tolower b)
    else if pg_ascii_tolower a == pg_ascii_tolower b
    then rest
    else sub_ℕ (pg_ascii_tolower a) (pg_ascii_tolower b)

abbrev pub is_zero : ℤ → Bool
is_zero (pos n) = n == 0
is_zero (negsuc n) = false

unfoldable pub pg_ascii_case_equal : Bytes → Bytes → Bool
unfolding pg_ascii_strcasecmp
pg_ascii_case_equal left right = is_zero (pg_ascii_strcasecmp left right)

unfoldable pub pg_ascii_case_prefix : Bytes → Bytes → ℕ → Bool
unfolding pg_ascii_tolower
pg_ascii_case_prefix value prefix zero = true
pg_ascii_case_prefix [] prefix (suc n) = false
pg_ascii_case_prefix (v ∷ value) [] (suc n) = false
pg_ascii_case_prefix (v ∷ value) (p ∷ prefix) (suc n) =
    let rest = pg_ascii_case_prefix value prefix n in
    if v == 0 then false else if pg_ascii_tolower v == pg_ascii_tolower p then rest else false

-- `pg_strdup`: the copy, or NULL where the allocation fails.
unfoldable pub pg_strdup : Bool → Bytes → Option Bytes
pg_strdup true source = some source
pg_strdup false source = none
