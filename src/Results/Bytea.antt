-- ===== src/Results/Bytea.antt =====
-- The text of a bytea value as its bytes: `hex_digit_value` and `decode_bytea_text` of
-- src/results.c. The bytes that go into the output buffer are the result, and their number is its
-- length; a call without a buffer counts them.
pub mod RoundTrip
use psqlodbc_new.Prelude.{
  ℕ, zero, suc, ◌+◌, ◌-◌, ◌*◌, ◌%◌, ◌^◌, Bool, false, not, ◌&&◌, Option, none, some, [], ◌∷◌, leb,
  ◌==◌, if◌then◌else◌, length, Bytes,
}

-- `none` is -1, for a character that is no hex digit.
unfoldable pub hex_digit_value : ℕ → Option ℕ
hex_digit_value c =
    if leb b'0' c && leb c b'9'
    then some (c - b'0')
    else if leb b'a' c && leb c b'f'
    then some (c - b'a' + 10)
    else if leb b'A' c && leb c b'F'
    then some (c - b'A' + 10)
    else none

-- One byte more, where both digits are valid; otherwise the loop stops.
abbrev pub with_octet : Option ℕ → Option ℕ → Bytes → Bytes
with_octet none low rest = []
with_octet (some high) none rest = []
with_octet (some high) (some low) rest = ((high * 2 ^ 4 + low) % 2 ^ 8) ∷ rest

-- The digits behind the prefix, in pairs; a last digit alone is not read.
unfoldable pub hex_pairs : Bytes → Bytes
unfolding hex_digit_value
hex_pairs [] = []
hex_pairs (high ∷ []) = []
hex_pairs (high ∷ low ∷ text) =
    with_octet (hex_digit_value high) (hex_digit_value low) (hex_pairs text)

abbrev pub is_octal : ℕ → Bool
is_octal c = leb b'0' c && leb c b'7'

-- What a backslash stands for with the text behind it: a byte, and how much of that text is taken.
abbrev pub octal_unit : Bytes → ℕ × ℕ
octal_unit (a ∷ b ∷ c ∷ text) =
    if is_octal a && is_octal b && is_octal c
    then (((a - b'0') * 64 + (b - b'0') * 8 + (c - b'0')) % 2 ^ 8, 3)
    else (b'\\', 0)
octal_unit text = (b'\\', 0)

abbrev pub begins_with : ℕ → Bytes → Bool
begins_with c [] = false
begins_with c (d ∷ text) = d == c

unfoldable pub escape_unit : ℕ → Bytes → ℕ × ℕ
escape_unit c text =
    if c == b'\\' then if begins_with b'\\' text then (b'\\', 1) else octal_unit text else (c, 0)

-- The escape format; `taken` bytes at the front belong to the unit before.
unfoldable pub escape_units : ℕ → Bytes → Bytes
unfolding escape_unit
escape_units taken [] = []
escape_units (suc taken) (c ∷ text) = escape_units taken text
escape_units zero (c ∷ text) = let unit = escape_unit c text in unit.0 ∷ escape_units unit.1 text

unfoldable pub decode_bytea_text : Bytes → Bytes
unfolding hex_pairs escape_units
decode_bytea_text (a ∷ b ∷ text) =
    if a == b'\\' && b == b'x' then hex_pairs text else escape_units 0 (a ∷ b ∷ text)
decode_bytea_text text = escape_units 0 text
