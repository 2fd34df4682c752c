-- ===== src/Parameters/Bytea.antt =====
-- The literals of bytea parameters: `encode_char_hex_as_bytea` of src/parameter.c, and the loop
-- that writes a parameter's bytes in hex in src/parameter.c and src/statement.c.
use psqlodbc_new.Prelude.{
  ℕ, ◌+◌, ◌-◌, ◌/◌, ◌%◌, Bool, Option, none, some, [], ◌∷◌, ltb, if◌then◌else◌, Bytes,
}

unfoldable pub hex_digit : ℕ → ℕ
hex_digit value = if ltb value 10 then b'0' + value else b'a' + (value - 10)

-- "%02x" for each byte.
unfoldable pub hex_text : Bytes → Bytes
unfolding hex_digit
hex_text [] = []
hex_text (byte ∷ bytes) = hex_digit (byte / 16) ∷ hex_digit (byte % 16) ∷ hex_text bytes

-- The literal with its prefix; `allocated` is whether it gets its memory.
unfoldable pub bytea_literal : Bool → Bytes → Option Bytes
unfolding hex_text
bytea_literal allocated bytes = if allocated then some (b'\\' ∷ b'x' ∷ hex_text bytes) else none

unfoldable pub encode_char_hex_as_bytea : Bool → Bytes → Option Bytes
encode_char_hex_as_bytea allocated value = if allocated then some (b'\\' ∷ b'x' ∷ value) else none
