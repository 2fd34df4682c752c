-- ===== src/TypeMapping/Utf.antt =====
-- UTF-8 and UTF-16: `transcode_utf8` and `transcode_utf16` of
-- src/type_mapping.c. Shifts and masks are written by `*`, `/` and `%`, and `|` of disjoint bits by
-- `+`. A pointer that is not NULL is the list of its bytes or units; memory suffices.
pub mod Shape
pub mod Standard
pub mod RoundTrip
mod Tests
use psqlodbc_new.Prelude.{
  ℕ, zero, suc, ◌+◌, ◌-◌, ◌*◌, ◌/◌, ◌%◌, ◌^◌, Bool, true, not, ◌&&◌, Option, none, some, List, [],
  ◌∷◌, ◌++◌, ltb, leb, ◌==◌, if◌then◌else◌, length, take, Bytes, c_str,
}

-- The lead byte's class: `(lead & 0xE0) == 0xC0` and so on, on the high bits that the mask keeps.
abbrev pub sequence_length : ℕ → ℕ
sequence_length lead =
    if ltb lead 0x80
    then 1
    else if lead / 2 ^ 5 == 6
    then 2
    else if lead / 2 ^ 4 == 14
    then 3
    else if lead / 2 ^ 3 == 30
    then 4
    else 1

-- The bits of the code point that the lead byte holds.
abbrev pub lead_bits : ℕ → ℕ
lead_bits lead =
    if ltb lead 0x80
    then lead
    else if lead / 2 ^ 5 == 6
    then lead % 2 ^ 5
    else if lead / 2 ^ 4 == 14
    then lead % 2 ^ 4
    else if lead / 2 ^ 3 == 30
    then lead % 2 ^ 3
    else lead

-- `(code_point << 6) | (byte & 0x3F)`.
abbrev pub fold_byte : ℕ → ℕ → ℕ
fold_byte code_point byte = code_point * 2 ^ 6 + byte % 2 ^ 6

-- The continuation bytes of a sequence folded in, and what stands behind the sequence; `none` where
-- the sequence runs past the end of the input.
pub fold_bytes : ℕ → ℕ → List ℕ → Option (ℕ × List ℕ)
fold_bytes zero code_point rest = some (code_point, rest)
fold_bytes (suc n) code_point [] = none
fold_bytes (suc n) code_point (byte ∷ rest) = fold_bytes n (fold_byte code_point byte) rest

abbrev pub surrogate_base : ℕ
surrogate_base = 0x10000

-- The units of a code point: a surrogate pair from U+10000 on. A `SQLWCHAR` has 16 bits.
pub put_units : ℕ → List ℕ
put_units code_point =
    if leb surrogate_base code_point
    then (0xD800 + (code_point - surrogate_base) / 2 ^ 10) % 2 ^ 16
      ∷ (0xDC00 + (code_point - surrogate_base) % 2 ^ 10) % 2 ^ 16
      ∷ []
    else code_point % 2 ^ 16 ∷ []

abbrev pub decode_rest : ℕ → List ℕ → Option (ℕ × List ℕ) → List ℕ × List ℕ
decode_rest lead after none = (lead ∷ [], after)
decode_rest lead after (some (code_point, rest)) = (put_units code_point, rest)

-- One round of the loop at a lead byte: the units put out, and the input behind the sequence.
abbrev pub decode_step : ℕ → List ℕ → List ℕ × List ℕ
decode_step lead after =
    decode_rest lead after (fold_bytes (sequence_length lead - 1) (lead_bits lead) after)

-- The loop, on fuel: each round takes a byte at least.
pub decode_units : ℕ → List ℕ → List ℕ
decode_units zero input = []
decode_units (suc fuel) [] = []
decode_units (suc fuel) (lead ∷ after) =
    (decode_step lead after).0 ++ decode_units fuel (decode_step lead after).1

unfoldable pub transcode_utf8 : List ℕ → List ℕ
unfolding decode_units put_units fold_bytes
transcode_utf8 input = decode_units (length input) input

-- The bytes of a code point.
pub put_bytes : ℕ → List ℕ
put_bytes code_point =
    if ltb code_point 0x80
    then code_point ∷ []
    else if ltb code_point 0x800
    then (0xC0 + code_point / 2 ^ 6) ∷ (0x80 + code_point % 2 ^ 6) ∷ []
    else if ltb code_point surrogate_base
    then (0xE0 + code_point / 2 ^ 12)
      ∷ (0x80 + code_point / 2 ^ 6 % 2 ^ 6)
      ∷ (0x80 + code_point % 2 ^ 6)
      ∷ []
    else (0xF0 + code_point / 2 ^ 18)
      ∷ (0x80 + code_point / 2 ^ 12 % 2 ^ 6)
      ∷ (0x80 + code_point / 2 ^ 6 % 2 ^ 6)
      ∷ (0x80 + code_point % 2 ^ 6)
      ∷ []

abbrev pub is_high_surrogate : ℕ → Bool
is_high_surrogate unit = leb 0xD800 unit && ltb unit 0xDC00

abbrev pub is_low_surrogate : ℕ → Bool
is_low_surrogate unit = leb 0xDC00 unit && leb unit 0xDFFF

-- `base + ((high << 10) | low)`.
abbrev pub recombine : ℕ → ℕ → ℕ
recombine high low = surrogate_base + ((high - 0xD800) * 2 ^ 10 + (low - 0xDC00))

unfoldable pub transcode_utf16 : List ℕ → List ℕ
unfolding put_bytes
transcode_utf16 [] = []
transcode_utf16 (unit ∷ []) = put_bytes unit
transcode_utf16 (unit ∷ next ∷ units) =
    let alone = put_bytes unit ++ transcode_utf16 (next ∷ units) in
    let pair = put_bytes (recombine unit next) ++ transcode_utf16 units in
    if is_high_surrogate unit && is_low_surrogate next then pair else alone

-- The bytes that are read: so many, or for SQL_NTS, which is `none`, those before the first NUL.
abbrev pub input_bytes : Bytes → Option ℕ → Bytes
input_bytes text none = c_str text
input_bytes text (some utf8_length) = take utf8_length text

-- The units, whose number is written through the pointer; `none` is NULL, with the number 0.
unfoldable pub type_mapping_utf8_to_utf16le : (ℕ → Bool) → Option Bytes → Option ℕ → Option (List ℕ)
unfolding transcode_utf8
type_mapping_utf8_to_utf16le allocates none utf8_length = none
type_mapping_utf8_to_utf16le allocates (some text) utf8_length =
    let input = input_bytes text utf8_length in
    if allocates ((length input + 1) * 2) then some (transcode_utf8 input) else none

-- The bytes without their terminator, whose number is written through the pointer.
unfoldable pub type_mapping_utf16le_to_utf8 : (ℕ → Bool) → Option (List ℕ) → Option Bytes
unfolding transcode_utf16
type_mapping_utf16le_to_utf8 allocates none = none
type_mapping_utf16le_to_utf8 allocates (some units) =
    if allocates (length units * 4 + 1) then some (transcode_utf16 units) else none

-- The number that is written through the pointer.
abbrev pub written_count : Option (List ℕ) → ℕ
written_count none = 0
written_count (some units) = length units

-- Every allocation succeeds.
abbrev pub enough_memory : ℕ → Bool
enough_memory size = true
