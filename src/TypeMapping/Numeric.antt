-- ===== src/TypeMapping/Numeric.antt =====
-- Exact decimals, an `SQL_NUMERIC_STRUCT` to text and back: `type_mapping_parse_numeric_text` and
-- `type_mapping_format_numeric_text` of src/type_mapping.c.
-- `val` holds the sixteen bytes of the mantissa, the lowest first; the scale is a signed char.
pub mod Mantissa
pub mod Collect
pub mod Parse
pub mod AnyText
pub mod Digits
pub mod Format
pub mod RoundTrip
mod Tests
use psqlodbc_new.Prelude.{
  ℕ, zero, suc, ◌+◌, ◌-◌, ◌*◌, ◌/◌, ◌%◌, ◌^◌, min, Bool, true, false, not, ◌||◌, Option, none, some,
  List, [], ◌∷◌, ◌++◌, ltb, leb, ◌==◌, if◌then◌else◌, length, get_or, Bytes, c_str,
}
use psqlodbc_new.Prelude.Int.{ℤ, pos, negsuc}
use Prim.Native.Nat.{max}
use psqlodbc_new.CLib.{isdigit, skip_spaces}

pub record SqlNumericStruct : Type 0 where
  pub precision : ℕ
  pub scale : ℤ
  pub sign : ℕ  -- 1 is positive, 0 is negative
  pub val : List ℕ

abbrev pub sql_max_numeric_len : ℕ
sql_max_numeric_len = 16

abbrev pub digits_size : ℕ
digits_size = sql_max_numeric_len * 3

-- `scale++` and `scale--` on a signed char, which wraps around.
abbrev pub scale_up : ℤ → ℤ
scale_up (pos n) = if leb 127 n then negsuc 127 else pos (suc n)
scale_up (negsuc zero) = pos 0
scale_up (negsuc (suc n)) = negsuc n

abbrev pub scale_down : ℤ → ℤ
scale_down (pos zero) = negsuc 0
scale_down (pos (suc n)) = pos n
scale_down (negsuc n) = if leb 127 n then pos 127 else negsuc (suc n)

-- The sign, and the text behind it.
abbrev pub read_sign : Bytes → ℕ × Bytes
read_sign [] = (1, [])
read_sign (c ∷ cs) = if c == b'-' then (0, cs) else if c == b'+' then (1, cs) else (1, c ∷ cs)

pub skip_zeros : Bytes → Bytes
skip_zeros [] = []
skip_zeros (c ∷ cs) = if c == b'0' then skip_zeros cs else c ∷ cs

-- What the loop over the digits has gathered.
pub record Collecting : Type 0 where
  pub digits : Bytes
  pub collected_scale : ℤ
  pub overflow : Bool
  pub seen_decimal_point : Bool

-- The body of the loop at a byte; `none` leaves it.
unfoldable pub collect_step : Collecting → ℕ → Option Collecting
unfolding isdigit
collect_step st c =
    if c == b'.'
    then if st.seen_decimal_point then none else some (record st { seen_decimal_point = true })
    else if not (isdigit c)
    then none
    else if leb digits_size (length st.digits)
    then if st.seen_decimal_point
      then none
      else some (record st { collected_scale = scale_down st.collected_scale; overflow = true })
    else some (record st {
      collected_scale =
          if st.seen_decimal_point then scale_up st.collected_scale else st.collected_scale;
      digits = st.digits ++ c ∷ [];
    })

pub collect : Collecting → Bytes → Collecting
collect st [] = st
collect st (c ∷ cs) = elim (collect_step st c) [ none ↦ st | some next ↦ collect next cs ]

-- One byte of the mantissa before the rest of it and its carry.
abbrev pub with_byte : ℕ → List ℕ × ℕ → List ℕ × ℕ
with_byte byte (bytes, carry) = (byte ∷ bytes, carry)

-- mantissa * 10 + carry over the bytes, and what is carried out of the last one.
pub mul_add : List ℕ → ℕ → List ℕ × ℕ
mul_add [] carry = ([], carry)
mul_add (byte ∷ bytes) carry =
    let product = byte * 10 + carry in with_byte (product % 2 ^ 8) (mul_add bytes (product / 2 ^ 8))

-- The digits added to the mantissa, with the overflow flag.
pub accumulate : List ℕ × Bool → Bytes → List ℕ × Bool
accumulate (val, overflow) [] = (val, overflow)
accumulate (val, overflow) (d ∷ ds) =
    let (next, carry) = mul_add val (d - b'0') in accumulate (next, overflow || not (carry == 0)) ds

abbrev pub zero_bytes : ℕ → List ℕ
zero_bytes zero = []
zero_bytes (suc n) = 0 ∷ zero_bytes n

abbrev pub assemble : ℕ → Collecting → SqlNumericStruct × Bool
assemble sign st =
    let (val, overflow) = accumulate (zero_bytes sql_max_numeric_len, st.overflow) st.digits in
    (
      record {
        precision = length st.digits % 2 ^ 8;
        scale = st.collected_scale;
        sign = sign;
        val = val;
      },
      overflow,
    )

abbrev pub start_collecting : Collecting
start_collecting = record {
  digits = [];
  collected_scale = pos 0;
  overflow = false;
  seen_decimal_point = false;
}

abbrev pub parse_signed : ℕ × Bytes → SqlNumericStruct × Bool
parse_signed (sign, text) = assemble sign (collect start_collecting (skip_zeros text))

-- The struct and the overflow flag that are written through the pointers.
unfoldable pub type_mapping_parse_numeric_text : Bytes → SqlNumericStruct × Bool
unfolding skip_spaces skip_zeros collect collect_step mul_add accumulate isdigit
type_mapping_parse_numeric_text text = parse_signed (read_sign (skip_spaces (c_str text)))

abbrev pub numeric_text_buffer_size : ℕ
numeric_text_buffer_size = 256

abbrev pub numeric_max_mantissa_digits : ℕ
numeric_max_mantissa_digits = 39

-- The step of the long division at a byte, below the quotient and the remainder of those above.
abbrev pub divide_byte : ℕ → List ℕ × ℕ → List ℕ × ℕ
divide_byte byte (quotient, remainder) =
    let value = byte + remainder * 2 ^ 8 in ((value / 10 % 2 ^ 8) ∷ quotient, value % 10)

-- The long division by ten: the quotient's bytes, and the remainder.
pub divide : List ℕ → List ℕ × ℕ
divide [] = ([], 0)
divide (byte ∷ bytes) = divide_byte byte (divide bytes)

abbrev pub significant_before : ℕ → List ℕ → List ℕ
significant_before byte [] = if byte == 0 then [] else byte ∷ []
significant_before byte (b ∷ bytes) = byte ∷ b ∷ bytes

-- The bytes up to the highest that is not zero.
pub significant : List ℕ → List ℕ
significant [] = []
significant (byte ∷ bytes) = significant_before byte (significant bytes)

-- At most so many digits of the mantissa, the lowest first.
pub extract : ℕ → List ℕ → List ℕ
extract zero working_value = []
extract (suc n) working_value =
    let (quotient, remainder) = divide working_value in
    remainder ∷ elim (significant quotient) [ [] ↦ [] | byte ∷ bytes ↦ extract n (byte ∷ bytes) ]

-- The character at a position: a digit that was extracted, or a zero.
abbrev pub digit_at : List ℕ → ℕ → ℕ
digit_at extracted_digits index = get_or extracted_digits index 0 + b'0'

-- The characters at the `n` positions from `low` on, the highest first.
pub emit_digits : List ℕ → ℕ → ℕ → Bytes
emit_digits extracted_digits low zero = []
emit_digits extracted_digits low (suc n) =
    digit_at extracted_digits (low + n) ∷ emit_digits extracted_digits low n

-- A buffer that is too small gives the result -1. A negative scale makes the first loop run on to
-- the index -1 of the digits, outside the array.
pub data FormatResult : Type 0 where
  buffer_too_small : FormatResult
  out_of_bounds : FormatResult
  written : Bytes → FormatResult

abbrev pub sign_text : ℕ → Bytes
sign_text sign = if sign == 0 then b'-' ∷ [] else []

abbrev pub fraction_text : ℕ → List ℕ → Bytes
fraction_text zero extracted_digits = []
fraction_text (suc s) extracted_digits = b'.' ∷ emit_digits extracted_digits 0 (suc s)

abbrev pub emit_text : ℕ → ℤ → List ℕ → FormatResult
emit_text sign (negsuc n) extracted_digits = out_of_bounds
emit_text sign (pos s) extracted_digits =
    let top = max (length extracted_digits - 1) s in
    written (
      sign_text sign
      ++ emit_digits extracted_digits s (suc (top - s))
      ++ fraction_text s extracted_digits)

unfoldable pub type_mapping_format_numeric_text : SqlNumericStruct → ℕ → FormatResult
unfolding divide significant extract emit_digits
type_mapping_format_numeric_text numeric out_buffer_size =
    if ltb out_buffer_size numeric_text_buffer_size
    then buffer_too_small
    else if numeric.precision == 0
    then written (b'0' ∷ [])
    else emit_text numeric.sign numeric.scale
        (extract (min numeric.precision numeric_max_mantissa_digits) numeric.val)
