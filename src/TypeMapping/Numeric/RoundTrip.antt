-- ===== src/TypeMapping/Numeric/RoundTrip.antt =====
-- The parser reads what is printed of a struct.
use psqlodbc_new.Prelude.{
  ℕ, zero, suc, ◌+◌, ◌-◌, ◌*◌, ◌%◌, ◌^◌, ◌≤◌, ◌<◌, min, ◌≡◌, refl, ap, ◌∙◌, inl, inr, Bool, true,
  false, List, [], ◌∷◌, ◌++◌, append_assoc, arith, ltb, leb, ◌==◌, ltb→lt, Bool-cases, length,
  get_or, drop, All, Bytes,
}
use Prim.Native.Nat.{max}
use psqlodbc_new.Prelude.Int.{pos}
use psqlodbc_new.CLib.Decimal.{ten_to}
use native.Mathlib.Nat.{mul_comm}
use psqlodbc_new.TypeMapping.Numeric.{
  SqlNumericStruct, zero_bytes, skip_zeros, type_mapping_parse_numeric_text, extract, emit_digits,
  written, sign_text, fraction_text, emit_text, type_mapping_format_numeric_text,
}
use psqlodbc_new.TypeMapping.Numeric.Mantissa.{
  le_value, weight, le_value-less, IsByte, digits_value,
}
use psqlodbc_new.TypeMapping.Numeric.Digits.{
  le10_value, extract_lem, low_part-all, low_part-drop, digits_value-emit, emit_digits-IsDigits,
  length-emit_digits,
}
use psqlodbc_new.TypeMapping.Numeric.Parse.{
  numeric_text, point, minus, sign_of, parse_numeric_text_lem,
}

length-drop : (n : ℕ) (xs : List ℕ) → length (drop n xs) ≡ length xs - n
length-drop zero xs = omega arith
length-drop (suc n) [] = omega arith
length-drop (suc n) (x ∷ xs) = omega (arith, length-drop n xs)

digits_value-append :
    (xs ys : Bytes) (n : ℕ) → digits_value n (xs ++ ys) ≡ digits_value (digits_value n xs) ys
digits_value-append [] ys n = refl
digits_value-append (x ∷ xs) ys n = digits_value-append xs ys (n * 10 + (x - b'0'))

-- The integer part and the fraction of the digits.
abbrev integer_of : ℕ → List ℕ → Bytes
integer_of s ds = emit_digits ds s (suc (max (length ds - 1) s - s))

abbrev fraction_of : ℕ → List ℕ → Bytes
fraction_of s ds = emit_digits ds 0 s

digits_value-parts :
    (s : ℕ) (ds : List ℕ) → digits_value 0 (integer_of s ds ++ fraction_of s ds) ≡ le10_value ds
digits_value-parts s ds =
    let m = suc (max (length ds - 1) s - s) in
    let whole = low_part-all (drop s ds) m (omega (arith, length-drop s ds)) in
    let high : digits_value 0 (integer_of s ds) ≡ le10_value (drop s ds) =
      digits_value-emit ds s m 0 ∙ omega (arith, whole) in
    digits_value-append (integer_of s ds) (fraction_of s ds) 0
    ∙ digits_value-emit ds 0 s (digits_value 0 (integer_of s ds))
    ∙ rw high (omega (arith, low_part-drop ds s, mul_comm (ten_to s) (le10_value (drop s ds))))

-- Without its leading zeros, the integer part has at most the digits that the fraction leaves.
skip_zeros-length : (ds : Bytes) → length (skip_zeros ds) ≤ length ds
unfolding skip_zeros
skip_zeros-length [] = omega arith
skip_zeros-length (d ∷ ds) = ground (arith, skip_zeros-length ds)

get_or-beyond : (ds : List ℕ) (i : ℕ) → length ds ≤ i → get_or ds i 0 ≡ 0
get_or-beyond [] i h = refl
get_or-beyond (d ∷ ds) zero h = absurd (omega arith)
get_or-beyond (d ∷ ds) (suc i) h = get_or-beyond ds i (omega arith)

fits :
    (s : ℕ) (ds : List ℕ) → s ≤ 48 → length ds ≤ 39 → length (skip_zeros (integer_of s ds)) + s ≤ 48
fits s ds h l = elim (Bool-cases (ltb s (length ds))) [
  | inl long ↦
      let below = ltb→lt s (length ds) long in
      omega (
        arith,
        skip_zeros-length (integer_of s ds),
        length-emit_digits ds s (suc (max (length ds - 1) s - s)),
      )
  | inr short ↦
      let least : max (length ds - 1) s - s ≡ 0 = ground arith in
      let zero_digit = get_or-beyond ds (s + 0) (ground arith) in
      unfold skip_zeros emit_digits in rw (least, zero_digit) (omega arith)
]

fraction_point : (s : ℕ) (ds : List ℕ) → fraction_text s ds ≡ point (fraction_of s ds)
unfolding emit_digits
fraction_point zero ds = refl
fraction_point (suc s) ds = refl

sign_minus : (negative : Bool) → sign_text (sign_of negative) ≡ minus negative
sign_minus true = refl
sign_minus false = refl

weight-zero_bytes : (bs : List ℕ) → weight bs ≡ weight (zero_bytes (length bs))
weight-zero_bytes [] = refl
weight-zero_bytes (b ∷ bs) = ap (λ w. 2 ^ 8 * w) (weight-zero_bytes bs)

less_than_weight : (bs : List ℕ) → length bs ≡ 16 → All IsByte bs → le_value bs < 2 ^ 128
less_than_weight bs e h =
    let all = weight-zero_bytes bs ∙ ap (λ n. weight (zero_bytes n)) e in
    omega (arith, le_value-less bs h, all)

abbrev struct_of : Bool → ℕ → ℕ → List ℕ → SqlNumericStruct
struct_of negative p s val = record {
  precision = p;
  scale = pos s;
  sign = sign_of negative;
  val = val;
}

emit_parts :
    (negative : Bool) (s : ℕ) (ds : List ℕ)
    → emit_text (sign_of negative) (pos s) ds
      ≡ written (numeric_text negative (integer_of s ds) (fraction_of s ds))
emit_parts negative s ds =
    rw (sign_minus negative, fraction_point s ds)
      (ap written (append_assoc (minus negative) (integer_of s ds) (point (fraction_of s ds))))

-- The text is the sign, the integer part and the fraction of the digits.
format_text :
    (negative : Bool) (p s : ℕ) (val : List ℕ) (size : ℕ)
    → 1 ≤ p
    → p ≤ 39
    → 256 ≤ size
    → type_mapping_format_numeric_text (struct_of negative p s val) size
      ≡ written
          (numeric_text negative (integer_of s (extract p val)) (fraction_of s (extract p val)))
unfolding type_mapping_format_numeric_text
format_text negative p s val size positive h large =
    let room : ltb size 256 ≡ false = ground arith in
    let some_digits : (p == 0) ≡ false = ground arith in
    let least : min p 39 ≡ p = omega arith in
    rw (room, some_digits)
      (ap (λ n. emit_text (sign_of negative) (pos s) (extract n val)) least
        ∙ emit_parts negative s (extract p val))

mod_small : (n v : ℕ) → n ≡ v → v < 2 ^ 128 → n % 2 ^ 128 ≡ v
mod_small n v e h = omega arith

leb_small : (n v : ℕ) → n ≡ v → v < 2 ^ 128 → leb (2 ^ 128) n ≡ false
leb_small n v e h = ground arith

-- A struct with the sign 1 or 0, a precision of 1 to 39, a scale of 0 to 48 and a mantissa of
-- sixteen bytes with no more digits than the precision is printed, into a buffer of 256 bytes or
-- more, as a text that the parser reads back without overflow to the same sign, scale and value.
pub parse-format :
    (negative : Bool) (p s : ℕ) (val : List ℕ) (size : ℕ)
    → 1 ≤ p
    → p ≤ 39
    → s ≤ 48
    → length val ≡ 16
    → All IsByte val
    → le_value val < ten_to p
    → 256 ≤ size
    → let numeric : SqlNumericStruct = record {
      precision = p;
      scale = pos s;
      sign = sign_of negative;
      val = val;
    } in
      (text : Bytes) × (type_mapping_format_numeric_text numeric size ≡ written text)
      × (let (again, overflow) = type_mapping_parse_numeric_text text in
          (again.sign ≡ numeric.sign)
          × (again.scale ≡ numeric.scale)
          × (le_value again.val ≡ le_value val)
          × (overflow ≡ false))
parse-format negative p s val size positive h k sixteen bytes small large =
    let (value, digits, shorter) = extract_lem p val bytes small in
    let ds = extract p val in
    let same = digits_value-parts s ds in
    let (sign, scale, precision, mantissa, flag) =
      parse_numeric_text_lem negative (integer_of s ds) (fraction_of s ds)
        (emit_digits-IsDigits ds s _ digits) (emit_digits-IsDigits ds 0 s digits)
        (omega (arith, fits s ds k (omega (arith, shorter)), length-emit_digits ds 0 s)) in
    let less : le_value val < 2 ^ 128 = less_than_weight val sixteen bytes in
    (
      numeric_text negative (integer_of s ds) (fraction_of s ds),
      format_text negative p s val size positive h large,
      (
        sign,
        scale ∙ ap pos (length-emit_digits ds 0 s),
        mantissa ∙ mod_small _ (le_value val) (same ∙ value) less,
        flag ∙ leb_small _ (le_value val) (same ∙ value) less,
      ),
    )
