-- ===== src/TypeMapping/Numeric/Format.antt =====
-- The length of what is printed of a struct.
use psqlodbc_new.Prelude.{
  ℕ, zero, suc, ◌+◌, ◌-◌, ◌≤◌, ◌<◌, min, ◌≡◌, refl, inl, inr, false, List, [], ◌∷◌, ◌++◌, arith,
  ltb, ◌==◌, Bool-cases, length, length-append, Bytes,
}
use Prim.Native.Nat.{max}
use psqlodbc_new.Prelude.Int.{pos}
use psqlodbc_new.TypeMapping.Numeric.{
  SqlNumericStruct, numeric_text_buffer_size, divide, significant, extract, emit_digits, written,
  sign_text, fraction_text, emit_text, type_mapping_format_numeric_text,
}
use psqlodbc_new.TypeMapping.Numeric.Digits.{length-emit_digits}

length-extract : (n : ℕ) (bs : List ℕ) → length (extract n bs) ≤ n
unfolding extract
length-extract zero bs = omega arith
length-extract (suc n) bs = go (significant (divide bs).0) refl (length-extract n)
  where
    go :
        (s : List ℕ)
        → s ≡ significant (divide bs).0
        → ((xs : List ℕ) → length (extract n xs) ≤ n)
        → length (extract (suc n) bs) ≤ suc n
    go [] e later = rw (← e) (omega arith)
    go (x ∷ xs) e later = let shorter = later (x ∷ xs) in rw (← e) (omega arith)

length-sign_text : (sign : ℕ) → length (sign_text sign) ≤ 1
length-sign_text sign = ground arith

length-fraction_text : (s : ℕ) (ds : List ℕ) → length (fraction_text s ds) ≤ suc s
length-fraction_text zero ds = omega arith
length-fraction_text (suc s) ds = omega (arith, length-emit_digits ds 0 (suc s))

length-parts :
    (a b c : Bytes) (s : ℕ)
    → length a ≤ 1
    → length c ≤ suc s
    → length b + s ≤ 128
    → length (a ++ b ++ c) < 256
length-parts a b c s h k l = omega (arith, length-append (a ++ b) c, length-append a b)

length-emit_text :
    (sign s : ℕ) (ds : List ℕ)
    → s ≤ 127
    → length ds ≤ 39
    → (text : Bytes) × (emit_text sign (pos s) ds ≡ written text) × (length text < 256)
length-emit_text sign s ds h l =
    let m = suc (max (length ds - 1) s - s) in
    let integer = length-emit_digits ds s m in
    (
      _,
      refl,
      length-parts (sign_text sign) (emit_digits ds s m) (fraction_text s ds) s
          (length-sign_text sign) (length-fraction_text s ds) (omega (arith, integer)),
    )

-- Into a buffer of the required size, a struct whose scale is 0 to 127 is printed as a text that
-- fits, with its terminator, the 256 bytes that are promised to be enough.
pub format_numeric_text_bounded :
    (numeric : SqlNumericStruct) (s size : ℕ)
    → numeric.scale ≡ pos s
    → s ≤ 127
    → 256 ≤ size
    → (text : Bytes) × (type_mapping_format_numeric_text numeric size ≡ written text)
      × (length text < numeric_text_buffer_size)
unfolding type_mapping_format_numeric_text
format_numeric_text_bounded numeric s size e h large =
    let room : ltb size 256 ≡ false = ground arith in
    let n = min numeric.precision 39 in
    let digits = extract n numeric.val in
    elim (Bool-cases (numeric.precision == 0)) [
      | inl nothing ↦ (b'0' ∷ [], rw (room, nothing), omega arith)
      | inr some_digits ↦
          let (text, prints, short) =
            length-emit_text numeric.sign s digits h
              (omega (arith, length-extract n numeric.val)) in
          (text, rw (room, some_digits, e) prints, short)
    ]
