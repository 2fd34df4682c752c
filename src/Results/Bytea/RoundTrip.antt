-- ===== src/Results/Bytea/RoundTrip.antt =====
-- What is encoded as bytea is decoded to the same bytes, in both formats, and no text decodes to
-- more bytes than it has.
use psqlodbc_new.Prelude.{
  ℕ, zero, suc, ◌+◌, ◌-◌, ◌*◌, ◌/◌, ◌%◌, ◌≤◌, ◌<◌, ◌≡◌, refl, sym, ap, ◌∙◌, inl, inr, true, false,
  ◌&&◌, Option, none, some, [], ◌∷◌, ◌++◌, arith, leb, ◌==◌, if◌then◌else◌, ==_iff, Bool-cases,
  length, All, Bytes,
}
use psqlodbc_new.Parameters.Bytea.{hex_digit, hex_text, bytea_literal}
use psqlodbc_new.Results.Bytea.{
  hex_digit_value, with_octet, hex_pairs, is_octal, escape_unit, escape_units, decode_bytea_text,
}

abbrev pub IsByte : ℕ → Type 0
IsByte c = c < 256

hex_digit_value-hex_digit : (v : ℕ) → v < 16 → hex_digit_value (hex_digit v) ≡ some v
unfolding hex_digit_value hex_digit
hex_digit_value-hex_digit v h = ground arith

hex_pairs-hex_text : (bytes : Bytes) → All IsByte bytes → hex_pairs (hex_text bytes) ≡ bytes
unfolding hex_pairs hex_text
hex_pairs-hex_text [] h = refl
hex_pairs-hex_text (b ∷ bytes) (hb, h) =
    rw
      (
        hex_digit_value-hex_digit (b / 16) (omega arith),
        hex_digit_value-hex_digit (b % 16) (omega arith),
        hex_pairs-hex_text bytes h,
      )
      (let whole : (b / 16 * 16 + b % 16) % 256 ≡ b = omega arith in ap (λ n. n ∷ bytes) whole)

-- PostgreSQL's escape format for a byte: a backslash doubled, a printable byte itself, any other
-- in three octal digits.
abbrev pub escaped : ℕ → Bytes
escaped b =
    if b == b'\\'
    then b'\\' ∷ b'\\' ∷ []
    else if leb 32 b && leb b 126
    then b ∷ []
    else b'\\' ∷ (b'0' + b / 64) ∷ (b'0' + b / 8 % 8) ∷ (b'0' + b % 8) ∷ []

abbrev pub escape_text : Bytes → Bytes
escape_text [] = []
escape_text (b ∷ bytes) = escaped b ++ escape_text bytes

escape_units-escaped :
    (b : ℕ) (rest : Bytes) → b < 256 → escape_units 0 (escaped b ++ rest) ≡ b ∷ escape_units 0 rest
unfolding escape_units
escape_units-escaped b rest h = elim (Bool-cases (b == b'\\')) [
  | inl e ↦ rw e (ap (λ (c : ℕ). c ∷ escape_units 0 rest) (sym ((==_iff b b'\\').0 e)))
  | inr e ↦ rw e (elim (Bool-cases (leb 32 b && leb b 126)) [
    | inl p ↦ rw p (rw e refl)
    | inr p ↦
        let high : is_octal (b'0' + b / 64) ≡ true = ground arith in
        let middle : is_octal (b'0' + b / 8 % 8) ≡ true = ground arith in
        let low : is_octal (b'0' + b % 8) ≡ true = ground arith in
        let single : (b'0' + b / 64 == b'\\') ≡ false = ground arith in
        let whole : ((b'0' + b / 64 - b'0') * 64
                + (b'0' + b / 8 % 8 - b'0') * 8
                + (b'0' + b % 8 - b'0'))
              % 256
            ≡ b =
          omega arith in
        rw p (rw (single, high, middle, low, whole) refl)
  ])
]

escape_units-escape_text :
    (bytes : Bytes) → All IsByte bytes → escape_units 0 (escape_text bytes) ≡ bytes
unfolding escape_units
escape_units-escape_text [] h = refl
escape_units-escape_text (b ∷ bytes) (hb, h) =
    escape_units-escaped b (escape_text bytes) hb
    ∙ ap (λ (r : Bytes). b ∷ r) (escape_units-escape_text bytes h)

decode-not_backslash :
    (c : ℕ) (text : Bytes)
    → (c == b'\\') ≡ false
    → decode_bytea_text (c ∷ text) ≡ escape_units 0 (c ∷ text)
unfolding decode_bytea_text
decode-not_backslash c [] e = refl
decode-not_backslash c (d ∷ text) e = rw e refl

-- The escape format never begins as the hex format does.
decode-escape_text :
    (bytes : Bytes)
    → All IsByte bytes
    → decode_bytea_text (escape_text bytes) ≡ escape_units 0 (escape_text bytes)
unfolding decode_bytea_text
decode-escape_text [] h = refl
decode-escape_text (b ∷ bytes) (hb, h) = elim (Bool-cases (b == b'\\')) [
  | inl e ↦ rw e refl
  | inr e ↦ rw e (elim (Bool-cases (leb 32 b && leb b 126)) [
    | inl p ↦ rw p (decode-not_backslash b (escape_text bytes) e)
    | inr p ↦ let other : (b'0' + b / 64 == b'x') ≡ false = ground arith in rw p (rw other refl)
  ])
]

length-with_octet :
    (high low : Option ℕ) (rest : Bytes) → length (with_octet high low rest) ≤ suc (length rest)
length-with_octet none low rest = omega arith
length-with_octet (some high) none rest = omega arith
length-with_octet (some high) (some low) rest = omega arith

length-hex_pairs : (text : Bytes) → length (hex_pairs text) ≤ length text
unfolding hex_pairs
length-hex_pairs [] = omega arith
length-hex_pairs (c ∷ []) = omega arith
length-hex_pairs (c ∷ d ∷ text) = omega (
  arith,
  length-with_octet (hex_digit_value c) (hex_digit_value d) (hex_pairs text),
  length-hex_pairs text,
)

length-escape_units : (taken : ℕ) (text : Bytes) → length (escape_units taken text) ≤ length text
unfolding escape_units
length-escape_units zero [] = omega arith
length-escape_units (suc taken) [] = omega arith
length-escape_units zero (c ∷ text) = omega (arith, length-escape_units (escape_unit c text).1 text)
length-escape_units (suc taken) (c ∷ text) = omega (arith, length-escape_units taken text)

-- Any text, well formed or not, decodes to no more bytes than it has.
pub decode_bytea_text_bounded : (text : Bytes) → length (decode_bytea_text text) ≤ length text
unfolding decode_bytea_text
decode_bytea_text_bounded [] = length-escape_units 0 []
decode_bytea_text_bounded (a ∷ []) = length-escape_units 0 (a ∷ [])
decode_bytea_text_bounded (a ∷ b ∷ text) = elim (Bool-cases (a == b'\\' && b == b'x')) [
  | inl e ↦ rw e (omega (arith, length-hex_pairs text))
  | inr e ↦ rw e (length-escape_units 0 (a ∷ b ∷ text))
]

abbrev pub decoded : Option Bytes → Option Bytes
decoded none = none
decoded (some text) = some (decode_bytea_text text)

-- Any bytes come back from the hex literal that the driver sends for them, where it gets its
-- memory, and from PostgreSQL's escape format for them.
pub decode-bytea_literal :
    (bytes : Bytes)
    → All IsByte bytes
    → (decoded (bytea_literal true bytes) ≡ some bytes)
      × (decode_bytea_text (escape_text bytes) ≡ bytes)
unfolding bytea_literal
decode-bytea_literal bytes h = (
  ap some (unfold decode_bytea_text in hex_pairs-hex_text bytes h),
  decode-escape_text bytes h ∙ escape_units-escape_text bytes h,
)
