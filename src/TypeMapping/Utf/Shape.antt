-- ===== src/TypeMapping/Utf/Shape.antt =====
-- The sizes of what the two loops put out, and that the fuel of the decoding loop is enough.
use native.Mathlib.Decide.{ℕ_discrete}
use mathlib.Core.Path.{subst}
use psqlodbc_new.Prelude.{
  ℕ, zero, suc, ◌+◌, ◌-◌, ◌*◌, ◌≤◌, ◌<◌, ◌≡◌, refl, ap, ◌≢◌, inl, inr, Bool, ◌&&◌, Option, some,
  List, [], ◌∷◌, ◌++◌, arith, Bool-cases, Option-cases, length, length-append, All, Bytes,
}
use psqlodbc_new.TypeMapping.Utf.{
  sequence_length, lead_bits, fold_byte, fold_bytes, put_units, decode_step, decode_units,
  type_mapping_utf8_to_utf16le, type_mapping_utf16le_to_utf8, written_count, input_bytes,
  transcode_utf8, put_bytes, is_high_surrogate, is_low_surrogate, recombine, transcode_utf16,
}

-- The continuation bytes are consumed from the input.
fold_bytes-length :
    (n cp : ℕ) (s : List ℕ) (cp' : ℕ) (rest : List ℕ)
    → fold_bytes n cp s ≡ some (cp', rest)
    → length rest + n ≡ length s
unfolding fold_bytes
fold_bytes-length zero cp s cp' rest h = ground arith
fold_bytes-length (suc n) cp [] cp' rest h = cc
fold_bytes-length (suc n) cp (b ∷ s) cp' rest h =
    omega (arith, fold_bytes-length n (fold_byte cp b) s cp' rest h)

length-put_units : (cp : ℕ) → length (put_units cp) ≤ 2
unfolding put_units
length-put_units cp = ground arith

length-put_units_small : (cp : ℕ) → cp < 0x10000 → length (put_units cp) ≡ 1
unfolding put_units
length-put_units_small cp h = ground arith

-- A sequence that does not have four bytes stands for a code point of the first plane.
small_code_point :
    (lead : ℕ) (s : List ℕ) {cp : ℕ} {rest : List ℕ}
    → lead < 256
    → sequence_length lead ≢ 4
    → fold_bytes (sequence_length lead - 1) (lead_bits lead) s ≡ some (cp, rest)
    → cp < 0x10000
unfolding fold_bytes
small_code_point lead [] b h e = ground arith
small_code_point lead (x ∷ []) b h e = ground arith
small_code_point lead (x ∷ y ∷ s) b h e = ground arith

-- Each round puts out no more units than it takes bytes.
decode_step-le :
    (lead : ℕ) (after : List ℕ)
    → lead < 256
    → length (decode_step lead after).0 + length (decode_step lead after).1 ≤ suc (length after)
decode_step-le lead after b =
    elim (Option-cases (fold_bytes (sequence_length lead - 1) (lead_bits lead) after)) [
      | inl cut ↦ rw cut (omega arith)
      | inr ((cp, rest), folded) ↦ rw folded (elim (ℕ_discrete (sequence_length lead) 4) [
        | yes four ↦
            let taken = fold_bytes-length _ (lead_bits lead) after cp rest folded in
            omega (arith, taken, length-put_units cp)
        | no other ↦
            let taken = fold_bytes-length _ (lead_bits lead) after cp rest folded in
            omega
              (arith, taken, length-put_units_small cp (small_code_point lead after b other folded))
      ])
    ]

-- A round leaves at most the bytes behind the lead.
decode_step-shorter : (lead : ℕ) (after : List ℕ) → length (decode_step lead after).1 ≤ length after
decode_step-shorter lead after =
    elim (Option-cases (fold_bytes (sequence_length lead - 1) (lead_bits lead) after)) [
      | inl cut ↦ rw cut (omega arith)
      | inr ((cp, rest), folded) ↦
          rw folded (omega (arith, fold_bytes-length _ (lead_bits lead) after cp rest folded))
    ]

-- Fuel that reaches the length of the input is enough: more makes no difference.
pub decode_units-enough :
    (f g : ℕ) (s : List ℕ) → length s ≤ f → length s ≤ g → decode_units f s ≡ decode_units g s
unfolding decode_units
decode_units-enough zero zero [] h k = refl
decode_units-enough zero (suc g) [] h k = refl
decode_units-enough (suc f) zero [] h k = refl
decode_units-enough (suc f) (suc g) [] h k = refl
decode_units-enough zero g (lead ∷ s) h k = absurd (omega arith)
decode_units-enough (suc f) zero (lead ∷ s) h k = absurd (omega arith)
decode_units-enough (suc f) (suc g) (lead ∷ s) h k =
    let fewer = decode_step-shorter lead s in
    ap (λ us. (decode_step lead s).0 ++ us)
      (decode_units-enough f g (decode_step lead s).1 (omega arith) (omega arith))

fold_bytes-All :
    (n cp : ℕ) (s : List ℕ) (cp' : ℕ) (rest : List ℕ)
    → All (λ b. b < 256) s
    → fold_bytes n cp s ≡ some (cp', rest)
    → All (λ b. b < 256) rest
unfolding fold_bytes
fold_bytes-All zero cp s cp' rest bs h =
    let same : s ≡ rest = ground arith in subst (All (λ b. b < 256)) same bs
fold_bytes-All (suc n) cp [] cp' rest bs h = cc
fold_bytes-All (suc n) cp (b ∷ s) cp' rest (_, bs) h =
    fold_bytes-All n (fold_byte cp b) s cp' rest bs h

decode_step-All :
    (lead : ℕ) (s : List ℕ) → All (λ b. b < 256) s → All (λ b. b < 256) (decode_step lead s).1
decode_step-All lead s bs =
    elim (Option-cases (fold_bytes (sequence_length lead - 1) (lead_bits lead) s)) [
      | inl cut ↦ rw cut bs
      | inr ((cp, rest), folded) ↦ rw folded (fold_bytes-All _ (lead_bits lead) s cp rest bs folded)
    ]

decode_units-le : (f : ℕ) (s : List ℕ) → All (λ b. b < 256) s → length (decode_units f s) ≤ length s
unfolding decode_units
decode_units-le zero s h = omega arith
decode_units-le (suc f) [] h = omega arith
decode_units-le (suc f) (lead ∷ s) (b, bs) = omega (
  arith,
  length-append (decode_step lead s).0 (decode_units f (decode_step lead s).1),
  decode_units-le f (decode_step lead s).1 (decode_step-All lead s bs),
  decode_step-le lead s b,
)

transcode_utf8-le : (s : List ℕ) → All (λ b. b < 256) s → length (transcode_utf8 s) ≤ length s
unfolding transcode_utf8
transcode_utf8-le s h = decode_units-le (length s) s h

length-put_bytes : (cp : ℕ) → length (put_bytes cp) ≤ 4
unfolding put_bytes
length-put_bytes cp = ground arith

transcode_utf16-le : (us : List ℕ) → length (transcode_utf16 us) ≤ 4 * length us
unfolding transcode_utf16
transcode_utf16-le [] = omega arith
transcode_utf16-le (u ∷ []) = omega (arith, length-put_bytes u)
transcode_utf16-le (u ∷ v ∷ us) =
    let alone = transcode_utf16-le (v ∷ us) in
    let pair = transcode_utf16-le us in
    elim (Bool-cases (is_high_surrogate u && is_low_surrogate v)) [
      | inl both ↦ rw both (
          omega (
            arith,
            pair,
            length-append (put_bytes (recombine u v)) (transcode_utf16 us),
            length-put_bytes (recombine u v),
          ))
      | inr one ↦ rw one (
          omega (
            arith,
            alone,
            length-append (put_bytes u) (transcode_utf16 (v ∷ us)),
            length-put_bytes u,
          ))
    ]

-- Any bytes at all decode to no more units than there are bytes, so that the units fit the buffer
-- that is allocated, with room for a terminator; a failed allocation gives none.
pub utf8_to_utf16le-le :
    (allocates : ℕ → Bool) (text : Bytes) (utf8_length : Option ℕ)
    → All (λ b. b < 256) (input_bytes text utf8_length)
    → written_count (type_mapping_utf8_to_utf16le allocates (some text) utf8_length)
      ≤ length (input_bytes text utf8_length)
unfolding type_mapping_utf8_to_utf16le
utf8_to_utf16le-le allocates text utf8_length h =
    let input = input_bytes text utf8_length in
    elim (Bool-cases (allocates ((length input + 1) * 2))) [
      | inl given ↦ rw given (transcode_utf8-le input h)
      | inr refused ↦ rw refused (omega arith)
    ]

-- Any units encode to at most four bytes for each, so that the bytes fit the buffer that is
-- allocated; a failed allocation gives none.
pub utf16le_to_utf8-le :
    (allocates : ℕ → Bool) (units : List ℕ)
    → written_count (type_mapping_utf16le_to_utf8 allocates (some units)) ≤ 4 * length units
unfolding type_mapping_utf16le_to_utf8
utf16le_to_utf8-le allocates units = elim (Bool-cases (allocates (length units * 4 + 1))) [
  | inl given ↦ rw given (transcode_utf16-le units)
  | inr refused ↦ rw refused (omega arith)
]
