-- ===== src/TypeMapping/Utf/RoundTrip.antt =====
-- Transcoding well-formed text is exact, both ways.
use psqlodbc_new.Prelude.{
  ℕ, zero, suc, ◌+◌, ◌-◌, ◌/◌, ◌%◌, ◌^◌, ◌≤◌, ◌<◌, ◌≡◌, refl, sym, ap, ◌∙◌, inl, inr, true, false,
  some, List, [], ◌∷◌, ◌++◌, append-nil, arith, ltb, leb, ltb→lt, leb→le, Bool-cases, length,
  length-append, take-length_le, All,
}
use psqlodbc_new.TypeMapping.Utf.{
  surrogate_base, fold_bytes, put_units, decode_step, decode_units, transcode_utf8,
  type_mapping_utf8_to_utf16le, type_mapping_utf16le_to_utf8, enough_memory, put_bytes, recombine,
  transcode_utf16, is_high_surrogate, is_low_surrogate,
}
use psqlodbc_new.TypeMapping.Utf.Standard.{IsScalar, scalar_utf8, scalar_utf16, utf8, utf16}

-- The bytes that the code writes for code points, and the units.
abbrev all_bytes : List ℕ → List ℕ
all_bytes [] = []
all_bytes (cp ∷ cps) = put_bytes cp ++ all_bytes cps

abbrev all_units : List ℕ → List ℕ
all_units [] = []
all_units (cp ∷ cps) = put_units cp ++ all_units cps

one_byte : (cp : ℕ) (rest : List ℕ) → cp < 0x80 → decode_step cp rest ≡ (put_units cp, rest)
unfolding fold_bytes put_units
one_byte cp rest h = ground arith

two_bytes :
    (cp : ℕ) (rest : List ℕ)
    → 0x80 ≤ cp
    → cp < 0x800
    → decode_step (0xC0 + cp / 2 ^ 6) ((0x80 + cp % 2 ^ 6) ∷ rest) ≡ (put_units cp, rest)
unfolding fold_bytes
two_bytes cp rest l h = ground arith

three_bytes :
    (cp : ℕ) (rest : List ℕ)
    → 0x800 ≤ cp
    → cp < 0x10000
    → decode_step (0xE0 + cp / 2 ^ 12) ((0x80 + cp / 2 ^ 6 % 2 ^ 6) ∷ (0x80 + cp % 2 ^ 6) ∷ rest)
      ≡ (put_units cp, rest)
unfolding fold_bytes
three_bytes cp rest l h = ground arith

four_bytes :
    (cp : ℕ) (rest : List ℕ)
    → 0x10000 ≤ cp
    → cp < 0x110000
    → decode_step
        (0xF0 + cp / 2 ^ 18)
        ((0x80 + cp / 2 ^ 12 % 2 ^ 6) ∷ (0x80 + cp / 2 ^ 6 % 2 ^ 6) ∷ (0x80 + cp % 2 ^ 6) ∷ rest)
      ≡ (put_units cp, rest)
unfolding fold_bytes
four_bytes cp rest l h = ground arith

-- One round of the decoder undoes the encoding of one scalar value.
decode_put :
    (cp : ℕ) (rest : List ℕ)
    → IsScalar cp
    → (lead : ℕ) × (after : List ℕ) × (put_bytes cp ++ rest ≡ lead ∷ after)
      × (decode_step lead after ≡ (put_units cp, rest))
unfolding put_bytes
decode_put cp rest (top, _) = elim (Bool-cases (ltb cp 0x80)) [
  | inl ascii ↦ (cp, rest, rw ascii, one_byte cp rest (ltb→lt _ _ ascii))
  | inr more ↦ elim (Bool-cases (ltb cp 0x800)) [
    | inl two ↦ (
      0xC0 + cp / 2 ^ 6,
      (0x80 + cp % 2 ^ 6) ∷ rest,
      rw (more, two),
      two_bytes cp rest (ground arith) (ltb→lt _ _ two),
    )
    | inr many ↦ elim (Bool-cases (ltb cp 0x10000)) [
      | inl three ↦ (
        0xE0 + cp / 2 ^ 12,
        (0x80 + cp / 2 ^ 6 % 2 ^ 6) ∷ (0x80 + cp % 2 ^ 6) ∷ rest,
        rw (more, many, three),
        three_bytes cp rest (ground arith) (ltb→lt _ _ three),
      )
      | inr four ↦ (
        0xF0 + cp / 2 ^ 18,
        (0x80 + cp / 2 ^ 12 % 2 ^ 6) ∷ (0x80 + cp / 2 ^ 6 % 2 ^ 6) ∷ (0x80 + cp % 2 ^ 6) ∷ rest,
        rw (more, many, four),
        four_bytes cp rest (ground arith) top,
      )
    ]
  ]
]

put_bytes_pos : (cp : ℕ) → 0 < length (put_bytes cp)
unfolding put_bytes
put_bytes_pos cp = ground arith

decode_units-all_bytes :
    (cps : List ℕ) (f : ℕ)
    → All IsScalar cps
    → length (all_bytes cps) ≤ f
    → decode_units f (all_bytes cps) ≡ all_units cps
unfolding decode_units
decode_units-all_bytes [] zero h e = refl
decode_units-all_bytes [] (suc f) h e = refl
decode_units-all_bytes (cp ∷ cps) zero (h, hs) e =
    let (lead, after, bytes, _) = decode_put cp (all_bytes cps) h in
    absurd (omega (arith, ap length bytes))
decode_units-all_bytes (cp ∷ cps) (suc f) (h, hs) e =
    let (lead, after, bytes, step) = decode_put cp (all_bytes cps) h in
    rw bytes (
      rw step (
        ap (λ us. put_units cp ++ us)
          (decode_units-all_bytes cps f hs
            (omega (arith, length-append (put_bytes cp) (all_bytes cps), put_bytes_pos cp)))))

encode_alone :
    (u : ℕ) (us : List ℕ)
    → is_high_surrogate u ≡ false
    → transcode_utf16 (u ∷ us) ≡ put_bytes u ++ transcode_utf16 us
unfolding transcode_utf16
encode_alone u [] h = sym (append-nil (put_bytes u))
encode_alone u (v ∷ us) h = rw h

encode_pair :
    (u v : ℕ) (us : List ℕ)
    → is_high_surrogate u ≡ true
    → is_low_surrogate v ≡ true
    → transcode_utf16 (u ∷ v ∷ us) ≡ put_bytes (recombine u v) ++ transcode_utf16 us
unfolding transcode_utf16
encode_pair u v us h k = rw (h, k)

abbrev high : ℕ → ℕ
high cp = (0xD800 + (cp - surrogate_base) / 2 ^ 10) % 2 ^ 16

abbrev low : ℕ → ℕ
low cp = (0xDC00 + (cp - surrogate_base) % 2 ^ 10) % 2 ^ 16

pair_lem :
    (cp : ℕ)
    → 0x10000 ≤ cp
    → cp < 0x110000
    → (is_high_surrogate (high cp) ≡ true)
      × (is_low_surrogate (low cp) ≡ true)
      × (recombine (high cp) (low cp) ≡ cp)
pair_lem cp l h = ground arith

-- One round of the encoder undoes the units of one scalar value.
encode_put :
    (cp : ℕ) (us : List ℕ)
    → IsScalar cp
    → transcode_utf16 (put_units cp ++ us) ≡ put_bytes cp ++ transcode_utf16 us
unfolding put_units
encode_put cp us (top, scalar) = elim (Bool-cases (leb surrogate_base cp)) [
  | inl large ↦
      let (h, l, e) = pair_lem cp (leb→le _ _ large) top in
      rw large
        (encode_pair (high cp) (low cp) us h l ∙ ap (λ c. put_bytes c ++ transcode_utf16 us) e)
  | inr small ↦
      let same : cp % 2 ^ 16 ≡ cp = ground arith in
      let plain : is_high_surrogate cp ≡ false = ground arith in
      rw small (rw same (encode_alone cp us plain))
]

all_units-transcoded :
    (cps : List ℕ) → All IsScalar cps → transcode_utf16 (all_units cps) ≡ all_bytes cps
unfolding transcode_utf16
all_units-transcoded [] h = refl
all_units-transcoded (cp ∷ cps) (h, hs) =
    encode_put cp (all_units cps) h ∙ ap (λ bs. put_bytes cp ++ bs) (all_units-transcoded cps hs)

put_bytes_lem : (cp : ℕ) → put_bytes cp ≡ scalar_utf8 cp
unfolding put_bytes
put_bytes_lem cp = refl

put_units_lem : (cp : ℕ) → cp < 0x110000 → put_units cp ≡ scalar_utf16 cp
unfolding put_units
put_units_lem cp h = ground arith

all_bytes-utf8 : (cps : List ℕ) → all_bytes cps ≡ utf8 cps
all_bytes-utf8 [] = refl
all_bytes-utf8 (cp ∷ cps) = rw (put_bytes_lem cp, all_bytes-utf8 cps)

all_units-utf16 : (cps : List ℕ) → All IsScalar cps → all_units cps ≡ utf16 cps
all_units-utf16 [] h = refl
all_units-utf16 (cp ∷ cps) ((top, h), hs) = rw (put_units_lem cp top, all_units-utf16 cps hs)

-- The UTF-8 text of scalar values, given with its length, is transcoded to their UTF-16 text where
-- there is enough memory.
pub utf8_to_utf16le-utf8 :
    (cps : List ℕ)
    → All IsScalar cps
    → type_mapping_utf8_to_utf16le enough_memory (some (utf8 cps)) (some (length (utf8 cps)))
      ≡ some (utf16 cps)
unfolding type_mapping_utf8_to_utf16le
utf8_to_utf16le-utf8 cps h =
    ap (λ input. some (transcode_utf8 input))
      (take-length_le (length (utf8 cps)) (utf8 cps) (omega arith))
    ∙ ap (λ input. some (transcode_utf8 input)) (sym (all_bytes-utf8 cps))
    ∙ ap some (
        decode_units-all_bytes cps (length (all_bytes cps)) h (omega arith) ∙ all_units-utf16 cps h)

-- The UTF-16 text of scalar values is transcoded to their UTF-8 text where there is enough memory.
pub utf16le_to_utf8-utf16 :
    (cps : List ℕ)
    → All IsScalar cps
    → type_mapping_utf16le_to_utf8 enough_memory (some (utf16 cps)) ≡ some (utf8 cps)
unfolding type_mapping_utf16le_to_utf8
utf16le_to_utf8-utf16 cps h =
    ap (λ units. some (transcode_utf16 units)) (sym (all_units-utf16 cps h))
    ∙ ap some (all_units-transcoded cps h ∙ all_bytes-utf8 cps)
