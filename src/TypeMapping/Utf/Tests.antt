-- ===== src/TypeMapping/Utf/Tests.antt =====
-- Transcoding at concrete texts.
use psqlodbc_new.Prelude.{ℕ, ◌*◌, ◌≤◌, ◌≡◌, refl, inl, inr, none, some, List, [], ◌∷◌, arith, All}
use psqlodbc_new.TypeMapping.Utf.{
  transcode_utf8, type_mapping_utf8_to_utf16le, type_mapping_utf16le_to_utf8, enough_memory,
  written_count,
}
use psqlodbc_new.TypeMapping.Utf.Standard.{IsScalar, utf8, utf16}
use psqlodbc_new.TypeMapping.Utf.Shape.{utf8_to_utf16le-le, utf16le_to_utf8-le}
use psqlodbc_new.TypeMapping.Utf.RoundTrip.{utf8_to_utf16le-utf8, utf16le_to_utf8-utf16}

-- "é", "€" and U+1F600.
abbrev sample : List ℕ
sample = 0xE9 ∷ 0x20AC ∷ 0x1F600 ∷ []

sample-IsScalar : All IsScalar sample
sample-IsScalar = (
  (omega arith, inl (omega arith)),
  ((omega arith, inl (omega arith)), ((omega arith, inr (omega arith)), tt)),
)

decode_sample :
    transcode_utf8 (0xE2 ∷ 0x82 ∷ 0xAC ∷ 0xF0 ∷ 0x9F ∷ 0x98 ∷ 0x80 ∷ 0xF0 ∷ [])
    ≡ 0x20AC ∷ 0xD83D ∷ 0xDE00 ∷ 0xF0 ∷ []
unfolding transcode_utf8
decode_sample = refl

utf8_to_utf16le-utf8_example :
    type_mapping_utf8_to_utf16le enough_memory (some (utf8 sample)) (some 9) ≡ some (utf16 sample)
utf8_to_utf16le-utf8_example = utf8_to_utf16le-utf8 sample sample-IsScalar

utf16le_to_utf8-utf16_example :
    type_mapping_utf16le_to_utf8 enough_memory (some (utf16 sample)) ≡ some (utf8 sample)
utf16le_to_utf8-utf16_example = utf16le_to_utf8-utf16 sample sample-IsScalar

utf8_to_utf16le-le_case :
    written_count (type_mapping_utf8_to_utf16le enough_memory (some (0xF0 ∷ 0x9F ∷ [])) none) ≤ 2
utf8_to_utf16le-le_case =
    utf8_to_utf16le-le enough_memory (0xF0 ∷ 0x9F ∷ []) none (omega arith, (omega arith, tt))

utf16le_to_utf8-le_case :
    written_count (type_mapping_utf16le_to_utf8 enough_memory (some (0xD83D ∷ 0x41 ∷ []))) ≤ 4 * 2
utf16le_to_utf8-le_case = utf16le_to_utf8-le enough_memory (0xD83D ∷ 0x41 ∷ [])
