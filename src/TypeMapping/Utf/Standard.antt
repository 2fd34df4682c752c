-- ===== src/TypeMapping/Utf/Standard.antt =====
-- Unicode's encoding forms, independent of the code.
use psqlodbc_new.Prelude.{ℕ, ◌+◌, ◌-◌, ◌/◌, ◌%◌, ◌<◌, ◌⊎◌, List, [], ◌∷◌, ◌++◌, ltb, if◌then◌else◌}

-- A Unicode scalar value: a code point that is no surrogate.
abbrev pub IsScalar : ℕ → Type 0
IsScalar cp = (cp < 0x110000) × ((cp < 0xD800) ⊎ (0xDFFF < cp))

-- The encoding forms as the Unicode standard describes them: a continuation byte has six bits of
-- the scalar value, and a surrogate ten bits of what is left of it above the first 65536.
abbrev continuation : ℕ → ℕ
continuation n = 128 + n % 64

abbrev pub scalar_utf8 : ℕ → List ℕ
scalar_utf8 cp =
    if ltb cp 128
    then cp ∷ []
    else if ltb cp 2048
    then (192 + cp / 64) ∷ continuation cp ∷ []
    else if ltb cp 65536
    then (224 + cp / 4096) ∷ continuation (cp / 64) ∷ continuation cp ∷ []
    else (240 + cp / 262144)
      ∷ continuation (cp / 4096)
      ∷ continuation (cp / 64)
      ∷ continuation cp
      ∷ []

abbrev pub scalar_utf16 : ℕ → List ℕ
scalar_utf16 cp =
    if ltb cp 65536
    then cp ∷ []
    else (55296 + (cp - 65536) / 1024) ∷ (56320 + (cp - 65536) % 1024) ∷ []

abbrev pub utf8 : List ℕ → List ℕ
utf8 [] = []
utf8 (cp ∷ cps) = scalar_utf8 cp ++ utf8 cps

abbrev pub utf16 : List ℕ → List ℕ
utf16 [] = []
utf16 (cp ∷ cps) = scalar_utf16 cp ++ utf16 cps
