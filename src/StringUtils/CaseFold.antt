-- ===== src/StringUtils/CaseFold.antt =====
-- The comparison agrees with equality of the texts with their ASCII letters folded.
use psqlodbc_new.Prelude.{ℕ, ◌≡◌, refl, ◌↔◌, true, [], ◌∷◌, map, arith, ◌==◌, Bytes, c_str}
use psqlodbc_new.StringUtils.{pg_ascii_tolower, pg_ascii_case_equal}

-- Folding moves only the letters, and never makes or loses a NUL.
pub tolower-zero : (c : ℕ) → (pg_ascii_tolower c == 0) ≡ (c == 0)
unfolding pg_ascii_tolower
tolower-zero c = ground arith

pub tolower-tolower : (c : ℕ) → pg_ascii_tolower (pg_ascii_tolower c) ≡ pg_ascii_tolower c
unfolding pg_ascii_tolower
tolower-tolower c = ground arith

abbrev pub folded : Bytes → Bytes
folded s = map pg_ascii_tolower (c_str s)

-- Two C strings compare equal exactly when they are the same after ASCII case folding.
pub case_equal_iff : (l r : Bytes) → (pg_ascii_case_equal l r ≡ true) ↔ (folded l ≡ folded r)
unfolding pg_ascii_case_equal
case_equal_iff [] [] = (λ _. refl, λ _. refl)
case_equal_iff [] (b ∷ r) = ground (arith, tolower-zero b)
case_equal_iff (a ∷ l) [] = ground (arith, tolower-zero a)
case_equal_iff (a ∷ l) (b ∷ r) = ground (arith, case_equal_iff l r, tolower-zero b, tolower-zero a)
