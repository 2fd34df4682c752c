-- ===== src/QueryParser/Split/Trim.antt =====
-- What trimming leaves of a fragment.
use psqlodbc_new.Prelude.{ℕ, ◌≡◌, ◌≢◌, inl, inr, false, [], ◌∷◌, Bool-cases, Bytes}
use psqlodbc_new.QueryParser.{is_space}
use psqlodbc_new.QueryParser.Split.{trim_start, trim_before, trim_end, trim}

abbrev pub Starts : Bytes → Type 0
Starts [] = Unit
Starts (c ∷ cs) = is_space c ≡ false

abbrev pub Ends : Bytes → Type 0
Ends [] = Unit
Ends (c ∷ []) = is_space c ≡ false
Ends (c ∷ d ∷ cs) = Ends (d ∷ cs)

trim_start-Starts : (s : Bytes) → Starts (trim_start s)
unfolding trim_start
trim_start-Starts [] = tt
trim_start-Starts (c ∷ s) = elim (Bool-cases (is_space c)) [
  | inl space ↦ rw space (trim_start-Starts s)
  | inr other ↦ rw other other
]

trim_before-Ends : (c : ℕ) (s : Bytes) → Ends s → Ends (trim_before c s)
trim_before-Ends c [] h = elim (Bool-cases (is_space c)) [
  | inl space ↦ rw space tt
  | inr other ↦ rw other other
]
trim_before-Ends c (d ∷ s) h = h

trim_end-Ends : (s : Bytes) → Ends (trim_end s)
unfolding trim_end
trim_end-Ends [] = tt
trim_end-Ends (c ∷ s) = trim_before-Ends c (trim_end s) (trim_end-Ends s)

trim_before-Starts : (c : ℕ) (s : Bytes) → is_space c ≡ false → Starts (trim_before c s)
trim_before-Starts c [] h = rw h h
trim_before-Starts c (d ∷ s) h = h

trim_end-Starts : (s : Bytes) → Starts s → Starts (trim_end s)
unfolding trim_end
trim_end-Starts [] h = tt
trim_end-Starts (c ∷ s) h = trim_before-Starts c (trim_end s) h

-- A statement's text: not empty, and with no white space at its ends.
abbrev pub IsTrimmed : Bytes → Type 0
IsTrimmed s = (s ≢ []) × Starts s × Ends s

pub trim_shape : (s : Bytes) → Starts (trim s) × Ends (trim s)
trim_shape s = (trim_end-Starts _ (trim_start-Starts s), trim_end-Ends (trim_start s))
