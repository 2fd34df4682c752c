-- ===== src/Statement/Block/Scan.antt =====
-- The rows that the scans over the keyset collect are the live ones, as many as there is room for.
use psqlodbc_new.Prelude.{
  ℕ, zero, suc, ◌≡◌, refl, ap, inl, inr, Bool, true, false, List, [], ◌∷◌, if◌then◌else◌,
  Bool-cases, take,
}
use psqlodbc_new.Statement.{KeysetRow}
use psqlodbc_new.Statement.Block.{collect_forward, is_live, collect_backward}

-- The live rows in ascending order, the first row having this index.
abbrev pub live_from : ℕ → List KeysetRow → List ℕ
live_from index [] = []
live_from index (row ∷ rows) =
    if row.deleted then live_from (suc index) rows else index ∷ live_from (suc index) rows

-- Whether there is a row of this index that is not deleted.
abbrev pub live_at : List KeysetRow → ℕ → Bool
live_at [] index = false
live_at (row ∷ rows) zero = if row.deleted then false else true
live_at (row ∷ rows) (suc index) = live_at rows index

is_live-live_at : (rows : List KeysetRow) (index : ℕ) → is_live rows index ≡ live_at rows index
is_live-live_at [] index = refl
is_live-live_at (row ∷ rows) zero = elim (Bool-cases row.deleted) [
  | inl e ↦ rw e refl
  | inr e ↦ rw e refl
]
is_live-live_at (row ∷ rows) (suc index) = is_live-live_at rows index

-- The live rows before an index, in descending order.
abbrev pub live_before : ℕ → List KeysetRow → List ℕ
live_before zero rows = []
live_before (suc index) rows =
    if live_at rows index then index ∷ live_before index rows else live_before index rows

pub collect_forward-live :
    (room index : ℕ) (rows : List KeysetRow)
    → collect_forward room index rows ≡ take room (live_from index rows)
unfolding collect_forward
collect_forward-live zero index rows = refl
collect_forward-live (suc room) index [] = refl
collect_forward-live (suc room) index (row ∷ rows) = elim (Bool-cases row.deleted) [
  | inl e ↦ rw e (collect_forward-live (suc room) (suc index) rows)
  | inr e ↦ rw e (ap (λ (r : List ℕ). index ∷ r) (collect_forward-live room (suc index) rows))
]

pub collect_backward-live :
    (room end : ℕ) (rows : List KeysetRow)
    → collect_backward room end rows ≡ take room (live_before end rows)
unfolding collect_backward
collect_backward-live zero end rows = refl
collect_backward-live (suc room) zero rows = refl
collect_backward-live (suc room) (suc index) rows = elim (Bool-cases (live_at rows index)) [
  | inl e ↦
      rw (is_live-live_at rows index, e)
        (ap (λ (r : List ℕ). index ∷ r) (collect_backward-live room index rows))
  | inr e ↦ rw (is_live-live_at rows index, e) (collect_backward-live (suc room) index rows)
]
