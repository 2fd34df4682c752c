-- ===== src/Statement/Keyset/Savepoints.antt =====
-- A rollback to a savepoint gives the rows of an updatable cursor back.
use psqlodbc_new.Prelude.{
  ℕ, zero, suc, ◌<◌, ◌≡◌, refl, sym, ap, ◌∙◌, ◌⊎◌, inl, inr, Bool, true, false, Option, none, some,
  List, [], ◌∷◌, ◌++◌, map, arith, ltb, leb, ◌==◌, if◌then◌else◌, Bool-cases, Option-cases, length,
  get_elem?, set, Bytes,
}
use psqlodbc_new.Libpq.{Libpq}
use psqlodbc_new.Connection.Handle.{same_text}
use psqlodbc_new.Statement.{KeysetRow, KeysetSavepoint, minus_one, OdbcStatement}
use psqlodbc_new.Statement.Keyset.Overlay.{
  deleted_flag, find_slot, taken_slot, restored_rows, flags_in, slot_at, is_deleted,
  keyset_snapshot_savepoint, keyset_restore_savepoint, statement_row_is_deleted,
}

same_text_refl : (text : Bytes) → same_text text text ≡ true
same_text_refl [] = refl
same_text_refl (c ∷ text) =
    let same : (c == c) ≡ true = ground arith in rw same (same_text_refl text)

-- The slot of a name.
abbrev slot_of : Bytes → List KeysetSavepoint → Option KeysetSavepoint
slot_of name slots = slot_at slots (find_slot name slots)

slot-here :
    (name : Bytes) (slot : KeysetSavepoint) (slots : List KeysetSavepoint)
    → same_text slot.name name ≡ true
    → slot_of name (slot ∷ slots) ≡ some slot
slot-here name slot slots e = rw e refl

slot-skip :
    (name : Bytes) (slot : KeysetSavepoint) (slots : List KeysetSavepoint)
    → same_text slot.name name ≡ false
    → slot_of name (slot ∷ slots) ≡ slot_of name slots
slot-skip name slot slots e = elim (Option-cases (find_slot name slots)) [
  | inl f ↦ rw (e, f) refl
  | inr (i, f) ↦ rw (e, f) refl
]

-- Behind a slot of another name.
find-skip :
    (name : Bytes) (slot : KeysetSavepoint) (slots : List KeysetSavepoint) (i : ℕ)
    → same_text slot.name name ≡ false
    → find_slot name (slot ∷ slots) ≡ some i
    → (j : ℕ) × (find_slot name slots ≡ some j) × (suc j ≡ i)
find-skip name slot slots i e h = elim (Option-cases (find_slot name slots)) [
  | inl f ↦ let clash : none ≡ some i = sym (rw (e, f) refl) ∙ h in cc
  | inr (j, f) ↦ let same : some (suc j) ≡ some i = sym (rw (e, f) refl) ∙ h in (j, f, cc)
]

find-none :
    (name : Bytes) (slot : KeysetSavepoint) (slots : List KeysetSavepoint)
    → find_slot name (slot ∷ slots) ≡ none
    → (same_text slot.name name ≡ false) × (find_slot name slots ≡ none)
find-none name slot slots h = elim (Bool-cases (same_text slot.name name)) [
  | inl e ↦ let clash : some 0 ≡ none = sym (rw e refl) ∙ h in cc
  | inr e ↦ elim (Option-cases (find_slot name slots)) [
    | inl f ↦ (e, f)
    | inr (j, f) ↦
        let found : find_slot name (slot ∷ slots) ≡ some (suc j) = rw (e, f) refl in
        let clash : some (suc j) ≡ none = sym found ∙ h in cc
  ]
]

abbrev snapshot : Bytes → List KeysetRow → KeysetSavepoint
snapshot name rows = record { name = name; deleted_flags = some (map deleted_flag rows) }

slot-set :
    (name : Bytes) (slots : List KeysetSavepoint) (i : ℕ) (rows : List KeysetRow)
    → find_slot name slots ≡ some i
    → slot_of name (set slots i (snapshot name rows)) ≡ some (snapshot name rows)
slot-set name [] i rows e = cc
slot-set name (slot ∷ slots) i rows e = elim (Bool-cases (same_text slot.name name)) [
  | inl h ↦
      let front : some 0 ≡ some i = sym (rw h refl) ∙ e in
      let same : i ≡ 0 = cc in
      rw same (slot-here name (snapshot name rows) slots (same_text_refl name))
  | inr h ↦
      let (j, f, same) = find-skip name slot slots i h e in
      rw (← same)
        (slot-skip name slot (set slots j (snapshot name rows)) h ∙ slot-set name slots j rows f)
]

slot-append :
    (name : Bytes) (slots : List KeysetSavepoint) (rows : List KeysetRow)
    → find_slot name slots ≡ none
    → slot_of name (slots ++ snapshot name rows ∷ []) ≡ some (snapshot name rows)
slot-append name [] rows e = slot-here name (snapshot name rows) [] (same_text_refl name)
slot-append name (slot ∷ slots) rows e =
    let (h, f) = find-none name slot slots e in
    slot-skip name slot (slots ++ snapshot name rows ∷ []) h ∙ slot-append name slots rows f

-- There is a slot for the name, or room for one.
abbrev pub HasRoom : Bytes → List KeysetSavepoint → Type 0
HasRoom name slots = ((i : ℕ) × (find_slot name slots ≡ some i)) ⊎ (length slots < 8)

slot-taken :
    (name : Bytes) (slots : List KeysetSavepoint) (rows : List KeysetRow)
    → HasRoom name slots
    → slot_of name (taken_slot true name rows slots (find_slot name slots))
      ≡ some (snapshot name rows)
slot-taken name slots rows room = elim (Option-cases (find_slot name slots)) [
  | inl e ↦ elim room [
    | inl (i, f) ↦ let clash : none ≡ some i = sym e ∙ f in cc
    | inr l ↦
        let free : leb 8 (length slots) ≡ false = ground arith in
        rw e (rw free (slot-append name slots rows e))
  ]
  | inr (i, e) ↦ rw e (slot-set name slots i rows e)
]

-- Whether a row of these is deleted.
abbrev pub gone : List KeysetRow → ℕ → Bool
gone rows index = is_deleted (get_elem? rows index)

restored_rows-gone :
    (before after : List KeysetRow) (index : ℕ)
    → index < length after
    → gone (restored_rows (map deleted_flag before) after) index
      ≡ (if ltb index (length before) then gone before index else true)
unfolding restored_rows
restored_rows-gone before [] index l = absurd (omega arith)
restored_rows-gone [] (row ∷ after) zero l = refl
restored_rows-gone [] (row ∷ after) (suc index) l =
    let inner : ltb index 0 ≡ false = ground arith in
    let outer : ltb (suc index) 0 ≡ false = ground arith in
    let ih = restored_rows-gone [] after index (omega arith) in rw outer (ih ∙ rw inner refl)
restored_rows-gone (old ∷ before) (row ∷ after) zero l =
    let inside : ltb 0 (suc (length before)) ≡ true = ground arith in rw inside refl
restored_rows-gone (old ∷ before) (row ∷ after) (suc index) l =
    let same : ltb (suc index) (suc (length before)) ≡ ltb index (length before) = ground arith in
    rw same (restored_rows-gone before after index (omega arith))

module _ (lib : Libpq) where
  rows_restored :
      (later : OdbcStatement lib) (name : Bytes) (flags : List Bool) (after : List KeysetRow)
      → later.keyset_rows ≡ some after
      → flags_in (slot_of name later.keyset_savepoints) ≡ some flags
      → (let r = keyset_restore_savepoint lib later name in
          (r.keyset_rows ≡ some (restored_rows flags after)) × (r.current_row_position ≡ minus_one))
  unfolding keyset_restore_savepoint
  rows_restored later name flags after now saved = rw (now, saved) (refl, refl)

  snapshot_taken :
      (cursor : OdbcStatement lib) (name : Bytes) (row : KeysetRow) (rows : List KeysetRow)
      → cursor.keyset_rows ≡ some (row ∷ rows)
      → HasRoom name cursor.keyset_savepoints
      → flags_in (slot_of name (keyset_snapshot_savepoint lib true cursor name).keyset_savepoints)
        ≡ some (map deleted_flag (row ∷ rows))
  unfolding keyset_snapshot_savepoint
  snapshot_taken cursor name row rows e room =
      rw e (ap flags_in (slot-taken name cursor.keyset_savepoints (row ∷ rows) room))

  -- For a cursor with rows, and a name that has a slot or finds room for one, with memory for the
  -- flags. After the savepoint any rows may be deleted, updated or added; the rollback to it then
  -- makes every row that was there deleted exactly if it was at the savepoint, every row added since
  -- deleted, and moves the cursor before the first row.
  pub savepoint_rollback :
      (cursor later : OdbcStatement lib) (name : Bytes) (row : KeysetRow)
      (rows after : List KeysetRow) (index : ℕ)
      → cursor.keyset_rows ≡ some (row ∷ rows)
      → HasRoom name cursor.keyset_savepoints
      → later.keyset_savepoints ≡ (keyset_snapshot_savepoint lib true cursor name).keyset_savepoints
      → later.keyset_rows ≡ some after
      → index < length after
      → (let r = keyset_restore_savepoint lib later name in
          (statement_row_is_deleted lib r index ≡ (
            if ltb index (suc (length rows))
            then statement_row_is_deleted lib cursor index
            else true))
          × (r.current_row_position ≡ minus_one))
  unfolding statement_row_is_deleted
  savepoint_rollback cursor later name row rows after index e room saved now l =
      let slots = ap (λ (v : List KeysetSavepoint). flags_in (slot_of name v)) saved in
      let r =
        rows_restored later name (map deleted_flag (row ∷ rows)) after now
          (slots ∙ snapshot_taken cursor name row rows e room) in
      (rw (r.0, e) (restored_rows-gone (row ∷ rows) after index l), r.1)
