-- ===== src/Connection/Statements/Slots.antt =====
-- The slots are counted, and a statement that is added can be removed.
use psqlodbc_new.Prelude.{
  ℕ, suc, ◌-◌, ◌≤◌, ◌<◌, ◌≡◌, refl, sym, ap, ◌∙◌, inl, inr, Bool, true, false, ◌||◌, Option, none,
  some, List, [], ◌∷◌, arith, ltb, leb, ◌==◌, Bool-cases, length,
}
use psqlodbc_new.Libpq.{Libpq}
use psqlodbc_new.Connection.{OdbcConnection}
use psqlodbc_new.Connection.Statements.{
  behind_slot, fill_slot, empty_slot, with_slots, connection_add_statement,
  connection_remove_statement,
}

-- The slots that hold a statement.
abbrev pub occupied : List (Option ℕ) → ℕ
occupied [] = 0
occupied (none ∷ slots) = occupied slots
occupied (some statement ∷ slots) = suc (occupied slots)

-- Whether a slot holds the statement.
abbrev pub holds : ℕ → List (Option ℕ) → Bool
holds statement [] = false
holds statement (none ∷ slots) = holds statement slots
holds statement (some other ∷ slots) = other == statement || holds statement slots

occupied-le : (slots : List (Option ℕ)) → occupied slots ≤ length slots
occupied-le [] = omega arith
occupied-le (none ∷ slots) = omega (arith, occupied-le slots)
occupied-le (some statement ∷ slots) = omega (arith, occupied-le slots)

-- Where there is room, the slots after the change, with one more statement.
abbrev Filled : ℕ → List (Option ℕ) → Option (List (Option ℕ)) → Type 0
Filled statement slots none = occupied slots ≡ length slots
Filled statement slots (some filled) =
    (occupied filled ≡ suc (occupied slots))
    × (length filled ≡ length slots)
    × (holds statement slots ≡ false → empty_slot statement filled ≡ some slots)

found :
    (statement : ℕ) (slots : List (Option ℕ))
    → empty_slot statement (some statement ∷ slots) ≡ some (none ∷ slots)
unfolding empty_slot
found statement slots = let same : (statement == statement) ≡ true = ground arith in rw same refl

found_behind :
    (statement other : ℕ) (slots filled : List (Option ℕ))
    → (holds statement slots ≡ false → empty_slot statement filled ≡ some slots)
    → holds statement (some other ∷ slots) ≡ false
    → empty_slot statement (some other ∷ filled) ≡ some (some other ∷ slots)
unfolding empty_slot
found_behind statement other slots filled l e = elim (Bool-cases (other == statement)) [
  | inl h ↦ let clash : true ≡ false = sym (rw h refl) ∙ e in cc
  | inr h ↦
      let absent : holds statement slots ≡ false = sym (rw h refl) ∙ e in rw (h, l absent) refl
]

fill_slot-Filled :
    (statement : ℕ) (slots : List (Option ℕ)) → Filled statement slots (fill_slot statement slots)
unfolding fill_slot
fill_slot-Filled statement [] = refl
fill_slot-Filled statement (none ∷ slots) = (refl, refl, λ h. found statement slots)
fill_slot-Filled statement (some other ∷ slots) =
    go (fill_slot statement slots) (fill_slot-Filled statement slots)
  where
    go :
        (m : Option (List (Option ℕ)))
        → Filled statement slots m
        → Filled statement (some other ∷ slots) (behind_slot (some other) m)
    go none h = omega arith
    go (some filled) (h, k, l) =
        (omega arith, omega arith, λ e. found_behind statement other slots filled l e)

-- The slots after a removal, with one statement less, or the statement was in none.
abbrev Emptied : ℕ → List (Option ℕ) → Option (List (Option ℕ)) → Type 0
Emptied statement slots none = holds statement slots ≡ false
Emptied statement slots (some emptied) =
    (suc (occupied emptied) ≡ occupied slots)
    × (length emptied ≡ length slots)
    × (holds statement slots ≡ true)

empty_slot-Emptied :
    (statement : ℕ) (slots : List (Option ℕ)) → Emptied statement slots (empty_slot statement slots)
unfolding empty_slot
empty_slot-Emptied statement [] = refl
empty_slot-Emptied statement (none ∷ slots) =
    go (empty_slot statement slots) (empty_slot-Emptied statement slots)
  where
    go :
        (m : Option (List (Option ℕ)))
        → Emptied statement slots m
        → Emptied statement (none ∷ slots) (behind_slot none m)
    go none h = h
    go (some emptied) (h, k, l) = (h, ap suc k, l)
empty_slot-Emptied statement (some other ∷ slots) = elim (Bool-cases (other == statement)) [
  | inl e ↦ rw e (refl, refl, rw e refl)
  | inr e ↦ rw e (go e (empty_slot statement slots) (empty_slot-Emptied statement slots))
]
  where
    go :
        (other == statement) ≡ false
        → (m : Option (List (Option ℕ))) → Emptied statement slots m
        → Emptied statement (some other ∷ slots) (behind_slot (some other) m)
    go e none h = rw e h
    go e (some emptied) (h, k, l) = (ap suc h, ap suc k, rw e l)

module _ (lib : Libpq) where
  -- The array has its 256 slots, and the count is of those that hold a statement.
  pub record HasCount (k : OdbcConnection lib) : Type 0 where
    pub counts : k.statement_count ≡ occupied k.statements
    pub slots : length k.statements ≡ 256

  -- On a connection whose count is right, adding a statement succeeds exactly where the count is
  -- below 256, and the count is right afterwards; adding NULL does nothing.
  pub add_statement_lem :
      (k : OdbcConnection lib) (statement : ℕ)
      → HasCount k
      → ((connection_add_statement lib k (some statement)).1 ≡ ltb k.statement_count 256)
        × HasCount (connection_add_statement lib k (some statement)).0
        × (connection_add_statement lib k none ≡ (k, false))
  unfolding connection_add_statement
  add_statement_lem k statement h = elim (Bool-cases (leb 256 k.statement_count)) [
    | inl full ↦
        let no : ltb k.statement_count 256 ≡ false = ground arith in rw (full, no) (refl, h, refl)
    | inr room ↦
        let yes : ltb k.statement_count 256 ≡ true = ground arith in
        rw (room, yes)
          (go (fill_slot statement k.statements) (fill_slot-Filled statement k.statements)
            (ground arith))
  ]
    where
      go :
          (m : Option (List (Option ℕ)))
          → Filled statement k.statements m
          → k.statement_count < 256
          → ((with_slots lib k (suc k.statement_count) m).1 ≡ true)
            × HasCount (with_slots lib k (suc k.statement_count) m).0
            × (connection_add_statement lib k none ≡ (k, false))
      go none f l = absurd (omega (arith, h.counts, h.slots))
      go (some filled) (f, g, z) l =
          (refl, record { counts = omega (arith, h.counts); slots = g ∙ h.slots }, refl)

  -- On a connection whose count is right, removing a statement succeeds exactly where a slot holds
  -- it, and the count is right afterwards.
  pub remove_statement_lem :
      (k : OdbcConnection lib) (statement : ℕ)
      → HasCount k
      → ((connection_remove_statement lib k (some statement)).1 ≡ holds statement k.statements)
        × HasCount (connection_remove_statement lib k (some statement)).0
  unfolding connection_remove_statement
  remove_statement_lem k statement h =
      go (empty_slot statement k.statements) (empty_slot-Emptied statement k.statements)
    where
      go :
          (m : Option (List (Option ℕ)))
          → Emptied statement k.statements m
          → ((with_slots lib k (k.statement_count - 1) m).1 ≡ holds statement k.statements)
            × HasCount (with_slots lib k (k.statement_count - 1) m).0
      go none e = (sym e, h)
      go (some emptied) (e, g, z) =
          (sym z, record { counts = omega (arith, h.counts); slots = g ∙ h.slots })

  -- On a connection whose count is right and below 256, a statement that no slot holds is added
  -- and then removed, and the connection is as before.
  pub remove-add_statement :
      (k : OdbcConnection lib) (statement : ℕ)
      → HasCount k
      → k.statement_count < 256
      → holds statement k.statements ≡ false
      → connection_remove_statement lib
          (connection_add_statement lib k (some statement)).0
          (some statement)
        ≡ (k, true)
  unfolding connection_add_statement connection_remove_statement
  remove-add_statement k statement h room absent =
      let below : leb 256 k.statement_count ≡ false = ground arith in
      rw below (go (fill_slot statement k.statements) (fill_slot-Filled statement k.statements))
    where
      go :
          (m : Option (List (Option ℕ)))
          → Filled statement k.statements m
          → (let added = (with_slots lib k (suc k.statement_count) m).0 in
              with_slots lib added
                (added.statement_count - 1)
                (empty_slot statement added.statements))
            ≡ (k, true)
      go none f = absurd (omega (arith, h.counts, h.slots))
      go (some filled) (f, g, z) =
          let count : suc k.statement_count - 1 ≡ k.statement_count = omega arith in
          rw (z absent, count) refl
