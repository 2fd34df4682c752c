-- ===== src/Connection/Statements.antt =====
-- The slots of a connection's statements: `connection_add_statement` and
-- `connection_remove_statement` of src/connection.c, for a handle that is not NULL.
pub mod Slots
use psqlodbc_new.Prelude.{
  ℕ, suc, ◌-◌, Bool, true, false, not, Option, none, some, List, [], ◌∷◌, leb, ◌==◌, if◌then◌else◌,
}
use psqlodbc_new.Libpq.{Libpq}
use psqlodbc_new.Connection.{OdbcConnection, max_statements_per_connection}

abbrev pub behind_slot : Option ℕ → Option (List (Option ℕ)) → Option (List (Option ℕ))
behind_slot slot none = none
behind_slot slot (some slots) = some (slot ∷ slots)

-- The first empty slot is taken.
unfoldable pub fill_slot : ℕ → List (Option ℕ) → Option (List (Option ℕ))
fill_slot statement [] = none
fill_slot statement (none ∷ slots) = some (some statement ∷ slots)
fill_slot statement (some other ∷ slots) = behind_slot (some other) (fill_slot statement slots)

-- The first slot with the statement is emptied.
unfoldable pub empty_slot : ℕ → List (Option ℕ) → Option (List (Option ℕ))
empty_slot statement [] = none
empty_slot statement (none ∷ slots) = behind_slot none (empty_slot statement slots)
empty_slot statement (some other ∷ slots) =
    let later = behind_slot (some other) (empty_slot statement slots) in
    if other == statement then some (none ∷ slots) else later

module _ (lib : Libpq) where
  abbrev pub with_slots :
      OdbcConnection lib → ℕ → Option (List (Option ℕ)) → OdbcConnection lib × Bool
  with_slots connection count none = (connection, false)
  with_slots connection count (some slots) =
      (record connection { statements = slots; statement_count = count }, true)

  unfoldable pub connection_add_statement :
      OdbcConnection lib → Option ℕ → OdbcConnection lib × Bool
  unfolding fill_slot
  connection_add_statement connection none = (connection, false)
  connection_add_statement connection (some statement) =
      if leb max_statements_per_connection connection.statement_count
      then (connection, false)
      else with_slots connection (suc connection.statement_count)
          (fill_slot statement connection.statements)

  unfoldable pub connection_remove_statement :
      OdbcConnection lib → Option ℕ → OdbcConnection lib × Bool
  unfolding empty_slot
  connection_remove_statement connection none = (connection, false)
  connection_remove_statement connection (some statement) =
      with_slots connection (connection.statement_count - 1)
        (empty_slot statement connection.statements)
