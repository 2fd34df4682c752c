-- ===== src/Statement/Keyset/Overlay.antt =====
-- The rows of an updatable cursor over its result, and their snapshots under savepoints:
-- src/statement.c. A PGresult is seen through the number of its columns, its cells and libpq's own
-- functions; a text that is NULL is `none`.
use psqlodbc_new.Prelude.{
  ℕ, zero, suc, ◌-◌, Bool, true, false, ◌&&◌, ◌||◌, Option, none, some, List, [], ◌∷◌, ◌++◌, map,
  leb, ◌==◌, if◌then◌else◌, length, get_elem?, set, take, Bytes,
}
use psqlodbc_new.Prelude.Int.{ℤ, pos}
use psqlodbc_new.Libpq.{Libpq}
use psqlodbc_new.Connection.Handle.{same_text}
use psqlodbc_new.Statement.{KeysetRow, KeysetSavepoint, minus_one, OdbcStatement}
use psqlodbc_new.Statement.Block.{equals_minus_one, has_rows}
use psqlodbc_new.Statement.Keyset.{
  has_text, max_keyset_savepoints, max_keyset_savepoint_name_length, parse_savepoint_command,
}

pub record ResultCells (lib : Libpq) : Type 0 where
  pub nfields : lib.PgResult → ℕ  -- PQnfields
  pub getisnull : lib.PgResult → ℕ → ℕ → Bool  -- PQgetisnull

abbrev pub fresh_rows : ℕ → List KeysetRow
fresh_rows zero = []
fresh_rows (suc n) = record { deleted = false; override_values = none } ∷ fresh_rows n

abbrev pub deleted_flag : KeysetRow → Bool
deleted_flag row = row.deleted

-- `strcmp` of two names is 0.
abbrev pub find_slot : Bytes → List KeysetSavepoint → Option ℕ
find_slot name [] = none
find_slot name (slot ∷ slots) =
    let later : Option ℕ = elim (find_slot name slots) [ none ↦ none | some i ↦ some (suc i) ] in
    if same_text slot.name name then some 0 else later

-- The slot after the call, and the number of slots: a failed allocation counts one slot less. The
-- cut of the name to 63 bytes is not in the model: the one caller's buffer holds no longer name.
abbrev pub taken_slot :
    Bool → Bytes → List KeysetRow → List KeysetSavepoint → Option ℕ → List KeysetSavepoint
taken_slot true name rows slots (some i) =
    set slots i (record { name = name; deleted_flags = some (map deleted_flag rows) })
taken_slot false name rows slots (some i) =
    take (length slots - 1) (set slots i (record { name = name; deleted_flags = none }))
taken_slot allocated name rows slots none =
    if leb max_keyset_savepoints (length slots)
    then slots
    else if allocated
    then slots ++ record { name = name; deleted_flags = some (map deleted_flag rows) } ∷ []
    else slots

-- Each row with its flag; a row behind the flags was added later and is gone.
unfoldable pub restored_rows : List Bool → List KeysetRow → List KeysetRow
restored_rows flags [] = []
restored_rows [] (row ∷ rows) = record row { deleted = true } ∷ restored_rows [] rows
restored_rows (flag ∷ flags) (row ∷ rows) = record row { deleted = flag } ∷ restored_rows flags rows

abbrev pub flags_in : Option KeysetSavepoint → Option (List Bool)
flags_in none = none
flags_in (some slot) = slot.deleted_flags

abbrev pub slot_at : List KeysetSavepoint → Option ℕ → Option KeysetSavepoint
slot_at slots none = none
slot_at slots (some i) = get_elem? slots i

abbrev pub overlaid : Option (List KeysetRow) → ℕ → Option KeysetRow
overlaid none row_index = none
overlaid (some rows) row_index = get_elem? rows row_index

abbrev pub cell_of : List (Option Bytes) → ℕ → Option Bytes
cell_of [] column_index = none
cell_of (value ∷ values) zero = value
cell_of (value ∷ values) (suc column_index) = cell_of values column_index

abbrev pub overriding : Option KeysetRow → Option (List (Option Bytes))
overriding none = none
overriding (some row) = row.override_values

abbrev pub is_deleted : Option KeysetRow → Bool
is_deleted none = false
is_deleted (some row) = row.deleted

module _ (lib : Libpq) where
  abbrev pub snapshot_rows :
      Bool → Bytes → OdbcStatement lib → Option (List KeysetRow) → OdbcStatement lib
  snapshot_rows allocated name cursor none = cursor
  snapshot_rows allocated name cursor (some []) = cursor
  snapshot_rows allocated name cursor (some (row ∷ rows)) = record cursor {
    keyset_savepoints =
        taken_slot allocated name (row ∷ rows) cursor.keyset_savepoints
          (find_slot name cursor.keyset_savepoints);
  }

  -- `allocated` is whether the flags get their memory.
  unfoldable pub keyset_snapshot_savepoint : Bool → OdbcStatement lib → Bytes → OdbcStatement lib
  keyset_snapshot_savepoint allocated cursor name =
      snapshot_rows allocated name cursor cursor.keyset_rows

  abbrev pub restore_rows :
      OdbcStatement lib → Option (List KeysetRow) → Option (List Bool) → OdbcStatement lib
  restore_rows cursor none flags = cursor
  restore_rows cursor (some rows) none = cursor
  restore_rows cursor (some rows) (some flags) = record cursor {
    keyset_rows = some (restored_rows flags rows);
    current_row_position = minus_one;
    keyset_rowset_first_row = minus_one;
    keyset_rowset_size = 0;
  }

  unfoldable pub keyset_restore_savepoint : OdbcStatement lib → Bytes → OdbcStatement lib
  unfolding restored_rows
  keyset_restore_savepoint cursor name =
      let slots = cursor.keyset_savepoints in
      restore_rows cursor cursor.keyset_rows (flags_in (slot_at slots (find_slot name slots)))

  abbrev pub follow_command : Bool → Option (Bytes × Bool) → OdbcStatement lib → OdbcStatement lib
  follow_command allocated none cursor = cursor
  follow_command allocated (some (name, true)) cursor =
      if cursor.is_updatable_cursor && has_rows cursor.keyset_rows
      then keyset_restore_savepoint cursor name
      else cursor
  follow_command allocated (some (name, false)) cursor =
      if cursor.is_updatable_cursor && has_rows cursor.keyset_rows
      then keyset_snapshot_savepoint allocated cursor name
      else cursor

  -- The statements of the connection's slots; an empty slot is not in the list.
  unfoldable pub keyset_intercept_savepoint_command :
      Bool → List (OdbcStatement lib) → Bytes → List (OdbcStatement lib)
  unfolding parse_savepoint_command keyset_restore_savepoint keyset_snapshot_savepoint
  keyset_intercept_savepoint_command allocated statements sql =
      map (follow_command allocated (parse_savepoint_command sql max_keyset_savepoint_name_length))
        statements

  abbrev pub overlay_of :
      Bool → ResultCells lib → OdbcStatement lib → Option lib.PgResult → OdbcStatement lib
  overlay_of allocated cells s none = s
  overlay_of allocated cells s (some result) =
      if cells.nfields result == 0
      then s
      else if allocated
      then record s {
        hidden_ctid_column_index = pos (cells.nfields result - 1);
        keyset_rows = some (fresh_rows (lib.ntuples result));
      }
      else record s { hidden_ctid_column_index = minus_one; keyset_rows = none }

  unfoldable pub finalize_keyset_after_execute :
      Bool → ResultCells lib → OdbcStatement lib → OdbcStatement lib
  finalize_keyset_after_execute allocated cells s =
      if s.is_updatable_cursor && has_text s.keyset_table_name
      then overlay_of allocated cells s s.current_result
      else s

  abbrev pub public_columns : ResultCells lib → ℤ → Option lib.PgResult → ℕ
  public_columns cells hidden none = 0
  public_columns cells hidden (some result) =
      if equals_minus_one hidden then cells.nfields result else cells.nfields result - 1

  unfoldable pub statement_public_column_count : ResultCells lib → OdbcStatement lib → ℕ
  statement_public_column_count cells s =
      public_columns cells s.hidden_ctid_column_index s.current_result

  abbrev pub value_in_result : ResultCells lib → lib.PgResult → ℕ → ℕ → Option Bytes
  value_in_result cells result row_index column_index =
      if leb (lib.ntuples result) row_index || cells.getisnull result row_index column_index
      then none
      else some (lib.getvalue result row_index column_index)

  abbrev pub value_over :
      ResultCells lib → lib.PgResult → ℕ → ℕ → Option (List (Option Bytes)) → Option Bytes
  value_over cells result row_index column_index none =
      value_in_result cells result row_index column_index
  value_over cells result row_index column_index (some values) = cell_of values column_index

  -- The value that a row shows in a column, for a cursor that has a result.
  unfoldable pub statement_row_value :
      ResultCells lib → OdbcStatement lib → lib.PgResult → ℕ → ℕ → Option Bytes
  statement_row_value cells s result row_index column_index =
      value_over cells result row_index column_index (overriding (overlaid s.keyset_rows row_index))

  unfoldable pub statement_row_is_deleted : OdbcStatement lib → ℕ → Bool
  statement_row_is_deleted s row_index = is_deleted (overlaid s.keyset_rows row_index)
