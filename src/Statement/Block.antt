-- ===== src/Statement/Block.antt =====
-- The block cursor of an updatable statement: `keyset_block_fetch` of src/results.c. The copy of a
-- row is a parameter.
pub mod Scan
pub mod Live
use psqlodbc_new.Prelude.{
  ℕ, zero, suc, ◌-◌, min, Bool, true, false, not, ◌&&◌, ◌||◌, Option, none, some, List, [], ◌∷◌,
  ltb, ◌==◌, if◌then◌else◌, length, drop, codes,
}
use mathlib.Core.List.{reverse}
use psqlodbc_new.Prelude.Int.{ℤ, pos, negsuc, pos_part, neg_part, sub_ℕ, ltb_ℤ, ◌+ℤ◌}
use psqlodbc_new.ColumnBinding.{max_bound_columns, succ_ℤ, pred_ℤ}
use psqlodbc_new.Diagnostics.{diagnostics_add_record}
use psqlodbc_new.Environment.{SqlReturn, sql_success, sql_success_with_info, sql_error, sql_no_data}
use psqlodbc_new.Libpq.{Libpq}
use psqlodbc_new.LargeObject.{LargeObjectCalls}
use psqlodbc_new.Statement.{
  RowStatus, row_success, row_no_row, KeysetRow, minus_one, cursor_forward_only, bookmarks_off,
  OdbcStatement, statement_resolve_int4_bookmark,
}
use psqlodbc_new.Statement.Cursor.{
  Copied, is_with_info, info_if, row_status_of, put, put_at, put_no_rows,
  statement_reset_large_object_read, populate_bound_columns_row, populate_bound_columns, Rowset,
  rowset_loop,
}

pub data FetchOrientation : Type 0 where
  fetch_next fetch_prior fetch_first fetch_last : FetchOrientation
  fetch_absolute fetch_relative fetch_bookmark other_orientation : FetchOrientation

-- What the caller's own pointers to a count and to an array of statuses show.
pub record FetchOutput : Type 0 where
  pub fetched_row_count : Option ℕ
  pub row_status_array : Option (List RowStatus)

abbrev pub no_output : FetchOutput
no_output = record { fetched_row_count = none; row_status_array = none }

-- The rows of the scan that are not deleted, as many as there is room for: forward from an index,
-- and backward from the row before one.
unfoldable pub collect_forward : ℕ → ℕ → List KeysetRow → List ℕ
collect_forward zero index rows = []
collect_forward (suc room) index [] = []
collect_forward (suc room) index (row ∷ rows) =
    if row.deleted
    then collect_forward (suc room) (suc index) rows
    else index ∷ collect_forward room (suc index) rows

abbrev pub is_live : List KeysetRow → ℕ → Bool
is_live [] index = false
is_live (row ∷ rows) zero = not row.deleted
is_live (row ∷ rows) (suc index) = is_live rows index

unfoldable pub collect_backward : ℕ → ℕ → List KeysetRow → List ℕ
collect_backward zero end rows = []
collect_backward (suc room) zero rows = []
collect_backward (suc room) (suc index) rows =
    if is_live rows index
    then index ∷ collect_backward room index rows
    else collect_backward (suc room) index rows

-- The index of a scan, as long as it is inside the rows.
abbrev pub rows_from : ℕ → ℤ → List KeysetRow → List ℕ
rows_from room (negsuc n) rows = []
rows_from room (pos index) rows = collect_forward room index (drop index rows)

abbrev pub rows_down_from : ℕ → ℤ → List KeysetRow → List ℕ
rows_down_from room (negsuc n) rows = []
rows_down_from room (pos index) rows =
    if ltb index (length rows) then collect_backward room (suc index) rows else []

abbrev pub last_or : ℕ → List ℕ → ℕ
last_or row [] = row
last_or row (next ∷ rows) = last_or next rows

abbrev pub has_rows : Option (List KeysetRow) → Bool
has_rows none = false
has_rows (some rows) = true

abbrev pub equals_minus_one : ℤ → Bool
equals_minus_one (pos n) = false
equals_minus_one (negsuc n) = n == 0

abbrev pub next_index : ℤ → ℤ
next_index (pos position) = pos (suc position)
next_index (negsuc n) = pos 0

module _ (lib : Libpq) where
  unfoldable pub keyset_block_fetch_active : OdbcStatement lib → Bool
  keyset_block_fetch_active s =
      s.is_updatable_cursor
      && has_rows s.keyset_rows
      && not (equals_minus_one s.hidden_ctid_column_index)
      && ltb 1 s.row_array_size

  -- Before the rowset's first row, or from the end where there is none or the cursor is past it.
  abbrev pub prior_index : OdbcStatement lib → ℕ → ℤ
  prior_index s total_rows =
      if ltb_ℤ s.keyset_rowset_first_row (pos 0)
        || not (ltb_ℤ s.current_row_position (pos total_rows))
      then sub_ℕ total_rows 1
      else pred_ℤ s.keyset_rowset_first_row

  -- The rows in ascending order, and whether the scan goes backward; `none` is an orientation that
  -- the block cursor does not have.
  abbrev pub collected :
      FetchOrientation → OdbcStatement lib → ℕ → List KeysetRow → Option (Bool × List ℕ)
  collected fetch_first s room rows = some (false, rows_from room (pos 0) rows)
  collected fetch_next s room rows =
      some (false, rows_from room (next_index s.current_row_position) rows)
  collected fetch_last s room rows =
      some (true, reverse (rows_down_from room (sub_ℕ (length rows) 1) rows))
  collected fetch_prior s room rows =
      some (true, reverse (rows_down_from room (prior_index s (length rows)) rows))
  collected other s room rows = none

  abbrev pub no_live_rows : Bool → ℕ → OdbcStatement lib → OdbcStatement lib
  no_live_rows true total_rows s = record s {
    current_row_position = minus_one;
    keyset_rowset_first_row = minus_one;
    keyset_rowset_size = 0;
  }
  no_live_rows false total_rows s = record s {
    current_row_position = pos total_rows;
    keyset_rowset_size = 0;
  }

module _ (lib : Libpq) (copy : OdbcStatement lib → ℕ → ℕ → Copied lib) where
  -- The result, with the count of the rows for both of its receivers.
  abbrev pub counted :
      SqlReturn → ℕ → OdbcStatement lib → FetchOutput → SqlReturn × OdbcStatement lib × FetchOutput
  counted result count s out = (
    result,
    record s { rows_fetched = put s.rows_fetched count },
    record out { fetched_row_count = put out.fetched_row_count count },
  )

  -- Each row goes into its element.
  unfoldable pub copy_elements :
      ℕ → List ℕ → Bool × OdbcStatement lib × FetchOutput → Bool × OdbcStatement lib × FetchOutput
  unfolding populate_bound_columns_row
  copy_elements element [] r = r
  copy_elements element (row ∷ rows) (with_info, s, out) =
      let row_result = populate_bound_columns_row lib copy s row element in
      copy_elements (suc element) rows (
        with_info || is_with_info row_result.0,
        record (row_result.1) { row_status = put_at row_result.1.row_status element row_success },
        record out { row_status_array = put_at out.row_status_array element row_success },
      )

  abbrev pub end_block :
      ℕ
      → List ℕ
      → Bool × OdbcStatement lib × FetchOutput
      → SqlReturn × OdbcStatement lib × FetchOutput
  end_block first rows (with_info, s, out) =
      let count = suc (length rows) in
      counted (info_if with_info) count
        (record s {
          row_status = put_no_rows (s.row_array_size - count) count s.row_status;
          keyset_rowset_first_row = pos first;
          keyset_rowset_size = count;
          current_row_position = pos (last_or first rows);
        })
        out

  abbrev pub deliver :
      Bool
      → OdbcStatement lib
      → FetchOutput
      → ℕ
      → Option (Bool × List ℕ)
      → SqlReturn × OdbcStatement lib × FetchOutput
  deliver allocated s out total_rows none = (
    sql_error,
    record s {
      diagnostics =
          (diagnostics_add_record allocated s.diagnostics (some (codes "HY106")) (pos 0)
            (some (codes "Unsupported fetch orientation for keyset cursor."))).0;
    },
    out,
  )
  deliver allocated s out total_rows (some (backward, [])) =
      counted sql_no_data 0 (no_live_rows lib backward total_rows s) out
  deliver allocated s out total_rows (some (backward, first ∷ rows)) =
      end_block first rows (copy_elements 0 (first ∷ rows) (false, s, out))

  -- At most 256 rows are collected.
  unfoldable pub keyset_block_fetch :
      Bool
      → OdbcStatement lib
      → List KeysetRow
      → FetchOrientation
      → FetchOutput
      → SqlReturn × OdbcStatement lib × FetchOutput
  unfolding copy_elements collect_forward collect_backward put_no_rows diagnostics_add_record
  keyset_block_fetch allocated s rows orientation out =
      deliver allocated s out (length rows)
        (collected lib orientation s (min s.row_array_size max_bound_columns) rows)

  abbrev pub block_of :
      Bool
      → OdbcStatement lib
      → FetchOrientation
      → FetchOutput
      → Option (List KeysetRow)
      → SqlReturn × OdbcStatement lib × FetchOutput
  block_of allocated s orientation out none = (sql_no_data, s, out)
  block_of allocated s orientation out (some rows) =
      keyset_block_fetch allocated s rows orientation out
