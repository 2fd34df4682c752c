-- ===== src/Statement/Fetch.antt =====
-- The movements of the cursor forward: `populate_bound_rowset` and `results_fetch` of src/results.c.
-- The copy of a row is a parameter. An `int` or SQLLEN that is computed from positions and offsets is
-- taken to fit.
pub mod Delivered
pub mod Rows
pub mod ToEnd
use psqlodbc_new.Prelude.{
  ℕ, ◌+◌, ◌-◌, Bool, false, not, Option, none, some, ltb, leb, ◌==◌, if◌then◌else◌,
}
use mathlib.Core.List.{reverse}
use psqlodbc_new.Prelude.Int.{ℤ, pos, negsuc, pos_part, neg_part, sub_ℕ, ltb_ℤ, ◌+ℤ◌}
use psqlodbc_new.ColumnBinding.{max_bound_columns, succ_ℤ, pred_ℤ}
use psqlodbc_new.Diagnostics.{diagnostics_add_record}
use psqlodbc_new.Environment.{SqlReturn, sql_success, sql_success_with_info, sql_error, sql_no_data}
use psqlodbc_new.Libpq.{Libpq}
use psqlodbc_new.LargeObject.{LargeObjectCalls}
use psqlodbc_new.Statement.{
  RowStatus, row_success, row_no_row, KeysetRow, minus_one, cursor_forward_only, bookmarks_off,
  OdbcStatement, statement_resolve_int4_bookmark,
}
use psqlodbc_new.Statement.Cursor.{
  Copied, is_with_info, info_if, row_status_of, put, put_at, put_no_rows,
  statement_reset_large_object_read, populate_bound_columns_row, populate_bound_columns, Rowset,
  rowset_loop,
}
use psqlodbc_new.Statement.Block.{
  FetchOrientation, FetchOutput, block_of, collect_backward, collect_forward, collected,
  copy_elements, counted, deliver, end_block, equals_minus_one, fetch_absolute, fetch_bookmark,
  fetch_first, fetch_last, fetch_next, fetch_prior, fetch_relative, has_rows, is_live,
  keyset_block_fetch, keyset_block_fetch_active, last_or, next_index, no_live_rows, no_output,
  other_orientation, prior_index, rows_down_from, rows_from,
}

module _ (lib : Libpq) (copy : OdbcStatement lib → ℕ → ℕ → Copied lib) where
  -- The cursor is left on the last row that was copied.
  abbrev pub at_last_copied : ℕ → Rowset lib copy → OdbcStatement lib
  at_last_copied first_row r =
      if r.rows_copied == 0
      then r.statement
      else record (r.statement) { current_row_position = pos (first_row + r.rows_copied - 1) }

  abbrev pub end_rowset : ℕ → ℕ → Rowset lib copy → SqlReturn × OdbcStatement lib
  end_rowset rowset_size first_row r = (
    info_if r.with_info,
    at_last_copied first_row (record r {
      statement = record (r.statement) {
        row_status = put_no_rows (rowset_size - r.rows_copied) r.rows_copied r.statement.row_status;
        rows_fetched = put r.statement.rows_fetched r.rows_copied;
      };
    }),
  )

  unfoldable pub populate_bound_rowset : ℕ → OdbcStatement lib → ℕ → SqlReturn × OdbcStatement lib
  unfolding rowset_loop put_no_rows
  populate_bound_rowset total_rows s first_row =
      let rowset_size = if ltb 0 s.row_array_size then s.row_array_size else 1 in
      end_rowset rowset_size first_row (
        rowset_loop lib copy rowset_size total_rows first_row
          (record { statement = s; with_info = false; rows_copied = 0 }))

  abbrev pub fetch_row : Bool → OdbcStatement lib → ℕ → SqlReturn × OdbcStatement lib
  fetch_row allocated s row =
      populate_bound_columns lib copy allocated
        (record s {
          rows_fetched = put s.rows_fetched 1;
          row_status = put_at s.row_status 0 row_success;
        })
        row

  -- The cursor is on the row of this number, or past the last one.
  abbrev pub fetch_at : Bool → ℕ → OdbcStatement lib → ℤ → SqlReturn × OdbcStatement lib
  fetch_at allocated total_rows s (negsuc n) = fetch_row allocated s 0
  fetch_at allocated total_rows s (pos row) =
      if leb total_rows row
      then (sql_no_data, record s { rows_fetched = put s.rows_fetched 0 })
      else if ltb 1 s.row_array_size
      then populate_bound_rowset total_rows s row
      else fetch_row allocated s row

  abbrev pub fetch_result :
      Bool
      → LargeObjectCalls lib
      → OdbcStatement lib
      → Option lib.PgResult
      → SqlReturn × OdbcStatement lib
  fetch_result allocated calls s none = (sql_no_data, s)
  fetch_result allocated calls s (some result) =
      if not s.has_result_set
      then (sql_no_data, s)
      else if keyset_block_fetch_active lib s
      then (let r = block_of lib copy allocated s fetch_next no_output s.keyset_rows in (r.0, r.1))
      else let moved = succ_ℤ s.current_row_position in
        fetch_at allocated (lib.ntuples result)
          (record (statement_reset_large_object_read lib calls s) { current_row_position = moved })
          moved

  -- From the positions that the cursor can have, -1 and up.
  unfoldable pub results_fetch :
      Bool → LargeObjectCalls lib → OdbcStatement lib → SqlReturn × OdbcStatement lib
  unfolding keyset_block_fetch_active keyset_block_fetch statement_reset_large_object_read
      populate_bound_rowset populate_bound_columns
  results_fetch allocated calls s = fetch_result allocated calls s s.current_result
