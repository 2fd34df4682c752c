-- ===== src/Statement/Cursor.antt =====
-- The parts of a fetch: the rows that are copied, their status, the bookmark, and the scan over the
-- rows of an updatable cursor. From src/results.c, and `statement_reset_large_object_read` of
-- src/statement.c.
use psqlodbc_new.Prelude.{
  ℕ, zero, suc, ◌+◌, Bool, true, false, not, ◌&&◌, ◌||◌, Option, none, some, List, [], ◌∷◌, ◌++◌,
  leb, ◌==◌, if◌then◌else◌, set, codes,
}
use psqlodbc_new.Prelude.Int.{ℤ, pos, negsuc, ltb_ℤ}
use psqlodbc_new.Diagnostics.{DiagnosticRecords, diagnostics_add_record}
use psqlodbc_new.Environment.{SqlReturn, sql_success, sql_success_with_info}
use psqlodbc_new.Libpq.{Libpq}
use psqlodbc_new.Connection.{OdbcConnection}
use psqlodbc_new.Connection.Transaction.{at_link}
use psqlodbc_new.LargeObject.{LargeObjectCalls, large_object_close}
use psqlodbc_new.Statement.{
  RowStatus, row_success, row_success_with_info, row_no_row, LargeObjectRead, minus_one,
  bookmarks_off, OdbcStatement, statement_make_int4_bookmark,
}

-- What the copy of one row into the bound buffers comes to: the conversion of its values is not
-- part of the model.
pub record Copied (lib : Libpq) : Type 0 where
  pub is_truncated : Bool
  pub copy_diagnostics : DiagnosticRecords
  pub copy_read : LargeObjectRead
  pub copy_connection : Option (OdbcConnection lib)

abbrev pub is_with_info : SqlReturn → Bool
is_with_info sql_success_with_info = true
is_with_info _ = false

abbrev pub info_if : Bool → SqlReturn
info_if with_info = if with_info then sql_success_with_info else sql_success

abbrev pub row_status_of : Bool → RowStatus
row_status_of with_info = if with_info then row_success_with_info else row_success

-- A write through a pointer that may be NULL.
abbrev pub put {ℓ} : {A : Type ℓ} → Option A → A → Option A
put none value = none
put (some old) value = some value

abbrev pub put_at {ℓ} : {A : Type ℓ} → Option (List A) → ℕ → A → Option (List A)
put_at none index value = none
put_at (some array) index value = some (set array index value)

-- SQL_ROW_NOROW for so many elements.
unfoldable pub put_no_rows : ℕ → ℕ → Option (List RowStatus) → Option (List RowStatus)
put_no_rows zero element status = status
put_no_rows (suc n) element status = put_no_rows n (suc element) (put_at status element row_no_row)

module _ (lib : Libpq) where
  abbrev pub closed_read : LargeObjectRead
  closed_read = record {
    read_fd = minus_one;
    read_column = minus_one;
    read_row = minus_one;
    bytes_remaining = minus_one;
  }

  abbrev pub close_read_at :
      LargeObjectCalls lib → ℤ → OdbcConnection lib → Option lib.PgConn → OdbcConnection lib
  close_read_at calls fd k none = k
  close_read_at calls fd k (some link) = at_link lib k (large_object_close lib calls link fd).0

  abbrev pub close_read :
      LargeObjectCalls lib → ℤ → Option (OdbcConnection lib) → Option (OdbcConnection lib)
  close_read calls (negsuc n) k = k
  close_read calls (pos fd) none = none
  close_read calls (pos fd) (some k) = some (close_read_at calls (pos fd) k k.libpq_connection)

  unfoldable pub statement_reset_large_object_read :
      LargeObjectCalls lib → OdbcStatement lib → OdbcStatement lib
  unfolding large_object_close
  statement_reset_large_object_read calls s = record s {
    parent_connection = close_read calls s.object_read.read_fd s.parent_connection;
    object_read = closed_read;
  }

  abbrev pub is_zero_count : ℤ → Bool
  is_zero_count (pos n) = n == 0
  is_zero_count (negsuc n) = false

  abbrev pub with_copied : OdbcStatement lib → ℕ → ℕ → Copied lib → SqlReturn × OdbcStatement lib
  with_copied s source_row rowset_offset c = (
    info_if c.is_truncated,
    record s {
      diagnostics = c.copy_diagnostics;
      object_read = c.copy_read;
      parent_connection = c.copy_connection;
      copied_rows = s.copied_rows ++ (source_row, rowset_offset) ∷ [];
    },
  )

  -- Without a buffer there is nothing to truncate.
  abbrev pub truncated_bookmark : Bool → Option ℤ → DiagnosticRecords → DiagnosticRecords
  truncated_bookmark allocated none d = d
  truncated_bookmark allocated (some value) d =
      (diagnostics_add_record allocated d (some (codes "01004")) (pos 0)
        (some (codes "Bookmark buffer too small to receive the bookmark value."))).0

  -- `allocated` is whether the copy of the diagnostic's text gets its memory.
  unfoldable pub write_row_bookmark : Bool → OdbcStatement lib → ℤ → OdbcStatement lib
  unfolding statement_make_int4_bookmark diagnostics_add_record
  write_row_bookmark allocated s zero_based_row =
      let t = s.bookmark_target in
      let shown = record t { bookmark_indicator = put t.bookmark_indicator (pos 4) } in
      if t.is_variable && ltb_ℤ t.bookmark_buffer_length (pos 4)
      then record s {
        bookmark_target = shown;
        diagnostics = truncated_bookmark allocated t.bookmark_value s.diagnostics;
      }
      else record s {
        bookmark_target = record shown {
          bookmark_value = put t.bookmark_value (statement_make_int4_bookmark zero_based_row);
        };
      }

-- The copy of a row is a parameter of the fetches.
module _ (lib : Libpq) (copy : OdbcStatement lib → ℕ → ℕ → Copied lib) where
  unfoldable pub populate_bound_columns_row :
      OdbcStatement lib → ℕ → ℕ → SqlReturn × OdbcStatement lib
  populate_bound_columns_row s source_row rowset_offset =
      if is_zero_count lib s.bound_column_count
      then (sql_success, s)
      else with_copied lib s source_row rowset_offset (copy s source_row rowset_offset)

  -- The bookmark, where column 0 is bound, and the row at element 0.
  unfoldable pub populate_bound_columns :
      Bool → OdbcStatement lib → ℕ → SqlReturn × OdbcStatement lib
  unfolding populate_bound_columns_row write_row_bookmark
  populate_bound_columns allocated s row =
      populate_bound_columns_row
        (if s.bookmark_bound && not (s.use_bookmarks == bookmarks_off)
          then write_row_bookmark lib allocated s (pos row)
          else s)
        row 0

  -- The rows of a rowset that the loop has copied, and whether one was truncated.
  pub record Rowset : Type 0 where
    pub statement : OdbcStatement lib
    pub with_info : Bool
    pub rows_copied : ℕ

  abbrev pub copy_next : Rowset → ℕ → Rowset
  copy_next r source_row =
      let row_result = populate_bound_columns_row r.statement source_row r.rows_copied in
      record {
        statement = record (row_result.1) {
          row_status =
              put_at row_result.1.row_status r.rows_copied
                (row_status_of (is_with_info row_result.0));
        };
        with_info = r.with_info || is_with_info row_result.0;
        rows_copied = suc r.rows_copied;
      }

  -- The rounds that are left of the loop over the rowset.
  unfoldable pub rowset_loop : ℕ → ℕ → ℕ → Rowset → Rowset
  unfolding populate_bound_columns_row
  rowset_loop zero total_rows first_row r = r
  rowset_loop (suc rounds) total_rows first_row r =
      let rest =
        rowset_loop rounds total_rows first_row (copy_next r (first_row + r.rows_copied)) in
      if leb total_rows (first_row + r.rows_copied) then r else rest
