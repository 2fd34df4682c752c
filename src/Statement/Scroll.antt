-- ===== src/Statement/Scroll.antt =====
-- The scrolling fetch: `results_extended_fetch` of src/results.c. The copy of a row is a parameter.
pub mod Lands
use psqlodbc_new.Prelude.{
  ℕ, zero, suc, ◌+◌, ◌-◌, Bool, true, false, not, ◌&&◌, Option, none, some, List, ltb, leb, ◌==◌,
  if◌then◌else◌, set, Bytes, codes,
}
use psqlodbc_new.Prelude.Int.{ℤ, pos, negsuc, sub_ℕ, ltb_ℤ, ◌+ℤ◌}
use psqlodbc_new.ColumnBinding.{succ_ℤ, pred_ℤ}
use psqlodbc_new.Diagnostics.{diagnostics_add_record}
use psqlodbc_new.Environment.{SqlReturn, sql_success_with_info, sql_error, sql_no_data}
use psqlodbc_new.Libpq.{Libpq}
use psqlodbc_new.Statement.{
  RowStatus, row_no_row, minus_one, cursor_forward_only, bookmarks_off, OdbcStatement,
  statement_resolve_int4_bookmark,
}
use psqlodbc_new.Statement.Cursor.{
  Copied, is_with_info, row_status_of, put, put_at, populate_bound_columns,
}
use psqlodbc_new.Statement.Block.{
  FetchOrientation, fetch_next, fetch_prior, fetch_first, fetch_last, fetch_absolute,
  fetch_relative, fetch_bookmark, other_orientation, FetchOutput, next_index, block_of,
  keyset_block_fetch_active,
}
use psqlodbc_new.Statement.Fetch.{populate_bound_rowset}

-- Where the orientation leads: a row index, with whether it was moved up to the first row, or the
-- SQLSTATE and the message of a refusal.
pub data Target : Type 0 where
  target : ℤ → Bool → Target
  refused : Bytes → Bytes → Target

abbrev pub absolute_target : ℤ → ℤ → Target
absolute_target total_rows (pos zero) = target minus_one false
absolute_target total_rows (pos (suc n)) = target (pos n) false
absolute_target total_rows (negsuc n) =
    let index = total_rows +ℤ negsuc n in
    if ltb_ℤ index (pos 0) then target (pos 0) true else target index false

abbrev pub bookmark_target_of : Bool → ℤ → Option ℤ → Target
bookmark_target_of false fetch_offset bookmark =
    refused (codes "HY106")
      (codes "SQL_FETCH_BOOKMARK requires SQL_ATTR_USE_BOOKMARKS to be enabled.")
bookmark_target_of true fetch_offset none =
    refused (codes "HY090")
      (codes "SQL_FETCH_BOOKMARK requested but SQL_ATTR_FETCH_BOOKMARK_PTR is not set.")
bookmark_target_of true fetch_offset (some stored_bookmark) =
    target (statement_resolve_int4_bookmark stored_bookmark +ℤ fetch_offset) false

module _ (lib : Libpq) where
  unfoldable pub target_of : FetchOrientation → OdbcStatement lib → ℕ → ℤ → Target
  unfolding ◌+ℤ◌ statement_resolve_int4_bookmark
  target_of fetch_next s total_rows fetch_offset = target (next_index s.current_row_position) false
  target_of fetch_prior s total_rows fetch_offset =
      if ltb_ℤ s.current_row_position (pos total_rows)
      then target (pred_ℤ s.current_row_position) false
      else target (sub_ℕ total_rows 1) false
  target_of fetch_first s total_rows fetch_offset = target (pos 0) false
  target_of fetch_last s total_rows fetch_offset = target (sub_ℕ total_rows 1) false
  target_of fetch_absolute s total_rows fetch_offset = absolute_target (pos total_rows) fetch_offset
  target_of fetch_relative s total_rows fetch_offset =
      target (s.current_row_position +ℤ fetch_offset) false
  target_of fetch_bookmark s total_rows fetch_offset =
      bookmark_target_of (not (s.use_bookmarks == bookmarks_off)) fetch_offset s.fetch_bookmark
  target_of other_orientation s total_rows fetch_offset =
      refused (codes "HY106") (codes "Unsupported fetch orientation.")

  abbrev pub add_diagnostic : Bool → Bytes → Bytes → OdbcStatement lib → OdbcStatement lib
  add_diagnostic allocated sqlstate message s = record s {
    diagnostics =
        (diagnostics_add_record allocated s.diagnostics (some sqlstate) (pos 0) (some message)).0;
  }

  -- The status of each row of the rowset, for the caller's array.
  unfoldable pub put_rows : ℕ → ℕ → RowStatus → Option (List RowStatus) → Option (List RowStatus)
  put_rows zero offset status array = array
  put_rows (suc n) offset status array = put_rows n (suc offset) status (put_at array offset status)

  -- How many rows lie between the target and the cursor.
  abbrev pub rows_up_to : ℕ → ℤ → ℕ
  rows_up_to row (negsuc n) = 0
  rows_up_to row (pos position) = position + 1 - row

module _ (lib : Libpq) (copy : OdbcStatement lib → ℕ → ℕ → Copied lib) where
  abbrev pub single_row : Bool → OdbcStatement lib → ℕ → SqlReturn × OdbcStatement lib
  single_row allocated s row =
      let copied = populate_bound_columns lib copy allocated s row in
      (
        copied.0,
        record (copied.1) {
          rows_fetched = put copied.1.rows_fetched 1;
          row_status = put_at copied.1.row_status 0 (row_status_of (is_with_info copied.0));
        },
      )

  abbrev pub clamped_result :
      Bool → Bool → SqlReturn × OdbcStatement lib → SqlReturn × OdbcStatement lib
  clamped_result allocated false r = r
  clamped_result allocated true (result, s) = (
    sql_success_with_info,
    add_diagnostic lib allocated (codes "01S06") (codes "fetch absolute and before the beginning")
        s,
  )

  abbrev pub report_rows :
      ℕ → FetchOutput → SqlReturn × OdbcStatement lib → SqlReturn × OdbcStatement lib × FetchOutput
  report_rows rows_copied out (result, s) = (
    result,
    s,
    record {
      fetched_row_count = put out.fetched_row_count rows_copied;
      row_status_array =
          put_rows lib rows_copied 0 (row_status_of (is_with_info result)) out.row_status_array;
    },
  )

  -- The rowset from the landed row on.
  abbrev pub landed :
      Bool
      → ℕ
      → OdbcStatement lib
      → FetchOutput
      → ℕ
      → Bool
      → SqlReturn × OdbcStatement lib × FetchOutput
  landed allocated total_rows s out row clamped =
      if ltb 1 s.row_array_size
      then (let r = populate_bound_rowset lib copy total_rows s row in
          report_rows (rows_up_to lib row r.1.current_row_position) out
            (clamped_result allocated clamped r))
      else report_rows 1 out (clamped_result allocated clamped (single_row allocated s row))

  abbrev pub scroll_to :
      Bool
      → ℕ
      → OdbcStatement lib
      → FetchOutput
      → Target
      → SqlReturn × OdbcStatement lib × FetchOutput
  scroll_to allocated total_rows s out (refused sqlstate message) =
      (sql_error, add_diagnostic lib allocated sqlstate message s, out)
  scroll_to allocated total_rows s out (target (negsuc n) clamped) =
      (sql_no_data, record s { current_row_position = minus_one }, out)
  scroll_to allocated total_rows s out (target (pos row) clamped) =
      if leb total_rows row
      then (sql_no_data, record s { current_row_position = pos total_rows }, out)
      else landed allocated total_rows (record s { current_row_position = pos row }) out row clamped

  abbrev pub is_next : FetchOrientation → Bool
  is_next fetch_next = true
  is_next _ = false

  abbrev pub scroll_result :
      Bool
      → OdbcStatement lib
      → FetchOrientation
      → ℤ
      → FetchOutput
      → Option lib.PgResult
      → SqlReturn × OdbcStatement lib × FetchOutput
  scroll_result allocated s orientation fetch_offset out none = (sql_no_data, s, out)
  scroll_result allocated s orientation fetch_offset out (some result) =
      if not s.has_result_set
      then (sql_no_data, s, out)
      else if s.cursor_type == cursor_forward_only && not (is_next orientation)
      then (
        sql_error,
        add_diagnostic lib allocated (codes "HY106")
            (codes "Only SQL_FETCH_NEXT is allowed on a forward-only cursor.") s,
        out,
      )
      else if keyset_block_fetch_active lib s
      then block_of lib copy allocated s orientation out s.keyset_rows
      else let total_rows = lib.ntuples result in
        scroll_to allocated total_rows s out (target_of lib orientation s total_rows fetch_offset)

  -- The caller's count and first status say "no row" until the outcome is known.
  unfoldable pub results_extended_fetch :
      Bool
      → OdbcStatement lib
      → FetchOrientation
      → ℤ
      → FetchOutput
      → SqlReturn × OdbcStatement lib × FetchOutput
  unfolding target_of
  results_extended_fetch allocated s orientation fetch_offset out =
      scroll_result allocated s orientation fetch_offset
        (record {
          fetched_row_count = put out.fetched_row_count 0;
          row_status_array = put_at out.row_status_array 0 row_no_row;
        })
        s.current_result
