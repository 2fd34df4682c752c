-- ===== src/Statement/Tests.antt =====
-- Concrete statements over a server without answers.
use psqlodbc_new.Prelude.{
  ℕ, ◌≡◌, refl, inr, Bool, true, false, none, some, List, [], ◌∷◌, ◌++◌, arith, ltb, if◌then◌else◌,
  length, Bytes, codes,
}
use psqlodbc_new.Prelude.Int.{pos, negsuc}
use psqlodbc_new.Diagnostics.{empty_diagnostics}
use psqlodbc_new.Environment.{sql_error, sql_no_data}
use psqlodbc_new.Libpq.{Libpq}
use psqlodbc_new.LargeObject.{LargeObjectCalls}
use psqlodbc_new.Statement.{row_no_row, KeysetRow, minus_one, OdbcStatement, LargeObjectRead}
use psqlodbc_new.Statement.Cursor.{Copied}
use psqlodbc_new.Statement.DataAtExec.{no_streaming}
use psqlodbc_new.Statement.Block.{
  fetch_next, fetch_first, fetch_last, fetch_prior, fetch_relative, no_output, keyset_block_fetch,
  keyset_block_fetch_active,
}
use psqlodbc_new.Statement.Fetch.{results_fetch}
use psqlodbc_new.Statement.Block.Live.{Outcome, block_fetch_lem}
use psqlodbc_new.Statement.Fetch.Delivered.{rows_copied_by, consecutive}
use psqlodbc_new.Statement.Fetch.Rows.{IsReady}
use psqlodbc_new.Statement.Fetch.ToEnd.{fetch_all, fetch_all_delivers}
use psqlodbc_new.Statement.Keyset.{rewrite_select_append_ctid, parse_savepoint_command}
use psqlodbc_new.Statement.Keyset.Overlay.{
  keyset_snapshot_savepoint, keyset_restore_savepoint, statement_row_is_deleted,
}
use psqlodbc_new.Statement.Keyset.Savepoints.{savepoint_rollback}
use psqlodbc_new.Statement.Keyset.Spliced.{Spliced, rewrite_splices, parse_savepoint_lem}
use psqlodbc_new.Statement.Scroll.{results_extended_fetch}
use psqlodbc_new.Statement.Scroll.Lands.{Lands, extended_fetch-Lands}

-- A result is the number of its rows.
abbrev pub mute : Libpq
mute = record {
  PgConn = Bool;
  PgResult = ℕ;
  exec = λ link command. (link, none);
  command_ok = λ r. false;
  result_error_field = λ r f. none;
  result_error_message = λ r. none;
  error_message = λ c. none;
  connectdb_params = λ params. none;
  connection_ok = λ c. true;
  parameter_status = λ c name. none;
  server_version = λ c. 170002;
  client_encoding_name = λ c. none;
  tuples_ok = λ r. true;
  ntuples = λ r. r;
  getvalue = λ r row column. [];
}

abbrev pub no_objects : LargeObjectCalls mute
no_objects = record {
  lo_creat = λ c mode. (c, 0);
  lo_open = λ c oid mode. (c, negsuc 0);
  lo_write = λ c fd bytes. (c, negsuc 0);
  lo_read = λ c fd size. (c, negsuc 0, []);
  lo_lseek = λ c fd offset whence. (c, negsuc 0);
  lo_close = λ c fd. (c, pos 0);
}

abbrev no_read : LargeObjectRead
no_read = record {
  read_fd = minus_one;
  read_column = minus_one;
  read_row = minus_one;
  bytes_remaining = minus_one;
}

abbrev fresh_row : Bool → KeysetRow
fresh_row b = record { deleted = b; override_values = none }

abbrev five_rows : List KeysetRow
five_rows =
    fresh_row false ∷ fresh_row true ∷ fresh_row false ∷ fresh_row false ∷ fresh_row true ∷ []

-- A static cursor over five rows, in rowsets of two, with one column bound.
abbrev pub open_cursor : OdbcStatement mute
open_cursor = record {
  parent_connection = none;
  diagnostics = empty_diagnostics;
  current_result = some 5;
  has_result_set = true;
  affected_row_count = pos 5;
  current_row_position = negsuc 0;
  bound_column_count = pos 1;
  cursor_type = 3;
  row_array_size = 2;
  rows_fetched = some 0;
  row_status = some (row_no_row ∷ row_no_row ∷ []);
  use_bookmarks = 0;
  fetch_bookmark = none;
  bookmark_bound = false;
  bookmark_target = record {
    is_variable = false;
    bookmark_value = none;
    bookmark_buffer_length = pos 0;
    bookmark_indicator = none;
  };
  object_read = no_read;
  is_updatable_cursor = false;
  hidden_ctid_column_index = negsuc 0;
  keyset_rows = none;
  keyset_table_name = [];
  keyset_rowset_first_row = negsuc 0;
  keyset_rowset_size = 0;
  keyset_savepoints = [];
  detected_param_count = 0;
  parameter_type_oids = [];
  parameter_bindings = [];
  paramset_size = 1;
  param_status = none;
  params_processed = none;
  data_at_exec = no_streaming mute;
  copied_rows = [];
}

-- A copy that finds room for each value.
abbrev copy_whole : OdbcStatement mute → ℕ → ℕ → Copied mute
copy_whole s row element = record {
  is_truncated = false;
  copy_diagnostics = s.diagnostics;
  copy_read = s.object_read;
  copy_connection = s.parent_connection;
}

open_cursor-IsReady : IsReady mute copy_whole 5 open_cursor
open_cursor-IsReady = record {
  has_result = refl;
  has_rows_to_fetch = refl;
  plain = refl;
  has_bound = refl;
}

fetch_all_delivers_example :
    ((fetch_all mute copy_whole no_objects true 6 open_cursor).0 ≡ true)
    × (rows_copied_by mute (fetch_all mute copy_whole no_objects true 6 open_cursor).1
        ≡ rows_copied_by mute open_cursor ++ consecutive 0 5)
fetch_all_delivers_example =
    fetch_all_delivers mute copy_whole no_objects true 6 5 open_cursor open_cursor-IsReady refl
      (omega arith)

extended_fetch-Lands_example :
    (let r =
        results_extended_fetch mute copy_whole true open_cursor fetch_relative (pos 4) no_output in
      Lands mute copy_whole open_cursor 5 r × (r.0 ≡ (if false then sql_error else r.0)))
extended_fetch-Lands_example =
    extended_fetch-Lands mute copy_whole true open_cursor fetch_relative (pos 4) no_output 5
      open_cursor-IsReady

-- Each fetch past the end moves the position on, and one row back is then no row.
abbrev far_past_end : OdbcStatement mute
far_past_end = record open_cursor { current_row_position = pos 6 }

again_past_end :
    (results_fetch mute copy_whole true no_objects far_past_end).1.current_row_position ≡ pos 7
unfolding results_fetch
again_past_end = refl

relative_misses_last :
    (results_extended_fetch mute copy_whole true far_past_end fetch_relative (negsuc 0) no_output).0
    ≡ sql_no_data
unfolding results_extended_fetch keyset_block_fetch_active
relative_misses_last = refl

abbrev block_cursor : OdbcStatement mute
block_cursor = record open_cursor {
  is_updatable_cursor = true;
  hidden_ctid_column_index = pos 1;
  keyset_rows = some five_rows;
  keyset_rowset_first_row = pos 2;
  keyset_rowset_size = 1;
  current_row_position = pos 2;
}

-- Before the first fetch.
abbrev new_block_cursor : OdbcStatement mute
new_block_cursor = record block_cursor {
  keyset_rowset_first_row = negsuc 0;
  keyset_rowset_size = 0;
  current_row_position = negsuc 0;
}

block_fetch_lem_example :
    Outcome mute copy_whole new_block_cursor
      (pos 5)
      (0 ∷ 2 ∷ [])
      (keyset_block_fetch mute copy_whole true new_block_cursor five_rows fetch_next no_output)
    × Outcome mute copy_whole new_block_cursor
        (negsuc 0)
        (2 ∷ 3 ∷ [])
        (keyset_block_fetch mute copy_whole true new_block_cursor five_rows fetch_prior no_output)
    × Outcome mute copy_whole new_block_cursor
        (pos 5)
        (0 ∷ 2 ∷ [])
        (keyset_block_fetch mute copy_whole true new_block_cursor five_rows fetch_first no_output)
    × Outcome mute copy_whole new_block_cursor
        (negsuc 0)
        (2 ∷ 3 ∷ [])
        (keyset_block_fetch mute copy_whole true new_block_cursor five_rows fetch_last no_output)
block_fetch_lem_example =
    block_fetch_lem mute copy_whole true new_block_cursor five_rows no_output refl (omega arith)

-- With a rowset at the third row.
later_blocks :
    Outcome mute copy_whole block_cursor
      (pos 5)
      (3 ∷ [])
      (keyset_block_fetch mute copy_whole true block_cursor five_rows fetch_next no_output)
    × Outcome mute copy_whole block_cursor
        (negsuc 0)
        (0 ∷ [])
        (keyset_block_fetch mute copy_whole true block_cursor five_rows fetch_prior no_output)
later_blocks =
    let r =
      block_fetch_lem mute copy_whole true block_cursor five_rows no_output refl (omega arith) in
    (r.0, r.1)

-- Behind the savepoint row 0 is deleted and row 5 added.
abbrev six_rows : List KeysetRow
six_rows =
    fresh_row true
    ∷ fresh_row true
    ∷ fresh_row false
    ∷ fresh_row false
    ∷ fresh_row true
    ∷ fresh_row false
    ∷ []

abbrev later_cursor : OdbcStatement mute
later_cursor = record block_cursor {
  keyset_rows = some six_rows;
  keyset_savepoints =
      (keyset_snapshot_savepoint mute true block_cursor (codes "a")).keyset_savepoints;
}

savepoint_rollback_example :
    (statement_row_is_deleted mute (keyset_restore_savepoint mute later_cursor (codes "a")) 0
      ≡ (if ltb 0 5 then statement_row_is_deleted mute block_cursor 0 else true))
    × ((keyset_restore_savepoint mute later_cursor (codes "a")).current_row_position ≡ minus_one)
savepoint_rollback_example =
    savepoint_rollback mute block_cursor later_cursor (codes "a") (fresh_row false)
      (fresh_row true ∷ fresh_row false ∷ fresh_row false ∷ fresh_row true ∷ []) six_rows 0 refl
      (inr (omega arith)) refl refl (omega arith)

abbrev two_savepoints : OdbcStatement mute
two_savepoints = record block_cursor {
  keyset_savepoints =
      record { name = codes "a"; deleted_flags = some [] }
      ∷ record { name = codes "b"; deleted_flags = some [] }
      ∷ [];
}

-- Without memory for a savepoint that is set again, another one is dropped.
other_savepoint_dropped :
    length (keyset_snapshot_savepoint mute false two_savepoints (codes "a")).keyset_savepoints ≡ 1
unfolding keyset_snapshot_savepoint
other_savepoint_dropped = refl

rewrite_quoted :
    rewrite_select_append_ctid true true (some (codes " select 'x FROM y', a from \"t b\" where c"))
    ≡ (some (codes " select 'x FROM y', a , ctid from \"t b\" where c"), codes "\"t b\"")
unfolding rewrite_select_append_ctid
rewrite_quoted = refl

rewrite_join :
    rewrite_select_append_ctid true true (some (codes "SELECT a FROM t, u"))
    ≡ (some (codes "SELECT a FROM t, u"), [])
unfolding rewrite_select_append_ctid
rewrite_join = refl

rewrite_splices_example :
    (text : Bytes) × ((rewrite_select_append_ctid true true (some (codes "select a from t"))).0
      ≡ some text)
    × Spliced
        (codes "select a from t")
        (text, (rewrite_select_append_ctid true true (some (codes "select a from t"))).1)
rewrite_splices_example = rewrite_splices true (codes "select a from t")

parse_savepoint_lem_example :
    (parse_savepoint_command (codes "savepoint " ++ codes "s1" ++ b';' ∷ codes " -- x") 64
      ≡ some (codes "s1", false))
    × (parse_savepoint_command (codes "ROLLBACK to " ++ codes "s1" ++ b';' ∷ codes " -- x") 64
        ≡ some (codes "s1", true))
unfolding parse_savepoint_command
parse_savepoint_lem_example =
    parse_savepoint_lem b's' (codes "1") (codes " -- x") (search tt) (omega arith) refl
