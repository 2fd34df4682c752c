-- ===== src/Statement.antt =====
-- The statement handle of src/statement.h, with the fields of its cursor and of
-- its streamed parameters. What an output pointer
-- points to stands in its place, and `none` is NULL. The keyset rows and the savepoints are the
-- slots in use, so `keyset_row_count` and `keyset_savepoint_count` are their numbers. The parent
-- connection is the value that its address shows.
pub mod Cursor
pub mod DataAtExec
pub mod Block
pub mod Fetch
pub mod Keyset
pub mod Scroll
pub mod Tests
use psqlodbc_new.Prelude.{ℕ, ◌+◌, Bool, Option, List, length, Bytes}
use psqlodbc_new.Prelude.Int.{ℤ, pos, negsuc, sub_ℕ}
use psqlodbc_new.Diagnostics.{DiagnosticRecords}
use psqlodbc_new.Libpq.{Libpq}
use psqlodbc_new.Connection.{OdbcConnection}
use psqlodbc_new.Parameters.{ParameterBinding}

pub data RowStatus : Type 0 where
  row_success row_success_with_info row_no_row : RowStatus

pub record KeysetRow : Type 0 where
  pub deleted : Bool
  pub override_values : Option (List (Option Bytes))

-- `none` as the flags is a snapshot whose memory is missing.
pub record KeysetSavepoint : Type 0 where
  pub name : Bytes
  pub deleted_flags : Option (List Bool)

pub data ParamStatus : Type 0 where
  param_success param_error param_unused : ParamStatus

-- The bytes of the buffer below its length are the buffer; NULL is `none`.
pub record DataAtExecParameter : Type 0 where
  pub needs_data : Bool
  pub data_started : Bool
  pub is_null : Bool
  pub buffer : Option Bytes
  pub data_length : ℕ
  pub capacity : ℕ
  pub is_large_object : Bool
  pub large_object_oid : ℕ
  pub large_object_fd : ℤ

-- `none` as the index is the sentinel of no current parameter. The chained results are the slots
-- below `chained_count`.
pub record DataAtExecState (lib : Libpq) : Type 0 where
  pub in_need_data : Bool
  pub use_prepared : Bool
  pub current_parameter_index : Option ℕ
  pub current_row : ℕ
  pub row_count : ℕ
  pub parameters : List DataAtExecParameter
  pub chained_results : List lib.PgResult

pub record LargeObjectRead : Type 0 where
  pub read_fd : ℤ
  pub read_column : ℤ
  pub read_row : ℤ
  pub bytes_remaining : ℤ

-- The bound bookmark column: whether its type is SQL_C_VARBOOKMARK, what its buffer holds, if there
-- is one, the buffer's length, and what the indicator shows.
pub record BookmarkTarget : Type 0 where
  pub is_variable : Bool
  pub bookmark_value : Option ℤ
  pub bookmark_buffer_length : ℤ
  pub bookmark_indicator : Option ℤ

-- `no_hidden_ctid_column`, and the position before the first row.
abbrev pub minus_one : ℤ
minus_one = negsuc 0

-- SQL_CURSOR_FORWARD_ONLY.
abbrev pub cursor_forward_only : ℕ
cursor_forward_only = 0

-- SQL_UB_OFF.
abbrev pub bookmarks_off : ℕ
bookmarks_off = 0

pub record OdbcStatement (lib : Libpq) : Type 0 where
  pub parent_connection : Option (OdbcConnection lib)
  pub diagnostics : DiagnosticRecords
  pub current_result : Option lib.PgResult
  pub has_result_set : Bool
  pub affected_row_count : ℤ
  pub current_row_position : ℤ
  pub bound_column_count : ℤ
  pub cursor_type : ℕ
  pub row_array_size : ℕ
  pub rows_fetched : Option ℕ
  pub row_status : Option (List RowStatus)
  pub use_bookmarks : ℕ
  pub fetch_bookmark : Option ℤ
  pub bookmark_bound : Bool
  pub bookmark_target : BookmarkTarget
  pub object_read : LargeObjectRead
  pub is_updatable_cursor : Bool
  pub hidden_ctid_column_index : ℤ
  pub keyset_rows : Option (List KeysetRow)
  pub keyset_table_name : Bytes
  pub keyset_rowset_first_row : ℤ
  pub keyset_rowset_size : ℕ
  pub keyset_savepoints : List KeysetSavepoint
  pub detected_param_count : ℕ
  pub parameter_type_oids : List ℕ
  pub parameter_bindings : List ParameterBinding
  pub paramset_size : ℕ
  pub param_status : Option (List ParamStatus)
  pub params_processed : Option ℕ
  pub data_at_exec : DataAtExecState lib
  -- The calls that copied a row into the bound buffers: the row, and its place in the rowset.
  pub copied_rows : List (ℕ × ℕ)

abbrev pub bookmark_row_index_shift : ℕ
bookmark_row_index_shift = 1

unfoldable pub statement_make_int4_bookmark : ℤ → ℤ
statement_make_int4_bookmark (pos row) = pos (row + bookmark_row_index_shift)
statement_make_int4_bookmark (negsuc n) = negsuc n

unfoldable pub statement_resolve_int4_bookmark : ℤ → ℤ
statement_resolve_int4_bookmark (pos bookmark) = sub_ℕ bookmark bookmark_row_index_shift
statement_resolve_int4_bookmark (negsuc n) = negsuc n
