-- ===== src/Statement/DataAtExec.antt =====
-- Parameters whose values arrive in pieces: the state of the protocol, from src/statement.c.
pub mod PutData
pub mod Arrays
pub mod Streamed
mod Tests
use psqlodbc_new.Prelude.{
  ℕ, zero, suc, ◌+◌, min, Bool, true, false, ◌&&◌, ◌||◌, Option, none, some, List, [], ◌∷◌, ltb,
  leb, ◌==◌, if◌then◌else◌, length, get_or, set,
}
use psqlodbc_new.Prelude.Int.{ℤ, pos, negsuc}
use psqlodbc_new.Environment.{SqlReturn, sql_success, sql_success_with_info, sql_error}
use psqlodbc_new.Libpq.{Libpq}
use psqlodbc_new.Connection.{OdbcConnection}
use psqlodbc_new.Connection.Handle.Notices.{connection_type_is_large_object}
use psqlodbc_new.Connection.Transaction.{at_link}
use psqlodbc_new.LargeObject.{
  LargeObjectCalls, large_object_create, large_object_open, large_object_write, large_object_close,
  large_object_ensure_transaction,
}
use psqlodbc_new.Parameters.{ParameterBinding, no_binding, max_parameters}
use psqlodbc_new.Statement.{
  ParamStatus, param_unused, DataAtExecParameter, DataAtExecState, OdbcStatement,
}
use psqlodbc_new.Statement.Cursor.{put}
use psqlodbc_new.Statement.Scroll.{add_diagnostic}

-- SQL_DATA_AT_EXEC is -2, and SQL_LEN_DATA_AT_EXEC_OFFSET -100.
unfoldable pub statement_length_is_data_at_exec : ℤ → Bool
statement_length_is_data_at_exec (pos n) = false
statement_length_is_data_at_exec (negsuc n) = n == 1 || leb 99 n

-- The indicator of a parameter set, 0 where there is no pointer.
unfoldable pub data_at_exec_indicator_for_row : ParameterBinding → ℕ → ℤ
data_at_exec_indicator_for_row b row_index = elim b.indicator_or_length [
  | none ↦ pos 0
  | some indicators ↦ get_or indicators row_index (pos 0)
]

abbrev pub has_indicator : Option (List ℤ) → Bool
has_indicator none = false
has_indicator (some indicators) = true

unfoldable pub is_deferred : ParameterBinding → ℕ → Bool
unfolding statement_length_is_data_at_exec data_at_exec_indicator_for_row
is_deferred b row_index =
    b.is_bound
    && has_indicator b.indicator_or_length
    && statement_length_is_data_at_exec (data_at_exec_indicator_for_row b row_index)

unfoldable pub any_deferred : ℕ → ℕ → List ParameterBinding → Bool
unfolding is_deferred
any_deferred zero row_index bindings = false
any_deferred (suc count) row_index [] = false
any_deferred (suc count) row_index (b ∷ bindings) =
    is_deferred b row_index || any_deferred count row_index bindings

abbrev pub fresh_parameter : DataAtExecParameter
fresh_parameter = record {
  needs_data = false;
  data_started = false;
  is_null = false;
  buffer = none;
  data_length = 0;
  capacity = 0;
  is_large_object = false;
  large_object_oid = 0;
  large_object_fd = negsuc 0;
}

abbrev pub fresh_parameters : ℕ → List DataAtExecParameter
fresh_parameters zero = []
fresh_parameters (suc n) = fresh_parameter ∷ fresh_parameters n

abbrev pub set_unused : ℕ → List ParamStatus → List ParamStatus
set_unused zero status = status
set_unused (suc n) [] = []
set_unused (suc n) (x ∷ status) = param_unused ∷ set_unused n status

abbrev pub all_unused : ℕ → Option (List ParamStatus) → Option (List ParamStatus)
all_unused count none = none
all_unused count (some status) = some (set_unused count status)

module _ (lib : Libpq) where
  abbrev pub state_of : OdbcStatement lib → DataAtExecState lib
  state_of s = s.data_at_exec

  abbrev pub with_parameters : OdbcStatement lib → List DataAtExecParameter → OdbcStatement lib
  with_parameters s parameters = record s {
    data_at_exec = record (s.data_at_exec) { parameters = parameters };
  }

  abbrev pub with_parameter : OdbcStatement lib → ℕ → DataAtExecParameter → OdbcStatement lib
  with_parameter s index p = with_parameters s (set s.data_at_exec.parameters index p)

  abbrev pub parameter_at : OdbcStatement lib → ℕ → DataAtExecParameter
  parameter_at s index = get_or s.data_at_exec.parameters index fresh_parameter

  abbrev pub type_is_large_object : Option (OdbcConnection lib) → ℕ → Bool
  type_is_large_object none type_oid = false
  type_is_large_object (some k) type_oid = connection_type_is_large_object lib k type_oid

  unfoldable pub statement_parameter_is_large_object : OdbcStatement lib → ℕ → Bool
  unfolding connection_type_is_large_object
  statement_parameter_is_large_object s index =
      ltb index (length s.parameter_type_oids)
      && type_is_large_object s.parent_connection (get_or s.parameter_type_oids index 0)

  unfoldable pub statement_row_has_data_at_exec : OdbcStatement lib → ℕ → Bool
  unfolding any_deferred
  statement_row_has_data_at_exec s row_index =
      any_deferred (min s.detected_param_count max_parameters) row_index s.parameter_bindings

  abbrev pub mark : OdbcStatement lib → ℕ → DataAtExecParameter → DataAtExecParameter
  mark s index p = record p {
    needs_data = true;
    is_large_object = statement_parameter_is_large_object s index;
    large_object_oid = 0;
    large_object_fd = negsuc 0;
  }

  unfoldable pub mark_from :
      OdbcStatement lib
      → ℕ
      → ℕ
      → ℕ
      → List ParameterBinding
      → List DataAtExecParameter
      → List DataAtExecParameter
  unfolding is_deferred statement_parameter_is_large_object
  mark_from s zero index row_index bindings parameters = parameters
  mark_from s (suc count) index row_index [] parameters = parameters
  mark_from s (suc count) index row_index (b ∷ bindings) [] = []
  mark_from s (suc count) index row_index (b ∷ bindings) (p ∷ parameters) =
      (if is_deferred b row_index then mark s index p else p)
      ∷ mark_from s count (suc index) row_index bindings parameters

  unfoldable pub data_at_exec_mark_needs_data : OdbcStatement lib → ℕ → OdbcStatement lib
  unfolding mark_from
  data_at_exec_mark_needs_data s row_index = with_parameters s (
      mark_from s (min s.detected_param_count max_parameters) 0 row_index s.parameter_bindings
        s.data_at_exec.parameters)

  -- An open descriptor of each parameter is closed.
  abbrev pub close_one : LargeObjectCalls lib → lib.PgConn → ℤ → lib.PgConn
  close_one calls link (negsuc n) = link
  close_one calls link (pos fd) = (large_object_close lib calls link (pos fd)).0

  unfoldable pub close_all :
      LargeObjectCalls lib → lib.PgConn → List DataAtExecParameter → lib.PgConn
  unfolding large_object_close
  close_all calls link [] = link
  close_all calls link (p ∷ parameters) =
      close_all calls (close_one calls link p.large_object_fd) parameters

  abbrev pub close_over :
      LargeObjectCalls lib
      → List DataAtExecParameter
      → OdbcConnection lib
      → Option lib.PgConn
      → OdbcConnection lib
  close_over calls parameters k none = k
  close_over calls parameters k (some link) = at_link lib k (close_all calls link parameters)

  abbrev pub close_descriptors :
      LargeObjectCalls lib
      → List DataAtExecParameter
      → Option (OdbcConnection lib)
      → Option (OdbcConnection lib)
  close_descriptors calls parameters none = none
  close_descriptors calls parameters (some k) =
      some (close_over calls parameters k k.libpq_connection)

  abbrev pub no_streaming : DataAtExecState lib
  no_streaming = record {
    in_need_data = false;
    use_prepared = false;
    current_parameter_index = none;
    current_row = 0;
    row_count = 0;
    parameters = fresh_parameters max_parameters;
    chained_results = [];
  }

  unfoldable pub statement_reset_data_at_exec :
      LargeObjectCalls lib → OdbcStatement lib → OdbcStatement lib
  unfolding close_all
  statement_reset_data_at_exec calls s = record s {
    parent_connection = close_descriptors calls s.data_at_exec.parameters s.parent_connection;
    data_at_exec = no_streaming;
  }

  -- More than one set: the statuses, and the number of the set that is filled.
  abbrev pub begin_sets : ℕ → ℕ → OdbcStatement lib → OdbcStatement lib
  begin_sets row_count row_index s =
      if ltb 1 row_count
      then record s {
        param_status = all_unused row_count s.param_status;
        params_processed = put s.params_processed (row_index + 1);
      }
      else s

  unfoldable pub statement_begin_data_at_exec :
      LargeObjectCalls lib → OdbcStatement lib → Bool → ℕ → OdbcStatement lib
  unfolding statement_reset_data_at_exec data_at_exec_mark_needs_data
  statement_begin_data_at_exec calls s use_prepared row_index =
      let row_count = if ltb 0 s.paramset_size then s.paramset_size else 1 in
      let t = statement_reset_data_at_exec calls s in
      begin_sets row_count row_index (
        data_at_exec_mark_needs_data
          (record t {
            data_at_exec = record no_streaming {
              in_need_data = true;
              use_prepared = use_prepared;
              current_row = row_index;
              row_count = row_count;
            };
          })
          row_index)

  unfoldable pub data_at_exec_rearm_for_row : OdbcStatement lib → ℕ → OdbcStatement lib
  unfolding data_at_exec_mark_needs_data
  data_at_exec_rearm_for_row s row_index =
      data_at_exec_mark_needs_data
        (record s {
          data_at_exec = record (s.data_at_exec) {
            parameters = fresh_parameters max_parameters;
            current_parameter_index = none;
            current_row = row_index;
          };
        })
        row_index
