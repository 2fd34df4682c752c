-- ===== src/Statement/DataAtExec/Arrays.antt =====
-- The values that a set with streamed parameters is sent as: `data_at_exec_build_arrays` of
-- src/statement.c.
use psqlodbc_new.Prelude.{
  ℕ, zero, suc, Bool, true, false, not, ◌&&◌, Option, none, some, List, [], ◌∷◌, ◌==◌,
  if◌then◌else◌, take, Bytes,
}
use psqlodbc_new.Prelude.Int.{ℤ, pos, negsuc}
use psqlodbc_new.CLib.{decimal}
use psqlodbc_new.Environment.{SqlReturn, sql_success, sql_error}
use psqlodbc_new.Libpq.{Libpq}
use psqlodbc_new.Connection.{OdbcConnection}
use psqlodbc_new.LargeObject.{LargeObjectCalls, large_object_close}
use psqlodbc_new.Parameters.{ParameterBinding}
use psqlodbc_new.Parameters.Arrays.{parameter_build_libpq_arrays_for_row}
use psqlodbc_new.Parameters.Bytea.{bytea_literal}
use psqlodbc_new.Statement.{DataAtExecParameter, OdbcStatement}
use psqlodbc_new.Statement.DataAtExec.{close_descriptors, with_parameters}
use psqlodbc_new.Statement.DataAtExec.PutData.{is_success}

abbrev pub severed : ParameterBinding → ParameterBinding
severed b = record b { value_buffer = none; indicator_or_length = none }

-- The slots that the command does not use are unbound, and a streamed one loses its pointers.
unfoldable pub local_bindings :
    ℕ → List DataAtExecParameter → List ParameterBinding → List ParameterBinding
local_bindings detected parameters [] = []
local_bindings zero parameters (b ∷ bindings) =
    record b { is_bound = false } ∷ local_bindings zero parameters bindings
local_bindings (suc detected) [] (b ∷ bindings) = b ∷ local_bindings detected [] bindings
local_bindings (suc detected) (p ∷ parameters) (b ∷ bindings) =
    (if p.needs_data then severed b else b) ∷ local_bindings detected parameters bindings

abbrev pub sends_oid : DataAtExecParameter → Bool
sends_oid p = p.is_large_object && not p.is_null && not (p.large_object_oid == 0)

abbrev pub sent_bytes : Bool → ℕ → Option Bytes → Option (Option Bytes)
sent_bytes encoded size none = some none
sent_bytes encoded size (some bytes) = elim (bytea_literal encoded (take size bytes)) [
  | none ↦ none
  | some text ↦ some (some text)
]

-- The value of a streamed parameter, where its text gets its memory. The text of an object's number
-- has room for 15 bytes.
unfoldable pub streamed_value : Bool → DataAtExecParameter → Option (Option Bytes)
unfolding bytea_literal decimal
streamed_value encoded p =
    if sends_oid p
    then (if encoded then some (some (take 15 (decimal p.large_object_oid))) else none)
    else if p.is_null
    then some none
    else sent_bytes encoded p.data_length p.buffer

abbrev pub closed_fd : ℤ → ℤ
closed_fd (pos fd) = negsuc 0
closed_fd (negsuc n) = negsuc n

abbrev pub with_closed : DataAtExecParameter → DataAtExecParameter
with_closed p =
    if sends_oid p then record p { large_object_fd = closed_fd p.large_object_fd } else p

module _ (lib : Libpq) where
  -- Whether all texts got their memory, the connection, the parameters and the values.
  abbrev pub FilledValues : Type 0
  FilledValues = Bool × Option (OdbcConnection lib) × List DataAtExecParameter × List (Option Bytes)

  abbrev pub behind_parameter : DataAtExecParameter → Option Bytes → FilledValues → FilledValues
  behind_parameter p value (ok, k, parameters, values) = (ok, k, p ∷ parameters, value ∷ values)

  abbrev pub close_if_sent :
      LargeObjectCalls lib
      → DataAtExecParameter
      → Option (OdbcConnection lib)
      → Option (OdbcConnection lib)
  close_if_sent calls p k = if sends_oid p then close_descriptors lib calls (p ∷ []) k else k

  unfoldable pub fill_streamed :
      LargeObjectCalls lib
      → Bool
      → Option (OdbcConnection lib)
      → List DataAtExecParameter
      → List (Option Bytes)
      → FilledValues
  unfolding streamed_value large_object_close
  fill_streamed calls encoded k [] values = (true, k, [], values)
  fill_streamed calls encoded k (p ∷ parameters) [] = (true, k, p ∷ parameters, [])
  fill_streamed calls encoded k (p ∷ parameters) (value ∷ values) = elim p.needs_data [
    | false ↦ behind_parameter p value (fill_streamed calls encoded k parameters values)
    | true ↦ elim (streamed_value encoded p) [
      | none ↦ (false, close_if_sent calls p k, with_closed p ∷ parameters, [])
      | some sent ↦
          behind_parameter (with_closed p) sent
            (fill_streamed calls encoded (close_if_sent calls p k) parameters values)
    ]
  ]

  abbrev pub end_fill :
      OdbcStatement lib → FilledValues → SqlReturn × OdbcStatement lib × List (Option Bytes)
  end_fill s (ok, k, parameters, values) = (
    if ok then sql_success else sql_error,
    with_parameters lib (record s { parent_connection = k }) parameters,
    if ok then values else [],
  )

  abbrev pub fill_built :
      LargeObjectCalls lib
      → Bool
      → OdbcStatement lib
      → SqlReturn × List (Option Bytes)
      → SqlReturn × OdbcStatement lib × List (Option Bytes)
  fill_built calls encoded s (result, values) =
      if is_success result
      then end_fill s
          (fill_streamed calls encoded s.parent_connection s.data_at_exec.parameters values)
      else (sql_error, s, [])

  -- The conversion of a bound value is a parameter.
  unfoldable pub data_at_exec_build_arrays :
      LargeObjectCalls lib
      → (ParameterBinding → Option Bytes)
      → Bool
      → Bool
      → OdbcStatement lib
      → SqlReturn × OdbcStatement lib × List (Option Bytes)
  unfolding local_bindings fill_streamed parameter_build_libpq_arrays_for_row
  data_at_exec_build_arrays calls convert allocated encoded s = fill_built calls encoded s (
      parameter_build_libpq_arrays_for_row convert allocated
        (local_bindings s.detected_param_count s.data_at_exec.parameters s.parameter_bindings)
        s.data_at_exec.current_row)
