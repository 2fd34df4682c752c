-- ===== src/ErrorMapping.antt =====
-- The diagnostics that a libpq result or connection leads to: src/error_mapping.c.
-- A text is the bytes before its terminator. The counts that `snprintf` returns are taken to fit
-- an `int`, as the texts of libpq do.
pub mod Laws
pub mod Reported
mod Tests
use psqlodbc_new.Prelude.{
  ℕ, ◌-◌, Bool, not, ◌&&◌, ◌||◌, Option, none, some, [], ◌∷◌, ◌++◌, ltb, ◌==◌, if◌then◌else◌,
  length, take, Bytes, codes, c_str,
}
use psqlodbc_new.Prelude.Int.{ℤ, pos}
use psqlodbc_new.CLib.{strtol, to_int}
use psqlodbc_new.Diagnostics.{DiagnosticRecords, diagnostics_add_record}
use psqlodbc_new.Libpq.{
  Libpq, ErrorField, pg_diag_sqlstate, pg_diag_severity, pg_diag_severity_nonlocalized,
  pg_diag_message_primary, pg_diag_message_detail, pg_diag_statement_position,
}

abbrev pub sqlstate_code_length : ℕ
sqlstate_code_length = 5

abbrev pub max_error_message_length : ℕ
max_error_message_length = 4096

-- A text that may be NULL, seen as a C string.
abbrev pub shown : Option Bytes → Option Bytes
shown none = none
shown (some text) = some (c_str text)

abbrev pub otherwise : Option Bytes → Option Bytes → Option Bytes
otherwise none second = second
otherwise (some text) second = some text

-- `snprintf` into a buffer of so many bytes.
abbrev pub fit : ℕ → Bytes → Bytes
fit size text = take (size - 1) text

abbrev pub fallback_state : Option Bytes → Bytes
fallback_state none = codes "HY000"
fallback_state (some fallback_sqlstate) = take sqlstate_code_length (c_str fallback_sqlstate)

abbrev pub state_or : Option Bytes → Option Bytes → Bytes
state_or none fallback_sqlstate = fallback_state fallback_sqlstate
state_or (some pg_sqlstate) fallback_sqlstate =
    if length pg_sqlstate == sqlstate_code_length
    then pg_sqlstate
    else fallback_state fallback_sqlstate

abbrev pub with_severity : Option Bytes → Bytes → Bytes
with_severity none primary_message = primary_message
with_severity (some severity) primary_message = severity ++ codes ": " ++ primary_message

-- The detail goes behind the first text, `written`, where that is not empty and fits.
abbrev pub with_detail : ℕ → Bytes → Option Bytes → Bytes
with_detail size written none = fit size written
with_detail size written (some detail) =
    if ltb 0 (length written) && ltb (length written) size
    then fit size written ++ fit (size - length written) (codes "\nDETAIL: " ++ detail)
    else fit size written

-- A context that is not empty goes behind the message.
abbrev pub with_context : Bytes → Option Bytes → Bytes
with_context message none = message
with_context message (some []) = message
with_context message (some (c ∷ context)) =
    message ++ fit (max_error_message_length - length message) (codes ";\n" ++ c ∷ context)

-- The text without the line ends behind it.
abbrev pub is_line_end : ℕ → Bool
is_line_end c = c == b'\n' || c == b'\r'

abbrev pub trim_step : ℕ → Bytes → Bytes
trim_step c [] = if is_line_end c then [] else c ∷ []
trim_step c (d ∷ rest) = c ∷ d ∷ rest

unfoldable pub trim_line_ends : Bytes → Bytes
trim_line_ends [] = []
trim_line_ends (c ∷ cs) = trim_step c (trim_line_ends cs)

abbrev pub connection_text : ℕ → Option Bytes → Bytes
connection_text size none = fit size (codes "Connection error (no details available).")
connection_text size (some []) = fit size (codes "Connection error (no details available).")
connection_text size (some (c ∷ text)) = fit size (trim_line_ends (c ∷ text))

module _ (lib : Libpq) where
  abbrev pub field : lib.PgResult → ErrorField → Option Bytes
  field result name = shown (lib.result_error_field result name)

  abbrev pub result_state : Option lib.PgResult → Option Bytes → Bytes
  result_state none fallback_sqlstate = fallback_state fallback_sqlstate
  result_state (some result) fallback_sqlstate =
      state_or (field result pg_diag_sqlstate) fallback_sqlstate

  abbrev pub primary_or_whole : lib.PgResult → Option Bytes
  primary_or_whole result =
      otherwise (field result pg_diag_message_primary) (shown (lib.result_error_message result))

  abbrev pub severity_of : lib.PgResult → Option Bytes
  severity_of result =
      otherwise (field result pg_diag_severity_nonlocalized) (field result pg_diag_severity)

  abbrev pub message_of : ℕ → lib.PgResult → Option Bytes → Bytes
  message_of size result none = fit size (codes "Query execution failed.")
  message_of size result (some primary_message) =
      with_detail size (with_severity (severity_of result) primary_message)
        (field result pg_diag_message_detail)

  abbrev pub result_message : ℕ → Option lib.PgResult → Bytes
  result_message size none = fit size (codes "Unknown error (no result available).")
  result_message size (some result) = message_of size result (primary_or_whole result)

  -- The SQLSTATE and the message that are written; `none` where the buffer has no room.
  unfoldable pub error_extract_from_result :
      Option lib.PgResult → Option Bytes → ℕ → Option (Bytes × Bytes)
  error_extract_from_result result fallback_sqlstate message_buffer_size =
      if message_buffer_size == 0
      then none
      else some (result_state result fallback_sqlstate, result_message message_buffer_size result)

  abbrev pub connection_error_text : Option lib.PgConn → Option Bytes
  connection_error_text none = none
  connection_error_text (some connection) = shown (lib.error_message connection)

  unfoldable pub error_extract_from_connection :
      Option lib.PgConn → Option Bytes → ℕ → Option (Bytes × Bytes)
  unfolding trim_line_ends
  error_extract_from_connection connection fallback_sqlstate message_buffer_size =
      if message_buffer_size == 0
      then none
      else some (
        fallback_state fallback_sqlstate,
        connection_text message_buffer_size (connection_error_text connection),
      )

  abbrev pub atoi_or_zero : Option Bytes → ℤ
  atoi_or_zero none = pos 0
  atoi_or_zero (some position_text) = to_int (strtol position_text 10)

  abbrev pub error_position : Option lib.PgResult → ℤ
  error_position none = pos 0
  error_position (some result) = atoi_or_zero (field result pg_diag_statement_position)

  abbrev pub add_extracted :
      Bool → DiagnosticRecords → ℤ → Option Bytes → Option (Bytes × Bytes) → DiagnosticRecords
  add_extracted allocated diagnostics native_error_code driver_context none = diagnostics
  add_extracted allocated diagnostics native_error_code driver_context (some (sqlstate, message)) =
      (diagnostics_add_record allocated diagnostics (some sqlstate) native_error_code
        (some (with_context message driver_context))).0

  -- `allocated` is whether the record's copy of the message gets its memory.
  unfoldable pub error_add_diagnostic_from_result_ctx :
      Bool
      → DiagnosticRecords
      → Option lib.PgResult
      → Option Bytes
      → Option Bytes
      → DiagnosticRecords
  unfolding error_extract_from_result diagnostics_add_record strtol to_int
  error_add_diagnostic_from_result_ctx allocated diagnostics result fallback_sqlstate
        driver_context =
      add_extracted allocated diagnostics (error_position result) (shown driver_context)
        (error_extract_from_result result fallback_sqlstate max_error_message_length)

  unfoldable pub error_add_diagnostic_from_result :
      Bool → DiagnosticRecords → Option lib.PgResult → Option Bytes → DiagnosticRecords
  unfolding error_add_diagnostic_from_result_ctx
  error_add_diagnostic_from_result allocated diagnostics result fallback_sqlstate =
      error_add_diagnostic_from_result_ctx allocated diagnostics result fallback_sqlstate none

  unfoldable pub error_add_diagnostic_from_connection :
      Bool → DiagnosticRecords → Option lib.PgConn → Option Bytes → DiagnosticRecords
  unfolding error_extract_from_connection diagnostics_add_record
  error_add_diagnostic_from_connection allocated diagnostics connection fallback_sqlstate =
      add_extracted allocated diagnostics (pos 0) none
        (error_extract_from_connection connection fallback_sqlstate max_error_message_length)
