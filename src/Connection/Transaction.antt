-- ===== src/Connection/Transaction.antt =====
-- Transactions and the savepoint of each statement: src/connection.c.
-- `allocated` is whether the copy of a diagnostic's message gets its memory. The functions take a
-- handle that is not NULL; for NULL each of them returns at once.
pub mod Savepoint
pub mod Server
pub mod Cases
pub mod Blocks
pub mod Statements
pub mod Steps
pub mod Recovery
pub mod Protected
pub mod Outcomes
pub mod Copy
use psqlodbc_new.Prelude.{
  Bool, true, false, not, Option, none, some, ◌++◌, ◌==◌, if◌then◌else◌, take, Bytes, codes,
}
use psqlodbc_new.Prelude.Int.{ℤ, pos, negsuc}
use psqlodbc_new.ConnectionInfo.{ConnectionInfo}
use psqlodbc_new.Diagnostics.{DiagnosticRecords, diagnostics_clear, diagnostics_add_record}
use psqlodbc_new.Environment.{SqlReturn, sql_success, sql_error}
use psqlodbc_new.ErrorMapping.{error_add_diagnostic_from_result}
use psqlodbc_new.Libpq.{Libpq, succeeds}
use psqlodbc_new.Connection.{
  ConnectionState, connected, TransactionState, idle, active, failed, OdbcConnection,
}

abbrev pub rollback_on_error_unspecified : ℤ
rollback_on_error_unspecified = negsuc 0

abbrev pub rollback_on_error_transaction : ℤ
rollback_on_error_transaction = pos 1

abbrev pub rollback_on_error_statement : ℤ
rollback_on_error_statement = pos 2

abbrev pub equal_ℤ : ℤ → ℤ → Bool
equal_ℤ (pos m) (pos n) = m == n
equal_ℤ (negsuc m) (negsuc n) = m == n
equal_ℤ (pos m) (negsuc n) = false
equal_ℤ (negsuc m) (pos n) = false

abbrev pub is_connected : ConnectionState → Bool
is_connected connected = true
is_connected _ = false

abbrev pub per_statement_savepoint_name : Bytes
per_statement_savepoint_name = codes "_psqlodbc2_stmt_svp_"

abbrev pub savepoint_command : Bytes
savepoint_command = codes "SAVEPOINT " ++ per_statement_savepoint_name

abbrev pub release_and_savepoint_command : Bytes
release_and_savepoint_command =
    codes "RELEASE SAVEPOINT " ++ (per_statement_savepoint_name ++ (codes ";" ++ savepoint_command))

abbrev pub rollback_to_command : Bytes
rollback_to_command = codes "ROLLBACK TO " ++ per_statement_savepoint_name

module _ (lib : Libpq) where
  abbrev pub to_transaction_state : TransactionState → OdbcConnection lib → OdbcConnection lib
  to_transaction_state new_state k = record k { transaction_state = new_state }

  -- A block begins or ends: no savepoint stands in it.
  abbrev pub to_boundary : TransactionState → OdbcConnection lib → OdbcConnection lib
  to_boundary new_state k = record k {
    transaction_state = new_state;
    statement_savepoint_active = false;
  }

  abbrev pub with_savepoint : Bool → OdbcConnection lib → OdbcConnection lib
  with_savepoint is_active k = record k { statement_savepoint_active = is_active }

  -- The server's side is what a command leaves.
  abbrev pub at_link : OdbcConnection lib → lib.PgConn → OdbcConnection lib
  at_link k link = record k { libpq_connection = some link }

  abbrev pub usable_link : OdbcConnection lib → Option lib.PgConn
  usable_link k = if is_connected k.state then k.libpq_connection else none

  -- What the caller's error branches leave: one record.
  abbrev pub report : Bool → Bytes → Bytes → OdbcConnection lib → OdbcConnection lib
  report allocated sqlstate message k = record k {
    diagnostics =
        (diagnostics_add_record allocated (diagnostics_clear k.diagnostics) (some sqlstate) (pos 0)
          (some message)).0;
  }

  abbrev pub report_result :
      Bool → Bytes → Option lib.PgResult → OdbcConnection lib → OdbcConnection lib
  report_result allocated message none k = report allocated (codes "08S01") message k
  report_result allocated message (some result) k = record k {
    diagnostics =
        error_add_diagnostic_from_result lib allocated (diagnostics_clear k.diagnostics)
          (some result) (some (codes "HY000"));
  }

  module _ (allocated : Bool) where
    abbrev pub inactive : Bytes → OdbcConnection lib → SqlReturn × OdbcConnection lib
    inactive message k = (sql_error, report allocated (codes "08003") message k)

    abbrev pub begun :
        OdbcConnection lib → lib.PgConn × Option lib.PgResult → SqlReturn × OdbcConnection lib
    begun k (link, result) =
        if succeeds lib result then (sql_success, to_boundary active (at_link k link)) else (
          sql_error,
          report_result allocated (codes "BEGIN command failed: NULL result from libpq.") result
              (at_link k link),
        )

    abbrev pub begin_over :
        OdbcConnection lib → TransactionState → lib.PgConn → SqlReturn × OdbcConnection lib
    begin_over k active link = (sql_success, k)
    begin_over k idle link = begun k (lib.exec link (codes "BEGIN"))
    begin_over k failed link = begun k (lib.exec link (codes "BEGIN"))

    abbrev pub begin_at : OdbcConnection lib → Option lib.PgConn → SqlReturn × OdbcConnection lib
    begin_at k none = inactive (codes "Cannot begin transaction: connection is not active.") k
    begin_at k (some link) = begin_over k k.transaction_state link

    unfoldable pub connection_begin_transaction :
        OdbcConnection lib → SqlReturn × OdbcConnection lib
    unfolding diagnostics_clear diagnostics_add_record error_add_diagnostic_from_result
    connection_begin_transaction k = begin_at k (usable_link k)

    -- The two ways to end a block have the same branches.
    abbrev pub ended :
        Bytes
        → OdbcConnection lib
        → lib.PgConn × Option lib.PgResult
        → SqlReturn × OdbcConnection lib
    ended message k (link, result) =
        if succeeds lib result
        then (sql_success, to_boundary idle (at_link k link))
        else (sql_error, to_boundary idle (report_result allocated message result (at_link k link)))

    abbrev pub end_at :
        Bytes
        → Bytes
        → Bytes
        → OdbcConnection lib
        → Option lib.PgConn
        → SqlReturn × OdbcConnection lib
    end_at command inactive_message null_message k none = inactive inactive_message k
    end_at command inactive_message null_message k (some link) =
        ended null_message k (lib.exec link command)

    abbrev pub end_in :
        Bytes
        → Bytes
        → Bytes
        → OdbcConnection lib
        → TransactionState
        → SqlReturn × OdbcConnection lib
    end_in command inactive_message null_message k idle = (sql_success, k)
    end_in command inactive_message null_message k active =
        end_at command inactive_message null_message k (usable_link k)
    end_in command inactive_message null_message k failed =
        end_at command inactive_message null_message k (usable_link k)

    unfoldable pub connection_commit : OdbcConnection lib → SqlReturn × OdbcConnection lib
    unfolding diagnostics_clear diagnostics_add_record error_add_diagnostic_from_result
    connection_commit k =
        end_in (codes "COMMIT") (codes "Cannot commit: connection is not active.")
          (codes "COMMIT command failed: NULL result from libpq.") k k.transaction_state

    unfoldable pub connection_rollback : OdbcConnection lib → SqlReturn × OdbcConnection lib
    unfolding diagnostics_clear diagnostics_add_record error_add_diagnostic_from_result
    connection_rollback k =
        end_in (codes "ROLLBACK") (codes "Cannot rollback: connection is not active.")
          (codes "ROLLBACK command failed: NULL result from libpq.") k k.transaction_state

    abbrev pub ensure_in : OdbcConnection lib → TransactionState → SqlReturn × OdbcConnection lib
    ensure_in k idle = connection_begin_transaction k
    ensure_in k active = (sql_success, k)
    ensure_in k failed = (sql_success, k)

    unfoldable pub connection_ensure_transaction :
        OdbcConnection lib → SqlReturn × OdbcConnection lib
    unfolding connection_begin_transaction
    connection_ensure_transaction k = elim k.autocommit [
      | true ↦ (sql_success, k)
      | false ↦ ensure_in k k.transaction_state
    ]

  unfoldable pub connection_effective_rollback_on_error : OdbcConnection lib → ℤ
  connection_effective_rollback_on_error k =
      if not (equal_ℤ k.info.rollback_on_error rollback_on_error_unspecified)
      then k.info.rollback_on_error
      else rollback_on_error_statement
