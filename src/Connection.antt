-- ===== src/Connection.antt =====
-- The connection handle: src/connection.h, and the slots of its statements in src/connection.c.
-- A statement and the environment are their addresses, and an empty slot is `none`. The captured
-- notices are the slots below `notice_count`, which is their number.
pub mod Handle
pub mod Statements
pub mod Transaction
mod Tests
use psqlodbc_new.Prelude.{ℕ, Bool, Option, List, Bytes}
use psqlodbc_new.Prelude.Int.{ℤ, pos}
use psqlodbc_new.ConnectionInfo.{ConnectionInfo}
use psqlodbc_new.Diagnostics.{DiagnosticRecords}
use psqlodbc_new.Libpq.{Libpq}

pub data ConnectionState : Type 0 where
  not_connected connected broken executing : ConnectionState

pub data TransactionState : Type 0 where
  idle active failed : TransactionState

abbrev pub max_statements_per_connection : ℕ
max_statements_per_connection = 256

abbrev pub connection_magic_number : ℕ
connection_magic_number = 0x434F4E32

abbrev pub max_captured_notices : ℕ
max_captured_notices = 16

abbrev pub default_batch_size : ℤ
default_batch_size = pos 100

pub record OdbcConnection (lib : Libpq) : Type 0 where
  pub magic_number : ℕ
  pub state : ConnectionState
  pub parent_environment : Option ℕ
  pub libpq_connection : Option lib.PgConn
  pub info : ConnectionInfo
  pub diagnostics : DiagnosticRecords
  pub autocommit : Bool
  pub server_version_major : ℕ
  pub server_version_minor : ℕ
  pub max_bytes_per_char : ℕ
  pub statements : List (Option ℕ)
  pub statement_count : ℕ
  pub next_statement_id : ℕ
  pub transaction_state : TransactionState
  pub statement_savepoint_active : Bool
  pub txn_isolation : ℕ
  pub login_timeout : ℕ
  pub connection_timeout : ℕ
  pub access_mode : ℕ
  pub captured_notices : List Bytes
  pub ms_jet : Bool
  pub batch_size : ℤ
  pub large_object_type_oid : ℕ
  pub large_object_is_domain : Bool
