-- ===== src/Connection/Handle.antt =====
-- The life of a connection handle: allocation, connect, disconnect and release, and the notices,
-- in src/connection.c. A handle is the memory that it points to, `none` once it is freed.
-- Of the addresses that PQsetNoticeReceiver keeps nothing is modelled.
pub mod Notices
pub mod Connect
pub mod Life
pub mod Stale
use psqlodbc_new.Prelude.{
  ℕ, zero, suc, Bool, true, false, not, ◌&&◌, ◌||◌, Option, none, some, List, [], ◌∷◌, ltb, ◌==◌,
  if◌then◌else◌, Bytes, codes, c_str,
}
use psqlodbc_new.Prelude.Int.{ℤ, pos, negsuc}
use psqlodbc_new.CLib.{strtoul, u32}
use psqlodbc_new.StringUtils.{pg_ascii_case_equal}
use psqlodbc_new.ConnectionInfo.{ConnectionInfo}
use psqlodbc_new.ConnectionString.Params.{connection_info_build_libpq_params}
use psqlodbc_new.TypeMapping.Catalog.{pg_type_oid}
use psqlodbc_new.Diagnostics.{empty_diagnostics, diagnostics_clear, diagnostics_add_record}
use psqlodbc_new.Environment.{
  SqlReturn, sql_success, sql_error, sql_invalid_handle, OdbcEnvironment,
  environment_add_connection, environment_remove_connection,
}
use psqlodbc_new.ErrorMapping.{error_add_diagnostic_from_connection}
use psqlodbc_new.Libpq.{Libpq, pg_diag_severity, pg_diag_message_primary}
use psqlodbc_new.Connection.{
  ConnectionState, not_connected, connected, broken, executing, idle, OdbcConnection,
  connection_magic_number, max_statements_per_connection, max_captured_notices, default_batch_size,
}

-- `strcmp` with a literal.
abbrev pub same_text : Bytes → Bytes → Bool
same_text [] [] = true
same_text [] (y ∷ ys) = false
same_text (x ∷ xs) [] = false
same_text (x ∷ xs) (y ∷ ys) = x == y && same_text xs ys

abbrev pub is_one_of : Bytes → List Bytes → Bool
is_one_of name [] = false
is_one_of name (n ∷ names) = same_text name n || is_one_of name names

unfoldable pub max_bytes_per_char_for_encoding : Option Bytes → ℕ
max_bytes_per_char_for_encoding none = 1
max_bytes_per_char_for_encoding (some encoding_name) =
    let name = c_str encoding_name in
    if is_one_of name (codes "UTF8" ∷ codes "GB18030" ∷ [])
    then 4
    else if is_one_of name (
        codes "EUC_JP"
        ∷ codes "EUC_CN"
        ∷ codes "EUC_KR"
        ∷ codes "EUC_TW"
        ∷ codes "EUC_JIS_2004"
        ∷ codes "MULE_INTERNAL"
        ∷ [])
    then 3
    else if is_one_of name (
        codes "SJIS"
        ∷ codes "BIG5"
        ∷ codes "GBK"
        ∷ codes "UHC"
        ∷ codes "JOHAB"
        ∷ codes "SHIFT_JIS_2004"
        ∷ [])
    then 2
    else 1

-- The record after the call, whatever it was before: the password is wiped and freed.
unfoldable pub connection_info_clear : ConnectionInfo → ConnectionInfo
connection_info_clear info = record {
  server = [];
  port = [];
  database = [];
  username = [];
  password = none;
  sslmode = [];
  application_name = [];
  connect_timeout = 0;
  bools_as_char = true;
  unknown_sizes = pos 0;
  max_varchar_size = pos 255;
  parse_statements = info.parse_statements;
  fetch_refcursors = info.fetch_refcursors;
  rollback_on_error = negsuc 0;
  lf_conversion = false;
  cvt_null_date = false;
}

-- The memory after `calloc`.
abbrev pub zeroed_info : ConnectionInfo
zeroed_info = record {
  server = [];
  port = [];
  database = [];
  username = [];
  password = none;
  sslmode = [];
  application_name = [];
  connect_timeout = 0;
  bools_as_char = false;
  unknown_sizes = pos 0;
  max_varchar_size = pos 0;
  parse_statements = false;
  fetch_refcursors = false;
  rollback_on_error = pos 0;
  lf_conversion = false;
  cvt_null_date = false;
}

abbrev pub empty_slots : ℕ → List (Option ℕ)
empty_slots zero = []
empty_slots (suc n) = none ∷ empty_slots n

module _ (lib : Libpq) where
  -- The new handle's memory, for the environment at this address.
  abbrev pub new_connection : ℕ → OdbcConnection lib
  new_connection environment = record {
    magic_number = connection_magic_number;
    state = not_connected;
    parent_environment = some environment;
    libpq_connection = none;
    info = connection_info_clear zeroed_info;
    diagnostics = empty_diagnostics;
    autocommit = true;
    server_version_major = 0;
    server_version_minor = 0;
    max_bytes_per_char = 0;
    statements = empty_slots max_statements_per_connection;
    statement_count = 0;
    next_statement_id = 0;
    transaction_state = idle;
    statement_savepoint_active = false;
    txn_isolation = 2;
    login_timeout = 0;
    connection_timeout = 0;
    access_mode = 0;
    captured_notices = [];
    ms_jet = false;
    batch_size = default_batch_size;
    large_object_type_oid = 0;
    large_object_is_domain = false;
  }

  abbrev pub allocated_in :
      ℕ
      → Option OdbcEnvironment × Bool
      → SqlReturn × Option (OdbcConnection lib) × Option OdbcEnvironment
  allocated_in address (e, true) = (sql_success, some (new_connection address), e)
  allocated_in address (e, false) = (sql_error, none, e)

  -- `handle` is the address that `calloc` gives, if any, and `address` the environment's. The
  -- result has the handle's memory, and the environment.
  unfoldable pub connection_allocate :
      Option ℕ
      → ℕ
      → Option OdbcEnvironment
      → SqlReturn × Option (OdbcConnection lib) × Option OdbcEnvironment
  unfolding environment_add_connection connection_info_clear
  connection_allocate handle address none = (sql_error, none, none)
  connection_allocate none address (some e) = (sql_error, none, some e)
  connection_allocate (some handle) address (some e) =
      allocated_in address (environment_add_connection (some e) (some handle))

  abbrev pub refuse : Bool → Bytes → Bytes → OdbcConnection lib → OdbcConnection lib
  refuse allocated sqlstate message k = record k {
    diagnostics =
        (diagnostics_add_record allocated (diagnostics_clear k.diagnostics) (some sqlstate) (pos 0)
          (some message)).0;
  }

  abbrev pub in_use : ConnectionState → Bool
  in_use connected = true
  in_use executing = true
  in_use _ = false

  -- `e` is the environment that the parent's address shows, and `handle` this handle's address.
  unfoldable pub connection_free :
      Bool
      → ℕ
      → Option (OdbcConnection lib)
      → Option OdbcEnvironment
      → SqlReturn × Option (OdbcConnection lib) × Option OdbcEnvironment
  unfolding diagnostics_clear diagnostics_add_record environment_remove_connection
  connection_free allocated handle none e = (sql_invalid_handle, none, e)
  connection_free allocated handle (some k) e =
      if not (k.magic_number == connection_magic_number)
      then (sql_invalid_handle, some k, e)
      else if in_use k.state
      then (
        sql_error,
        some (
            refuse allocated (codes "HY010")
              (codes "Cannot free connection: still connected. Call SQLDisconnect first.") k),
        e,
      )
      else if ltb 0 k.statement_count
      then (
        sql_error,
        some (
            refuse allocated (codes "HY010")
              (codes
                "Cannot free connection: statement handles still allocated. Free all statements first.")
              k),
        e,
      )
      else (sql_success, none, (environment_remove_connection e (some handle)).0)
