-- ===== src/Libpq.antt =====
-- What the driver takes from libpq, which is not part of the repository: a connection as a value
-- that each command changes, and results with their error fields. A NULL result or text is `none`.
use psqlodbc_new.ConnectionString.Params.{Param}
use psqlodbc_new.Prelude.{ℕ, Bool, false, Option, none, some, List, Bytes}

pub data ErrorField : Type 0 where
  pg_diag_sqlstate pg_diag_severity pg_diag_severity_nonlocalized : ErrorField
  pg_diag_message_primary pg_diag_message_detail pg_diag_statement_position : ErrorField

pub record Libpq : Type 1 where
  pub PgConn : Type 0
  pub PgResult : Type 0
  pub exec : PgConn → Bytes → PgConn × Option PgResult  -- PQexec
  pub command_ok : PgResult → Bool  -- PQresultStatus is PGRES_COMMAND_OK
  pub result_error_field : PgResult → ErrorField → Option Bytes  -- PQresultErrorField
  pub result_error_message : PgResult → Option Bytes  -- PQresultErrorMessage
  pub error_message : PgConn → Option Bytes  -- PQerrorMessage
  pub connectdb_params : List Param → Option PgConn  -- PQconnectdbParams, with expand_dbname 0
  pub connection_ok : PgConn → Bool  -- PQstatus is CONNECTION_OK
  pub parameter_status : PgConn → Bytes → Option Bytes  -- PQparameterStatus
  pub server_version : PgConn → ℕ  -- PQserverVersion
  pub client_encoding_name : PgConn → Option Bytes  -- pg_encoding_to_char of PQclientEncoding
  pub tuples_ok : PgResult → Bool  -- PQresultStatus is PGRES_TUPLES_OK
  pub ntuples : PgResult → ℕ  -- PQntuples
  pub getvalue : PgResult → ℕ → ℕ → Bytes  -- PQgetvalue

-- There is a result, and its status is PGRES_COMMAND_OK.
abbrev pub succeeds : (lib : Libpq) → Option lib.PgResult → Bool
succeeds lib none = false
succeeds lib (some result) = lib.command_ok result
