-- ===== src/Connection/Handle/Connect.antt =====
-- Connect and disconnect: `connection_connect`, `connection_disconnect` and the search for the "lo"
-- domain in src/connection.c.
use psqlodbc_new.Prelude.{
  ℕ, ◌/◌, ◌%◌, Bool, true, false, not, ◌&&◌, Option, none, some, ltb, ◌==◌, if◌then◌else◌, codes,
}
use psqlodbc_new.CLib.{strtoul, u32}
use psqlodbc_new.ConnectionString.Params.{connection_info_build_libpq_params}
use psqlodbc_new.TypeMapping.Catalog.{pg_type_oid}
use psqlodbc_new.Diagnostics.{diagnostics_clear}
use psqlodbc_new.Environment.{SqlReturn, sql_success, sql_error}
use psqlodbc_new.ErrorMapping.{error_add_diagnostic_from_connection}
use psqlodbc_new.Libpq.{Libpq}
use psqlodbc_new.Connection.{
  ConnectionState, not_connected, connected, broken, executing, OdbcConnection,
}
use psqlodbc_new.Connection.Handle.{max_bytes_per_char_for_encoding, refuse, in_use}

module _ (lib : Libpq) where
  abbrev pub oid_at : lib.PgResult → ℕ → ℕ
  oid_at result column = u32 (strtoul (lib.getvalue result 0 column) 10)

  abbrev pub with_type : OdbcConnection lib → ℕ → Bool → OdbcConnection lib
  with_type k oid is_domain = record k {
    large_object_type_oid = oid;
    large_object_is_domain = is_domain;
  }

  abbrev pub read_type : OdbcConnection lib → lib.PgResult → OdbcConnection lib
  read_type k result =
      if oid_at result 1 == pg_type_oid
      then with_type k (oid_at result 0) true
      else if oid_at result 1 == 0
      then with_type k (oid_at result 0) false
      else k

  abbrev pub looked_up : OdbcConnection lib → lib.PgConn × Option lib.PgResult → OdbcConnection lib
  looked_up k (link, none) = record k { libpq_connection = some link }
  looked_up k (link, some result) =
      if lib.tuples_ok result && ltb 0 (lib.ntuples result)
      then read_type (record k { libpq_connection = some link }) result
      else record k { libpq_connection = some link }

  -- On the link of a connection that was just made.
  unfoldable pub connection_lookup_large_object_type :
      OdbcConnection lib → lib.PgConn → OdbcConnection lib
  unfolding strtoul
  connection_lookup_large_object_type k link =
      looked_up k
        (lib.exec link (codes "SELECT oid, typbasetype FROM pg_type WHERE typname = 'lo'"))

  abbrev pub established : OdbcConnection lib → lib.PgConn → OdbcConnection lib
  established k link =
      connection_lookup_large_object_type
        (record k {
          libpq_connection = some link;
          state = connected;
          server_version_major = lib.server_version link / 10000;
          server_version_minor = lib.server_version link / 100 % 100;
          max_bytes_per_char = max_bytes_per_char_for_encoding (lib.client_encoding_name link);
        })
        link

  abbrev pub unsuccessful : Bool → OdbcConnection lib → Option lib.PgConn → OdbcConnection lib
  unsuccessful allocated k link = record k {
    diagnostics =
        error_add_diagnostic_from_connection lib allocated (diagnostics_clear k.diagnostics) link
          (some (codes "08001"));
    libpq_connection = none;
    state = not_connected;
  }

  abbrev pub connect_to :
      Bool → OdbcConnection lib → Option lib.PgConn → SqlReturn × OdbcConnection lib
  connect_to allocated k none = (sql_error, unsuccessful allocated k none)
  connect_to allocated k (some link) =
      if lib.connection_ok link
      then (sql_success, established k link)
      else (sql_error, unsuccessful allocated k (some link))

  abbrev pub connect_in :
      Bool → OdbcConnection lib → ConnectionState → SqlReturn × OdbcConnection lib
  connect_in allocated k connected = (
    sql_error,
    refuse lib allocated (codes "08002")
        (codes "Already connected. Disconnect before reconnecting.") k,
  )
  connect_in allocated k not_connected =
      connect_to allocated k (lib.connectdb_params (connection_info_build_libpq_params k.info))
  connect_in allocated k broken =
      connect_to allocated k (lib.connectdb_params (connection_info_build_libpq_params k.info))
  connect_in allocated k executing =
      connect_to allocated k (lib.connectdb_params (connection_info_build_libpq_params k.info))

  unfoldable pub connection_connect : Bool → OdbcConnection lib → SqlReturn × OdbcConnection lib
  unfolding connection_lookup_large_object_type connection_info_build_libpq_params
      error_add_diagnostic_from_connection diagnostics_clear max_bytes_per_char_for_encoding
  connection_connect allocated k = connect_in allocated k k.state

  unfoldable pub connection_disconnect : Bool → OdbcConnection lib → SqlReturn × OdbcConnection lib
  unfolding diagnostics_clear
  connection_disconnect allocated k =
      if not (in_use lib k.state)
      then (
        sql_error,
        refuse lib allocated (codes "08003") (codes "Cannot disconnect: not currently connected.")
            k,
      )
      else (
        sql_success,
        record k {
          libpq_connection = none;
          state = not_connected;
          server_version_major = 0;
          server_version_minor = 0;
          large_object_type_oid = 0;
          large_object_is_domain = false;
        },
      )
