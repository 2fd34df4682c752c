-- ===== src/Connection/Handle/Stale.antt =====
-- What a disconnect leaves of the transaction.
use psqlodbc_new.Prelude.{
  ◌/◌, ◌%◌, ◌≡◌, refl, ◌∙◌, Bool, true, false, ◌&&◌, Option, none, some, ltb, ◌==◌, if◌then◌else◌,
  codes,
}
use psqlodbc_new.ConnectionString.Params.{connection_info_build_libpq_params}
use psqlodbc_new.TypeMapping.Catalog.{pg_type_oid}
use psqlodbc_new.Environment.{sql_success}
use psqlodbc_new.Libpq.{Libpq}
use psqlodbc_new.Connection.{connected, active, OdbcConnection}
use psqlodbc_new.Connection.Handle.{in_use, max_bytes_per_char_for_encoding}
use psqlodbc_new.Connection.Handle.Connect.{
  connection_connect, connection_disconnect, established, looked_up, oid_at,
  connection_lookup_large_object_type,
}
use psqlodbc_new.Connection.Transaction.{connection_ensure_transaction}

module _ (lib : Libpq) where
  -- The part of the state that a connect leaves alone.
  abbrev Same : OdbcConnection lib → OdbcConnection lib → Type 0
  Same k l = (l.transaction_state ≡ k.transaction_state) × (l.autocommit ≡ k.autocommit)

  pick :
      (k : OdbcConnection lib) (b : Bool) (l m : OdbcConnection lib)
      → Same k l
      → Same k m
      → Same k (if b then l else m)
  pick k true l m h g = h
  pick k false l m h g = g

  looked_up-Same :
      (k : OdbcConnection lib) (r : lib.PgConn × Option lib.PgResult) → Same k (looked_up lib k r)
  looked_up-Same k (link, none) = (refl, refl)
  looked_up-Same k (link, some result) =
      pick k (lib.tuples_ok result && ltb 0 (lib.ntuples result)) _ _
        (pick k (oid_at lib result 1 == pg_type_oid) _ _ (refl, refl)
          (pick k (oid_at lib result 1 == 0) _ _ (refl, refl) (refl, refl)))
        (refl, refl)

  established-Same : (k : OdbcConnection lib) (link : lib.PgConn) → Same k (established lib k link)
  unfolding connection_lookup_large_object_type
  established-Same k link =
      looked_up-Same
        (record k {
          libpq_connection = some link;
          state = connected;
          server_version_major = lib.server_version link / 10000;
          server_version_minor = lib.server_version link / 100 % 100;
          max_bytes_per_char = max_bytes_per_char_for_encoding (lib.client_encoding_name link);
        })
        (lib.exec link (codes "SELECT oid, typbasetype FROM pg_type WHERE typname = 'lo'"))

  ensure_active :
      (allocated : Bool) (k : OdbcConnection lib)
      → k.autocommit ≡ false
      → k.transaction_state ≡ active
      → connection_ensure_transaction lib allocated k ≡ (sql_success, k)
  unfolding connection_ensure_transaction
  ensure_active allocated k off is_open = rw (off, is_open) refl

  -- On a connection in use with autocommit off and an active transaction, where libpq makes a new
  -- link: after a disconnect and a connect, which succeed, the driver still has its transaction
  -- for active, so that the call before the next statement succeeds without beginning a block.
  pub transaction_outlives_disconnect :
      (allocated : Bool) (k : OdbcConnection lib) (link : lib.PgConn)
      → in_use lib k.state ≡ true
      → k.autocommit ≡ false
      → k.transaction_state ≡ active
      → lib.connectdb_params (connection_info_build_libpq_params k.info) ≡ some link
      → lib.connection_ok link ≡ true
      → (again : OdbcConnection lib) × (connection_connect lib allocated
            (connection_disconnect lib allocated k).1
          ≡ (sql_success, again))
        × (again.transaction_state ≡ active)
        × (connection_ensure_transaction lib allocated again ≡ (sql_success, again))
  unfolding connection_connect connection_disconnect
  transaction_outlives_disconnect allocated k link used off is_open made ok =
      let cut = (connection_disconnect lib allocated k).1 in
      let again = established lib cut link in
      let same : Same cut again = established-Same cut link in
      let kept : Same k cut = rw used (refl, refl) in
      let still : again.transaction_state ≡ active = same.0 ∙ kept.0 ∙ is_open in
      let manual : again.autocommit ≡ false = same.1 ∙ kept.1 ∙ off in
      (again, rw (used, made, ok) refl, still, ensure_active allocated again manual still)
