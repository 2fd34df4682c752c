-- ===== src/Connection/Handle/Life.antt =====
-- The life of a connection: its state, its link and its results go together.
use psqlodbc_new.Prelude.{
  ℕ, ◌/◌, ◌%◌, ◌≡◌, refl, sym, inl, inr, Bool, true, false, ◌&&◌, Option, none, some, ltb, ◌==◌,
  if◌then◌else◌, Bool-cases, Bytes, codes,
}
use mathlib.Core.Path.{subst}
use psqlodbc_new.ConnectionString.Params.{connection_info_build_libpq_params}
use psqlodbc_new.TypeMapping.Catalog.{pg_type_oid}
use psqlodbc_new.Diagnostics.{record_count, diagnostics_clear, diagnostics_add_record}
use psqlodbc_new.Environment.{SqlReturn, sql_success, sql_error}
use psqlodbc_new.ErrorMapping.{error_add_diagnostic_from_connection, error_extract_from_connection}
use psqlodbc_new.Libpq.{Libpq}
use psqlodbc_new.Connection.{
  ConnectionState, not_connected, connected, broken, executing, OdbcConnection,
}
use psqlodbc_new.Connection.Handle.{max_bytes_per_char_for_encoding, refuse, in_use, new_connection}
use psqlodbc_new.Connection.Handle.Connect.{
  connection_connect, connection_disconnect, connect_in, connect_to, established, unsuccessful,
  looked_up, read_type, oid_at, connection_lookup_large_object_type,
}

abbrev pub LinkedIn {ℓ} : {A : Type ℓ} → ConnectionState → Option A → Type 0
LinkedIn connected none = ⊥
LinkedIn connected (some link) = Unit {0}
LinkedIn executing none = ⊥
LinkedIn executing (some link) = Unit {0}
LinkedIn not_connected none = Unit {0}
LinkedIn not_connected (some link) = ⊥
LinkedIn broken link = Unit {0}

module _ (lib : Libpq) where
  -- There is a link exactly in the states in which the connection is in use.
  abbrev pub IsLinked : OdbcConnection lib → Type 0
  IsLinked k = LinkedIn k.state k.libpq_connection

  -- A connection that is made.
  abbrev IsMade : OdbcConnection lib → Type 0
  IsMade k = (k.state ≡ connected) × IsLinked k

  read_type-IsMade :
      (k : OdbcConnection lib) (result : lib.PgResult) → IsMade k → IsMade (read_type lib k result)
  read_type-IsMade k result h =
      pick (oid_at lib result 1 == pg_type_oid) _ _ h (pick (oid_at lib result 1 == 0) _ _ h h)
    where
      pick :
          (b : Bool) (l m : OdbcConnection lib) → IsMade l → IsMade m → IsMade (if b then l else m)
      pick true l m h k = h
      pick false l m h k = k

  looked_up-IsMade :
      (k : OdbcConnection lib) (r : lib.PgConn × Option lib.PgResult)
      → k.state ≡ connected
      → IsMade (looked_up lib k r)
  looked_up-IsMade k (link, none) e = (e, subst (λ s. LinkedIn s (some link)) (sym e) tt)
  looked_up-IsMade k (link, some result) e = go (lib.tuples_ok result && ltb 0 (lib.ntuples result))
    where
      made : IsMade (record k { libpq_connection = some link })
      made = (e, subst (λ s. LinkedIn s (some link)) (sym e) tt)

      go :
          (b : Bool)
          → IsMade (
              if b
              then read_type lib (record k { libpq_connection = some link }) result
              else record k { libpq_connection = some link })
      go true = read_type-IsMade (record k { libpq_connection = some link }) result made
      go false = made

  -- What a connect and a disconnect promise: after success the state is the wanted one, after an
  -- error there is exactly one diagnostic record, and the link goes with the state either way.
  abbrev pub Ends : ConnectionState → SqlReturn × OdbcConnection lib → Type 0
  Ends wanted (sql_success, k) = (k.state ≡ wanted) × IsLinked k
  Ends wanted (sql_error, k) = (record_count k.diagnostics ≡ 1) × IsLinked k
  Ends wanted (other, k) = ⊥

  unsuccessful-count :
      (allocated : Bool) (k : OdbcConnection lib) (link : Option lib.PgConn)
      → record_count (unsuccessful lib allocated k link).diagnostics ≡ 1
  unfolding error_add_diagnostic_from_connection error_extract_from_connection
      diagnostics_add_record diagnostics_clear
  unsuccessful-count allocated k link = refl

  established-IsMade :
      (k : OdbcConnection lib) (link : lib.PgConn) → IsMade (established lib k link)
  unfolding connection_lookup_large_object_type
  established-IsMade k link =
      looked_up-IsMade
        (record k {
          libpq_connection = some link;
          state = connected;
          server_version_major = lib.server_version link / 10000;
          server_version_minor = lib.server_version link / 100 % 100;
          max_bytes_per_char = max_bytes_per_char_for_encoding (lib.client_encoding_name link);
        })
        (lib.exec link (codes "SELECT oid, typbasetype FROM pg_type WHERE typname = 'lo'")) refl

  connect_to-Ends :
      (allocated : Bool) (k : OdbcConnection lib) (link : Option lib.PgConn)
      → Ends connected (connect_to lib allocated k link)
  connect_to-Ends allocated k none = (unsuccessful-count allocated k none, tt)
  connect_to-Ends allocated k (some link) = elim (Bool-cases (lib.connection_ok link)) [
    | inl h ↦ rw h (established-IsMade k link)
    | inr h ↦ rw h (unsuccessful-count allocated k (some link), tt)
  ]

  refuse-count :
      (allocated : Bool) (a b : Bytes) (k : OdbcConnection lib)
      → record_count (refuse lib allocated a b k).diagnostics ≡ 1
  unfolding diagnostics_add_record diagnostics_clear
  refuse-count allocated a b k = refl

  connect-Ends :
      (allocated : Bool) (k : OdbcConnection lib)
      → IsLinked k
      → Ends connected (connection_connect lib allocated k)
  unfolding connection_connect
  connect-Ends allocated k h = go k.state
    where
      go : (s : ConnectionState) → Ends connected (connect_in lib allocated k s)
      go connected = (
        refuse-count allocated (codes "08002")
            (codes "Already connected. Disconnect before reconnecting.") k,
        h,
      )
      go not_connected =
          connect_to-Ends allocated k
            (lib.connectdb_params (connection_info_build_libpq_params k.info))
      go broken =
          connect_to-Ends allocated k
            (lib.connectdb_params (connection_info_build_libpq_params k.info))
      go executing =
          connect_to-Ends allocated k
            (lib.connectdb_params (connection_info_build_libpq_params k.info))

  disconnect-Ends :
      (allocated : Bool) (k : OdbcConnection lib)
      → IsLinked k
      → Ends not_connected (connection_disconnect lib allocated k)
  unfolding connection_disconnect
  disconnect-Ends allocated k h = elim (Bool-cases (in_use lib k.state)) [
    | inl e ↦ rw e (refl, tt)
    | inr e ↦ rw e (
      refuse-count allocated (codes "08003") (codes "Cannot disconnect: not currently connected.")
          k,
      h,
    )
  ]

  -- A new connection has no link. Of a connection whose link goes with its state: connecting ends
  -- in the connected state with a link, disconnecting in the state that is not connected without
  -- one, or else the call returns SQL_ERROR with exactly one diagnostic record, and the link goes
  -- with the state again.
  pub connection_life :
      (allocated : Bool) (environment : ℕ) (k : OdbcConnection lib)
      → IsLinked k
      → IsLinked (new_connection lib environment)
        × Ends connected (connection_connect lib allocated k)
        × Ends not_connected (connection_disconnect lib allocated k)
  connection_life allocated environment k h =
      (tt, connect-Ends allocated k h, disconnect-Ends allocated k h)
