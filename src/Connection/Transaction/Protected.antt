-- ===== src/Connection/Transaction/Protected.antt =====
-- Statements under the savepoint that the driver takes before each of them.
use psqlodbc_new.Prelude.{
  ℕ, suc, ◌≡◌, refl, sym, ap, ◌∙◌, inl, inr, Bool, true, false, some, Bool-cases,
}
use psqlodbc_new.Libpq.{Libpq, succeeds}
use psqlodbc_new.Connection.{active, OdbcConnection}
use psqlodbc_new.Connection.Transaction.{
  savepoint_command, release_and_savepoint_command, rollback_to_command, at_link,
  connection_effective_rollback_on_error,
}
use psqlodbc_new.Connection.Transaction.Savepoint.{
  rolls_back_statement, connection_begin_statement_savepoint, connection_handle_statement_error,
  mark_transaction_failed,
}
use psqlodbc_new.Connection.Transaction.Server.{
  in_block, aborted, savepoint, release_and_savepoint, rollback_to, after_error, Allowed, Postgres,
}

module _ (lib : Libpq) (server : Postgres lib) where
  -- A server that refuses no command on savepoints that its rules allow.
  pub record Accepts : Type 0 where
    pub takes :
        (link : lib.PgConn) (n : ℕ)
        → server.status link ≡ in_block n
        → succeeds lib (lib.exec link savepoint_command).1 ≡ true
    pub renews :
        (link : lib.PgConn) (n : ℕ)
        → server.status link ≡ in_block (suc n)
        → succeeds lib (lib.exec link release_and_savepoint_command).1 ≡ true
    pub rewinds :
        (link : lib.PgConn) (n : ℕ)
        → server.status link ≡ aborted (suc n)
        → succeeds lib (lib.exec link rollback_to_command).1 ≡ true

  abbrev pub savepoints : Bool → ℕ
  savepoints true = 1
  savepoints false = 0

  -- A transaction that goes on, for the driver and for the server, with the driver's savepoint as
  -- its flag says.
  pub record GoesOn (k : OdbcConnection lib) : Type 0 where
    pub is_active : k.transaction_state ≡ active
    pub statement_level : rolls_back_statement lib k ≡ true
    pub link : lib.PgConn
    pub linked : k.libpq_connection ≡ some link
    pub in_transaction : server.status link ≡ in_block (savepoints k.statement_savepoint_active)

  -- A statement that is no command on transactions, with the savepoint before it; behind a failure
  -- the mark and the handler of the error.
  pub data Runs (allocated : Bool) : OdbcConnection lib → OdbcConnection lib → Type 0 where
    succeeded :
        (k : OdbcConnection lib) (before after : lib.PgConn)
        → (connection_begin_statement_savepoint lib k).libpq_connection ≡ some before
        → server.status after ≡ server.status before
        → Runs allocated k (at_link lib (connection_begin_statement_savepoint lib k) after)
    failed_and_handled :
        (k : OdbcConnection lib) (before after : lib.PgConn)
        → (connection_begin_statement_savepoint lib k).libpq_connection ≡ some before
        → server.status after ≡ after_error (server.status before)
        → Runs allocated k (
            connection_handle_statement_error lib allocated (
              mark_transaction_failed lib
                (at_link lib (connection_begin_statement_savepoint lib k) after)))

  pub data RunsAll (allocated : Bool) (start : OdbcConnection lib)
      : OdbcConnection lib → Type 0 where
    none_yet : RunsAll allocated start start
    one_more :
        {k l : OdbcConnection lib}
        → RunsAll allocated start k
        → Runs allocated k l
        → RunsAll allocated start l

  -- Behind the savepoint that is taken before a statement.
  pub record IsSaved (k : OdbcConnection lib) : Type 0 where
    pub goes_on : GoesOn k
    pub saved : k.statement_savepoint_active ≡ true

  renew-IsSaved :
      (k : OdbcConnection lib)
      → Accepts
      → GoesOn k
      → k.statement_savepoint_active ≡ true
      → IsSaved (connection_begin_statement_savepoint lib k)
  unfolding connection_begin_statement_savepoint connection_effective_rollback_on_error
  renew-IsSaved k a h e =
      let status : server.status h.link ≡ in_block 1 = rw e at h.in_transaction in
      let ok = a.renews h.link 0 status in
      let after = (lib.exec h.link release_and_savepoint_command).0 in
      let law : Allowed release_and_savepoint (in_block 1) true (server.status after) =
        rw (status, ok) at (server.obeys h.link release_and_savepoint) in
      rw (h.linked, h.is_active, h.statement_level, e, ok)
        (record {
          goes_on = record {
            is_active = refl;
            statement_level = h.statement_level;
            link = after;
            linked = refl;
            in_transaction = law;
          };
          saved = refl;
        })

  take-IsSaved :
      (k : OdbcConnection lib)
      → Accepts
      → GoesOn k
      → k.statement_savepoint_active ≡ false
      → IsSaved (connection_begin_statement_savepoint lib k)
  unfolding connection_begin_statement_savepoint connection_effective_rollback_on_error
  take-IsSaved k a h e =
      let status : server.status h.link ≡ in_block 0 = rw e at h.in_transaction in
      let ok = a.takes h.link 0 status in
      let after = (lib.exec h.link savepoint_command).0 in
      let law : Allowed savepoint (in_block 0) true (server.status after) =
        rw (status, ok) at (server.obeys h.link savepoint) in
      rw (h.linked, h.is_active, h.statement_level, e, ok)
        (record {
          goes_on = record {
            is_active = refl;
            statement_level = h.statement_level;
            link = after;
            linked = refl;
            in_transaction = law;
          };
          saved = refl;
        })

  save-IsSaved :
      (k : OdbcConnection lib)
      → Accepts
      → GoesOn k
      → IsSaved (connection_begin_statement_savepoint lib k)
  save-IsSaved k a h = elim (Bool-cases k.statement_savepoint_active) [
    | inl e ↦ renew-IsSaved k a h e
    | inr e ↦ take-IsSaved k a h e
  ]

  -- The status at the link that a statement runs on.
  status_saved :
      (k : OdbcConnection lib) (before : lib.PgConn)
      → IsSaved k
      → k.libpq_connection ≡ some before
      → server.status before ≡ in_block 1
  status_saved k before s e =
      let same : s.goes_on.link ≡ before = cc (sym s.goes_on.linked ∙ e) in
      let status : server.status s.goes_on.link ≡ in_block 1 =
        rw s.saved at s.goes_on.in_transaction in
      rw same at status

  handled-GoesOn :
      (allocated : Bool) (k : OdbcConnection lib) (after : lib.PgConn)
      → Accepts
      → IsSaved k
      → server.status after ≡ aborted 1
      → GoesOn (
          connection_handle_statement_error lib allocated
            (mark_transaction_failed lib (at_link lib k after)))
  unfolding connection_handle_statement_error mark_transaction_failed
      connection_effective_rollback_on_error
  handled-GoesOn allocated k after a s e =
      let ok = a.rewinds after 0 e in
      let law : Allowed rollback_to (aborted 1) true
          (server.status (lib.exec after rollback_to_command).0) =
        rw (e, ok) at (server.obeys after rollback_to) in
      rw (s.goes_on.is_active, s.goes_on.statement_level, s.saved, ok)
        (record {
          is_active = refl;
          statement_level = s.goes_on.statement_level;
          link = (lib.exec after rollback_to_command).0;
          linked = refl;
          in_transaction = law;
        })

  Runs-GoesOn :
      (allocated : Bool) {k l : OdbcConnection lib}
      → Accepts
      → Runs allocated k l
      → GoesOn k
      → GoesOn l
  unfolding connection_effective_rollback_on_error
  Runs-GoesOn allocated a (succeeded k before after e f) h =
      let s = save-IsSaved k a h in
      record {
        is_active = s.goes_on.is_active;
        statement_level = s.goes_on.statement_level;
        link = after;
        linked = refl;
        in_transaction =
            rw s.saved (f ∙ status_saved (connection_begin_statement_savepoint lib k) before s e);
      }
  Runs-GoesOn allocated a (failed_and_handled k before after e f) h =
      let s = save-IsSaved k a h in
      let status = status_saved (connection_begin_statement_savepoint lib k) before s e in
      handled-GoesOn allocated (connection_begin_statement_savepoint lib k) after a s
        (f ∙ ap after_error status)

  -- With statement-level rollback in force, and a server that keeps PostgreSQL's rules and refuses
  -- no command on savepoints that they allow: from a transaction that goes on, after any sequence of
  -- statements that succeed or fail, each with the savepoint before it and, behind a failure, the
  -- mark and the handler of the error, the transaction goes on. The driver holds it for active, the
  -- server is within the block and not in an aborted one, and no more than one savepoint stands.
  pub statements_recover :
      (allocated : Bool) {start k : OdbcConnection lib}
      → Accepts
      → RunsAll allocated start k
      → GoesOn start
      → GoesOn k
  statements_recover allocated a none_yet h = h
  statements_recover allocated a (one_more rest r) h =
      Runs-GoesOn allocated a r (statements_recover allocated a rest h)
