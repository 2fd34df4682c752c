-- ===== src/Connection/Transaction/Statements.antt =====
-- The savepoint of a statement, the recovery from its error and the mark of an error keep the
-- agreement with the server.
use psqlodbc_new.Prelude.{
  ◌≡◌, refl, sym, Bool, true, false, ◌&&◌, Option, none, some, if◌then◌else◌,
}
use mathlib.Core.Path.{subst}
use psqlodbc_new.Libpq.{Libpq, succeeds}
use psqlodbc_new.Connection.{TransactionState, idle, active, failed, OdbcConnection}
use psqlodbc_new.Connection.Transaction.{
  to_transaction_state, with_savepoint, at_link, savepoint_command, release_and_savepoint_command,
  rollback_to_command, connection_rollback, connection_effective_rollback_on_error, equal_ℤ,
  rollback_on_error_transaction,
}
use psqlodbc_new.Connection.Transaction.Savepoint.{
  is_active, is_failed, plain_savepoint, savepoint_or_plain, new_savepoint, savepoint_at, rewound,
  recover, recover_at, rolls_back_statement, connection_begin_statement_savepoint,
  connection_handle_statement_error, mark_transaction_failed,
}
use psqlodbc_new.Connection.Transaction.Server.{
  BlockStatus, savepoint, release_and_savepoint, rollback_to, after_error, Allowed, Postgres,
}
use psqlodbc_new.Connection.Transaction.Cases.{
  Follows, FollowsLink, Agrees, savepoint_case, release_case, rollback_to_case, error_case,
}
use psqlodbc_new.Connection.Transaction.Blocks.{rollback-Agrees}

module _ (lib : Libpq) (server : Postgres lib) where
  plain-Agrees :
      (k : OdbcConnection lib) (before : BlockStatus) (r : lib.PgConn × Option lib.PgResult)
      → k.transaction_state ≡ active
      → Follows active false before
      → Allowed savepoint before (succeeds lib r.1) (server.status r.0)
      → Agrees lib server (plain_savepoint lib k r)
  plain-Agrees k before (link, result) e f a =
      rw e (savepoint_case before (server.status link) (succeeds lib result) f a)

  -- A savepoint command that succeeds leaves exactly one savepoint; after a failed one the plain
  -- command is tried.
  or_plain-Agrees :
      (k : OdbcConnection lib) (r : lib.PgConn × Option lib.PgResult)
      → k.transaction_state ≡ active
      → Follows active (succeeds lib r.1) (server.status r.0)
      → Agrees lib server (savepoint_or_plain lib k r)
  or_plain-Agrees k (link, none) e f =
      plain-Agrees k (server.status link) (lib.exec link savepoint_command) e f
        (server.obeys link savepoint)
  or_plain-Agrees k (link, some result) e f = go (lib.command_ok result) f
    where
      go :
          (ok : Bool)
          → Follows active ok (server.status link)
          → Agrees lib server (
              if ok
              then with_savepoint lib true (at_link lib k link)
              else plain_savepoint lib k (lib.exec link savepoint_command))
      go true f = rw e f
      go false f =
          plain-Agrees k (server.status link) (lib.exec link savepoint_command) e f
            (server.obeys link savepoint)

  new_savepoint-Agrees :
      (k : OdbcConnection lib) (link : lib.PgConn)
      → k.transaction_state ≡ active
      → Follows active k.statement_savepoint_active (server.status link)
      → Agrees lib server (new_savepoint lib k link)
  new_savepoint-Agrees k link e f = go k.statement_savepoint_active f
    where
      go :
          (flag : Bool)
          → Follows active flag (server.status link)
          → Agrees lib server (
              savepoint_or_plain lib k
                (lib.exec link (if flag then release_and_savepoint_command else savepoint_command)))
      go true f =
          let r = lib.exec link release_and_savepoint_command in
          or_plain-Agrees k r e (
            release_case (server.status link) (server.status r.0) (succeeds lib r.1) f
              (server.obeys link release_and_savepoint))
      go false f =
          let r = lib.exec link savepoint_command in
          or_plain-Agrees k r e (
            savepoint_case (server.status link) (server.status r.0) (succeeds lib r.1) f
              (server.obeys link savepoint))

  pub savepoint-Agrees :
      (k : OdbcConnection lib)
      → Agrees lib server k
      → Agrees lib server (connection_begin_statement_savepoint lib k)
  unfolding connection_begin_statement_savepoint
  savepoint-Agrees k h = go k.libpq_connection h
    where
      at :
          (s : TransactionState) (b : Bool) (link : lib.PgConn)
          → k.transaction_state ≡ s
          → Follows s k.statement_savepoint_active (server.status link)
          → Agrees lib server (if is_active s && b then new_savepoint lib k link else k)
      at idle b link e f = h
      at failed b link e f = h
      at active true link e f = new_savepoint-Agrees k link e f
      at active false link e f = h

      go :
          (m : Option lib.PgConn)
          → FollowsLink lib server k.transaction_state k.statement_savepoint_active m
          → Agrees lib server (savepoint_at lib k m)
      go none f = h
      go (some link) f = at k.transaction_state (rolls_back_statement lib k) link refl f

  rewound-Agrees :
      (k : OdbcConnection lib) (before : BlockStatus) (r : lib.PgConn × Option lib.PgResult)
      → k.transaction_state ≡ failed
      → k.statement_savepoint_active ≡ true
      → Follows failed true before
      → Allowed rollback_to before (succeeds lib r.1) (server.status r.0)
      → Agrees lib server (rewound lib k r)
  rewound-Agrees k before (link, none) e g f a =
      rw (e, g) (rollback_to_case before (server.status link) false f a)
  rewound-Agrees k before (link, some result) e g f a =
      go (lib.command_ok result)
        (rollback_to_case before (server.status link) (lib.command_ok result) f a)
    where
      go :
          (ok : Bool)
          → (if ok
              then Follows active true (server.status link)
              else Follows failed true (server.status link))
          → Agrees lib server (
              if ok
              then to_transaction_state lib active (at_link lib k link)
              else at_link lib k link)
      go true f = subst (λ b. Follows active b (server.status link)) (sym g) f
      go false f = rw (e, g) f

  pub recover-Agrees :
      (allocated : Bool) (k : OdbcConnection lib)
      → Agrees lib server k
      → Agrees lib server (connection_handle_statement_error lib allocated k)
  unfolding connection_handle_statement_error
  recover-Agrees allocated k h = go k.libpq_connection h
    where
      otherwise :
          (b : Bool) → Agrees lib server (if b then (connection_rollback lib allocated k).1 else k)
      otherwise true = rollback-Agrees lib server allocated k h
      otherwise false = h

      rewinds :
          (b flag : Bool) (link : lib.PgConn)
          → k.transaction_state ≡ failed
          → k.statement_savepoint_active ≡ flag
          → Follows failed flag (server.status link)
          → Agrees lib server (
              if b && flag
              then rewound lib k (lib.exec link rollback_to_command)
              else if equal_ℤ
                  (connection_effective_rollback_on_error lib k)
                  rollback_on_error_transaction
              then (connection_rollback lib allocated k).1
              else k)
      rewinds false flag link e g f =
          otherwise
            (equal_ℤ (connection_effective_rollback_on_error lib k) rollback_on_error_transaction)
      rewinds true false link e g f =
          otherwise
            (equal_ℤ (connection_effective_rollback_on_error lib k) rollback_on_error_transaction)
      rewinds true true link e g f =
          rewound-Agrees k (server.status link) (lib.exec link rollback_to_command) e g f
            (server.obeys link rollback_to)

      at :
          (s : TransactionState) (link : lib.PgConn)
          → k.transaction_state ≡ s
          → Follows s k.statement_savepoint_active (server.status link)
          → Agrees lib server (if is_failed s then recover lib allocated k link else k)
      at idle link e f = h
      at active link e f = h
      at failed link e f =
          rewinds (rolls_back_statement lib k) k.statement_savepoint_active link e refl f

      go :
          (m : Option lib.PgConn)
          → FollowsLink lib server k.transaction_state k.statement_savepoint_active m
          → Agrees lib server (recover_at lib allocated k m)
      go none f = h
      go (some link) f = at k.transaction_state link refl f

  pub failed-Agrees :
      (k : OdbcConnection lib) (after : lib.PgConn) (before : BlockStatus)
      → Follows k.transaction_state k.statement_savepoint_active before
      → server.status after ≡ after_error before
      → Agrees lib server (mark_transaction_failed lib (at_link lib k after))
  unfolding mark_transaction_failed
  failed-Agrees k after before f e = go k.transaction_state refl (
      subst
        (Follows (if is_active k.transaction_state then failed else k.transaction_state)
          k.statement_savepoint_active)
        (sym e) (error_case k.transaction_state k.statement_savepoint_active before f))
    where
      go :
          (s : TransactionState)
          → k.transaction_state ≡ s
          → Follows
              (if is_active s then failed else s)
              k.statement_savepoint_active
              (server.status after)
          → Agrees lib server (
              if is_active s
              then to_transaction_state lib failed (at_link lib k after)
              else at_link lib k after)
      go idle e f = rw e f
      go active e f = f
      go failed e f = rw e f
