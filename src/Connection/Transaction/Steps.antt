-- ===== src/Connection/Transaction/Steps.antt =====
-- Runs of the driver's transaction functions and of statements, and what they keep: the driver's
-- state agrees with the server's block.
use psqlodbc_new.Prelude.{◌≡◌, sym, Bool, some}
use mathlib.Core.Path.{subst}
use psqlodbc_new.Libpq.{Libpq}
use psqlodbc_new.Connection.{OdbcConnection}
use psqlodbc_new.Connection.Transaction.{
  at_link, connection_begin_transaction, connection_commit, connection_rollback,
  connection_ensure_transaction,
}
use psqlodbc_new.Connection.Transaction.Savepoint.{
  connection_begin_statement_savepoint, connection_handle_statement_error, mark_transaction_failed,
}
use psqlodbc_new.Connection.Transaction.Server.{after_error, Postgres}
use psqlodbc_new.Connection.Transaction.Cases.{Follows, FollowsLink, Agrees}
use psqlodbc_new.Connection.Transaction.Blocks.{
  begin-Agrees, ensure-Agrees, commit-Agrees, rollback-Agrees,
}
use psqlodbc_new.Connection.Transaction.Statements.{savepoint-Agrees, recover-Agrees, failed-Agrees}

module _ (lib : Libpq) (server : Postgres lib) where
  -- A call of the driver, or a statement of the application that is no command on transactions.
  pub data Step (allocated : Bool) : OdbcConnection lib → OdbcConnection lib → Type 0 where
    begins :
        (k : OdbcConnection lib) → Step allocated k (connection_begin_transaction lib allocated k).1
    ensures :
        (k : OdbcConnection lib)
        → Step allocated k (connection_ensure_transaction lib allocated k).1
    commits : (k : OdbcConnection lib) → Step allocated k (connection_commit lib allocated k).1
    rolls_back : (k : OdbcConnection lib) → Step allocated k (connection_rollback lib allocated k).1
    saves : (k : OdbcConnection lib) → Step allocated k (connection_begin_statement_savepoint lib k)
    recovers :
        (k : OdbcConnection lib)
        → Step allocated k (connection_handle_statement_error lib allocated k)
    runs :
        (k : OdbcConnection lib) (before after : lib.PgConn)
        → k.libpq_connection ≡ some before
        → server.status after ≡ server.status before
        → Step allocated k (at_link lib k after)
    fails :
        (k : OdbcConnection lib) (before after : lib.PgConn)
        → k.libpq_connection ≡ some before
        → server.status after ≡ after_error (server.status before)
        → Step allocated k (mark_transaction_failed lib (at_link lib k after))

  pub data Reach (allocated : Bool) (start : OdbcConnection lib) : OdbcConnection lib → Type 0 where
    here : Reach allocated start start
    next :
        {k l : OdbcConnection lib}
        → Reach allocated start k
        → Step allocated k l
        → Reach allocated start l

  at_before :
      (k : OdbcConnection lib) (before : lib.PgConn)
      → k.libpq_connection ≡ some before
      → Agrees lib server k
      → Follows k.transaction_state k.statement_savepoint_active (server.status before)
  at_before k before e h =
      subst (FollowsLink lib server k.transaction_state k.statement_savepoint_active) e h

  step-Agrees :
      (allocated : Bool) {k l : OdbcConnection lib}
      → Step allocated k l
      → Agrees lib server k
      → Agrees lib server l
  step-Agrees allocated (begins k) h = begin-Agrees lib server allocated k h
  step-Agrees allocated (ensures k) h = ensure-Agrees lib server allocated k h
  step-Agrees allocated (commits k) h = commit-Agrees lib server allocated k h
  step-Agrees allocated (rolls_back k) h = rollback-Agrees lib server allocated k h
  step-Agrees allocated (saves k) h = savepoint-Agrees lib server k h
  step-Agrees allocated (recovers k) h = recover-Agrees lib server allocated k h
  step-Agrees allocated (runs k before after e f) h =
      subst (Follows k.transaction_state k.statement_savepoint_active) (sym f)
        (at_before k before e h)
  step-Agrees allocated (fails k before after e f) h =
      failed-Agrees lib server k after (server.status before) (at_before k before e h) f

  -- With a server that keeps PostgreSQL's rules on blocks and savepoints: from a connection that
  -- agrees with it, such as one outside a block, every sequence of calls that begin, ensure, commit
  -- or roll back a transaction, take a statement's savepoint or handle its error, and of statements
  -- that succeed or fail and are no commands on transactions, leads to one that does.
  pub transactions_agree :
      (allocated : Bool) {start k : OdbcConnection lib}
      → Agrees lib server start
      → Reach allocated start k
      → Agrees lib server k
  transactions_agree allocated h here = h
  transactions_agree allocated h (next r s) =
      step-Agrees allocated s (transactions_agree allocated h r)
