-- ===== src/Connection/Transaction/Recovery.antt =====
-- What the agreement gives: one savepoint at most.
use psqlodbc_new.Prelude.{ℕ, ◌≤◌, ◌≡◌, Bool, true, false, some, arith}
use mathlib.Core.Path.{subst}
use psqlodbc_new.Libpq.{Libpq}
use psqlodbc_new.Connection.{TransactionState, idle, active, failed, OdbcConnection}
use psqlodbc_new.Connection.Transaction.Server.{BlockStatus, outside, in_block, aborted, Postgres}
use psqlodbc_new.Connection.Transaction.Cases.{Follows, FollowsLink, Agrees}
use psqlodbc_new.Connection.Transaction.Steps.{Reach, transactions_agree}

-- The standing savepoints of the driver.
abbrev pub standing : BlockStatus → ℕ
standing outside = 0
standing (in_block n) = n
standing (aborted n) = n

Follows-standing :
    (state : TransactionState) (flag : Bool) (s : BlockStatus)
    → Follows state flag s
    → standing s ≤ 1
Follows-standing idle flag outside f = omega arith
Follows-standing idle flag (in_block n) f = absurd f
Follows-standing idle flag (aborted n) f = absurd f
Follows-standing active flag outside f = absurd f
Follows-standing active true (in_block n) f = omega arith
Follows-standing active false (in_block n) f = omega arith
Follows-standing active true (aborted n) f = absurd f
Follows-standing active false (aborted n) f = f
Follows-standing failed flag outside f = absurd f
Follows-standing failed flag (in_block n) f = absurd f
Follows-standing failed true (aborted n) f = omega arith
Follows-standing failed false (aborted n) f = f

module _ (lib : Libpq) (server : Postgres lib) where
  -- With a server that keeps PostgreSQL's rules on blocks and savepoints: from a connection that
  -- agrees with it, by any sequence of calls that begin, ensure, commit or roll back a transaction,
  -- take a statement's savepoint or handle its error, and of statements that succeed or fail and
  -- are no commands on transactions, there is never more than one savepoint standing on the server.
  pub one_savepoint :
      (allocated : Bool) (start k : OdbcConnection lib) (link : lib.PgConn)
      → Agrees lib server start
      → Reach lib server allocated start k
      → k.libpq_connection ≡ some link
      → standing (server.status link) ≤ 1
  one_savepoint allocated start k link h r e =
      Follows-standing k.transaction_state k.statement_savepoint_active (server.status link) (
        subst (FollowsLink lib server k.transaction_state k.statement_savepoint_active) e
          (transactions_agree lib server allocated h r))
