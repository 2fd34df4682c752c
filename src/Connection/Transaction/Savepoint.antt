-- ===== src/Connection/Transaction/Savepoint.antt =====
-- The savepoint before each statement, and what follows a statement's error: src/connection.c, and
-- the transaction's part of src/statement.c.
use psqlodbc_new.Prelude.{Bool, true, false, not, ◌&&◌, Option, none, some, if◌then◌else◌}
use psqlodbc_new.Libpq.{Libpq, succeeds}
use psqlodbc_new.Connection.{TransactionState, idle, active, failed, OdbcConnection}
use psqlodbc_new.Connection.Transaction.{
  rollback_on_error_transaction, rollback_on_error_statement, equal_ℤ, savepoint_command,
  release_and_savepoint_command, rollback_to_command, to_transaction_state, with_savepoint, at_link,
  connection_commit, connection_rollback, connection_effective_rollback_on_error,
}

abbrev pub is_active : TransactionState → Bool
is_active active = true
is_active _ = false

abbrev pub is_idle : TransactionState → Bool
is_idle idle = true
is_idle _ = false

abbrev pub is_failed : TransactionState → Bool
is_failed failed = true
is_failed _ = false

module _ (lib : Libpq) where
  abbrev pub rolls_back_statement : OdbcConnection lib → Bool
  rolls_back_statement k =
      equal_ℤ (connection_effective_rollback_on_error lib k) rollback_on_error_statement

  abbrev pub plain_savepoint :
      OdbcConnection lib → lib.PgConn × Option lib.PgResult → OdbcConnection lib
  plain_savepoint k (link, result) = with_savepoint lib (succeeds lib result) (at_link lib k link)

  abbrev pub savepoint_or_plain :
      OdbcConnection lib → lib.PgConn × Option lib.PgResult → OdbcConnection lib
  savepoint_or_plain k (link, result) =
      if succeeds lib result
      then with_savepoint lib true (at_link lib k link)
      else plain_savepoint k (lib.exec link savepoint_command)

  abbrev pub new_savepoint : OdbcConnection lib → lib.PgConn → OdbcConnection lib
  new_savepoint k link = savepoint_or_plain k (
      lib.exec link
        (if k.statement_savepoint_active then release_and_savepoint_command else savepoint_command))

  abbrev pub savepoint_at : OdbcConnection lib → Option lib.PgConn → OdbcConnection lib
  savepoint_at k none = k
  savepoint_at k (some link) =
      if is_active k.transaction_state && rolls_back_statement k then new_savepoint k link else k

  unfoldable pub connection_begin_statement_savepoint : OdbcConnection lib → OdbcConnection lib
  unfolding connection_effective_rollback_on_error
  connection_begin_statement_savepoint k = savepoint_at k k.libpq_connection

  abbrev pub rewound : OdbcConnection lib → lib.PgConn × Option lib.PgResult → OdbcConnection lib
  rewound k (link, result) =
      if succeeds lib result
      then to_transaction_state lib active (at_link lib k link)
      else at_link lib k link

  abbrev pub recover : Bool → OdbcConnection lib → lib.PgConn → OdbcConnection lib
  recover allocated k link =
      if rolls_back_statement k && k.statement_savepoint_active
      then rewound k (lib.exec link rollback_to_command)
      else if equal_ℤ (connection_effective_rollback_on_error lib k) rollback_on_error_transaction
      then (connection_rollback lib allocated k).1
      else k

  abbrev pub recover_at : Bool → OdbcConnection lib → Option lib.PgConn → OdbcConnection lib
  recover_at allocated k none = k
  recover_at allocated k (some link) =
      if is_failed k.transaction_state then recover allocated k link else k

  unfoldable pub connection_handle_statement_error : Bool → OdbcConnection lib → OdbcConnection lib
  unfolding connection_effective_rollback_on_error connection_rollback
  connection_handle_statement_error allocated k = recover_at allocated k k.libpq_connection

  -- The mark that a fatal error leaves on the connection.
  unfoldable pub mark_transaction_failed : OdbcConnection lib → OdbcConnection lib
  mark_transaction_failed k =
      if is_active k.transaction_state then to_transaction_state lib failed k else k

  unfoldable pub statement_commit_large_object_transaction :
      Bool → OdbcConnection lib → OdbcConnection lib
  unfolding connection_commit
  statement_commit_large_object_transaction allocated k =
      if k.autocommit && is_active k.transaction_state
      then (connection_commit lib allocated k).1
      else k

  unfoldable pub statement_rollback_large_object_transaction :
      Bool → OdbcConnection lib → OdbcConnection lib
  unfolding connection_rollback
  statement_rollback_large_object_transaction allocated k =
      if k.autocommit && not (is_idle k.transaction_state)
      then (connection_rollback lib allocated k).1
      else k
