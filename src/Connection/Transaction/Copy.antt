-- ===== src/Connection/Transaction/Copy.antt =====
-- The abort of a COPY: `connection_abort_active_copy` of src/connection.c. The calls of libpq for it
-- are parameters; how often each loop goes round is up to the server, so the loops run on fuel, and
-- `none` is what spent fuel gives.
use psqlodbc_new.Prelude.{
  ℕ, zero, suc, Bool, true, false, Option, none, some, if◌then◌else◌, Bytes, codes,
}
use psqlodbc_new.Libpq.{Libpq}
use psqlodbc_new.Connection.{OdbcConnection}
use psqlodbc_new.Connection.Transaction.{at_link}
use psqlodbc_new.Connection.Transaction.Savepoint.{mark_transaction_failed}

-- The status of the result that began the COPY, or another.
pub data CopyStatus : Type 0 where
  copy_in copy_out copy_both no_copy : CopyStatus

pub record CopyCalls (lib : Libpq) : Type 0 where
  pub put_copy_end : lib.PgConn → Bytes → lib.PgConn  -- PQputCopyEnd
  pub get_copy_data : lib.PgConn → lib.PgConn × Bool  -- PQgetCopyData, and whether it gave a row
  pub get_result : lib.PgConn → lib.PgConn × Option lib.PgResult  -- PQgetResult
  pub is_fatal : lib.PgResult → Bool  -- PQresultStatus is PGRES_FATAL_ERROR

module _ (lib : Libpq) (calls : CopyCalls lib) where
  abbrev pub end_copy_in : CopyStatus → lib.PgConn → lib.PgConn
  end_copy_in copy_out link = link
  end_copy_in no_copy link = link
  end_copy_in copy_in link =
      calls.put_copy_end link (codes "COPY ... FROM STDIN / TO STDOUT is not supported in ODBC")
  end_copy_in copy_both link =
      calls.put_copy_end link (codes "COPY ... FROM STDIN / TO STDOUT is not supported in ODBC")

  abbrev pub drained : (lib.PgConn → Option lib.PgConn) → lib.PgConn × Bool → Option lib.PgConn
  drained more (link, true) = more link
  drained more (link, false) = some link

  -- The rows are read and dropped.
  unfoldable pub drain : ℕ → lib.PgConn → Option lib.PgConn
  drain zero link = none
  drain (suc fuel) link = drained (drain fuel) (calls.get_copy_data link)

  abbrev pub drain_copy_out : ℕ → CopyStatus → lib.PgConn → Option lib.PgConn
  drain_copy_out fuel copy_in link = some link
  drain_copy_out fuel no_copy link = some link
  drain_copy_out fuel copy_out link = drain fuel link
  drain_copy_out fuel copy_both link = drain fuel link

  abbrev pub consumed :
      (OdbcConnection lib → lib.PgConn → Option (OdbcConnection lib))
      → OdbcConnection lib
      → lib.PgConn × Option lib.PgResult
      → Option (OdbcConnection lib)
  consumed more k (link, none) = some (at_link lib k link)
  consumed more k (link, some result) =
      more (if calls.is_fatal result then mark_transaction_failed lib k else k) link

  -- The trailing results: a fatal one fails an active transaction.
  unfoldable pub consume : ℕ → OdbcConnection lib → lib.PgConn → Option (OdbcConnection lib)
  unfolding mark_transaction_failed
  consume zero k link = none
  consume (suc fuel) k link = consumed (consume fuel) k (calls.get_result link)

  abbrev pub consume_after :
      ℕ → OdbcConnection lib → Option lib.PgConn → Option (OdbcConnection lib)
  consume_after fuel k none = none
  consume_after fuel k (some link) = consume fuel k link

  abbrev pub abort_at :
      ℕ → OdbcConnection lib → CopyStatus → Option lib.PgConn → Option (OdbcConnection lib)
  abort_at fuel k copy_status none = some k
  abort_at fuel k copy_status (some link) =
      consume_after fuel k (drain_copy_out fuel copy_status (end_copy_in copy_status link))

  unfoldable pub connection_abort_active_copy :
      ℕ → OdbcConnection lib → CopyStatus → Option (OdbcConnection lib)
  unfolding drain consume
  connection_abort_active_copy fuel k copy_status = abort_at fuel k copy_status k.libpq_connection
