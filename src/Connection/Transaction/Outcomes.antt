-- ===== src/Connection/Transaction/Outcomes.antt =====
-- The results of the calls that begin and end blocks, on every branch, whatever the server does.
use psqlodbc_new.Prelude.{
  ◌≡◌, refl, ◌≢◌, inl, inr, Bool, false, Option, none, some, Bool-cases, Bytes, codes,
}
use psqlodbc_new.Diagnostics.{record_count, diagnostics_clear, diagnostics_add_record}
use psqlodbc_new.Environment.{
  SqlReturn, sql_success, sql_error, sql_invalid_handle, sql_success_with_info, sql_no_data,
  sql_need_data,
}
use psqlodbc_new.ErrorMapping.{
  error_add_diagnostic_from_result, error_add_diagnostic_from_result_ctx, error_extract_from_result,
}
use psqlodbc_new.Libpq.{Libpq, succeeds}
use psqlodbc_new.Connection.{TransactionState, idle, active, failed, OdbcConnection}
use psqlodbc_new.Connection.Transaction.{
  begun, begin_at, begin_over, ended, end_at, end_in, ensure_in, usable_link, report_result,
  inactive, connection_begin_transaction, connection_commit, connection_rollback, at_link,
  connection_ensure_transaction,
}

module _ (lib : Libpq) where
  -- What a call promises of its result: after an error there is exactly one record, and after
  -- success the transaction is in one of the wanted states.
  abbrev pub Settles : (TransactionState → Type 0) → SqlReturn × OdbcConnection lib → Type 0
  Settles Wanted (sql_success, k) = Wanted k.transaction_state
  Settles Wanted (sql_error, k) = record_count k.diagnostics ≡ 1
  Settles Wanted (other, k) = ⊥

  abbrev pub IsIdle : TransactionState → Type 0
  IsIdle s = s ≡ idle

  abbrev pub IsActive : TransactionState → Type 0
  IsActive s = s ≡ active

  abbrev pub InBlock : TransactionState → Type 0
  InBlock s = s ≢ idle

  inactive-Settles :
      (Wanted : TransactionState → Type 0) (allocated : Bool) (message : Bytes)
      (k : OdbcConnection lib)
      → Settles Wanted (inactive lib allocated message k)
  unfolding diagnostics_add_record diagnostics_clear
  inactive-Settles Wanted allocated message k = refl

  report-count :
      (allocated : Bool) (message : Bytes) (r : Option lib.PgResult) (k : OdbcConnection lib)
      → record_count (report_result lib allocated message r k).diagnostics ≡ 1
  unfolding diagnostics_add_record diagnostics_clear error_add_diagnostic_from_result
      error_add_diagnostic_from_result_ctx error_extract_from_result
  report-count allocated message none k = refl
  report-count allocated message (some r) k = refl

  begun-Settles :
      (allocated : Bool) (k : OdbcConnection lib) (r : lib.PgConn × Option lib.PgResult)
      → Settles IsActive (begun lib allocated k r)
  begun-Settles allocated k (link, r) = elim (Bool-cases (succeeds lib r)) [
    | inl h ↦ rw h refl
    | inr h ↦ rw h (
        report-count allocated (codes "BEGIN command failed: NULL result from libpq.") r
          (at_link lib k link))
  ]

  ended-Settles :
      (allocated : Bool) (message : Bytes) (k : OdbcConnection lib)
      (r : lib.PgConn × Option lib.PgResult)
      → Settles IsIdle (ended lib allocated message k r)
  ended-Settles allocated message k (link, r) = elim (Bool-cases (succeeds lib r)) [
    | inl h ↦ rw h refl
    | inr h ↦ rw h (report-count allocated message r (at_link lib k link))
  ]

  begin-Settles :
      (allocated : Bool) (k : OdbcConnection lib)
      → Settles IsActive (connection_begin_transaction lib allocated k)
  unfolding connection_begin_transaction
  begin-Settles allocated k = go (usable_link lib k)
    where
      over :
          (s : TransactionState) (link : lib.PgConn)
          → k.transaction_state ≡ s
          → Settles IsActive (begin_over lib allocated k s link)
      over active link e = e
      over idle link e = begun-Settles allocated k (lib.exec link (codes "BEGIN"))
      over failed link e = begun-Settles allocated k (lib.exec link (codes "BEGIN"))

      go : (m : Option lib.PgConn) → Settles IsActive (begin_at lib allocated k m)
      go none =
          inactive-Settles IsActive allocated
            (codes "Cannot begin transaction: connection is not active.") k
      go (some link) = over k.transaction_state link refl

  end_in-Settles :
      (allocated : Bool) (command a b : Bytes) (k : OdbcConnection lib)
      → Settles IsIdle (end_in lib allocated command a b k k.transaction_state)
  end_in-Settles allocated command a b k = go k.transaction_state refl
    where
      at : (m : Option lib.PgConn) → Settles IsIdle (end_at lib allocated command a b k m)
      at none = inactive-Settles IsIdle allocated a k
      at (some link) = ended-Settles allocated b k (lib.exec link command)

      go :
          (s : TransactionState)
          → k.transaction_state ≡ s
          → Settles IsIdle (end_in lib allocated command a b k s)
      go idle e = e
      go active e = at (usable_link lib k)
      go failed e = at (usable_link lib k)

  -- On any connection and for any behaviour of libpq: a call to begin a block ends in an active
  -- transaction, a commit and a rollback end in an idle one, and a call to ensure a transaction
  -- with autocommit off ends in one that is not idle, or else the call returns SQL_ERROR and the
  -- connection holds exactly one diagnostic record.
  pub transaction_answers :
      (allocated : Bool) (k : OdbcConnection lib)
      → Settles IsActive (connection_begin_transaction lib allocated k)
        × Settles IsIdle (connection_commit lib allocated k)
        × Settles IsIdle (connection_rollback lib allocated k)
        × Settles InBlock
            (connection_ensure_transaction lib allocated (record k { autocommit = false }))
  unfolding connection_commit connection_rollback connection_ensure_transaction
  transaction_answers allocated k = (
    begin-Settles allocated k,
    end_in-Settles allocated (codes "COMMIT") (codes "Cannot commit: connection is not active.")
        (codes "COMMIT command failed: NULL result from libpq.") k,
    end_in-Settles allocated (codes "ROLLBACK") (codes "Cannot rollback: connection is not active.")
        (codes "ROLLBACK command failed: NULL result from libpq.") k,
    ensured k.transaction_state refl (begin-Settles allocated off),
  )
    where
      off : OdbcConnection lib
      off = record k { autocommit = false }

      active-in_block :
          (r : SqlReturn × OdbcConnection lib) → Settles IsActive r → Settles InBlock r
      active-in_block (sql_success, l) h = rw h (λ e. cc)
      active-in_block (sql_error, l) h = h
      active-in_block (sql_invalid_handle, l) h = h
      active-in_block (sql_success_with_info, l) h = h
      active-in_block (sql_no_data, l) h = h
      active-in_block (sql_need_data, l) h = h

      ensured :
          (s : TransactionState)
          → k.transaction_state ≡ s
          → Settles IsActive (connection_begin_transaction lib allocated off)
          → Settles InBlock (ensure_in lib allocated off s)
      ensured idle e h = active-in_block (connection_begin_transaction lib allocated off) h
      ensured active e h = rw e (λ f. cc)
      ensured failed e h = rw e (λ f. cc)
