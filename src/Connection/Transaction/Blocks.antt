-- ===== src/Connection/Transaction/Blocks.antt =====
-- The calls that begin and end blocks keep the agreement with the server.
use psqlodbc_new.Prelude.{
  ◌≡◌, refl, sym, ap, inl, inr, Bool, true, false, Option, none, some, if◌then◌else◌, Bool-cases,
  Bytes, codes,
}
use mathlib.Core.Path.{subst}
use psqlodbc_new.Environment.{SqlReturn, sql_success, sql_error}
use psqlodbc_new.Libpq.{Libpq, succeeds}
use psqlodbc_new.Connection.{TransactionState, idle, active, failed, OdbcConnection}
use psqlodbc_new.Connection.Transaction.{
  to_boundary, at_link, usable_link, is_connected, begun, begin_over, begin_at, ended, end_at,
  end_in, ensure_in, report_result, connection_begin_transaction, connection_commit,
  connection_rollback, connection_ensure_transaction,
}
use psqlodbc_new.Connection.Transaction.Savepoint.{is_active}
use psqlodbc_new.Connection.Transaction.Server.{
  BlockStatus, outside, Command, begin, commit, rollback, text_of, Allowed, Postgres,
}
use psqlodbc_new.Connection.Transaction.Cases.{Follows, FollowsLink, Agrees, begin_case}

module _ (lib : Libpq) (server : Postgres lib) where
  -- Whatever the branch, the end of a block leaves the driver idle and the server outside.
  ended-Agrees :
      (allocated : Bool) (message : Bytes) (k : OdbcConnection lib)
      (r : lib.PgConn × Option lib.PgResult)
      → server.status r.0 ≡ outside
      → Agrees lib server (ended lib allocated message k r).1
  ended-Agrees allocated message k (link, none) e = subst (Follows idle false) (sym e) tt
  ended-Agrees allocated message k (link, some result) e =
      elim (Bool-cases (lib.command_ok result)) [
        | inl h ↦ rw h (subst (Follows idle false) (sym e) tt)
        | inr h ↦ rw h (subst (Follows idle false) (sym e) tt)
      ]

  end_at-Agrees :
      (allocated : Bool) (command : Command) (a b : Bytes) (k : OdbcConnection lib)
      → ((link : lib.PgConn) → server.status (lib.exec link (text_of command)).0 ≡ outside)
      → Agrees lib server k
      → Agrees lib server (end_in lib allocated (text_of command) a b k k.transaction_state).1
  end_at-Agrees allocated command a b k ends h = go k.transaction_state (usable_link lib k)
    where
      at_usable :
          (m : Option lib.PgConn)
          → Agrees lib server (end_at lib allocated (text_of command) a b k m).1
      at_usable none = h
      at_usable (some link) =
          ended-Agrees allocated b k (lib.exec link (text_of command)) (ends link)

      go :
          (s : TransactionState) (m : Option lib.PgConn)
          → Agrees lib server (end_in lib allocated (text_of command) a b k s).1
      go idle m = h
      go active m = at_usable (usable_link lib k)
      go failed m = at_usable (usable_link lib k)

  pub commit-Agrees :
      (allocated : Bool) (k : OdbcConnection lib)
      → Agrees lib server k
      → Agrees lib server (connection_commit lib allocated k).1
  unfolding connection_commit
  commit-Agrees allocated k h =
      end_at-Agrees allocated commit (codes "Cannot commit: connection is not active.")
        (codes "COMMIT command failed: NULL result from libpq.") k
        (λ link. server.obeys link commit) h

  pub rollback-Agrees :
      (allocated : Bool) (k : OdbcConnection lib)
      → Agrees lib server k
      → Agrees lib server (connection_rollback lib allocated k).1
  unfolding connection_rollback
  rollback-Agrees allocated k h =
      end_at-Agrees allocated rollback (codes "Cannot rollback: connection is not active.")
        (codes "ROLLBACK command failed: NULL result from libpq.") k
        (λ link. server.obeys link rollback) h

  begun-Agrees :
      (allocated : Bool) (k : OdbcConnection lib) (before : BlockStatus)
      (r : lib.PgConn × Option lib.PgResult)
      → is_active k.transaction_state ≡ false
      → Follows k.transaction_state k.statement_savepoint_active before
      → Allowed begin before (succeeds lib r.1) (server.status r.0)
      → Agrees lib server (begun lib allocated k r).1
  begun-Agrees allocated k before (link, none) e f a =
      begin_case k.transaction_state k.statement_savepoint_active before (server.status link) false
        e f a
  begun-Agrees allocated k before (link, some result) e f a = go (lib.command_ok result) (
      begin_case k.transaction_state k.statement_savepoint_active before (server.status link)
        (lib.command_ok result) e f a)
    where
      picked : Bool → SqlReturn × OdbcConnection lib
      picked ok = if ok then (sql_success, to_boundary lib active (at_link lib k link)) else (
        sql_error,
        report_result lib allocated (codes "BEGIN command failed: NULL result from libpq.")
            (some result) (at_link lib k link),
      )

      go :
          (ok : Bool)
          → (if ok
              then Follows active false (server.status link)
              else Follows k.transaction_state k.statement_savepoint_active (server.status link))
          → Agrees lib server (picked ok).1
      go true h = h
      go false h = h

  pub begin-Agrees :
      (allocated : Bool) (k : OdbcConnection lib)
      → Agrees lib server k
      → Agrees lib server (connection_begin_transaction lib allocated k).1
  unfolding connection_begin_transaction
  begin-Agrees allocated k h = go (is_connected k.state) k.libpq_connection h
    where
      over :
          (state : TransactionState) (link : lib.PgConn)
          → k.transaction_state ≡ state
          → Follows k.transaction_state k.statement_savepoint_active (server.status link)
          → Agrees lib server (begin_over lib allocated k state link).1
      over active link e f = h
      over idle link e f =
          begun-Agrees allocated k (server.status link) (lib.exec link (codes "BEGIN"))
            (ap is_active e) f (server.obeys link begin)
      over failed link e f =
          begun-Agrees allocated k (server.status link) (lib.exec link (codes "BEGIN"))
            (ap is_active e) f (server.obeys link begin)

      go :
          (usable : Bool) (m : Option lib.PgConn)
          → FollowsLink lib server k.transaction_state k.statement_savepoint_active m
          → Agrees lib server (begin_at lib allocated k (if usable then m else none)).1
      go false m f = h
      go true none f = h
      go true (some link) f = over k.transaction_state link refl f

  pub ensure-Agrees :
      (allocated : Bool) (k : OdbcConnection lib)
      → Agrees lib server k
      → Agrees lib server (connection_ensure_transaction lib allocated k).1
  unfolding connection_ensure_transaction
  ensure-Agrees allocated k h = go k.autocommit k.transaction_state
    where
      ensured : (s : TransactionState) → Agrees lib server (ensure_in lib allocated k s).1
      ensured idle = begin-Agrees allocated k h
      ensured active = h
      ensured failed = h

      go :
          (b : Bool) (s : TransactionState)
          → Agrees lib server
              (elim b as (λ z. SqlReturn × OdbcConnection lib) [
                | true ↦ (sql_success, k)
                | false ↦ ensure_in lib allocated k s
              ]).1
      go true s = h
      go false s = ensured s
