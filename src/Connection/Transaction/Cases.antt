-- ===== src/Connection/Transaction/Cases.antt =====
-- The agreement of the driver's state with the status of the server's block, and what each command
-- of the driver does to it.
use psqlodbc_new.Prelude.{
  zero, suc, ◌≤◌, ◌≡◌, refl, sym, ap, inl, inr, Bool, true, false, Option, none, some, arith,
  if◌then◌else◌,
}
use mathlib.Core.Path.{subst}
use psqlodbc_new.Libpq.{Libpq}
use psqlodbc_new.Connection.{TransactionState, idle, active, failed, OdbcConnection}
use psqlodbc_new.Connection.Transaction.Savepoint.{is_active}
use psqlodbc_new.Connection.Transaction.Server.{
  BlockStatus, outside, in_block, aborted, begin, savepoint, release_and_savepoint, rollback_to,
  after_error, Allowed, Postgres,
}

-- The driver's state and flag, and the status of the server's block that goes with them.
abbrev pub Follows : TransactionState → Bool → BlockStatus → Type 0
Follows idle flag outside = Unit {0}
Follows idle flag (in_block n) = ⊥
Follows idle flag (aborted n) = ⊥
Follows active flag outside = ⊥
Follows active true (in_block n) = n ≡ 1
Follows active false (in_block n) = n ≡ 0
Follows active true (aborted n) = ⊥
Follows active false (aborted n) = n ≤ 1
Follows failed flag outside = ⊥
Follows failed flag (in_block n) = ⊥
Follows failed true (aborted n) = n ≡ 1
Follows failed false (aborted n) = n ≤ 1

-- What each command leaves, by the status it finds.
pub begin_case :
    (state : TransactionState) (flag : Bool) (before after : BlockStatus) (ok : Bool)
    → is_active state ≡ false
    → Follows state flag before
    → Allowed begin before ok after
    → if ok then Follows active false after else Follows state flag after
begin_case idle flag outside after true e f a = subst (Follows active false) (sym a) refl
begin_case idle flag outside after false e f a = subst (Follows idle flag) (sym a) tt
begin_case failed true (aborted n) after false e f a = subst (Follows failed true) (sym a) f
begin_case failed false (aborted n) after false e f a = subst (Follows failed false) (sym a) f
begin_case failed true (aborted n) after true e f a = absurd a
begin_case failed false (aborted n) after true e f a = absurd a
begin_case idle flag (in_block n) after ok e f a = absurd f
begin_case idle flag (aborted n) after ok e f a = absurd f
begin_case failed true outside after ok e f a = absurd f
begin_case failed false outside after ok e f a = absurd f
begin_case failed true (in_block n) after ok e f a = absurd f
begin_case failed false (in_block n) after ok e f a = absurd f
begin_case active flag before after ok e f a = cc

pub savepoint_case :
    (before after : BlockStatus) (ok : Bool)
    → Follows active false before
    → Allowed savepoint before ok after
    → Follows active ok after
savepoint_case outside after ok f a = absurd f
savepoint_case (in_block n) after true f a = subst (Follows active true) (sym a) (ap suc f)
savepoint_case (in_block n) after false f a = subst (Follows active false) (sym a) (omega arith)
savepoint_case (aborted n) after true f a = absurd a
savepoint_case (aborted n) after false f a = subst (Follows active false) (sym a) f

pub release_case :
    (before after : BlockStatus) (ok : Bool)
    → Follows active true before
    → Allowed release_and_savepoint before ok after
    → Follows active ok after
release_case outside after ok f a = absurd f
release_case (aborted n) after ok f a = absurd f
release_case (in_block zero) after ok f a = absurd (omega arith)
release_case (in_block (suc n)) after true f a = subst (Follows active true) (sym a) f
release_case (in_block (suc n)) after false f (inl a) =
    subst (Follows active false) (sym a) (omega arith)
release_case (in_block (suc n)) after false f (inr a) =
    subst (Follows active false) (sym a) (omega arith)

pub rollback_to_case :
    (before after : BlockStatus) (ok : Bool)
    → Follows failed true before
    → Allowed rollback_to before ok after
    → if ok then Follows active true after else Follows failed true after
rollback_to_case outside after ok f a = absurd f
rollback_to_case (in_block n) after ok f a = absurd f
rollback_to_case (aborted zero) after ok f a = absurd (omega arith)
rollback_to_case (aborted (suc n)) after true f a = subst (Follows active true) (sym a) f
rollback_to_case (aborted (suc n)) after false f a = subst (Follows failed true) (sym a) f

pub error_case :
    (state : TransactionState) (flag : Bool) (before : BlockStatus)
    → Follows state flag before
    → Follows (if is_active state then failed else state) flag (after_error before)
error_case idle flag outside f = tt
error_case active true (in_block n) f = f
error_case active false (in_block n) f = omega arith
error_case active false (aborted n) f = f
error_case failed true (aborted n) f = f
error_case failed false (aborted n) f = f
error_case idle flag (in_block n) f = absurd f
error_case idle flag (aborted n) f = absurd f
error_case active false outside f = absurd f
error_case active true outside f = absurd f
error_case active true (aborted n) f = absurd f
error_case failed false outside f = absurd f
error_case failed false (in_block n) f = absurd f
error_case failed true outside f = absurd f
error_case failed true (in_block n) f = absurd f

module _ (lib : Libpq) (server : Postgres lib) where
  abbrev pub FollowsLink : TransactionState → Bool → Option lib.PgConn → Type 0
  FollowsLink state flag none = Unit {0}
  FollowsLink state flag (some link) = Follows state flag (server.status link)

  -- The connection agrees with its server.
  abbrev pub Agrees : OdbcConnection lib → Type 0
  Agrees k = FollowsLink k.transaction_state k.statement_savepoint_active k.libpq_connection
