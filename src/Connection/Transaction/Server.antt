-- ===== src/Connection/Transaction/Server.antt =====
-- What the PostgreSQL documentation says of transaction blocks and savepoints, as a hypothesis on
-- libpq: the state of the session's block, and what each command of the driver does to it.
use psqlodbc_new.Prelude.{ℕ, zero, suc, ◌≡◌, ◌⊎◌, Bool, true, false, Bytes, codes}
use psqlodbc_new.Libpq.{Libpq, succeeds}
use psqlodbc_new.Connection.Transaction.{
  savepoint_command, release_and_savepoint_command, rollback_to_command,
}

-- Outside a block, in one with so many standing savepoints of the driver, or in one that an error
-- has aborted. A session that is lost within a block counts as aborted until the block's end.
pub data BlockStatus : Type 0 where
  outside : BlockStatus
  in_block aborted : ℕ → BlockStatus

pub data Command : Type 0 where
  begin commit rollback savepoint release_and_savepoint rollback_to : Command

abbrev pub text_of : Command → Bytes
text_of begin = codes "BEGIN"
text_of commit = codes "COMMIT"
text_of rollback = codes "ROLLBACK"
text_of savepoint = savepoint_command
text_of release_and_savepoint = release_and_savepoint_command
text_of rollback_to = rollback_to_command

-- The status that an error leaves.
abbrev pub after_error : BlockStatus → BlockStatus
after_error outside = outside
after_error (in_block n) = aborted n
after_error (aborted n) = aborted n

-- Whether a command may succeed or fail from the first status and leave the second.
abbrev pub Allowed : Command → BlockStatus → Bool → BlockStatus → Type 0
Allowed begin outside true after = after ≡ in_block 0
Allowed begin (in_block n) true after = after ≡ in_block n
Allowed begin (aborted n) true after = ⊥
Allowed begin before false after = after ≡ before
Allowed commit before succeeded after = after ≡ outside
Allowed rollback before succeeded after = after ≡ outside
Allowed savepoint outside true after = ⊥
Allowed savepoint (in_block n) true after = after ≡ in_block (suc n)
Allowed savepoint (aborted n) true after = ⊥
Allowed savepoint before false after = after ≡ after_error before
Allowed release_and_savepoint outside true after = ⊥
Allowed release_and_savepoint (in_block zero) true after = ⊥
Allowed release_and_savepoint (in_block (suc n)) true after = after ≡ in_block (suc n)
Allowed release_and_savepoint (aborted n) true after = ⊥
Allowed release_and_savepoint (in_block zero) false after = after ≡ aborted 0
-- The release may have succeeded before the savepoint failed.
Allowed release_and_savepoint (in_block (suc n)) false after =
    (after ≡ aborted (suc n)) ⊎ (after ≡ aborted n)
Allowed release_and_savepoint outside false after = after ≡ outside
Allowed release_and_savepoint (aborted n) false after = after ≡ aborted n
Allowed rollback_to outside true after = ⊥
Allowed rollback_to (in_block zero) true after = ⊥
Allowed rollback_to (in_block (suc n)) true after = after ≡ in_block (suc n)
Allowed rollback_to (aborted zero) true after = ⊥
Allowed rollback_to (aborted (suc n)) true after = after ≡ in_block (suc n)
Allowed rollback_to before false after = after ≡ after_error before

pub record Postgres (lib : Libpq) : Type 0 where
  pub status : lib.PgConn → BlockStatus
  pub obeys :
      (link : lib.PgConn) (command : Command)
      → Allowed command
          (status link)
          (succeeds lib (lib.exec link (text_of command)).1)
          (status (lib.exec link (text_of command)).0)
