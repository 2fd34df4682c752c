-- ===== src/LargeObject.antt =====
-- The wrappers around the large object functions of libpq: src/large_object.c. Those functions are
-- parameters, and what they do to the server is part of the new link.
use psqlodbc_new.Prelude.{ℕ, ◌-◌, ◌^◌, Bool, true, false, [], ltb, if◌then◌else◌, length, Bytes}
use psqlodbc_new.Prelude.Int.{ℤ, negsuc}
use psqlodbc_new.Environment.{SqlReturn}
use psqlodbc_new.Libpq.{Libpq}
use psqlodbc_new.Connection.{OdbcConnection}
use psqlodbc_new.Connection.Transaction.{
  connection_begin_transaction, connection_ensure_transaction,
}

pub record LargeObjectCalls (lib : Libpq) : Type 0 where
  pub lo_creat : lib.PgConn → ℕ → lib.PgConn × ℕ
  pub lo_open : lib.PgConn → ℕ → ℤ → lib.PgConn × ℤ
  pub lo_write : lib.PgConn → ℤ → Bytes → lib.PgConn × ℤ
  pub lo_read : lib.PgConn → ℤ → ℕ → lib.PgConn × ℤ × Bytes
  pub lo_lseek : lib.PgConn → ℤ → ℤ → ℤ → lib.PgConn × ℤ
  pub lo_close : lib.PgConn → ℤ → lib.PgConn × ℤ

abbrev pub int_max : ℕ
int_max = 2 ^ 31 - 1

-- INV_READ and INV_WRITE.
abbrev pub large_object_mode_read_write : ℕ
large_object_mode_read_write = 0x60000

module _ (lib : Libpq) where
  unfoldable pub large_object_create : LargeObjectCalls lib → lib.PgConn → lib.PgConn × ℕ
  large_object_create calls link = calls.lo_creat link large_object_mode_read_write

  unfoldable pub large_object_open : LargeObjectCalls lib → lib.PgConn → ℕ → ℤ → lib.PgConn × ℤ
  large_object_open calls link object_id mode = calls.lo_open link object_id mode

  -- The buffer's bytes are all that is written.
  unfoldable pub large_object_write : LargeObjectCalls lib → lib.PgConn → ℤ → Bytes → lib.PgConn × ℤ
  large_object_write calls link descriptor buffer =
      if ltb int_max (length buffer)
      then (link, negsuc 0)
      else calls.lo_write link descriptor buffer

  -- The result has what is put into the buffer.
  unfoldable pub large_object_read :
      LargeObjectCalls lib → lib.PgConn → ℤ → ℕ → lib.PgConn × ℤ × Bytes
  large_object_read calls link descriptor size =
      if ltb int_max size then (link, negsuc 0, []) else calls.lo_read link descriptor size

  unfoldable pub large_object_seek : LargeObjectCalls lib → lib.PgConn → ℤ → ℤ → ℤ → lib.PgConn × ℤ
  large_object_seek calls link descriptor offset whence =
      calls.lo_lseek link descriptor offset whence

  unfoldable pub large_object_close : LargeObjectCalls lib → lib.PgConn → ℤ → lib.PgConn × ℤ
  large_object_close calls link descriptor = calls.lo_close link descriptor

  unfoldable pub large_object_ensure_transaction :
      Bool → OdbcConnection lib → SqlReturn × OdbcConnection lib
  unfolding connection_begin_transaction connection_ensure_transaction
  large_object_ensure_transaction allocated k = elim k.autocommit [
    | true ↦ connection_begin_transaction lib allocated k
    | false ↦ connection_ensure_transaction lib allocated k
  ]
