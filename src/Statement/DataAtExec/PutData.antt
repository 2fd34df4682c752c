-- ===== src/Statement/DataAtExec/PutData.antt =====
-- `statement_put_data` of src/statement.c: one piece of a streamed parameter. The lengths and the
-- capacity are taken to fit a `size_t`.
use psqlodbc_new.Prelude.{
  ℕ, zero, suc, ◌+◌, ◌*◌, Bool, true, false, ◌&&◌, ◌||◌, Option, none, some, [], ◌++◌, ltb, ◌==◌,
  if◌then◌else◌, length, take, Bytes, codes, c_str,
}
use psqlodbc_new.Prelude.Int.{ℤ, pos, negsuc, ltb_ℤ}
use psqlodbc_new.Environment.{SqlReturn, sql_success, sql_error}
use psqlodbc_new.Libpq.{Libpq}
use psqlodbc_new.Connection.{OdbcConnection}
use psqlodbc_new.Connection.Transaction.{at_link}
use psqlodbc_new.LargeObject.{
  LargeObjectCalls, large_object_create, large_object_open, large_object_write,
  large_object_ensure_transaction,
}
use psqlodbc_new.Statement.{DataAtExecParameter, OdbcStatement}
use psqlodbc_new.Statement.Scroll.{add_diagnostic}
use psqlodbc_new.Statement.DataAtExec.{with_parameter, parameter_at}

-- What a call of SQLPutData gives: the NULL or the default, so many bytes, or a length that is
-- none. SQL_NULL_DATA is -1, SQL_NTS -3 and SQL_DEFAULT_PARAM -5.
pub data Chunk : Type 0 where
  null_chunk invalid_chunk : Chunk
  chunk_of : ℕ → Chunk

abbrev pub text_length : Option Bytes → ℕ
text_length none = 0
text_length (some bytes) = length (c_str bytes)

unfoldable pub resolve_chunk : ℤ → Option Bytes → Chunk
resolve_chunk (pos n) data_pointer = chunk_of n
resolve_chunk (negsuc n) data_pointer =
    if n == 0 || n == 4
    then null_chunk
    else if n == 2
    then chunk_of (text_length data_pointer)
    else invalid_chunk

-- What stands in the buffer behind its length after a call without a pointer is what was in that
-- memory, `unwritten`.
abbrev pub chunk_bytes : ℕ → Option Bytes → Bytes → Bytes
chunk_bytes size none unwritten = take size unwritten
chunk_bytes size (some bytes) unwritten = take size bytes

-- The doubling of the capacity, on fuel: a number that is not 0 doubles past any other in so many
-- rounds as that number.
unfoldable pub doubled : ℕ → ℕ → ℕ → ℕ
doubled zero required capacity = capacity
doubled (suc fuel) required capacity =
    let more = doubled fuel required (capacity * 2) in
    if ltb capacity required then more else capacity

unfoldable pub grown_capacity : ℕ → ℕ → ℕ
unfolding doubled
grown_capacity required capacity =
    doubled required required (if ltb 0 capacity then capacity else 16)

abbrev pub buffered : Option Bytes → Bytes
buffered none = []
buffered (some bytes) = bytes

abbrev pub appended : DataAtExecParameter → ℕ → Bytes → ℕ → DataAtExecParameter
appended p capacity bytes size = record p {
  buffer = some (buffered p.buffer ++ bytes);
  data_length = p.data_length + size;
  capacity = capacity;
}

-- `none` is a buffer that does not get its memory.
abbrev pub accumulate_chunk : Bool → DataAtExecParameter → ℕ → Bytes → Option DataAtExecParameter
accumulate_chunk grown p size bytes =
    let required = p.data_length + size + 1 in
    if ltb p.capacity required
    then (if grown then some (appended p (grown_capacity required p.capacity) bytes size) else none)
    else some (appended p p.capacity bytes size)

-- INV_WRITE.
abbrev pub large_object_mode_write : ℤ
large_object_mode_write = pos 0x20000

-- A piece with its length; `none` is a NULL pointer.
abbrev pub has_bytes : ℕ → Option Bytes → Bool
has_bytes size none = false
has_bytes size (some bytes) = ltb 0 size

abbrev pub with_length : DataAtExecParameter → ℕ → DataAtExecParameter
with_length p size = record p { data_length = p.data_length + size }

abbrev pub started : DataAtExecParameter → DataAtExecParameter
started p = record p { data_started = true }

abbrev pub is_success : SqlReturn → Bool
is_success sql_success = true
is_success _ = false

module _ (lib : Libpq) where
  -- The connection, the parameter, and the message of a failure.
  abbrev pub WriteStep : Type 0
  WriteStep = OdbcConnection lib × DataAtExecParameter × Option Bytes

  abbrev pub open_for_writing :
      LargeObjectCalls lib → OdbcConnection lib → DataAtExecParameter → lib.PgConn × ℤ → WriteStep
  open_for_writing calls k p (link, fd) = (
    at_link lib k link,
    record p { large_object_fd = fd },
    if ltb_ℤ fd (pos 0) then some (codes "Could not open the large object for writing.") else none,
  )

  abbrev pub create_and_open :
      LargeObjectCalls lib → OdbcConnection lib → DataAtExecParameter → lib.PgConn × ℕ → WriteStep
  create_and_open calls k p (link, oid) =
      let created = record p { large_object_oid = oid } in
      if oid == 0
      then (at_link lib k link, created, some (codes "Could not create the large object."))
      else open_for_writing calls k created
          (large_object_open lib calls link oid large_object_mode_write)

  -- libpq answers a NULL connection with its failure.
  abbrev pub create_at :
      LargeObjectCalls lib
      → OdbcConnection lib
      → DataAtExecParameter
      → Option lib.PgConn
      → WriteStep
  create_at calls k p none =
      (k, record p { large_object_oid = 0 }, some (codes "Could not create the large object."))
  create_at calls k p (some link) = create_and_open calls k p (large_object_create lib calls link)

  abbrev pub opened_in :
      LargeObjectCalls lib → DataAtExecParameter → SqlReturn × OdbcConnection lib → WriteStep
  opened_in calls p (result, k) =
      if is_success result
      then create_at calls k p k.libpq_connection
      else (k, p, some (codes "Could not begin a transaction for the large object."))

  -- The object is created and opened with the first piece.
  abbrev pub ensure_open :
      LargeObjectCalls lib → Bool → OdbcConnection lib → DataAtExecParameter → ℤ → WriteStep
  ensure_open calls allocated k p (pos fd) = (k, p, none)
  ensure_open calls allocated k p (negsuc n) =
      opened_in calls p (large_object_ensure_transaction lib allocated k)

  abbrev pub written_to : OdbcConnection lib → DataAtExecParameter → ℕ → lib.PgConn × ℤ → WriteStep
  written_to k p size (link, written) =
      if ltb_ℤ written (pos 0)
      then (at_link lib k link, p, some (codes "Could not write to the large object."))
      else (at_link lib k link, with_length p size, none)

  abbrev pub write_at :
      LargeObjectCalls lib
      → DataAtExecParameter
      → ℕ
      → Bytes
      → OdbcConnection lib
      → Option lib.PgConn
      → WriteStep
  write_at calls p size bytes k none = (k, p, some (codes "Could not write to the large object."))
  write_at calls p size bytes k (some link) =
      written_to k p size (large_object_write lib calls link p.large_object_fd bytes)

  abbrev pub write_piece : LargeObjectCalls lib → ℕ → Option Bytes → WriteStep → WriteStep
  write_piece calls size data_pointer (k, p, some message) = (k, p, some message)
  write_piece calls size data_pointer (k, p, none) =
      if has_bytes size data_pointer
      then write_at calls p size (chunk_bytes size data_pointer []) k k.libpq_connection
      else (k, with_length p size, none)

  abbrev pub failed_or_done :
      Bool → Option Bytes → OdbcStatement lib → SqlReturn × OdbcStatement lib
  failed_or_done allocated none s = (sql_success, s)
  failed_or_done allocated (some message) s =
      (sql_error, add_diagnostic lib allocated (codes "HY000") message s)

  abbrev pub after_step : Bool → OdbcStatement lib → ℕ → WriteStep → SqlReturn × OdbcStatement lib
  after_step allocated s index (k, p, message) =
      failed_or_done allocated message
        (with_parameter lib (record s { parent_connection = some k }) index p)

  -- A parameter is a large object only where there is a connection.
  abbrev pub put_large :
      LargeObjectCalls lib
      → Bool
      → OdbcStatement lib
      → ℕ
      → DataAtExecParameter
      → ℕ
      → Option Bytes
      → Option (OdbcConnection lib)
      → SqlReturn × OdbcStatement lib
  put_large calls allocated s index p size data_pointer none = (sql_error, s)
  put_large calls allocated s index p size data_pointer (some k) =
      after_step allocated s index
        (write_piece calls size data_pointer (ensure_open calls allocated k p p.large_object_fd))

  abbrev pub accumulated_in :
      Bool → OdbcStatement lib → ℕ → Option DataAtExecParameter → SqlReturn × OdbcStatement lib
  accumulated_in allocated s index none = (
    sql_error,
    add_diagnostic lib allocated (codes "HY001")
        (codes "Memory allocation failed accumulating SQLPutData chunk.") s,
  )
  accumulated_in allocated s index (some p) = (sql_success, with_parameter lib s index p)

  -- `grown` is whether the buffer gets its memory.
  abbrev pub put_piece :
      LargeObjectCalls lib
      → Bool
      → Bool
      → Bytes
      → OdbcStatement lib
      → ℕ
      → DataAtExecParameter
      → Option Bytes
      → Chunk
      → SqlReturn × OdbcStatement lib
  put_piece calls allocated grown unwritten s index p data_pointer null_chunk =
      (sql_success, with_parameter lib s index (record (started p) { is_null = true }))
  put_piece calls allocated grown unwritten s index p data_pointer invalid_chunk = (
    sql_error,
    add_diagnostic lib allocated (codes "HY024")
        (codes "Invalid string or buffer length in SQLPutData.") s,
  )
  put_piece calls allocated grown unwritten s index p data_pointer (chunk_of size) =
      let s' = with_parameter lib s index (started p) in
      if p.is_large_object
      then put_large calls allocated s' index (started p) size data_pointer s'.parent_connection
      else accumulated_in allocated s' index
          (accumulate_chunk grown (started p) size (chunk_bytes size data_pointer unwritten))

  abbrev pub put_to :
      LargeObjectCalls lib
      → Bool
      → Bool
      → Bytes
      → OdbcStatement lib
      → Option Bytes
      → ℤ
      → Option ℕ
      → SqlReturn × OdbcStatement lib
  put_to calls allocated grown unwritten s data_pointer length_or_indicator none = (
    sql_error,
    add_diagnostic lib allocated (codes "HY010")
        (codes "SQLPutData called without a preceding SQLParamData.") s,
  )
  put_to calls allocated grown unwritten s data_pointer length_or_indicator (some index) =
      let p = parameter_at lib s index in
      if p.data_started && p.is_null
      then (
        sql_error,
        add_diagnostic lib allocated (codes "HY010")
            (codes "Cannot append data after a null parameter indicator.") s,
      )
      else put_piece calls allocated grown unwritten s index p data_pointer
          (resolve_chunk length_or_indicator data_pointer)

  unfoldable pub statement_put_data :
      LargeObjectCalls lib
      → Bool
      → Bool
      → Bytes
      → OdbcStatement lib
      → Option Bytes
      → ℤ
      → SqlReturn × OdbcStatement lib
  unfolding resolve_chunk large_object_ensure_transaction large_object_create large_object_open
      large_object_write grown_capacity
  statement_put_data calls allocated grown unwritten s data_pointer length_or_indicator =
      put_to calls allocated grown unwritten s data_pointer length_or_indicator
        (if s.data_at_exec.in_need_data then s.data_at_exec.current_parameter_index else none)
