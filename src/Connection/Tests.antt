-- ===== src/Connection/Tests.antt =====
-- A small server that keeps the rules, and concrete connections.
use psqlodbc_new.Prelude.{
  ℕ, zero, suc, ◌≤◌, ◌≡◌, refl, Bool, true, false, Option, none, some, List, [], ◌∷◌, arith,
  if◌then◌else◌, Bytes, codes,
}
use psqlodbc_new.Prelude.Int.{pos, negsuc}
use psqlodbc_new.StringUtils.{pg_ascii_case_equal}
use psqlodbc_new.ConnectionInfo.{ConnectionInfo}
use psqlodbc_new.Diagnostics.{empty_diagnostics}
use psqlodbc_new.Environment.{sql_success}
use psqlodbc_new.Libpq.{Libpq, succeeds}
use psqlodbc_new.Connection.{
  not_connected, connected, idle, active, OdbcConnection, connection_magic_number,
  max_statements_per_connection,
}
use psqlodbc_new.Connection.Handle.{new_connection}
use psqlodbc_new.Connection.Handle.Connect.{connection_connect, connection_disconnect}
use psqlodbc_new.Connection.Handle.Life.{IsLinked, Ends, connection_life}
use psqlodbc_new.Connection.Handle.Stale.{transaction_outlives_disconnect}
use psqlodbc_new.Connection.Statements.{connection_add_statement, connection_remove_statement}
use psqlodbc_new.Connection.Statements.Slots.{
  HasCount, add_statement_lem, remove_statement_lem, remove-add_statement,
}
use psqlodbc_new.Connection.Transaction.{
  at_link, connection_begin_transaction, connection_commit, connection_rollback,
  connection_ensure_transaction, connection_effective_rollback_on_error,
}
use psqlodbc_new.Connection.Transaction.Savepoint.{
  connection_begin_statement_savepoint, connection_handle_statement_error, mark_transaction_failed,
}
use psqlodbc_new.Connection.Transaction.Server.{
  BlockStatus, outside, in_block, aborted, Command, begin, commit, rollback, savepoint,
  release_and_savepoint, rollback_to, text_of, Allowed, Postgres,
}
use psqlodbc_new.Connection.Transaction.Cases.{Agrees}
use psqlodbc_new.Connection.Transaction.Steps.{
  Reach, here, next, begins, saves, fails, transactions_agree,
}
use psqlodbc_new.Connection.Transaction.Recovery.{standing, one_savepoint}
use psqlodbc_new.Connection.Transaction.Protected.{
  Accepts, GoesOn, Runs, failed_and_handled, none_yet, one_more, statements_recover,
}
use psqlodbc_new.Connection.Transaction.Outcomes.{
  Settles, IsActive, IsIdle, InBlock, transaction_answers,
}

abbrev run : Command → BlockStatus → BlockStatus × Bool
run begin outside = (in_block 0, true)
run begin (in_block n) = (in_block n, true)
run begin (aborted n) = (aborted n, false)
run commit s = (outside, true)
run rollback s = (outside, true)
run savepoint outside = (outside, false)
run savepoint (in_block n) = (in_block (suc n), true)
run savepoint (aborted n) = (aborted n, false)
run release_and_savepoint outside = (outside, false)
run release_and_savepoint (in_block zero) = (aborted 0, false)
run release_and_savepoint (in_block (suc n)) = (in_block (suc n), true)
run release_and_savepoint (aborted n) = (aborted n, false)
run rollback_to outside = (outside, false)
run rollback_to (in_block zero) = (aborted 0, false)
run rollback_to (in_block (suc n)) = (in_block (suc n), true)
run rollback_to (aborted zero) = (aborted 0, false)
run rollback_to (aborted (suc n)) = (in_block (suc n), true)

abbrev commands : List Command
commands = begin ∷ commit ∷ rollback ∷ savepoint ∷ release_and_savepoint ∷ rollback_to ∷ []

abbrev answered : BlockStatus × Bool → BlockStatus × Option Bool
answered (s, ok) = (s, some ok)

abbrev run_text : List Command → BlockStatus → Bytes → BlockStatus × Option Bool
run_text [] s text = (s, none)
run_text (c ∷ cs) s text =
    if pg_ascii_case_equal text (text_of c) then answered (run c s) else run_text cs s text

abbrev toy : Libpq
toy = record {
  PgConn = BlockStatus;
  PgResult = Bool;
  exec = run_text commands;
  command_ok = λ ok. ok;
  result_error_field = λ r f. none;
  result_error_message = λ r. none;
  error_message = λ c. none;
  connectdb_params = λ params. some outside;
  connection_ok = λ c. true;
  parameter_status = λ c name. none;
  server_version = λ c. 170002;
  client_encoding_name = λ c. some (codes "UTF8");
  tuples_ok = λ r. false;
  ntuples = λ r. 0;
  getvalue = λ r row column. [];
}

toy_obeys :
    (link : BlockStatus) (command : Command)
    → Allowed command link
        (succeeds toy (run_text commands link (text_of command)).1)
        (run_text commands link (text_of command)).0
unfolding pg_ascii_case_equal
toy_obeys outside begin = refl
toy_obeys (in_block n) begin = refl
toy_obeys (aborted n) begin = refl
toy_obeys link commit = refl
toy_obeys link rollback = refl
toy_obeys outside savepoint = refl
toy_obeys (in_block n) savepoint = refl
toy_obeys (aborted n) savepoint = refl
toy_obeys outside release_and_savepoint = refl
toy_obeys (in_block zero) release_and_savepoint = refl
toy_obeys (in_block (suc n)) release_and_savepoint = refl
toy_obeys (aborted n) release_and_savepoint = refl
toy_obeys outside rollback_to = refl
toy_obeys (in_block zero) rollback_to = refl
toy_obeys (in_block (suc n)) rollback_to = refl
toy_obeys (aborted zero) rollback_to = refl
toy_obeys (aborted (suc n)) rollback_to = refl

abbrev toy_server : Postgres toy
toy_server = record { status = λ s. s; obeys = toy_obeys }

abbrev defaults : ConnectionInfo
defaults = record {
  server = [];
  port = [];
  database = [];
  username = [];
  password = none;
  sslmode = [];
  application_name = [];
  connect_timeout = 0;
  bools_as_char = true;
  unknown_sizes = pos 0;
  max_varchar_size = pos 255;
  parse_statements = false;
  fetch_refcursors = false;
  rollback_on_error = negsuc 0;
  lf_conversion = false;
  cvt_null_date = false;
}

abbrev empty_slots : ℕ → List (Option ℕ)
empty_slots zero = []
empty_slots (suc n) = none ∷ empty_slots n

abbrev start : OdbcConnection toy
start = record {
  magic_number = connection_magic_number;
  state = connected;
  parent_environment = some 1;
  libpq_connection = some outside;
  info = defaults;
  diagnostics = empty_diagnostics;
  autocommit = false;
  server_version_major = 17;
  server_version_minor = 0;
  max_bytes_per_char = 4;
  statements = empty_slots max_statements_per_connection;
  statement_count = 0;
  next_statement_id = 0;
  transaction_state = idle;
  statement_savepoint_active = false;
  txn_isolation = 2;
  login_timeout = 0;
  connection_timeout = 0;
  access_mode = 0;
  captured_notices = [];
  ms_jet = false;
  batch_size = pos 100;
  large_object_type_oid = 0;
  large_object_is_domain = false;
}

abbrev in_transaction : OdbcConnection toy
in_transaction = (connection_begin_transaction toy true start).1

abbrev at_savepoint : OdbcConnection toy
at_savepoint = connection_begin_statement_savepoint toy in_transaction

abbrev after_failure : OdbcConnection toy
after_failure = mark_transaction_failed toy (at_link toy at_savepoint (aborted 1))

saved : at_savepoint.libpq_connection ≡ some (in_block 1)
unfolding connection_begin_statement_savepoint connection_begin_transaction pg_ascii_case_equal
saved = refl

failure : Reach toy toy_server true start after_failure
failure =
    next (next (next here (begins start)) (saves in_transaction))
      (fails at_savepoint (in_block 1) (aborted 1) saved refl)

transactions_agree_example : Agrees toy toy_server after_failure
transactions_agree_example = transactions_agree toy toy_server true tt failure

still_linked : after_failure.libpq_connection ≡ some (aborted 1)
unfolding connection_begin_statement_savepoint connection_begin_transaction mark_transaction_failed
    pg_ascii_case_equal
still_linked = refl

one_savepoint_example : standing (aborted 1) ≤ 1
one_savepoint_example =
    one_savepoint toy toy_server true start after_failure (aborted 1) tt failure still_linked

toy_takes :
    (link : BlockStatus) (n : ℕ)
    → link ≡ in_block n
    → succeeds toy (toy.exec link (text_of savepoint)).1 ≡ true
unfolding pg_ascii_case_equal
toy_takes link n e = rw e refl

toy_renews :
    (link : BlockStatus) (n : ℕ)
    → link ≡ in_block (suc n)
    → succeeds toy (toy.exec link (text_of release_and_savepoint)).1 ≡ true
unfolding pg_ascii_case_equal
toy_renews link n e = rw e refl

toy_rewinds :
    (link : BlockStatus) (n : ℕ)
    → link ≡ aborted (suc n)
    → succeeds toy (toy.exec link (text_of rollback_to)).1 ≡ true
unfolding pg_ascii_case_equal
toy_rewinds link n e = rw e refl

toy_accepts : Accepts toy toy_server
toy_accepts = record { takes = toy_takes; renews = toy_renews; rewinds = toy_rewinds }

abbrev going_on : OdbcConnection toy
going_on = record start { libpq_connection = some (in_block 0); transaction_state = active }

going_on-GoesOn : GoesOn toy toy_server going_on
unfolding connection_effective_rollback_on_error
going_on-GoesOn = record {
  is_active = refl;
  statement_level = refl;
  link = in_block 0;
  linked = refl;
  in_transaction = refl;
}

abbrev behind_failure : OdbcConnection toy
behind_failure = connection_handle_statement_error toy true (
    mark_transaction_failed toy
      (at_link toy (connection_begin_statement_savepoint toy going_on) (aborted 1)))

handled_failure : Runs toy toy_server true going_on behind_failure
unfolding pg_ascii_case_equal connection_begin_statement_savepoint
handled_failure = failed_and_handled going_on (in_block 1) (aborted 1) refl refl

statements_recover_example : GoesOn toy toy_server behind_failure
statements_recover_example =
    statements_recover toy toy_server true toy_accepts (one_more none_yet handled_failure)
      going_on-GoesOn

transaction_answers_example :
    Settles toy (IsActive toy) (connection_begin_transaction toy true start)
    × Settles toy (IsIdle toy) (connection_commit toy true start)
    × Settles toy (IsIdle toy) (connection_rollback toy true start)
    × Settles toy
        (InBlock toy)
        (connection_ensure_transaction toy true (record start { autocommit = false }))
transaction_answers_example = transaction_answers toy true start

start-HasCount : HasCount toy start
start-HasCount = record { counts = refl; slots = refl }

add_statement_lem_example :
    ((connection_add_statement toy start (some 7)).1 ≡ true)
    × HasCount toy (connection_add_statement toy start (some 7)).0
    × (connection_add_statement toy start none ≡ (start, false))
add_statement_lem_example = add_statement_lem toy start 7 start-HasCount

remove_from_start :
    ((connection_remove_statement toy start (some 7)).1 ≡ false)
    × HasCount toy (connection_remove_statement toy start (some 7)).0
remove_from_start = remove_statement_lem toy start 7 start-HasCount

remove-add_statement_case :
    connection_remove_statement toy (connection_add_statement toy start (some 7)).0 (some 7)
    ≡ (start, true)
remove-add_statement_case = remove-add_statement toy start 7 start-HasCount (omega arith) refl

connection_life_example :
    IsLinked toy (new_connection toy 1)
    × Ends toy connected (connection_connect toy true start)
    × Ends toy not_connected (connection_disconnect toy true start)
connection_life_example = connection_life toy true 1 start tt

abbrev in_block_again : OdbcConnection toy
in_block_again = record start { transaction_state = active; libpq_connection = some (in_block 0) }

transaction_outlives_disconnect_example :
    (again : OdbcConnection toy) × (connection_connect toy true
        (connection_disconnect toy true in_block_again).1
      ≡ (sql_success, again))
    × (again.transaction_state ≡ active)
    × (connection_ensure_transaction toy true again ≡ (sql_success, again))
transaction_outlives_disconnect_example =
    transaction_outlives_disconnect toy true in_block_again outside refl refl refl refl refl
