-- ===== src/Environment.antt =====
-- The environment handle: src/environment.c and src/environment.h.
-- A handle is the memory that it points to, `none` for NULL and for freed memory. `connections`
-- holds the slots below `connection_count`, which is its length; a connection is its address.
pub mod Laws
pub mod Release
mod Tests
use psqlodbc_new.Prelude.{
  ℕ, suc, ◌-◌, Bool, true, false, not, Option, none, some, List, [], ◌∷◌, ◌++◌, ltb, leb, ◌==◌,
  if◌then◌else◌, length, get_or, set, take, codes,
}
use psqlodbc_new.Prelude.Int.{ℤ, pos}
use psqlodbc_new.Diagnostics.{
  DiagnosticRecords, empty_diagnostics, diagnostics_clear, diagnostics_add_record,
}

-- The results that the handle functions return.
pub data SqlReturn : Type 0 where
  sql_success sql_success_with_info sql_error sql_invalid_handle : SqlReturn
  sql_no_data sql_need_data : SqlReturn

abbrev pub environment_magic_number : ℕ
environment_magic_number = 0x454E5632

abbrev pub max_connections_per_environment : ℕ
max_connections_per_environment = 128

pub record OdbcEnvironment : Type 0 where
  pub magic_number : ℕ
  pub odbc_version : ℤ
  pub diagnostics : DiagnosticRecords
  pub connections : List ℕ

abbrev pub connection_count : OdbcEnvironment → ℕ
connection_count e = length e.connections

abbrev pub new_environment : OdbcEnvironment
new_environment = record {
  magic_number = environment_magic_number;
  odbc_version = pos 0;
  diagnostics = empty_diagnostics;
  connections = [];
}

-- `output_given` is whether the caller passes a place for the handle, and `allocated` whether
-- `malloc` succeeds. The second part is what is written there.
unfoldable pub environment_allocate : Bool → Bool → SqlReturn × Option OdbcEnvironment
environment_allocate false allocated = (sql_error, none)
environment_allocate true false = (sql_error, none)
environment_allocate true true = (sql_success, some new_environment)

-- `allocated` is whether the copy of the diagnostic's text gets its memory. The second part is the
-- memory behind the handle after the call.
unfoldable pub environment_free : Bool → Option OdbcEnvironment → SqlReturn × Option OdbcEnvironment
environment_free allocated none = (sql_invalid_handle, none)
environment_free allocated (some e) =
    if not (e.magic_number == environment_magic_number)
    then (sql_invalid_handle, some e)
    else if ltb 0 (connection_count e)
    then (
      sql_error,
      some (record e {
        diagnostics =
            (diagnostics_add_record allocated (diagnostics_clear e.diagnostics)
              (some (codes "HY010")) (pos 0)
              (some (codes "Cannot free environment: connections are still allocated"))).0;
      }),
    )
    else (sql_success, none)

unfoldable pub environment_add_connection :
    Option OdbcEnvironment → Option ℕ → Option OdbcEnvironment × Bool
environment_add_connection none connection = (none, false)
environment_add_connection (some e) none = (some e, false)
environment_add_connection (some e) (some connection) =
    if leb max_connections_per_environment (connection_count e)
    then (some e, false)
    else (some (record e { connections = e.connections ++ connection ∷ [] }), true)

-- The loop's search, from slot 0: the first slot that holds the connection.
pub find_connection : List ℕ → ℕ → Option ℕ
find_connection [] connection = none
find_connection (c ∷ cs) connection =
    let later : Option ℕ = elim (find_connection cs connection) [
      | none ↦ none
      | some i ↦ some (suc i)
    ] in
    if c == connection then some 0 else later

-- The body of the loop at its hit: the count falls, the last slot moves into the hole.
pub swap_remove : List ℕ → ℕ → List ℕ
swap_remove cs index = let last = length cs - 1 in take last (set cs index (get_or cs last 0))

abbrev remove_at : OdbcEnvironment → Option ℕ → Option OdbcEnvironment × Bool
remove_at e none = (some e, false)
remove_at e (some index) = (some (record e { connections = swap_remove e.connections index }), true)

unfoldable pub environment_remove_connection :
    Option OdbcEnvironment → Option ℕ → Option OdbcEnvironment × Bool
unfolding find_connection swap_remove
environment_remove_connection none connection = (none, false)
environment_remove_connection (some e) none = (some e, false)
environment_remove_connection (some e) (some connection) =
    remove_at e (find_connection e.connections connection)
