-- ===== src/Environment/Tests.antt =====
-- The laws of the environment at concrete handles.
use psqlodbc_new.Prelude.{ℕ, ◌≤◌, ◌≡◌, refl, ◌⊎◌, true, false, none, some, List, [], ◌∷◌, arith}
use psqlodbc_new.Environment.{
  sql_success, sql_error, sql_invalid_handle, OdbcEnvironment, new_environment, environment_free,
  environment_add_connection, environment_remove_connection,
}
use psqlodbc_new.Prelude.Int.{pos}
use psqlodbc_new.Environment.Release.{
  one_record, register_all, unregister_all, release_after_connections,
}
use psqlodbc_new.Environment.Laws.{
  count, IsValid, RemovedTo, remove_lem, add_then_remove, remove-IsValid,
}

abbrev three : OdbcEnvironment
three = record new_environment { connections = 10 ∷ 20 ∷ 30 ∷ [] }

-- The last connection takes the place of the one removed.
remove_first :
    environment_remove_connection (some three) (some 10)
    ≡ (some (record three { connections = 30 ∷ 20 ∷ [] }), true)
unfolding environment_remove_connection
remove_first = refl

three-distinct : (a : ℕ) → count a three.connections ≤ 1
three-distinct a = ground arith

three-IsValid : IsValid three
three-IsValid = record { bounded = omega arith; distinct = three-distinct }

remove_lem_example :
    ((count 20 three.connections ≡ 0)
      × (environment_remove_connection (some three) (some 20) ≡ (some three, false)))
    ⊎ ((cs : List ℕ) × RemovedTo three 20 cs)
remove_lem_example = remove_lem three 20

add_then_remove_case :
    (e' : OdbcEnvironment) × (environment_add_connection (some three) (some 40) ≡ (some e', true))
    × IsValid e'
    × ((cs : List ℕ) × RemovedTo e' 40 cs × ((a : ℕ) → count a cs ≡ count a three.connections))
add_then_remove_case = add_then_remove three 40 three-IsValid refl (omega arith)

remove-IsValid_case : IsValid (record three { connections = 30 ∷ 20 ∷ [] })
remove-IsValid_case =
    remove-IsValid three (record three { connections = 30 ∷ 20 ∷ [] }) 10 true three-IsValid
      remove_first

wrong_handle :
    environment_free true (some (record three { magic_number = 7 }))
    ≡ (sql_invalid_handle, some (record three { magic_number = 7 }))
unfolding environment_free
wrong_handle = refl

same_counts : (a : ℕ) → count a (10 ∷ 20 ∷ []) ≡ count a (20 ∷ 10 ∷ [])
same_counts a = omega arith

release_after_connections_example :
    (full : OdbcEnvironment) × (empty : OdbcEnvironment) × (register_all
        (some new_environment)
        (10 ∷ 20 ∷ [])
      ≡ (some full, true))
    × (full.connections ≡ 10 ∷ 20 ∷ [])
    × (environment_free true (some full) ≡ (
      sql_error,
      some (record full {
        diagnostics = record { records = one_record true; paging_chunk_size = pos 0 };
      }),
    ))
    × (unregister_all (environment_free true (some full)).1 (20 ∷ 10 ∷ []) ≡ (some empty, true))
    × (environment_free true (some empty) ≡ (sql_success, none))
release_after_connections_example =
    release_after_connections true new_environment 10 (20 ∷ []) (20 ∷ 10 ∷ []) refl refl
      (omega arith) same_counts
