-- ===== src/ColumnBinding/Tests.antt =====
-- A concrete array.
use psqlodbc_new.Prelude.{◌≤◌, ◌<◌, ◌≡◌, refl, ◌⊎◌, false, none, some, arith, ◌==◌, if◌then◌else◌}
use psqlodbc_new.Prelude.Int.{pos}
use psqlodbc_new.Environment.{sql_success, sql_error}
use psqlodbc_new.ColumnBinding.{
  Bindings, column_binding_bind, all_cleared, column_binding_unbind_all,
}
use psqlodbc_new.ColumnBinding.Laws.{HasCount, column, Shows, bind_lem}

abbrev fresh : Bindings
fresh = record { bindings = all_cleared 256; bound_count = pos 0 }

fresh-HasCount : HasCount fresh
fresh-HasCount = record { counts = refl; slots = refl }

bind_lem_example :
    (let (result, after) = column_binding_bind fresh 3 (pos 1) (some 77) (pos 20) none in
      HasCount after
      × HasCount (column_binding_unbind_all fresh)
      × ((column_binding_unbind_all fresh).bound_count ≡ pos 0)
      × ((column (column_binding_unbind_all fresh) 4).is_bound ≡ false)
      × (((1 ≤ 3)
            × (3 ≤ 256)
            × (result ≡ sql_success)
            × Shows 3 (pos 1) (some 77) (pos 20) none (column after 3)
            × (column after 4 ≡ (if 3 == 4 then column after 3 else column fresh 4)))
          ⊎ (((3 < 1) ⊎ (256 < 3)) × (result ≡ sql_error) × (after ≡ fresh))))
bind_lem_example = bind_lem fresh 3 (pos 1) (some 77) (pos 20) none 4 fresh-HasCount (omega arith)
