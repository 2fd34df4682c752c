-- ===== src/QueryParser/Select/Tests.antt =====
-- Concrete SELECT lists.
use psqlodbc_new.Prelude.{ℕ, ◌≤◌, ◌≡◌, refl, Bool, true, false, some, List, [], ◌∷◌, length, codes}
use psqlodbc_new.QueryParser.Select.{QueryColumnOverride, query_parse_select_columns}
use psqlodbc_new.QueryParser.Select.Laws.{select_columns_total}

abbrev column : Bool → ℕ → QueryColumnOverride
column is_literal size = record { is_string_literal = is_literal; character_length = size }

literals :
    query_parse_select_columns 8 (some (codes "select 'it''s', f(1, ','), x from t"))
    ≡ some (column true 4 ∷ column false 0 ∷ column false 0 ∷ [])
unfolding query_parse_select_columns
literals = refl

-- A name that ends in "from" ends the list, and the literal behind it is not seen.
name_ends_in_from :
    query_parse_select_columns 8 (some (codes "select valid_from, 'abc'"))
    ≡ some (column false 0 ∷ [])
unfolding query_parse_select_columns
name_ends_in_from = refl

select_columns_total_example :
    (columns : List QueryColumnOverride) × (query_parse_select_columns 1
        (some (codes "select 'a', 'b'"))
      ≡ some columns)
    × (length columns ≤ 1)
select_columns_total_example = select_columns_total 1 (some (codes "select 'a', 'b'"))
