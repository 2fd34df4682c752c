-- ===== src/QueryParser/Split/Tests.antt =====
-- Splitting concrete texts.
use psqlodbc_new.Prelude.{◌≡◌, refl, none, some, List, [], ◌∷◌, All, Bytes, codes, c_str}
use psqlodbc_new.QueryParser.Split.{query_split_statements}
use psqlodbc_new.QueryParser.Split.Partition.{join, keep}
use psqlodbc_new.QueryParser.Split.Trim.{IsTrimmed}
use psqlodbc_new.QueryParser.Split.Total.{always, query_split_total, query_split_partition}

abbrev batch : Bytes
batch = codes " select 'a;b' ;; do $x$ ; $x$; /* ; /* ; */ ; */ select 1 -- ;\n;"

abbrev batch_statements : List Bytes
batch_statements =
    codes "select 'a;b'" ∷ codes "do $x$ ; $x$" ∷ codes "/* ; /* ; */ ; */ select 1 -- ;" ∷ []

comments_and_quotes : query_split_statements always (some batch) none ≡ some batch_statements
unfolding query_split_statements
comments_and_quotes = refl

query_split_total_example :
    (result : List Bytes) × (query_split_statements always (some batch) none ≡ some result)
query_split_total_example = query_split_total batch none

query_split_partition_example :
    (r : Bytes) × (rs : List Bytes) × (c_str batch ≡ join (r ∷ rs))
    × (batch_statements ≡ keep (r ∷ rs))
    × All IsTrimmed batch_statements
query_split_partition_example =
    query_split_partition always batch none batch_statements comments_and_quotes
