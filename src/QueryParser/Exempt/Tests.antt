-- ===== src/QueryParser/Exempt/Tests.antt =====
-- Concrete statements.
use psqlodbc_new.Prelude.{◌≡◌, refl, true, false, some, codes}
use psqlodbc_new.QueryParser.Exempt.{query_is_transaction_exempt, exempt_any_case}

vacuum : query_is_transaction_exempt (some (codes " vacuum (analyze) t")) ≡ true
unfolding query_is_transaction_exempt
vacuum = refl

-- A semicolon ends a CLUSTER, but not a VACUUM.
vacuum_semicolon :
    (query_is_transaction_exempt (some (codes "VACUUM;")) ≡ false)
    × (query_is_transaction_exempt (some (codes "CLUSTER;")) ≡ true)
unfolding query_is_transaction_exempt
vacuum_semicolon = (refl, refl)

exempt_any_case_case :
    query_is_transaction_exempt (some (codes " Drop Database d"))
    ≡ query_is_transaction_exempt (some (codes "DROP DATABASE D"))
exempt_any_case_case =
    exempt_any_case (codes " ") (codes "Drop Database d") (codes "DROP DATABASE D") (refl, tt) refl
