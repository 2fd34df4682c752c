-- ===== src/TypeMapping/Catalog/Tests.antt =====
-- Concrete types and modifiers.
use psqlodbc_new.Prelude.{◌≡◌, refl, some, arith, codes}
use psqlodbc_new.Prelude.Int.{pos, negsuc}
use psqlodbc_new.TypeMapping.Catalog.{
  type_mapping_get_column_size, type_mapping_get_decimal_digits, pg_type_numeric, pg_type_varchar,
  type_mapping_interval_fraction,
}
use psqlodbc_new.TypeMapping.Catalog.Laws.{numeric_modifier, numeric_modifier_lem}

varchar_20 : type_mapping_get_column_size pg_type_varchar (pos 24) ≡ 20
unfolding type_mapping_get_column_size
varchar_20 = refl

fraction_clamped :
    type_mapping_interval_fraction (pos 20) (some (codes "1234567891234")) ≡ 123456789
unfolding type_mapping_interval_fraction
fraction_clamped = refl

fraction_default : type_mapping_interval_fraction (negsuc 0) (some (codes "5")) ≡ 500000
unfolding type_mapping_interval_fraction
fraction_default = refl

numeric_modifier_lem_example :
    (type_mapping_get_column_size pg_type_numeric (pos (numeric_modifier 10 2)) ≡ 10)
    × (type_mapping_get_decimal_digits pg_type_numeric (pos (numeric_modifier 10 2)) ≡ pos 2)
numeric_modifier_lem_example = numeric_modifier_lem 10 2 (omega arith) (omega arith) (omega arith)
