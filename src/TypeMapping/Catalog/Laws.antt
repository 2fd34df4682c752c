-- ===== src/TypeMapping/Catalog/Laws.antt =====
-- A numeric type modifier is decoded as PostgreSQL encodes it.
use psqlodbc_new.Prelude.{ℕ, ◌+◌, ◌*◌, ◌^◌, ◌≤◌, ◌≡◌, arith}
use psqlodbc_new.Prelude.Int.{pos}
use psqlodbc_new.TypeMapping.Catalog.{
  type_mapping_get_column_size, type_mapping_get_decimal_digits, pg_type_numeric,
}

-- The modifier that PostgreSQL stores for numeric(p, s).
abbrev pub numeric_modifier : ℕ → ℕ → ℕ
numeric_modifier p s = p * 2 ^ 16 + s + 4

-- For the modifier of numeric(p, s), with p from 1 to 1000 and s to 1000, the column size is p and
-- the decimal digits are s.
pub numeric_modifier_lem :
    (p s : ℕ)
    → 1 ≤ p
    → p ≤ 1000
    → s ≤ 1000
    → (type_mapping_get_column_size pg_type_numeric (pos (numeric_modifier p s)) ≡ p)
      × (type_mapping_get_decimal_digits pg_type_numeric (pos (numeric_modifier p s)) ≡ pos s)
unfolding type_mapping_get_column_size type_mapping_get_decimal_digits
numeric_modifier_lem p s h k l = (ground arith, ground arith)
