-- ===== src/TypeMapping.antt =====
-- Conversions between PostgreSQL's and ODBC's types: src/type_mapping.c and src/type_mapping.h.
pub mod Catalog
pub mod Numeric
pub mod Utf
