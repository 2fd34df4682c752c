-- ===== src/Results.antt =====
-- The results of a statement: src/results.c. Bytea and Text have the conversions of a value's text.
pub mod Bytea
pub mod Text
mod Tests
