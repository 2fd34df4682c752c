-- ===== src/Lib.antt =====
-- A model of the core of psqlodbc, an ODBC driver for PostgreSQL on top of libpq, with the theorems
-- that make it correct.
--
-- The program. The driver manager calls the entry points of src/odbc_api.c, which check the handle
-- and hand the work to a component: environments, connections, statements, descriptors. A connection
-- string or a data source is read into a ConnectionInfo, which becomes the parameters of libpq's
-- connect call. A statement's text goes through the query parser before the server sees it, and
-- values go through the type mapping on their way in and out. Every handle keeps diagnostic records.
--
-- The files. Each component is a module with the source's functions under their own names, and its
-- lemmas and tests are modules below it.
--   Prelude, CLib     shared helpers; the C library's number parsing and printing
--   StringUtils       include/platform/string_utils.h
--   Diagnostics       src/diagnostics.c: the records of a handle and their limit
--   Environment       src/environment.c: an environment and its list of connections
--   ConnectionInfo    the record of src/connection.h, and what is taken from the platform
--   DsnConfig         src/dsn_config.c: a data source of odbc.ini
--   ConnectionString  src/connection_string.c: Store has the chain of keywords, Params the
--                     parameters for libpq, RoundTrip reads back what is written
--   QueryParser       src/query_parser.c: Scanner rewrites markers, escapes and functions on the
--                     way to the server (Step has scan_step, Analyze query_analyze, Progress and Plain
--                     their proofs), Split cuts a batch into statements, Select parses a SELECT
--                     list, Exempt finds the statements outside transactions
--   Libpq             what is taken from libpq: commands, results and their error fields
--   ErrorMapping      src/error_mapping.c: the diagnostics that a result of libpq leads to
--   Connection        src/connection.c: Handle has the life of a handle and its notices,
--                     Statements the slots of statements, Transaction the blocks and savepoints,
--                     with the server's rules in Transaction/Server
--   Parameters        src/parameter.c: binding, the arrays that are sent (Arrays), the literals of
--                     binary values (Bytea)
--   Results           src/results.c: Bytea and Text have the conversions of a fetched text
--   Statement         src/statement.h, src/statement.c and the cursors of src/results.c: Cursor, Fetch,
--                     Block and Scroll move the cursor, Keyset has the text, rows and savepoints of an
--                     updatable cursor, DataAtExec the parameters that arrive in pieces
--   ColumnBinding     src/column_binding.c: the buffers bound to columns
--   LargeObject       src/large_object.c: the wrappers around libpq's large objects
--   TypeMapping       src/type_mapping.c: Catalog has the table of types, Numeric the exact
--                     decimals, Utf the conversions between UTF-8 and UTF-16 (Utf/Standard has
--                     Unicode's encoding forms)
--
-- The model. A text is the list of its bytes, and an index or a pointer into it is the list from
-- there on. A C string ends at its first NUL (c_str). A struct is a record, and a handler takes the
-- state and gives the new one with its result. Machine integers keep their wrap-around written out.
-- malloc, SQLGetPrivateProfileString and the presence of odbcinst are parameters. The loops that are
-- not structural run on fuel: a byte is read in each round, so the length of the text and one is
-- enough. SQL_NTS is the length up to the first NUL.
--
-- In the scanner one amount of fuel, the length of the text and one, bounds the rounds of each loop
-- and the nesting of escapes, since every step takes a byte.
--
-- A fetch does not look into the values of a row: the copy of one row into the bound buffers is a
-- parameter, and the statement keeps the list of the rows that were copied. The conversion of a bound
-- parameter to text is a parameter too. Row numbers and offsets are taken to fit their C types.
--
-- Not modelled: the execution of statements with its state machine and SQLParamData, the conversion of
-- values to and from their C types other than the texts above, positioned updates, descriptors,
-- catalog functions, the entry points, and the set-up dialog. They build on the parts above.
pub mod Prelude
pub mod StringUtils
pub mod CLib
pub mod ConnectionInfo
pub mod DsnConfig
pub mod ConnectionString
pub mod TypeMapping
pub mod QueryParser
pub mod Diagnostics
pub mod Environment
pub mod Libpq
pub mod ErrorMapping
pub mod Connection
pub mod ColumnBinding
pub mod LargeObject
pub mod Parameters
pub mod Results
pub mod Statement
