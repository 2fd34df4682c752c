-- ===== src/TypeMapping/Catalog.antt =====
-- The types of PostgreSQL and their ODBC counterparts: the table of src/type_mapping.c and the
-- functions around it, with the type numbers of src/type_mapping.h.
-- ODBC's own constants are those of the system's headers: a constructor for each that is named
-- here, and one for all other codes.
mod Laws
mod Tests
use psqlodbc_new.Prelude.{
  ℕ, ◌-◌, ◌/◌, ◌%◌, ◌^◌, min, ◌||◌, Option, none, some, List, [], ◌∷◌, ◌++◌, ltb, ◌==◌,
  if◌then◌else◌, length, take, drop, Bytes, codes, c_str,
}
use psqlodbc_new.CLib.{strtoul, u32}
use psqlodbc_new.Prelude.Int.{ℤ, pos, negsuc, ltb_ℤ}

pub data SqlType : Type 0 where
  sql_char sql_varchar sql_longvarchar : SqlType
  sql_bit sql_tinyint sql_smallint sql_integer sql_bigint : SqlType
  sql_real sql_float sql_double sql_numeric sql_decimal : SqlType
  sql_binary sql_varbinary sql_longvarbinary : SqlType
  sql_type_date sql_type_time sql_type_timestamp : SqlType
  sql_date sql_time sql_timestamp : SqlType
  sql_guid : SqlType
  other_sql_type : ℤ → SqlType

pub data CType : Type 0 where
  sql_c_bit sql_c_sshort sql_c_slong sql_c_sbigint : CType
  sql_c_float sql_c_double sql_c_char sql_c_binary : CType

abbrev pub pg_type_bool : ℕ
pg_type_bool = 16

abbrev pub pg_type_bytea : ℕ
pg_type_bytea = 17

abbrev pub pg_type_char : ℕ
pg_type_char = 18

abbrev pub pg_type_name : ℕ
pg_type_name = 19

abbrev pub pg_type_int8 : ℕ
pg_type_int8 = 20

abbrev pub pg_type_int2 : ℕ
pg_type_int2 = 21

abbrev pub pg_type_int4 : ℕ
pg_type_int4 = 23

abbrev pub pg_type_text : ℕ
pg_type_text = 25

abbrev pub pg_type_oid : ℕ
pg_type_oid = 26

abbrev pub pg_type_float4 : ℕ
pg_type_float4 = 700

abbrev pub pg_type_float8 : ℕ
pg_type_float8 = 701

abbrev pub pg_type_bpchar : ℕ
pg_type_bpchar = 1042

abbrev pub pg_type_varchar : ℕ
pg_type_varchar = 1043

abbrev pub pg_type_date : ℕ
pg_type_date = 1082

abbrev pub pg_type_time : ℕ
pg_type_time = 1083

abbrev pub pg_type_timestamp : ℕ
pg_type_timestamp = 1114

abbrev pub pg_type_timestamptz : ℕ
pg_type_timestamptz = 1184

abbrev pub pg_type_numeric : ℕ
pg_type_numeric = 1700

abbrev pub pg_type_uuid : ℕ
pg_type_uuid = 2950

pub record PostgresTypeMapping : Type 0 where
  pub postgres_oid : ℕ
  pub sql_type : SqlType
  pub default_c_type : CType
  pub type_name : Bytes

abbrev row : ℕ → SqlType → CType → Bytes → PostgresTypeMapping
row oid sql c name = record {
  postgres_oid = oid;
  sql_type = sql;
  default_c_type = c;
  type_name = name;
}

abbrev pub type_table : List PostgresTypeMapping
type_table =
    row pg_type_bool sql_bit sql_c_bit (codes "bool")
    ∷ row pg_type_bytea sql_longvarbinary sql_c_binary (codes "bytea")
    ∷ row pg_type_char sql_char sql_c_char (codes "char")
    ∷ row pg_type_name sql_varchar sql_c_char (codes "name")
    ∷ row pg_type_int8 sql_bigint sql_c_sbigint (codes "int8")
    ∷ row pg_type_int2 sql_smallint sql_c_sshort (codes "int2")
    ∷ row pg_type_int4 sql_integer sql_c_slong (codes "int4")
    ∷ row pg_type_text sql_longvarchar sql_c_char (codes "text")
    ∷ row pg_type_oid sql_integer sql_c_slong (codes "oid")
    ∷ row pg_type_float4 sql_real sql_c_float (codes "float4")
    ∷ row pg_type_float8 sql_double sql_c_double (codes "float8")
    ∷ row pg_type_bpchar sql_char sql_c_char (codes "bpchar")
    ∷ row pg_type_varchar sql_varchar sql_c_char (codes "varchar")
    ∷ row pg_type_date sql_type_date sql_c_char (codes "date")
    ∷ row pg_type_time sql_type_time sql_c_char (codes "time")
    ∷ row pg_type_timestamp sql_type_timestamp sql_c_char (codes "timestamp")
    ∷ row pg_type_timestamptz sql_type_timestamp sql_c_char (codes "timestamptz")
    ∷ row pg_type_numeric sql_numeric sql_c_char (codes "numeric")
    ∷ row pg_type_uuid sql_guid sql_c_char (codes "uuid")
    ∷ []

-- The loop over the table: the first row with the number.
pub find_in : List PostgresTypeMapping → ℕ → Option PostgresTypeMapping
find_in [] oid = none
find_in (m ∷ ms) oid =
    let later : Option PostgresTypeMapping = find_in ms oid in
    if m.postgres_oid == oid then some m else later

unfoldable pub find_mapping : ℕ → Option PostgresTypeMapping
unfolding find_in
find_mapping oid = find_in type_table oid

abbrev sql_type_or_default : Option PostgresTypeMapping → SqlType
sql_type_or_default none = sql_varchar
sql_type_or_default (some m) = m.sql_type

unfoldable pub type_mapping_get_sql_type : ℕ → SqlType
type_mapping_get_sql_type oid = sql_type_or_default (find_mapping oid)

unfoldable pub type_mapping_get_default_c_type : SqlType → CType
type_mapping_get_default_c_type sql_bit = sql_c_bit
type_mapping_get_default_c_type sql_smallint = sql_c_sshort
type_mapping_get_default_c_type sql_integer = sql_c_slong
type_mapping_get_default_c_type sql_bigint = sql_c_sbigint
type_mapping_get_default_c_type sql_real = sql_c_float
type_mapping_get_default_c_type sql_double = sql_c_double
type_mapping_get_default_c_type sql_float = sql_c_double
type_mapping_get_default_c_type sql_binary = sql_c_binary
type_mapping_get_default_c_type sql_varbinary = sql_c_binary
type_mapping_get_default_c_type sql_longvarbinary = sql_c_binary
type_mapping_get_default_c_type _ = sql_c_char

-- What a positive modifier of a character type gives above the header.
abbrev declared_length : ℤ → ℕ
declared_length (pos n) = if ltb 4 n then n - 4 else 0
declared_length (negsuc n) = 0

abbrev declared_precision : ℤ → ℕ
declared_precision (pos n) = if ltb 4 n then (n - 4) / 2 ^ 16 % 2 ^ 16 else 38
declared_precision (negsuc n) = 38

abbrev pub text_field_column_size : ℕ
text_field_column_size = 8190

unfoldable pub type_mapping_get_column_size : ℕ → ℤ → ℕ
type_mapping_get_column_size oid type_modifier =
    if oid == pg_type_bool
    then 1
    else if oid == pg_type_int2
    then 5
    else if oid == pg_type_int4 || oid == pg_type_oid
    then 10
    else if oid == pg_type_int8
    then 19
    else if oid == pg_type_float4
    then 7
    else if oid == pg_type_float8
    then 15
    else if oid == pg_type_date
    then 10
    else if oid == pg_type_time
    then 8
    else if oid == pg_type_timestamp || oid == pg_type_timestamptz
    then 26
    else if oid == pg_type_uuid
    then 36
    else if oid == pg_type_char
    then 1
    else if oid == pg_type_name
    then 63
    else if oid == pg_type_varchar || oid == pg_type_bpchar
    then declared_length type_modifier
    else if oid == pg_type_numeric
    then declared_precision type_modifier
    else if oid == pg_type_text
    then text_field_column_size
    else 0

-- The cast of sixteen bits to a signed 16-bit integer.
abbrev pub to_small : ℕ → ℤ
to_small n = if ltb n (2 ^ 15) then pos n else negsuc (2 ^ 16 - 1 - n)

abbrev declared_scale : ℤ → ℤ
declared_scale (pos n) = if ltb 4 n then to_small ((n - 4) % 2 ^ 16) else pos 0
declared_scale (negsuc n) = pos 0

unfoldable pub type_mapping_get_decimal_digits : ℕ → ℤ → ℤ
type_mapping_get_decimal_digits oid type_modifier =
    if oid == pg_type_numeric
    then declared_scale type_modifier
    else if oid == pg_type_timestamp || oid == pg_type_timestamptz || oid == pg_type_time
    then pos 6
    else pos 0

abbrev name_or_unknown : Option PostgresTypeMapping → Bytes
name_or_unknown none = codes "unknown"
name_or_unknown (some m) = m.type_name

unfoldable pub type_mapping_get_type_name : ℕ → Bytes
type_mapping_get_type_name oid = name_or_unknown (find_mapping oid)

-- The cast that is written behind a parameter of the type; `none` is NULL.
unfoldable pub type_mapping_get_param_cast : SqlType → Option Bytes
type_mapping_get_param_cast sql_binary = some (codes "::bytea")
type_mapping_get_param_cast sql_varbinary = some (codes "::bytea")
type_mapping_get_param_cast sql_type_date = some (codes "::date")
type_mapping_get_param_cast sql_date = some (codes "::date")
type_mapping_get_param_cast sql_decimal = some (codes "::numeric")
type_mapping_get_param_cast sql_numeric = some (codes "::numeric")
type_mapping_get_param_cast sql_bigint = some (codes "::int8")
type_mapping_get_param_cast sql_integer = some (codes "::int4")
type_mapping_get_param_cast sql_real = some (codes "::float4")
type_mapping_get_param_cast sql_smallint = some (codes "::int2")
type_mapping_get_param_cast sql_tinyint = some (codes "::int2")
type_mapping_get_param_cast sql_time = some (codes "::time")
type_mapping_get_param_cast sql_type_time = some (codes "::time")
type_mapping_get_param_cast sql_timestamp = some (codes "::timestamp")
type_mapping_get_param_cast sql_type_timestamp = some (codes "::timestamp")
type_mapping_get_param_cast sql_guid = some (codes "::uuid")
type_mapping_get_param_cast _ = none

abbrev pub interval_max_fraction_digits : ℕ
interval_max_fraction_digits = 9

-- The precision that is asked for; a negative one stands for microseconds.
abbrev requested_or_default : ℤ → ℕ
requested_or_default (pos n) = n
requested_or_default (negsuc n) = 6

abbrev copied_digits : Option Bytes → Bytes
copied_digits none = []
copied_digits (some digits) = take interval_max_fraction_digits (c_str digits)

-- The digits over the template of zeros, ended at the precision.
abbrev fraction_buffer : ℕ → Bytes → Bytes
fraction_buffer precision digits =
    take (min precision interval_max_fraction_digits)
      (digits ++ drop (length digits) (codes "000000000"))

unfoldable pub type_mapping_interval_fraction : ℤ → Option Bytes → ℕ
unfolding strtoul
type_mapping_interval_fraction requested_precision fraction_digits =
    let precision = requested_or_default requested_precision in
    if precision == 0
    then 0
    else u32 (strtoul (fraction_buffer precision (copied_digits fraction_digits)) 10)
