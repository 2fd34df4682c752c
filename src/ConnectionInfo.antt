-- ===== src/ConnectionInfo.antt =====
-- The parsed connection parameters: `ConnectionInfo` of src/connection.h.
-- A `char[n]` field is the bytes before its terminator; the heap copy of the password is an
-- `Option`, `none` for NULL.
use psqlodbc_new.Prelude.{ℕ, ◌^◌, ◌<◌, Bool, true, false, Option, [], length, Bytes}
use psqlodbc_new.Prelude.Int.{ℤ}

pub record ConnectionInfo : Type 0 where
  pub server : Bytes
  pub port : Bytes
  pub database : Bytes
  pub username : Bytes
  pub password : Option Bytes
  pub sslmode : Bytes
  pub application_name : Bytes
  pub connect_timeout : ℕ  -- unsigned int
  pub bools_as_char : Bool
  pub unknown_sizes : ℤ  -- int
  pub max_varchar_size : ℤ  -- int
  pub parse_statements : Bool
  pub fetch_refcursors : Bool
  pub rollback_on_error : ℤ  -- int
  pub lf_conversion : Bool
  pub cvt_null_date : Bool

-- Every text fits its buffer with the terminator, and the timeout its 32 bits.
pub record IsBounded (info : ConnectionInfo) : Type 0 where
  pub server_fits : length info.server < 256
  pub port_fits : length info.port < 16
  pub database_fits : length info.database < 256
  pub username_fits : length info.username < 256
  pub sslmode_fits : length info.sslmode < 32
  pub application_name_fits : length info.application_name < 256
  pub timeout_fits : info.connect_timeout < 2 ^ 32

-- What the code takes from outside the repository: whether `malloc` of so many bytes succeeds,
-- whether the driver is built with libodbcinst, and `SQLGetPrivateProfileString`, which gives the
-- text that the named INI file holds for a key of a section, cut to the caller's buffer size.
pub record Platform : Type 0 where
  pub allocates : ℕ → Bool
  pub has_odbcinst : Bool
  pub private_profile_string : Bytes → Bytes → Bytes → Bytes

-- A platform with enough memory and no libodbcinst.
abbrev pub no_odbcinst : Platform
no_odbcinst = record {
  allocates = λ n. true;
  has_odbcinst = false;
  private_profile_string = λ dsn key ini_file. [];
}
