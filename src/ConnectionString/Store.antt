-- ===== src/ConnectionString/Store.antt =====
-- `store_connection_parameter` of src/connection_string.c: which keyword a key is, and what each
-- keyword stores.
use psqlodbc_new.Prelude.{
  ℕ, ◌+◌, ◌-◌, Bool, true, false, ◌||◌, Option, none, some, [], ◌∷◌, leb, ◌==◌, if◌then◌else◌,
  length, take, Bytes, codes, c_str,
}
use psqlodbc_new.Prelude.Int.{ℤ}
use Prim.Native.String.{String}
use psqlodbc_new.StringUtils.{pg_ascii_case_equal}
use psqlodbc_new.CLib.{strtol, strtoul, u32, to_int, has_bit, is_nonzero}
use psqlodbc_new.ConnectionInfo.{ConnectionInfo, Platform}
use psqlodbc_new.DsnConfig.{dsn_config_read}

-- At most `size - 1` bytes of the source, and the terminator.
unfoldable pub safe_copy_to_buffer : ℕ → Bytes → Bytes
safe_copy_to_buffer size source =
    if leb size (length source) then take (size - 1) source else source

-- The branches of the `if` chain, in its order.
pub data Keyword : Type 0 where
  server port database uid pwd sslmode application_name timeout bools_as_char unknown_sizes :
      Keyword
  max_varchar_size parse fetch_refcursors fetch use_declare_fetch protocol lf_conversion cx ab :
      Keyword
  disallow_premature dsn driver unknown : Keyword

-- `pg_ascii_strcasecmp(key, name) == 0`.
unfoldable pub is_key : Bytes → String → Bool
unfolding pg_ascii_case_equal
is_key key name = pg_ascii_case_equal key (codes name)

-- The chain, over the test of a key against a name.
unfoldable pub keyword_chain : (String → Bool) → Keyword
keyword_chain is =
    if is "Server" || is "Servername"
    then server
    else if is "Port"
    then port
    else if is "Database" || is "DB"
    then database
    else if is "UID" || is "Username" || is "User"
    then uid
    else if is "PWD" || is "Password"
    then pwd
    else if is "SSLmode"
    then sslmode
    else if is "ApplicationName" || is "Application_Name"
    then application_name
    else if is "Timeout" || is "Connect_Timeout"
    then timeout
    else if is "BoolsAsChar"
    then bools_as_char
    else if is "UnknownSizes"
    then unknown_sizes
    else if is "MaxVarcharSize"
    then max_varchar_size
    else if is "Parse"
    then parse
    else if is "FetchRefcursors"
    then fetch_refcursors
    else if is "Fetch"
    then fetch
    else if is "UseDeclareFetch"
    then use_declare_fetch
    else if is "Protocol"
    then protocol
    else if is "LFConversion"
    then lf_conversion
    else if is "CX"
    then cx
    else if is "AB"
    then ab
    else if is "DisallowPremature"
    then disallow_premature
    else if is "DSN"
    then dsn
    else if is "Driver"
    then driver
    else unknown

unfoldable pub keyword_of : Bytes → Keyword
unfolding is_key keyword_chain
keyword_of key = keyword_chain (is_key key)

-- What follows the last '-', as `strrchr` finds it.
pub after_last_dash : Bytes → Option Bytes
after_last_dash [] = none
after_last_dash (c ∷ cs) =
    let later : Option Bytes = after_last_dash cs in
    elim later [ some suffix ↦ some suffix | none ↦ if c == b'-' then some cs else none ]

-- The new `rollback_on_error`: the number behind the last dash, where there is any text there.
abbrev protocol_level : ℤ → Option Bytes → ℤ
protocol_level old none = old
protocol_level old (some []) = old
protocol_level old (some (c ∷ suffix)) = to_int (strtol (c ∷ suffix) 10)

-- A prefix of two bytes is skipped where the text has that many.
abbrev cx_flag_text : Bytes → Bytes
cx_flag_text (a ∷ b ∷ flags) = flags
cx_flag_text text = text

abbrev small_buffer : Bytes → Bytes
small_buffer value = safe_copy_to_buffer 16 value

abbrev large_buffer : Bytes → Bytes
large_buffer value = safe_copy_to_buffer 32 value

-- The parameters of a data source, or its name as the database's where it is not found.
abbrev pub store_dsn : ConnectionInfo × Bool → Bytes → ConnectionInfo
store_dsn (info, true) value = info
store_dsn (info, false) value = record info { database = safe_copy_to_buffer 256 value }

unfoldable pub store_keyword : Platform → ConnectionInfo → Bytes → Keyword → ConnectionInfo
unfolding safe_copy_to_buffer after_last_dash strtol strtoul to_int has_bit dsn_config_read
store_keyword p info value server = record info { server = safe_copy_to_buffer 256 value }
store_keyword p info value port = record info { port = safe_copy_to_buffer 16 value }
store_keyword p info value database = record info { database = safe_copy_to_buffer 256 value }
store_keyword p info value uid = record info { username = safe_copy_to_buffer 256 value }
store_keyword p info value pwd = record info {
  password = if p.allocates (length value + 1) then some value else none;
}
store_keyword p info value sslmode = record info { sslmode = safe_copy_to_buffer 32 value }
store_keyword p info value application_name = record info {
  application_name = safe_copy_to_buffer 256 value;
}
store_keyword p info value timeout = record info {
  connect_timeout = u32 (strtoul (small_buffer value) 10);
}
store_keyword p info value bools_as_char = record info {
  bools_as_char = is_nonzero (strtol (small_buffer value) 10);
}
store_keyword p info value unknown_sizes = record info {
  unknown_sizes = to_int (strtol (small_buffer value) 10);
}
store_keyword p info value max_varchar_size = record info {
  max_varchar_size = to_int (strtol (small_buffer value) 10);
}
store_keyword p info value parse = record info {
  parse_statements = is_nonzero (strtol (small_buffer value) 10);
}
store_keyword p info value fetch_refcursors = record info {
  fetch_refcursors = is_nonzero (strtol (small_buffer value) 10);
}
store_keyword p info value protocol = record info {
  rollback_on_error =
      protocol_level info.rollback_on_error (after_last_dash (c_str (large_buffer value)));
}
store_keyword p info value lf_conversion = record info {
  lf_conversion = is_nonzero (strtol (small_buffer value) 10);
}
store_keyword p info value cx = record info {
  lf_conversion = has_bit (strtol (cx_flag_text (c_str (large_buffer value))) 16) 0;
}
store_keyword p info value ab = record info {
  cvt_null_date = has_bit (strtol (large_buffer value) 16) 3;
}
store_keyword p info value dsn = store_dsn (dsn_config_read p (c_str value) info) value
store_keyword p info value fetch = info
store_keyword p info value use_declare_fetch = info
store_keyword p info value disallow_premature = info
store_keyword p info value driver = info
store_keyword p info value unknown = info

unfoldable pub store_connection_parameter :
    Platform → ConnectionInfo → Bytes → Bytes → ConnectionInfo
unfolding store_keyword keyword_of
store_connection_parameter p info key value = store_keyword p info value (keyword_of key)
