-- ===== src/DsnConfig.antt =====
-- Reading a data source's parameters from odbc.ini: src/dsn_config.c, in its POSIX form.
pub mod Bounds
use psqlodbc_new.Prelude.{
  ℕ, ◌+◌, ◌-◌, Bool, true, false, ◌||◌, Option, none, some, [], ◌∷◌, ltb, ◌==◌, if◌then◌else◌,
  length, take, Bytes, codes, c_str,
}
use psqlodbc_new.CLib.{strtoul, u32}
use psqlodbc_new.StringUtils.{first_byte}
use psqlodbc_new.ConnectionInfo.{ConnectionInfo, Platform}

abbrev odbc_ini_file : Bytes
odbc_ini_file = codes "odbc.ini"

abbrev ini_value_buffer_size : ℕ
ini_value_buffer_size = 512

-- `strncpy` into a field of `size` bytes whose last byte is then the terminator.
unfoldable pub copy_field : ℕ → Bytes → Bytes
copy_field size buffer = take (size - 1) (c_str buffer)

-- An update of the parameters that may find nothing: the info after it, and whether a value was
-- found.
abbrev pub Lookup : Type 0
Lookup = ConnectionInfo × Bool → ConnectionInfo × Bool

-- `b || found`, after a value is stored.
abbrev found_in : ConnectionInfo → ConnectionInfo × Bool
found_in info = (info, true)

-- What each branch does with the text in the buffer.
abbrev pub store_server : ConnectionInfo → Bytes → ConnectionInfo × Bool
store_server info buffer = found_in (record info { server = copy_field 256 buffer })

abbrev pub store_port : ConnectionInfo → Bytes → ConnectionInfo × Bool
store_port info buffer = found_in (record info { port = copy_field 16 buffer })

abbrev pub store_database : ConnectionInfo → Bytes → ConnectionInfo × Bool
store_database info buffer = found_in (record info { database = copy_field 256 buffer })

abbrev pub store_username : ConnectionInfo → Bytes → ConnectionInfo × Bool
store_username info buffer = found_in (record info { username = copy_field 256 buffer })

abbrev pub store_sslmode : ConnectionInfo → Bytes → ConnectionInfo × Bool
store_sslmode info buffer = found_in (record info { sslmode = copy_field 32 buffer })

abbrev pub store_application_name : ConnectionInfo → Bytes → ConnectionInfo × Bool
store_application_name info buffer =
    found_in (record info { application_name = copy_field 256 buffer })

abbrev pub store_timeout : ConnectionInfo → Bytes → ConnectionInfo × Bool
store_timeout info buffer = found_in (record info { connect_timeout = u32 (strtoul buffer 10) })

-- The password is copied whole; where the copy gets no memory, nothing changes.
abbrev pub store_password : Platform → ConnectionInfo × Bool → Bytes → ConnectionInfo × Bool
store_password p (info, found) buffer =
    if p.allocates (length (c_str buffer) + 1)
    then found_in (record info { password = some (c_str buffer) })
    else (info, found)

module _ (p : Platform) where
  -- The text that the call leaves in the buffer, whose length the call returns.
  pub read_ini_string_from : Bytes → Bytes → Bytes → Bytes
  read_ini_string_from dsn_name key ini_file =
      take (ini_value_buffer_size - 1) (p.private_profile_string dsn_name key ini_file)

  -- `if (read_ini_string_from(...) > 0) store` with the branch taken otherwise.
  pub when_set :
      Bytes
      → Bytes
      → Bytes
      → (Bytes → ConnectionInfo × Bool)
      → ConnectionInfo × Bool
      → ConnectionInfo × Bool
  unfolding read_ini_string_from
  when_set dsn_name ini_file key store otherwise =
      let buffer = read_ini_string_from dsn_name key ini_file in
      if ltb 0 (length buffer) then store buffer else otherwise

  module _ (dsn_name ini_file : Bytes) where
    pub read_server : Lookup
    unfolding when_set copy_field
    read_server (info, found) =
        when_set dsn_name ini_file (codes "Servername") (store_server info)
          (when_set dsn_name ini_file (codes "Server") (store_server info) (info, found))

    pub read_port : Lookup
    unfolding when_set copy_field
    read_port (info, found) =
        when_set dsn_name ini_file (codes "Port") (store_port info) (info, found)

    pub read_database : Lookup
    unfolding when_set copy_field
    read_database (info, found) =
        when_set dsn_name ini_file (codes "Database") (store_database info) (info, found)

    pub read_username : Lookup
    unfolding when_set copy_field
    read_username (info, found) =
        when_set dsn_name ini_file (codes "Username") (store_username info)
          (when_set dsn_name ini_file (codes "UID") (store_username info) (info, found))

    pub read_password : Lookup
    unfolding when_set copy_field
    read_password (info, found) =
        when_set dsn_name ini_file (codes "Password") (store_password p (info, found)) (info, found)

    pub read_sslmode : Lookup
    unfolding when_set copy_field
    read_sslmode (info, found) =
        when_set dsn_name ini_file (codes "SSLmode") (store_sslmode info) (info, found)

    pub read_application_name : Lookup
    unfolding when_set copy_field
    read_application_name (info, found) =
        when_set dsn_name ini_file (codes "ApplicationName") (store_application_name info)
          (info, found)

    pub read_timeout : Lookup
    unfolding when_set copy_field
    read_timeout (info, found) =
        when_set dsn_name ini_file (codes "Timeout") (store_timeout info) (info, found)

  -- The parameters in the order in which the code reads them.
  pub dsn_config_read_impl : Bytes → ConnectionInfo → Bytes → ConnectionInfo × Bool
  unfolding read_server read_port read_database read_username read_password read_sslmode
      read_application_name read_timeout
  dsn_config_read_impl [] info ini_file = (info, false)
  dsn_config_read_impl (c ∷ name) info ini_file =
      let dsn = c ∷ name in
      if c == 0
      then (info, false)
      else read_timeout dsn ini_file (
          read_application_name dsn ini_file (
            read_sslmode dsn ini_file (
              read_password dsn ini_file (
                read_username dsn ini_file (
                  read_database dsn ini_file
                    (read_port dsn ini_file (read_server dsn ini_file (info, false))))))))

  unfoldable pub dsn_config_read : Bytes → ConnectionInfo → ConnectionInfo × Bool
  unfolding dsn_config_read_impl
  dsn_config_read dsn_name info =
      if p.has_odbcinst then dsn_config_read_impl dsn_name info odbc_ini_file else (info, false)

  -- A file name that is absent or empty means the system's odbc.ini.
  unfoldable pub dsn_config_read_file :
      Bytes → ConnectionInfo → Option Bytes → ConnectionInfo × Bool
  unfolding dsn_config_read dsn_config_read_impl
  dsn_config_read_file dsn_name info none = dsn_config_read dsn_name info
  dsn_config_read_file dsn_name info (some ini_file) =
      if first_byte ini_file == 0
      then dsn_config_read dsn_name info
      else if p.has_odbcinst
      then dsn_config_read_impl dsn_name info ini_file
      else (info, false)
