-- ===== src/ConnectionString/Tests.antt =====
-- The connection string parser and its laws at concrete texts.
use psqlodbc_new.Prelude.{
  suc, ◌≤◌, ◌≡◌, refl, Bool, true, false, none, some, List, [], ◌∷◌, arith, length, All, codes,
}
use psqlodbc_new.Prelude.Int.{pos, negsuc}
use psqlodbc_new.StringUtils.CaseFold.{folded}
use psqlodbc_new.CLib.{decimal}
use psqlodbc_new.StringUtils.{pg_ascii_tolower}
use psqlodbc_new.ConnectionInfo.{ConnectionInfo, Platform, IsBounded, no_odbcinst}
use psqlodbc_new.DsnConfig.{dsn_config_read}
use psqlodbc_new.DsnConfig.Bounds.{dsn_config_read-IsBounded}
use psqlodbc_new.ConnectionString.Store.{store_connection_parameter}
use psqlodbc_new.ConnectionString.{connection_string_parse}
use psqlodbc_new.ConnectionString.Keys.{
  names_key, keyword_names, look_up, store-look_up, store-folded,
}
use psqlodbc_new.ConnectionString.Store.{store_keyword, unknown_sizes}
use psqlodbc_new.ConnectionString.Bounds.{connection_string_parse_total}
use psqlodbc_new.ConnectionString.RoundTrip.{Written, braced, plain}
use psqlodbc_new.ConnectionString.Params.{
  IsShown, libpq_max_params, connection_info_build_libpq_params, build_params_bounded, last,
  timeout_passed_on,
}

abbrev blank : ConnectionInfo
blank = record {
  server = [];
  port = [];
  database = [];
  username = [];
  password = none;
  sslmode = [];
  application_name = [];
  connect_timeout = 0;
  bools_as_char = true;
  unknown_sizes = pos 0;
  max_varchar_size = pos 255;
  parse_statements = false;
  fetch_refcursors = false;
  rollback_on_error = negsuc 0;
  lf_conversion = false;
  cvt_null_date = false;
}

blank-IsBounded : IsBounded blank
blank-IsBounded = omega arith

-- An odbc.ini whose every key holds "db".
abbrev with_odbcinst : Platform
with_odbcinst = record {
  allocates = λ n. true;
  has_odbcinst = true;
  private_profile_string = λ dsn key ini_file. codes "db";
}

-- A key with odd case and blanks, a value with semicolons, and a protocol suffix.
parse_text :
    connection_string_parse no_odbcinst
      (some (codes " sErver = h ;;PWD={a;b};Protocol=7.4-2;junk"))
      (negsuc 2)
      blank
    ≡ some (
      record blank { server = codes "h"; password = some (codes "a;b"); rollback_on_error = pos 2 },
      true,
    )
unfolding connection_string_parse store_connection_parameter
parse_text = refl

negative_length :
    connection_string_parse no_odbcinst (some (codes "PWD=x")) (negsuc 0) blank
    ≡ some (blank, false)
unfolding connection_string_parse
negative_length = refl

dsn_config_read-IsBounded_example : IsBounded (dsn_config_read with_odbcinst (codes "x") blank).0
dsn_config_read-IsBounded_example =
    dsn_config_read-IsBounded with_odbcinst (codes "x") blank blank-IsBounded

store-look_up_example :
    store_connection_parameter no_odbcinst blank (codes "UNKNOWNsizes") (codes "1")
    ≡ store_keyword no_odbcinst blank
        (codes "1")
        (look_up (names_key (codes "UNKNOWNsizes")) keyword_names)
store-look_up_example = store-look_up no_odbcinst blank (codes "UNKNOWNsizes") (codes "1")

recognised : look_up (names_key (codes "UNKNOWNsizes")) keyword_names ≡ unknown_sizes
recognised = refl

store-folded_case :
    store_connection_parameter no_odbcinst blank (codes "sslMODE") (codes "require")
    ≡ store_connection_parameter no_odbcinst blank (codes "SSLmode") (codes "require")
unfolding pg_ascii_tolower
store-folded_case =
    store-folded no_odbcinst blank (codes "sslMODE") (codes "SSLmode") (codes "require") same
  where
    same : folded (codes "sslMODE") ≡ folded (codes "SSLmode")
    same = refl

connection_string_parse_total_example :
    (info' : ConnectionInfo) × (b : Bool) × (connection_string_parse no_odbcinst
        (some (codes "UID=a;;=;x"))
        (negsuc 2)
        blank
      ≡ some (info', b))
    × IsBounded info'
    × (b ≡ false → info' ≡ blank)
connection_string_parse_total_example =
    connection_string_parse_total no_odbcinst (some (codes "UID=a;;=;x")) (negsuc 2) blank
      blank-IsBounded

abbrev pairs : List Written
pairs = braced (codes "PWD") (codes "a;b=c") ∷ plain (codes "Server") (codes "localhost") ∷ []

build_params_bounded_example :
    (suc (length (connection_info_build_libpq_params blank)) ≤ libpq_max_params)
    × All IsShown (connection_info_build_libpq_params blank)
build_params_bounded_example = build_params_bounded blank blank-IsBounded

timeout_passed_on_case :
    last (
      connection_info_build_libpq_params
        (store_connection_parameter no_odbcinst blank (codes "TIMEOUT") (decimal 30)))
    ≡ some (codes "connect_timeout", decimal 30)
unfolding pg_ascii_tolower
timeout_passed_on_case =
    timeout_passed_on no_odbcinst blank (codes "TIMEOUT") 30 same (omega arith) (omega arith)
  where
    same : folded (codes "TIMEOUT") ≡ folded (codes "Timeout")
    same = refl
