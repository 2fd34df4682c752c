-- ===== src/ConnectionString/Params.antt =====
-- `connection_info_build_libpq_params` of src/connection_string.c: the keyword and value arrays for
-- `PQconnectdbParams`, as one list of the pairs before the terminating NULLs.
use psqlodbc_new.Prelude.{
  ℕ, suc, ◌^◌, ◌≤◌, ◌<◌, ◌≡◌, refl, ◌≢◌, Option, none, some, List, [], ◌∷◌, ◌++◌, arith, ltb, ◌==◌,
  if◌then◌else◌, lt→leb_false, length, take, length-append, take-length_le, All, All-append, Bytes,
  codes, c_str,
}
use Prim.Native.String.{String}
use psqlodbc_new.StringUtils.{first_byte}
use psqlodbc_new.CLib.{decimal}
use psqlodbc_new.CLib.Decimal.{strtoul-decimal, length-decimal, c_str-decimal, decimal_starts}
use psqlodbc_new.ConnectionString.Store.{
  safe_copy_to_buffer, store_keyword, timeout, store_connection_parameter,
}
use psqlodbc_new.ConnectionString.Keys.{store-folded}
use psqlodbc_new.StringUtils.CaseFold.{folded}
use psqlodbc_new.ConnectionInfo.{ConnectionInfo, Platform, IsBounded}

abbrev pub libpq_max_params : ℕ
libpq_max_params = 9

-- A value is the C string that its pointer shows.
abbrev pub Param : Type 0
Param = Bytes × Bytes

abbrev text_param : String → Bytes → List Param
text_param keyword text = if first_byte text == 0 then [] else (codes keyword, c_str text) ∷ []

abbrev password_param : Option Bytes → List Param
password_param none = []
password_param (some text) = text_param "password" text

-- `snprintf` with "%u" into 16 bytes.
abbrev timeout_param : ℕ → List Param
timeout_param seconds =
    if ltb 0 seconds then (codes "connect_timeout", take 15 (decimal seconds)) ∷ [] else []

abbrev text_params : ConnectionInfo → List Param
text_params info =
    text_param "host" info.server
    ++ (text_param "port" info.port
        ++ (text_param "dbname" info.database
            ++ (text_param "user" info.username
                ++ (password_param info.password
                    ++ (text_param "sslmode" info.sslmode
                        ++ text_param "application_name" info.application_name)))))

unfoldable pub connection_info_build_libpq_params : ConnectionInfo → List Param
connection_info_build_libpq_params info = text_params info ++ timeout_param info.connect_timeout

-- A value that libpq gets: not empty, and with no NUL in it.
abbrev pub IsShown : Param → Type 0
IsShown (keyword, value) = (value ≢ []) × (c_str value ≡ value)

c_str-c_str : (s : Bytes) → c_str (c_str s) ≡ c_str s
c_str-c_str [] = refl
c_str-c_str (c ∷ s) = ground (arith, c_str-c_str s)

-- What each field contributes: at most one pair, and a proper value.
abbrev Contributes : List Param → Type 0
Contributes ps = (length ps ≤ 1) × All IsShown ps

text_param_lem : (keyword : String) (text : Bytes) → Contributes (text_param keyword text)
text_param_lem keyword [] = (omega arith, tt)
text_param_lem keyword (c ∷ text) = ground (arith, c_str-c_str text)

password_param_lem : (password : Option Bytes) → Contributes (password_param password)
password_param_lem none = (omega arith, tt)
password_param_lem (some text) = text_param_lem "password" text

timeout_text : (n : ℕ) → n < 2 ^ 32 → take 15 (decimal n) ≡ decimal n
timeout_text n h = take-length_le 15 (decimal n) (omega (arith, length-decimal n 9 (omega arith)))

timeout_param_lem : (n : ℕ) → n < 2 ^ 32 → Contributes (timeout_param n)
timeout_param_lem n h =
    let (c, cs, e, nonzero) = decimal_starts n in
    let text = timeout_text n h in ground (arith, text, c_str-decimal n, e)

module _ (info : ConnectionInfo) (v : IsBounded info) where
  -- A list put before others, with its length and its values.
  prepend :
      (ps qs : List Param) (n : ℕ)
      → Contributes ps
      → (length qs ≤ n) × All IsShown qs
      → (length (ps ++ qs) ≤ suc n) × All IsShown (ps ++ qs)
  prepend ps qs n (short, shown) (few, all) =
      (omega (arith, length-append ps qs), All-append IsShown ps qs shown all)

  -- From parameters that fit their buffers, the pairs and the terminator fit arrays of
  -- LIBPQ_MAX_PARAMS entries, and no value is empty or is cut short by a NUL.
  pub build_params_bounded :
      (suc (length (connection_info_build_libpq_params info)) ≤ libpq_max_params)
      × All IsShown (connection_info_build_libpq_params info)
  unfolding connection_info_build_libpq_params
  build_params_bounded =
      let (few, shown) = prepend _ _ 6 (text_param_lem "host" info.server) (
        prepend _ _ 5 (text_param_lem "port" info.port) (
          prepend _ _ 4 (text_param_lem "dbname" info.database) (
            prepend _ _ 3 (text_param_lem "user" info.username) (
              prepend _ _ 2 (password_param_lem info.password) (
                prepend _ _ 1 (text_param_lem "sslmode" info.sslmode)
                  (text_param_lem "application_name" info.application_name)))))) in
      let (one, all) = timeout_param_lem info.connect_timeout v.timeout_fits in
      (
        omega (arith, length-append (text_params info) (timeout_param info.connect_timeout)),
        All-append IsShown _ _ shown all,
      )

pub last : List Param → Option Param
last [] = none
last (p ∷ []) = some p
last (p ∷ q ∷ ps) = last (q ∷ ps)

last-append : (ps qs : List Param) {t : Param} → last qs ≡ some t → last (ps ++ qs) ≡ some t
unfolding last
last-append [] qs h = h
last-append (p ∷ []) [] h = cc
last-append (p ∷ []) (q ∷ qs) h = h
last-append (p ∷ r ∷ ps) qs h = last-append (r ∷ ps) qs h

last_param :
    (info : ConnectionInfo) (n : ℕ)
    → info.connect_timeout ≡ n
    → 0 < n
    → n < 2 ^ 32
    → last (connection_info_build_libpq_params info) ≡ some (codes "connect_timeout", decimal n)
unfolding connection_info_build_libpq_params
last_param info n e h b =
    let here : last (timeout_param info.connect_timeout)
        ≡ some (codes "connect_timeout", decimal n) =
      unfold last in rw e (ground (arith, timeout_text n b)) in
    last-append (text_params info) (timeout_param info.connect_timeout) here

timeout_stored :
    (p : Platform) (info : ConnectionInfo) (n : ℕ)
    → n < 2 ^ 32
    → (store_keyword p info (decimal n) timeout).connect_timeout ≡ n
unfolding store_keyword safe_copy_to_buffer
timeout_stored p info n b =
    let short : length (decimal n) < 16 = omega (arith, length-decimal n 9 (omega arith)) in
    rw (lt→leb_false short) (rw (strtoul-decimal n (omega arith)) (omega arith))

Timeout_stores :
    (p : Platform) (info : ConnectionInfo) (value : Bytes)
    → store_connection_parameter p info (codes "Timeout") value ≡ store_keyword p info value timeout
unfolding store_connection_parameter
Timeout_stores p info value = refl

-- A positive timeout below 2 ^ 32, written in decimal under the key "Timeout" in any case, is what
-- libpq gets: the last pair is "connect_timeout" with the same decimal text.
pub timeout_passed_on :
    (p : Platform) (info : ConnectionInfo) (key : Bytes) (n : ℕ)
    → folded key ≡ folded (codes "Timeout")
    → 0 < n
    → n < 2 ^ 32
    → last (connection_info_build_libpq_params (store_connection_parameter p info key (decimal n)))
      ≡ some (codes "connect_timeout", decimal n)
timeout_passed_on p info key n e h b =
    rw (store-folded p info key (codes "Timeout") (decimal n) e)
      (rw (Timeout_stores p info (decimal n)) (last_param _ n (timeout_stored p info n b) h b))
