-- ===== src/ConnectionString/Keys.antt =====
-- Which keyword a key is, by a table of names and whatever the case of its letters.
use mathlib.Core.Path.{fun_ext}
use Prim.Native.String.{String}
use psqlodbc_new.Prelude.{
  ℕ, ◌+◌, ◌≡◌, refl, sym, ap, ◌∙◌, inl, inr, Bool, true, false, ◌&&◌, ◌||◌, List, [], ◌∷◌, arith,
  leb, ◌==◌, if◌then◌else◌, Bool-cases, Bytes, codes, c_str,
}
use psqlodbc_new.Prelude.Int.{sub_ℕ}
use psqlodbc_new.StringUtils.{pg_ascii_tolower, pg_ascii_case_equal, pg_ascii_strcasecmp, is_zero}
use psqlodbc_new.StringUtils.CaseFold.{folded, case_equal_iff, tolower-zero}
use psqlodbc_new.ConnectionInfo.{ConnectionInfo, Platform}
use psqlodbc_new.ConnectionString.Store.{
  Keyword, server, port, database, uid, pwd, sslmode, application_name, timeout, bools_as_char,
  unknown_sizes, max_varchar_size, parse, fetch_refcursors, fetch, use_declare_fetch, protocol,
  lf_conversion, cx, ab, disallow_premature, dsn, driver, unknown, keyword_chain, is_key,
  keyword_of, store_keyword, store_connection_parameter,
}

-- The same byte, or the two cases of one ASCII letter.
abbrev pub same_letter : ℕ → ℕ → Bool
same_letter a b =
    a == b || (leb 65 a && leb a 90 && b == a + 32) || (leb 65 b && leb b 90 && a == b + 32)

abbrev pub same_but_for_case : Bytes → Bytes → Bool
same_but_for_case [] [] = true
same_but_for_case [] (b ∷ right) = false
same_but_for_case (a ∷ left) [] = false
same_but_for_case (a ∷ left) (b ∷ right) = same_letter a b && same_but_for_case left right

letter_lem : (a b : ℕ) → (pg_ascii_tolower a == pg_ascii_tolower b) ≡ same_letter a b
unfolding pg_ascii_tolower
letter_lem a b = ground arith

zero_sub : (x y : ℕ) → is_zero (sub_ℕ x y) ≡ (x == y)
zero_sub x y = elim (Bool-cases (leb y x)) [
  | inl l ↦ rw l (ground arith)
  | inr l ↦ rw l (ground arith)
]

-- Behind two bytes that do not end their texts.
both :
    (a b : ℕ) (left right : Bytes)
    → pg_ascii_case_equal left right ≡ same_but_for_case (c_str left) (c_str right)
    → is_zero (
        if pg_ascii_tolower a == pg_ascii_tolower b
        then pg_ascii_strcasecmp left right
        else sub_ℕ (pg_ascii_tolower a) (pg_ascii_tolower b))
      ≡ (same_letter a b && same_but_for_case (c_str left) (c_str right))
unfolding pg_ascii_case_equal
both a b left right later = elim (Bool-cases (pg_ascii_tolower a == pg_ascii_tolower b)) [
  | inl e ↦ let same = sym (letter_lem a b) ∙ e in rw (e, same) later
  | inr e ↦
      let other = sym (letter_lem a b) ∙ e in
      rw (e, other) (zero_sub (pg_ascii_tolower a) (pg_ascii_tolower b) ∙ e)
]

case_equal_lem :
    (left right : Bytes)
    → pg_ascii_case_equal left right ≡ same_but_for_case (c_str left) (c_str right)
unfolding pg_ascii_case_equal
case_equal_lem [] [] = refl
case_equal_lem [] (b ∷ right) = ground (arith, tolower-zero b)
case_equal_lem (a ∷ left) [] = ground (arith, tolower-zero a)
case_equal_lem (a ∷ left) (b ∷ right) = elim (Bool-cases (a == 0)) [
  | inl za ↦ elim (Bool-cases (b == 0)) [
    | inl zb ↦
        let same : (pg_ascii_tolower a == pg_ascii_tolower b) ≡ true =
          ground (arith, tolower-zero a, tolower-zero b) in
        rw (za, zb) (zero_sub (pg_ascii_tolower a) (pg_ascii_tolower b) ∙ same)
    | inr zb ↦
        let other : (pg_ascii_tolower a == pg_ascii_tolower b) ≡ false =
          ground (arith, tolower-zero a, tolower-zero b) in
        rw (za, zb) (zero_sub (pg_ascii_tolower a) (pg_ascii_tolower b) ∙ other)
  ]
  | inr za ↦ elim (Bool-cases (b == 0)) [
    | inl zb ↦
        let other : (pg_ascii_tolower a == pg_ascii_tolower b) ≡ false =
          ground (arith, tolower-zero a, tolower-zero b) in
        rw (za, zb) (zero_sub (pg_ascii_tolower a) (pg_ascii_tolower b) ∙ other)
    | inr zb ↦ rw (za, zb) (both a b left right (case_equal_lem left right))
  ]
]

-- The keywords, each with its names.
abbrev pub keyword_names : List (String × List String × Keyword)
keyword_names =
    ("Server", "Servername" ∷ [], server)
    ∷ ("Port", [], port)
    ∷ ("Database", "DB" ∷ [], database)
    ∷ ("UID", "Username" ∷ "User" ∷ [], uid)
    ∷ ("PWD", "Password" ∷ [], pwd)
    ∷ ("SSLmode", [], sslmode)
    ∷ ("ApplicationName", "Application_Name" ∷ [], application_name)
    ∷ ("Timeout", "Connect_Timeout" ∷ [], timeout)
    ∷ ("BoolsAsChar", [], bools_as_char)
    ∷ ("UnknownSizes", [], unknown_sizes)
    ∷ ("MaxVarcharSize", [], max_varchar_size)
    ∷ ("Parse", [], parse)
    ∷ ("FetchRefcursors", [], fetch_refcursors)
    ∷ ("Fetch", [], fetch)
    ∷ ("UseDeclareFetch", [], use_declare_fetch)
    ∷ ("Protocol", [], protocol)
    ∷ ("LFConversion", [], lf_conversion)
    ∷ ("CX", [], cx)
    ∷ ("AB", [], ab)
    ∷ ("DisallowPremature", [], disallow_premature)
    ∷ ("DSN", [], dsn)
    ∷ ("Driver", [], driver)
    ∷ []

abbrev pub any_name : Bool → (String → Bool) → List String → Bool
any_name found is [] = found
any_name found is (name ∷ names) = any_name (found || is name) is names

abbrev pub look_up : (String → Bool) → List (String × List String × Keyword) → Keyword
look_up is [] = unknown
look_up is ((name, names, keyword) ∷ rest) =
    if any_name (is name) is names then keyword else look_up is rest

abbrev pub names_key : Bytes → String → Bool
names_key key name = same_but_for_case (c_str key) (c_str (codes name))

chain_look_up : (is : String → Bool) → keyword_chain is ≡ look_up is keyword_names
unfolding keyword_chain
chain_look_up is = refl

is_key-names : (key : Bytes) → is_key key ≡ names_key key
unfolding is_key
is_key-names key = fun_ext λ name. case_equal_lem key (codes name)

-- A key stores its value as the first keyword of the table that has a name of the key's letters,
-- whatever their case in A to Z, and as none where no name agrees.
pub store-look_up :
    (p : Platform) (info : ConnectionInfo) (key value : Bytes)
    → store_connection_parameter p info key value
      ≡ store_keyword p info value (look_up (names_key key) keyword_names)
unfolding store_connection_parameter keyword_of
store-look_up p info key value =
    ap (store_keyword p info value)
      (chain_look_up (is_key key) ∙ ap (λ is. look_up is keyword_names) (is_key-names key))

is_key-folded : (k k' : Bytes) → folded k ≡ folded k' → is_key k ≡ is_key k'
unfolding is_key
is_key-folded k k' same =
    fun_ext λ name. ground (arith, case_equal_iff k (codes name), case_equal_iff k' (codes name))

-- Two keys that differ only in the case of ASCII letters store the same value to the same effect.
pub store-folded :
    (p : Platform) (info : ConnectionInfo) (k k' value : Bytes)
    → folded k ≡ folded k'
    → store_connection_parameter p info k value ≡ store_connection_parameter p info k' value
unfolding store_connection_parameter keyword_of
store-folded p info k k' value same =
    ap (λ is. store_keyword p info value (keyword_chain is)) (is_key-folded k k' same)
