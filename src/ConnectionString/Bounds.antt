-- ===== src/ConnectionString/Bounds.antt =====
-- No connection string overruns a field of the connection parameters, and the parser's loop ends.
use psqlodbc_new.Prelude.{
  ℕ, zero, suc, ◌+◌, ◌-◌, ◌<◌, ◌≡◌, refl, ◌∙◌, inl, inr, Bool, true, false, Option, none, some, [],
  ◌∷◌, arith, Bool-cases, Option-cases, length, length-take, Bytes, c_str,
}
use psqlodbc_new.Prelude.Int.{ℤ}
use psqlodbc_new.ConnectionInfo.{ConnectionInfo, Platform, IsBounded}
use psqlodbc_new.DsnConfig.Bounds.{dsn_config_read-IsBounded}
use psqlodbc_new.ConnectionString.Store.{
  safe_copy_to_buffer, Keyword, server, port, database, uid, sslmode, application_name, dsn,
  store_dsn, store_keyword, keyword_of, store_connection_parameter,
}
use psqlodbc_new.ConnectionString.{
  next_pair, store_pair, parse_pairs, parse_bytes, parse_actual, actual_bytes,
  connection_string_parse,
}
use psqlodbc_new.ConnectionString.Scan.{next_pair-shorter, parse_pairs_done, parse_pairs_more}

length-safe_copy :
    (size : ℕ) (source : Bytes) → 0 < size → length (safe_copy_to_buffer size source) < size
unfolding safe_copy_to_buffer
length-safe_copy size source h = ground (arith, length-take (size - 1) source)

store_dsn-IsBounded :
    (r : ConnectionInfo × Bool) (value : Bytes) → IsBounded r.0 → IsBounded (store_dsn r value)
store_dsn-IsBounded (info, true) value v = v
store_dsn-IsBounded (info, false) value v = ground (arith, length-safe_copy 256 value)

store_keyword-IsBounded :
    (p : Platform) (info : ConnectionInfo) (value : Bytes) (k : Keyword)
    → IsBounded info
    → IsBounded (store_keyword p info value k)
unfolding store_keyword
store_keyword-IsBounded p info value server v = ground (arith, length-safe_copy 256 value)
store_keyword-IsBounded p info value port v = ground (arith, length-safe_copy 16 value)
store_keyword-IsBounded p info value database v = ground (arith, length-safe_copy 256 value)
store_keyword-IsBounded p info value uid v = ground (arith, length-safe_copy 256 value)
store_keyword-IsBounded p info value sslmode v = ground (arith, length-safe_copy 32 value)
store_keyword-IsBounded p info value application_name v = ground (arith, length-safe_copy 256 value)
store_keyword-IsBounded p info value dsn v =
    store_dsn-IsBounded _ value (dsn_config_read-IsBounded p (c_str value) info v)
store_keyword-IsBounded p info value k v = ground arith

store_pair-IsBounded :
    (p : Platform) (info : ConnectionInfo) (key value : Bytes)
    → IsBounded info
    → IsBounded (store_pair p info key value)
unfolding store_connection_parameter
store_pair-IsBounded p info [] value v = v
store_pair-IsBounded p info (c ∷ key) value v = elim (Bool-cases (p.allocates (length value + 1))) [
  | inl given ↦ rw given (store_keyword-IsBounded p info value (keyword_of (c ∷ key)) v)
  | inr refused ↦ rw refused v
]

parse_pairs_total :
    (p : Platform) (fuel : ℕ) (info : ConnectionInfo) (s : Bytes)
    → length s < fuel
    → IsBounded info
    → (info' : ConnectionInfo) × (parse_pairs p fuel info s ≡ some info') × IsBounded info'
parse_pairs_total p zero info s h v = absurd (omega arith)
parse_pairs_total p (suc fuel) info s h v = elim (Option-cases (next_pair s)) [
  | inl done ↦ (info, parse_pairs_done p fuel info s done, v)
  | inr ((key, value, rest), more) ↦
      let (info', parsed, fits) =
        parse_pairs_total p fuel (store_pair p info key value) rest
          (omega (arith, next_pair-shorter s more)) (store_pair-IsBounded p info key value v) in
      (info', parse_pairs_more p fuel info s more ∙ parsed, fits)
]

-- For any text and length, from parameters whose texts fit their buffers, the parser returns: its
-- loop ends, every text still fits its buffer, and a result `false` leaves the parameters alone.
pub connection_string_parse_total :
    (p : Platform) (text : Option Bytes) (string_length : ℤ) (info : ConnectionInfo)
    → IsBounded info
    → (info' : ConnectionInfo) × (b : Bool) × (connection_string_parse p text string_length info
        ≡ some (info', b))
      × IsBounded info'
      × (b ≡ false → info' ≡ info)
unfolding connection_string_parse
connection_string_parse_total p none n info v = (info, true, refl, v, λ _. refl)
connection_string_parse_total p (some memory) n info v = go (actual_bytes memory n)
  where
    bytes :
        (s : Bytes)
        → (info' : ConnectionInfo) × (b : Bool) × (parse_bytes p info s ≡ some (info', b))
          × IsBounded info'
          × (b ≡ false → info' ≡ info)
    bytes [] = (info, true, refl, v, λ _. refl)
    bytes (c ∷ s) = elim (Bool-cases (p.allocates (length (c ∷ s) + 1))) [
      | inl given ↦
          let (info', parsed, fits) =
            parse_pairs_total p (suc (length (c ∷ s))) info (c ∷ s) (omega arith) v in
          (info', true, rw given (rw parsed), fits, λ e. cc)
      | inr refused ↦ (info, false, rw refused, v, λ _. refl)
    ]

    go :
        (r : Option Bytes)
        → (info' : ConnectionInfo) × (b : Bool) × (parse_actual p info r ≡ some (info', b))
          × IsBounded info'
          × (b ≡ false → info' ≡ info)
    go none = (info, false, refl, v, λ _. refl)
    go (some s) = bytes s
