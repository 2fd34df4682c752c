-- ===== src/DsnConfig/Bounds.antt =====
-- No text that an INI file holds overruns a field of the connection parameters.
use psqlodbc_new.Prelude.{
  ℕ, ◌-◌, ◌<◌, inl, inr, Bool, false, [], ◌∷◌, arith, ltb, ◌==◌, Bool-cases, length, set, take,
  length-take, Bytes, codes, c_str,
}
use psqlodbc_new.ConnectionInfo.{ConnectionInfo, Platform, IsBounded}
use psqlodbc_new.DsnConfig.{
  store_server, store_port, store_database, store_username, store_sslmode, store_application_name,
  store_timeout, store_password, copy_field, Lookup, when_set, read_server, read_port,
  read_database, read_username, read_password, read_sslmode, read_application_name, read_timeout,
  dsn_config_read_impl, dsn_config_read,
}

pub length-copy_field : (size : ℕ) (b : Bytes) → 0 < size → length (copy_field size b) < size
unfolding copy_field
length-copy_field size b h = omega (arith, length-take (size - 1) (c_str b))

module _ (p : Platform) (dsn_name ini_file : Bytes) where
  -- A stored value and the other branch both keep the bounds.
  when_set-IsBounded :
      (key : Bytes) (store : Bytes → ConnectionInfo × Bool) (other : ConnectionInfo × Bool)
      → ((b : Bytes) → IsBounded (store b).0)
      → IsBounded other.0
      → IsBounded (when_set p dsn_name ini_file key store other).0
  unfolding when_set
  when_set-IsBounded key store other h k =
      let buffer = take 511 (p.private_profile_string dsn_name key ini_file) in
      elim (Bool-cases (ltb 0 (length buffer))) [
        | inl set ↦ rw set (h buffer)
        | inr unset ↦ rw unset k
      ]

  abbrev Keeps : Lookup → Type 0
  Keeps read = (r : ConnectionInfo × Bool) → IsBounded r.0 → IsBounded (read r).0

  read_server-IsBounded : Keeps (read_server p dsn_name ini_file)
  unfolding read_server
  read_server-IsBounded (info, found) v =
      when_set-IsBounded (codes "Servername") (store_server info) _
        (λ b. ground (arith, length-copy_field 256 b))
        (when_set-IsBounded _ (store_server info) _ (λ b. ground (arith, length-copy_field 256 b))
          v)

  read_port-IsBounded : Keeps (read_port p dsn_name ini_file)
  unfolding read_port
  read_port-IsBounded (info, found) v =
      when_set-IsBounded _ (store_port info) _ (λ b. ground (arith, length-copy_field 16 b)) v

  read_database-IsBounded : Keeps (read_database p dsn_name ini_file)
  unfolding read_database
  read_database-IsBounded (info, found) v =
      when_set-IsBounded _ (store_database info) _ (λ b. ground (arith, length-copy_field 256 b)) v

  read_username-IsBounded : Keeps (read_username p dsn_name ini_file)
  unfolding read_username
  read_username-IsBounded (info, found) v =
      when_set-IsBounded _ (store_username info) _ (λ b. ground (arith, length-copy_field 256 b))
        (when_set-IsBounded _ (store_username info) _ (λ b. ground (arith, length-copy_field 256 b))
          v)

  read_sslmode-IsBounded : Keeps (read_sslmode p dsn_name ini_file)
  unfolding read_sslmode
  read_sslmode-IsBounded (info, found) v =
      when_set-IsBounded _ (store_sslmode info) _ (λ b. ground (arith, length-copy_field 32 b)) v

  read_application_name-IsBounded : Keeps (read_application_name p dsn_name ini_file)
  unfolding read_application_name
  read_application_name-IsBounded (info, found) v =
      when_set-IsBounded _ (store_application_name info) _
        (λ b. ground (arith, length-copy_field 256 b)) v

  read_password-IsBounded : Keeps (read_password p dsn_name ini_file)
  unfolding read_password
  read_password-IsBounded (info, found) v =
      when_set-IsBounded _ (store_password p (info, found)) (info, found) (λ b. ground arith) v

  read_timeout-IsBounded : Keeps (read_timeout p dsn_name ini_file)
  unfolding read_timeout
  read_timeout-IsBounded (info, found) v =
      when_set-IsBounded _ (store_timeout info) (info, found) (λ b. ground arith) v

module _ (p : Platform) where
  read_impl-IsBounded :
      (dsn_name : Bytes) (info : ConnectionInfo) (ini_file : Bytes)
      → IsBounded info
      → IsBounded (dsn_config_read_impl p dsn_name info ini_file).0
  unfolding dsn_config_read_impl
  read_impl-IsBounded [] info ini_file v = v
  read_impl-IsBounded (c ∷ name) info ini_file v = elim (Bool-cases (c == 0)) [
    | inl empty ↦ rw empty v
    | inr named ↦
        let dsn = c ∷ name in
        rw named (
          read_timeout-IsBounded p dsn ini_file _ (
            read_application_name-IsBounded p dsn ini_file _ (
              read_sslmode-IsBounded p dsn ini_file _ (
                read_password-IsBounded p dsn ini_file _ (
                  read_username-IsBounded p dsn ini_file _ (
                    read_database-IsBounded p dsn ini_file _ (
                      read_port-IsBounded p dsn ini_file _
                        (read_server-IsBounded p dsn ini_file (info, false) v))))))))
  ]

  -- Whatever the INI files hold, reading a data source keeps every text within its buffer.
  pub dsn_config_read-IsBounded :
      (dsn_name : Bytes) (info : ConnectionInfo)
      → IsBounded info
      → IsBounded (dsn_config_read p dsn_name info).0
  unfolding dsn_config_read
  dsn_config_read-IsBounded dsn_name info v = elim (Bool-cases p.has_odbcinst) [
    | inl with_odbcinst ↦ rw with_odbcinst (read_impl-IsBounded dsn_name info _ v)
    | inr without ↦ rw without v
  ]
