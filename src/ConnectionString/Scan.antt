-- ===== src/ConnectionString/Scan.antt =====
-- What the scanning loops of the parser consume.
use psqlodbc_new.Prelude.{ℕ, suc, ◌+◌, ◌≤◌, ◌<◌, ◌≡◌, none, some, [], ◌∷◌, arith, length, Bytes}
use psqlodbc_new.ConnectionInfo.{ConnectionInfo, Platform}
use psqlodbc_new.ConnectionString.{
  parse_pairs, store_pair, skip_separators, skip_blanks, skip_after_brace, read_until, close_brace,
  read_value, read_pair, pair_at, next_pair,
}

skip_separators-le : (s : Bytes) → length (skip_separators s) ≤ length s
unfolding skip_separators
skip_separators-le [] = omega arith
skip_separators-le (c ∷ s) = ground (arith, skip_separators-le s)

skip_blanks-le : (s : Bytes) → length (skip_blanks s) ≤ length s
unfolding skip_blanks
skip_blanks-le [] = omega arith
skip_blanks-le (c ∷ s) = ground (arith, skip_blanks-le s)

skip_after_brace-le : (s : Bytes) → length (skip_after_brace s) ≤ length s
unfolding skip_after_brace
skip_after_brace-le [] = omega arith
skip_after_brace-le (c ∷ s) = ground (arith, skip_after_brace-le s)

read_until-length :
    (stop : ℕ) (s : Bytes) → length (read_until stop s).0 + length (read_until stop s).1 ≡ length s
unfolding read_until
read_until-length stop [] = omega arith
read_until-length stop (c ∷ s) = ground (arith, read_until-length stop s)

close_brace-le : (s : Bytes) → length (close_brace s) ≤ length s
close_brace-le [] = omega arith
close_brace-le (c ∷ s) = omega (arith, skip_after_brace-le s)

read_value-le : (s : Bytes) → length (read_value s).1 ≤ length s
unfolding read_value
read_value-le [] = omega arith
read_value-le (c ∷ s) = ground (
  arith,
  read_until-length b'}' s,
  read_until-length b';' (c ∷ s),
  close_brace-le (read_until b'}' s).1,
)

read_pair-shorter :
    (parts : Bytes × Bytes) {k v rest : Bytes}
    → read_pair parts ≡ some (k, v, rest)
    → length rest < length parts.0 + length parts.1
read_pair-shorter (passed, []) h = cc
read_pair-shorter (passed, equals ∷ s) h =
    ground (arith, read_value-le (skip_blanks s), skip_blanks-le s)

-- Every round of the loop moves the position forward.
pub next_pair-shorter :
    (s : Bytes) {k v rest : Bytes} → next_pair s ≡ some (k, v, rest) → length rest < length s
unfolding next_pair
next_pair-shorter s h = go (skip_separators s) (skip_separators-le s) h
  where
    go :
        (t : Bytes)
        → length t ≤ length s
        → {k v rest : Bytes} → pair_at t ≡ some (k, v, rest)
        → length rest < length s
    go [] le h = cc
    go (c ∷ t) le h =
        omega (arith, read_pair-shorter (read_until b'=' (c ∷ t)) h, read_until-length b'=' (c ∷ t))

module _ (p : Platform) (fuel : ℕ) (info : ConnectionInfo) (s : Bytes) where
  -- The loop's two ways to go on.
  pub parse_pairs_done : next_pair s ≡ none → parse_pairs p (suc fuel) info s ≡ some info
  unfolding parse_pairs
  parse_pairs_done e = rw (e, parse_pairs)

  pub parse_pairs_more :
      {key value rest : Bytes}
      → next_pair s ≡ some (key, value, rest)
      → parse_pairs p (suc fuel) info s ≡ parse_pairs p fuel (store_pair p info key value) rest
  unfolding parse_pairs
  parse_pairs_more e = rw (e, parse_pairs)
