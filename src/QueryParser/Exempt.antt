-- ===== src/QueryParser/Exempt.antt =====
-- Which statements may not stand in a transaction block: `query_is_transaction_exempt` of
-- src/query_parser.c.
mod Tests
use psqlodbc_new.Prelude.{
  ℕ, zero, suc, ◌-◌, ◌≡◌, refl, sym, ap, ◌∙◌, inl, inr, Bool, true, false, not, ◌&&◌, ◌||◌, Option,
  none, some, [], ◌∷◌, ◌++◌, arith, leb, ◌==◌, if◌then◌else◌, Bool-cases, drop, All, Bytes, codes,
  c_str,
}
use psqlodbc_new.QueryParser.{has_prefix, is_space, skip_space}

-- `toupper` in the C locale.
abbrev pub toupper : ℕ → ℕ
toupper c = if leb b'a' c && leb c b'z' then c - 32 else c

abbrev pub upper : Bytes → Bytes
upper [] = []
upper (c ∷ cs) = toupper c ∷ upper cs

-- Enough bytes remain and they are the word but for their case.
abbrev pub begins : Bytes → Bytes → Bool
begins word cursor = has_prefix word (upper cursor)

-- The text ends, or goes on with one of the bytes.
abbrev pub ends_or : (ℕ → Bool) → Bytes → Bool
ends_or test [] = true
ends_or test (c ∷ cs) = test c

abbrev after_vacuum : ℕ → Bool
after_vacuum c = c == b' ' || c == b'(' || c == 9 || c == 10

abbrev after_cluster : ℕ → Bool
after_cluster c = c == b' ' || c == b';' || c == 9 || c == 10

abbrev pub exempt_at : Bytes → Bool
exempt_at cursor =
    begins (codes "VACUUM") cursor && ends_or after_vacuum (drop 6 cursor)
    || begins (codes "CLUSTER") cursor && ends_or after_cluster (drop 7 cursor)
    || begins (codes "CREATE DATABASE") cursor
    || begins (codes "DROP DATABASE") cursor
    || begins (codes "DISCARD ALL") cursor

unfoldable pub query_is_transaction_exempt : Option Bytes → Bool
unfolding skip_space has_prefix
query_is_transaction_exempt none = false
query_is_transaction_exempt (some sql_text) = exempt_at (skip_space (c_str sql_text))

toupper-toupper : (c : ℕ) → toupper (toupper c) ≡ toupper c
toupper-toupper c = ground arith

upper-upper : (s : Bytes) → upper (upper s) ≡ upper s
upper-upper [] = refl
upper-upper (c ∷ s) = rw (toupper-toupper c, upper-upper s)

c_str-upper : (s : Bytes) → c_str (upper s) ≡ upper (c_str s)
c_str-upper [] = refl
c_str-upper (c ∷ s) = elim (Bool-cases (c == 0)) [
  | inl ends ↦ let same : (toupper c == 0) ≡ true = ground arith in rw (ends, same)
  | inr goes_on ↦
      let same : (toupper c == 0) ≡ false = ground arith in
      rw (goes_on, same) (ap (◌∷◌ (toupper c)) (c_str-upper s))
]

skip_space-upper : (s : Bytes) → skip_space (upper s) ≡ upper (skip_space s)
unfolding skip_space
skip_space-upper [] = refl
skip_space-upper (c ∷ s) = elim (Bool-cases (is_space c)) [
  | inl space ↦
      let same : is_space (toupper c) ≡ true = ground arith in rw (space, same) (skip_space-upper s)
  | inr other ↦ let same : is_space (toupper c) ≡ false = ground arith in rw (other, same)
]

drop-upper : (n : ℕ) (s : Bytes) → drop n (upper s) ≡ upper (drop n s)
drop-upper zero s = refl
drop-upper (suc n) [] = refl
drop-upper (suc n) (c ∷ s) = drop-upper n s

vacuum-upper : (s : Bytes) → ends_or after_vacuum (upper s) ≡ ends_or after_vacuum s
vacuum-upper [] = refl
vacuum-upper (c ∷ s) = ground arith

cluster-upper : (s : Bytes) → ends_or after_cluster (upper s) ≡ ends_or after_cluster s
cluster-upper [] = refl
cluster-upper (c ∷ s) = ground arith

exempt-upper :
    (s : Bytes)
    → query_is_transaction_exempt (some (upper s)) ≡ query_is_transaction_exempt (some s)
unfolding query_is_transaction_exempt
exempt-upper s =
    let text = skip_space (c_str s) in
    rw (
      c_str-upper s,
      skip_space-upper (c_str s),
      upper-upper text,
      drop-upper 6 text,
      drop-upper 7 text,
      vacuum-upper (drop 6 text),
      cluster-upper (drop 7 text),
    )

skip_space-prefix :
    (w s : Bytes)
    → All (λ c. is_space c ≡ true) w
    → skip_space (c_str (w ++ s)) ≡ skip_space (c_str s)
unfolding skip_space
skip_space-prefix [] s h = refl
skip_space-prefix (c ∷ w) s (h, hs) =
    let text : (c == 0) ≡ false = ground arith in rw (text, h) (skip_space-prefix w s hs)

exempt-prefix :
    (w s : Bytes)
    → All (λ c. is_space c ≡ true) w
    → query_is_transaction_exempt (some (w ++ s)) ≡ query_is_transaction_exempt (some s)
unfolding query_is_transaction_exempt
exempt-prefix w s h = ap exempt_at (skip_space-prefix w s h)

-- White space before a statement and the case of its letters make no difference to whether it is
-- exempt.
pub exempt_any_case :
    (w s t : Bytes)
    → All (λ c. is_space c ≡ true) w
    → upper s ≡ upper t
    → query_is_transaction_exempt (some (w ++ s)) ≡ query_is_transaction_exempt (some t)
exempt_any_case w s t h e =
    exempt-prefix w s h
    ∙ sym (exempt-upper s)
    ∙ ap (λ u. query_is_transaction_exempt (some u)) e
    ∙ exempt-upper t
