-- ===== src/Environment/Laws.antt =====
-- The registry of connections as a multiset, and when an environment is freed.
use native.Mathlib.Decide.{ℕ_discrete}
use mathlib.Core.Path.{subst}
use psqlodbc_new.Prelude.{
  ℕ, zero, suc, ◌+◌, ◌-◌, ◌≤◌, ◌<◌, ◌≡◌, refl, ◌⊎◌, inl, inr, Bool, true, false, none, some, List,
  [], ◌∷◌, ◌++◌, arith, ◌==◌, if◌then◌else◌, Option-cases, length, get_or, set, take, length-concat,
  length-take,
}
use psqlodbc_new.Environment.{
  max_connections_per_environment, OdbcEnvironment, connection_count, environment_add_connection,
  find_connection, swap_remove, environment_remove_connection,
}

-- How often a connection stands in the array.
abbrev pub count : ℕ → List ℕ → ℕ
count a [] = 0
count a (c ∷ cs) = (if c == a then 1 else 0) + count a cs

abbrev pub one : ℕ → ℕ → ℕ
one a c = if c == a then 1 else 0

count-concat : (a c : ℕ) (cs : List ℕ) → count a (cs ++ c ∷ []) ≡ count a cs + one a c
count-concat a c [] = omega arith
count-concat a c (d ∷ cs) = ground (arith, count-concat a c cs)

count-set :
    (a v : ℕ) (cs : List ℕ) (i : ℕ)
    → i < length cs
    → count a (set cs i v) + one a (get_or cs i 0) ≡ count a cs + one a v
count-set a v [] i h = absurd (omega arith)
count-set a v (c ∷ cs) zero h = omega arith
count-set a v (c ∷ cs) (suc i) h = omega (arith, count-set a v cs i (omega arith))

length-set : (cs : List ℕ) (i v : ℕ) → length (set cs i v) ≡ length cs
length-set [] i v = refl
length-set (c ∷ cs) zero v = refl
length-set (c ∷ cs) (suc i) v = omega (arith, length-set cs i v)

count-take_last :
    (a n : ℕ) (cs : List ℕ)
    → length cs ≡ suc n
    → count a (take n cs) + one a (get_or cs n 0) ≡ count a cs
count-take_last a n [] h = absurd (omega arith)
count-take_last a zero (c ∷ []) h = omega arith
count-take_last a zero (c ∷ d ∷ cs) h = absurd (omega arith)
count-take_last a (suc n) (c ∷ cs) h = omega (arith, count-take_last a n cs (omega arith))

get_or-set_same : (cs : List ℕ) (i n : ℕ) → get_or (set cs i (get_or cs n 0)) n 0 ≡ get_or cs n 0
get_or-set_same [] i n = refl
get_or-set_same (c ∷ cs) zero zero = refl
get_or-set_same (c ∷ cs) zero (suc n) = refl
get_or-set_same (c ∷ cs) (suc i) zero = refl
get_or-set_same (c ∷ cs) (suc i) (suc n) = get_or-set_same cs i n

count-swap_remove :
    (a i : ℕ) (cs : List ℕ)
    → i < length cs
    → count a (swap_remove cs i) + one a (get_or cs i 0) ≡ count a cs
unfolding swap_remove
count-swap_remove a i cs h =
    let n = length cs - 1 in
    let moved = set cs i (get_or cs n 0) in
    let size : length moved ≡ suc n = omega (arith, length-set cs i (get_or cs n 0)) in
    let cut = rw (get_or-set_same cs i n) at (count-take_last a n moved size) in
    omega (arith, cut, count-set a (get_or cs n 0) cs i h)

length-swap_remove :
    (i : ℕ) (cs : List ℕ) → i < length cs → suc (length (swap_remove cs i)) ≡ length cs
unfolding swap_remove
length-swap_remove i cs h =
    let n = length cs - 1 in
    let v = get_or cs n 0 in omega (arith, length-set cs i v, length-take n (set cs i v))

find_found :
    (cs : List ℕ) (c i : ℕ) → find_connection cs c ≡ some i → (i < length cs) × (get_or cs i 0 ≡ c)
unfolding find_connection
find_found [] c i h = cc
find_found (d ∷ cs) c zero h = ground arith
find_found (d ∷ cs) c (suc i) h = ground (arith, find_found cs c i)

find_missing : (cs : List ℕ) (c : ℕ) → find_connection cs c ≡ none → count c cs ≡ 0
unfolding find_connection
find_missing [] c h = refl
find_missing (d ∷ cs) c h = ground (arith, find_missing cs c)

-- Unregistering `c` succeeds and leaves the connections `cs`: those of `e` with one occurrence of
-- `c` fewer. All else of the environment stays.
abbrev pub RemovedTo : OdbcEnvironment → ℕ → List ℕ → Type 0
RemovedTo e c cs =
    (environment_remove_connection (some e) (some c) ≡ (some (record e { connections = cs }), true))
    × ((a : ℕ) → count a cs + one a c ≡ count a e.connections)
    × (suc (length cs) ≡ connection_count e)

-- Removing a connection that is registered succeeds and takes exactly one occurrence of it out of
-- the registry, whose other occurrences stay; one that is not registered is refused and the
-- environment is unchanged.
pub remove_lem :
    (e : OdbcEnvironment) (c : ℕ)
    → ((count c e.connections ≡ 0)
        × (environment_remove_connection (some e) (some c) ≡ (some e, false)))
      ⊎ ((cs : List ℕ) × RemovedTo e c cs)
unfolding environment_remove_connection
remove_lem e c = elim (Option-cases (find_connection e.connections c)) [
  | inl missing ↦ inl (find_missing e.connections c missing, rw missing)
  | inr (i, found) ↦
      let (inside, here) = find_found e.connections c i found in
      inr (
        swap_remove e.connections i,
        (
          rw found,
          λ a. omega (arith, rw here at (count-swap_remove a i e.connections inside)),
          length-swap_remove i e.connections inside,
        ),
      )
]

-- The registry fits its array and holds no connection twice.
pub record IsValid (e : OdbcEnvironment) : Type 0 where
  pub bounded : connection_count e ≤ max_connections_per_environment
  pub distinct : (a : ℕ) → count a e.connections ≤ 1

distinct_concat :
    (c : ℕ) (cs : List ℕ)
    → ((a : ℕ) → count a cs ≤ 1)
    → count c cs ≡ 0
    → (a : ℕ) → count a (cs ++ c ∷ []) ≤ 1
distinct_concat c cs distinct fresh a = elim (ℕ_discrete c a) [
  | yes same ↦
      omega (arith, subst (λ x. count x cs ≡ 0) same fresh, count-concat a c cs, one_le a c)
  | no other ↦ ground (arith, count-concat a c cs, distinct a)
]
  where
    one_le : (a c : ℕ) → one a c ≤ 1
    one_le a c = ground arith

-- Registering a connection that is not yet registered, where the array has room, succeeds and keeps
-- the registry well formed, and unregistering it again gives back the registered connections.
pub add_then_remove :
    (e : OdbcEnvironment) (c : ℕ)
    → IsValid e
    → count c e.connections ≡ 0
    → connection_count e < max_connections_per_environment
    → (e' : OdbcEnvironment) × (environment_add_connection (some e) (some c) ≡ (some e', true))
      × IsValid e'
      × ((cs : List ℕ) × RemovedTo e' c cs × ((a : ℕ) → count a cs ≡ count a e.connections))
unfolding environment_add_connection
add_then_remove e c v fresh room =
    let e' : OdbcEnvironment = record e { connections = e.connections ++ c ∷ [] } in
    (
      e',
      ground arith,
      record {
        bounded = omega (arith, length-concat e.connections c);
        distinct = distinct_concat c e.connections v.distinct fresh;
      },
      elim (remove_lem e' c) [
        | inl (none_left, _) ↦ absurd (ground (arith, count-concat c c e.connections))
        | inr (cs, removed) ↦
            (cs, removed, λ a. omega (arith, removed.1 a, count-concat a c e.connections))
      ],
    )

-- Removing keeps the registry well formed.
pub remove-IsValid :
    (e e' : OdbcEnvironment) (c : ℕ) (b : Bool)
    → IsValid e
    → environment_remove_connection (some e) (some c) ≡ (some e', b)
    → IsValid e'
remove-IsValid e e' c b v h = elim (remove_lem e c) [
  | inl (_, same) ↦ let unchanged : e ≡ e' = cc in subst IsValid unchanged v
  | inr (cs, (gone, counts, size)) ↦
      let left : OdbcEnvironment = record e { connections = cs } in
      let changed : left ≡ e' = cc in
      subst IsValid changed (record {
        bounded = omega (arith, v.bounded);
        distinct = λ a. omega (arith, v.distinct a, counts a);
      })
]
