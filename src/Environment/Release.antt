-- ===== src/Environment/Release.antt =====
-- When an environment is freed.
use psqlodbc_new.Prelude.{
  ℕ, ◌+◌, ◌≤◌, ◌<◌, ◌≡◌, refl, ap, ◌∙◌, inl, inr, Bool, true, false, ◌&&◌, Option, none, some, List,
  [], ◌∷◌, ◌++◌, append-nil, append_assoc, arith, leb, if◌then◌else◌, length, length-append, codes,
}
use psqlodbc_new.Prelude.Int.{pos}
use psqlodbc_new.Diagnostics.{DiagnosticRecord, diagnostics_clear, diagnostics_add_record}
use psqlodbc_new.Environment.{
  sql_success, sql_error, OdbcEnvironment, connection_count, environment_free,
  environment_add_connection, environment_remove_connection,
}
use psqlodbc_new.Environment.Laws.{count, remove_lem}

-- Calls for each connection in turn, and whether all succeed.
abbrev pub and_then : Bool → Option OdbcEnvironment × Bool → Option OdbcEnvironment × Bool
and_then succeeded (e, rest) = (e, succeeded && rest)

unfoldable pub register_all : Option OdbcEnvironment → List ℕ → Option OdbcEnvironment × Bool
unfolding environment_add_connection
register_all e [] = (e, true)
register_all e (c ∷ cs) =
    let r = environment_add_connection e (some c) in and_then r.1 (register_all r.0 cs)

unfoldable pub unregister_all : Option OdbcEnvironment → List ℕ → Option OdbcEnvironment × Bool
unfolding environment_remove_connection
unregister_all e [] = (e, true)
unregister_all e (c ∷ cs) =
    let r = environment_remove_connection e (some c) in and_then r.1 (unregister_all r.0 cs)

register_all-room :
    (e : OdbcEnvironment) (cs : List ℕ)
    → connection_count e + length cs ≤ 128
    → register_all (some e) cs ≡ (some (record e { connections = e.connections ++ cs }), true)
unfolding register_all environment_add_connection
register_all-room e [] l = rw (append-nil e.connections) refl
register_all-room e (c ∷ cs) l =
    let room : leb 128 (length e.connections) ≡ false = ground arith in
    let e' : OdbcEnvironment = record e { connections = e.connections ++ c ∷ [] } in
    let more : length (e.connections ++ c ∷ []) + length cs ≤ 128 =
      omega (arith, length-append e.connections (c ∷ []), l) in
    rw (room, register_all-room e' cs more, append_assoc e.connections (c ∷ []) cs) refl

no_counts : (cs : List ℕ) → ((a : ℕ) → count a cs ≡ 0) → cs ≡ []
no_counts [] h = refl
no_counts (c ∷ cs) h = absurd (ground (arith, h c))

unregister_all-empty :
    (e : OdbcEnvironment) (ds : List ℕ)
    → ((a : ℕ) → count a e.connections ≡ count a ds)
    → unregister_all (some e) ds ≡ (some (record e { connections = [] }), true)
unfolding unregister_all
unregister_all-empty e [] h =
    ap (λ cs. (some (record e { connections = cs }), true)) (no_counts e.connections h)
unregister_all-empty e (d ∷ ds) h = elim (remove_lem e d) [
  | inl (missing, _) ↦ absurd (ground (arith, h d))
  | inr (cs, (gone, counts, _)) ↦
      let e' : OdbcEnvironment = record e { connections = cs } in
      rw (gone, unregister_all-empty e' ds (λ a. omega (arith, h a, counts a))) refl
]

-- What a release leaves of a handle that still has connections.
abbrev pub one_record : Bool → List DiagnosticRecord
one_record allocated =
    record {
      sqlstate = codes "HY010";
      native_error_code = pos 0;
      message_text =
          if allocated
          then some (codes "Cannot free environment: connections are still allocated")
          else none;
    }
    ∷ []

free_refused :
    (allocated : Bool) (e : OdbcEnvironment)
    → e.magic_number ≡ 0x454E5632
    → 0 < connection_count e
    → environment_free allocated (some e) ≡ (
      sql_error,
      some (record e {
        diagnostics = record { records = one_record allocated; paging_chunk_size = pos 0 };
      }),
    )
unfolding environment_free diagnostics_clear diagnostics_add_record
free_refused true e m h = ground arith
free_refused false e m h = ground arith

free_empty :
    (allocated : Bool) (e : OdbcEnvironment)
    → e.magic_number ≡ 0x454E5632
    → connection_count e ≡ 0
    → environment_free allocated (some e) ≡ (sql_success, none)
unfolding environment_free
free_empty allocated e m h = ground arith

-- From an environment without connections, with its magic number, and any 1 to 128 connections:
-- they can all be registered; a release is then refused with exactly one record, HY010, in place of
-- the earlier ones, and everything else of the handle stays; and after the same connections have
-- been unregistered, in any order, a release frees the handle.
pub release_after_connections :
    (allocated : Bool) (e : OdbcEnvironment) (c : ℕ) (cs ds : List ℕ)
    → e.magic_number ≡ 0x454E5632
    → e.connections ≡ []
    → length (c ∷ cs) ≤ 128
    → ((a : ℕ) → count a (c ∷ cs) ≡ count a ds)
    → (full : OdbcEnvironment) × (empty : OdbcEnvironment) × (register_all (some e) (c ∷ cs)
        ≡ (some full, true))
      × (full.connections ≡ c ∷ cs)
      × (environment_free allocated (some full) ≡ (
        sql_error,
        some (record full {
          diagnostics = record { records = one_record allocated; paging_chunk_size = pos 0 };
        }),
      ))
      × (unregister_all (environment_free allocated (some full)).1 ds ≡ (some empty, true))
      × (environment_free allocated (some empty) ≡ (sql_success, none))
release_after_connections allocated e c cs ds m none_yet l same =
    let full : OdbcEnvironment = record e { connections = c ∷ cs } in
    let refused : OdbcEnvironment = record full {
      diagnostics = record { records = one_record allocated; paging_chunk_size = pos 0 };
    } in
    let kept = free_refused allocated full m (omega arith) in
    (
      full,
      record refused { connections = [] },
      register_all-room e (c ∷ cs) (omega (arith, ap (λ (xs : List ℕ). length xs) none_yet, l))
          ∙ ap (λ xs. (some (record e { connections = xs ++ c ∷ cs }), true)) none_yet,
      refl,
      kept,
      rw kept (unregister_all-empty refused ds same),
      free_empty allocated (record refused { connections = [] }) m refl,
    )
