-- ===== src/Statement/Fetch/ToEnd.antt =====
-- Fetching to the end of a result copies each of its rows once, in order.
use psqlodbc_new.Prelude.{
  ℕ, zero, suc, ◌+◌, ◌-◌, ◌≤◌, ◌<◌, ◌≡◌, refl, ap, ◌∙◌, inl, inr, Bool, true, false, [], ◌++◌,
  arith, ltb, leb, Bool-cases,
}
use mathlib.Core.Path.{subst}
use psqlodbc_new.Prelude.Int.{pos, negsuc}
use psqlodbc_new.ColumnBinding.{succ_ℤ}
use psqlodbc_new.Environment.{SqlReturn, sql_no_data}
use psqlodbc_new.Libpq.{Libpq}
use psqlodbc_new.LargeObject.{LargeObjectCalls}
use psqlodbc_new.Statement.{OdbcStatement}
use psqlodbc_new.Statement.Cursor.{Copied, info_if, statement_reset_large_object_read}
use psqlodbc_new.Statement.Block.{keyset_block_fetch_active}
use psqlodbc_new.Statement.Fetch.{fetch_at, results_fetch}
use psqlodbc_new.Statement.Fetch.Delivered.{
  consecutive, consecutive-append, rows_copied_by, Delivers, Delivers-trans, Delivers-nothing,
  Delivers-HasBound,
}
use psqlodbc_new.Statement.Fetch.Rows.{
  Fetched, Fetched-from, rowset-Fetched, row-Fetched, IsReady, Delivers-IsReady,
}

abbrev pub is_no_data : SqlReturn → Bool
is_no_data sql_no_data = true
is_no_data _ = false

module _ (lib : Libpq) (copy : OdbcStatement lib → ℕ → ℕ → Copied lib)
    (calls : LargeObjectCalls lib) (allocated : Bool) where
  -- The state that `results_fetch` moves the cursor in.
  abbrev moved_to : OdbcStatement lib → ℕ → OdbcStatement lib
  moved_to s row = record (statement_reset_large_object_read lib calls s) {
    current_row_position = pos row;
  }

  fetch-fetch_at :
      (result : lib.PgResult) (s : OdbcStatement lib) (row : ℕ)
      → IsReady lib copy result s
      → succ_ℤ s.current_row_position ≡ pos row
      → results_fetch lib copy allocated calls s
        ≡ fetch_at lib copy allocated (lib.ntuples result) (moved_to s row) (pos row)
  unfolding results_fetch keyset_block_fetch_active
  fetch-fetch_at result s row h e = rw (h.has_result, h.has_rows_to_fetch, h.plain, e) refl

  moved_to-Delivers : (s : OdbcStatement lib) (row : ℕ) → Delivers lib s (moved_to s row) []
  unfolding statement_reset_large_object_read
  moved_to-Delivers s row = Delivers-nothing lib s (moved_to s row) refl refl

  -- Behind the last row there is nothing to fetch.
  fetch-end :
      (result : lib.PgResult) (s : OdbcStatement lib) (row : ℕ)
      → IsReady lib copy result s
      → succ_ℤ s.current_row_position ≡ pos row
      → lib.ntuples result ≤ row
      → ((results_fetch lib copy allocated calls s).0 ≡ sql_no_data)
        × Delivers lib s (results_fetch lib copy allocated calls s).1 []
  fetch-end result s row h e l =
      let past : leb (lib.ntuples result) row ≡ true = ground arith in
      let d = moved_to-Delivers s row in
      rw (fetch-fetch_at result s row h e, past)
        (refl, record { same = d.same; rows_are = d.rows_are })

  fetch-Fetched :
      (result : lib.PgResult) (s : OdbcStatement lib) (row : ℕ)
      → IsReady lib copy result s
      → succ_ℤ s.current_row_position ≡ pos row
      → row < lib.ntuples result
      → Fetched lib copy s (results_fetch lib copy allocated calls s) (lib.ntuples result) row
  fetch-Fetched result s row h e l =
      let inside : leb (lib.ntuples result) row ≡ false = ground arith in
      let t = moved_to s row in
      let d = moved_to-Delivers s row in
      let bound = Delivers-HasBound lib s t [] d h.has_bound in
      Fetched-from lib copy s t _ (lib.ntuples result) row d (
        rw (fetch-fetch_at result s row h e, inside)
          (elim (Bool-cases (ltb 1 t.row_array_size)) [
            | inl b ↦ rw b (rowset-Fetched lib copy (lib.ntuples result) row t bound l)
            | inr b ↦ rw b (row-Fetched lib copy allocated (lib.ntuples result) row t bound l refl)
          ]))

  -- `SQLFetch` again and again until it finds no data: whether it did, and the last state.
  unfoldable pub fetch_all : ℕ → OdbcStatement lib → Bool × OdbcStatement lib
  unfolding results_fetch
  fetch_all zero s = (false, s)
  fetch_all (suc fuel) s =
      let r = results_fetch lib copy allocated calls s in
      elim (is_no_data r.0) [ true ↦ (true, r.1) | false ↦ fetch_all fuel r.1 ]

  fetch_all-ended :
      (fuel : ℕ) (s : OdbcStatement lib)
      → (let r = results_fetch lib copy allocated calls s in
          is_no_data r.0 ≡ true → fetch_all (suc fuel) s ≡ (true, r.1))
  unfolding fetch_all
  fetch_all-ended fuel s e = rw (e, fetch_all) refl

  fetch_all-more :
      (fuel : ℕ) (s : OdbcStatement lib)
      → (let r = results_fetch lib copy allocated calls s in
          is_no_data r.0 ≡ false → fetch_all (suc fuel) s ≡ fetch_all fuel r.1)
  unfolding fetch_all
  fetch_all-more fuel s e = rw (e, fetch_all) refl

  info_if-data : (b : Bool) → is_no_data (info_if b) ≡ false
  info_if-data true = refl
  info_if-data false = refl

  after_fetch :
      (row : ℕ) (result : lib.PgResult) (s : OdbcStatement lib)
      → (let r = results_fetch lib copy allocated calls s in
          (f : Fetched lib copy s r (lib.ntuples result) row)
          → (succ_ℤ r.1.current_row_position ≡ pos (row + f.count)) × (is_no_data r.0 ≡ false))
  after_fetch row result s f = (
    ap succ_ℤ f.moved ∙ ap pos (omega (arith, f.some_row)),
    ap is_no_data f.succeeds.1 ∙ info_if-data f.succeeds.0,
  )

  fetch_all-join :
      (fuel row : ℕ) (result : lib.PgResult) (s : OdbcStatement lib)
      → (let total = lib.ntuples result in
          let r = results_fetch lib copy allocated calls s in
          (f : Fetched lib copy s r total row)
          → ((fetch_all fuel r.1).0 ≡ true)
            × Delivers lib r.1
                (fetch_all fuel r.1).1
                (consecutive (row + f.count) (total - (row + f.count)))
          → ((fetch_all (suc fuel) s).0 ≡ true)
            × Delivers lib s (fetch_all (suc fuel) s).1 (consecutive row (total - row)))
  fetch_all-join fuel row result s f (ended, d) =
      let total = lib.ntuples result in
      let r = results_fetch lib copy allocated calls s in
      let split : f.count + (total - (row + f.count)) ≡ total - row = omega (arith, f.in_range) in
      rw (fetch_all-more fuel s (after_fetch row result s f).1) (
        ended,
        subst (Delivers lib s (fetch_all fuel r.1).1)
            (consecutive-append row f.count (total - (row + f.count)) ∙ ap (consecutive row) split)
            (Delivers-trans lib s r.1 (fetch_all fuel r.1).1 (consecutive row f.count)
              (consecutive (row + f.count) (total - (row + f.count))) f.delivers d),
      )

  fetch_all-from :
      (fuel row : ℕ) (result : lib.PgResult) (s : OdbcStatement lib)
      → IsReady lib copy result s
      → succ_ℤ s.current_row_position ≡ pos row
      → lib.ntuples result - row < fuel
      → row ≤ lib.ntuples result
      → ((fetch_all fuel s).0 ≡ true)
        × Delivers lib s (fetch_all fuel s).1 (consecutive row (lib.ntuples result - row))
  fetch_all-from zero row result s h e l b = absurd (omega arith)
  fetch_all-from (suc fuel) row result s h e l b =
      elim (Bool-cases (leb (lib.ntuples result) row)) [
        | inl p ↦
            let (ended, d) = fetch-end result s row h e (ground arith) in
            let none_left : lib.ntuples result - row ≡ 0 = ground arith in
            rw (fetch_all-ended fuel s (ap is_no_data ended), none_left) (refl, d)
        | inr p ↦
            let r = results_fetch lib copy allocated calls s in
            let f = fetch-Fetched result s row h e (ground arith) in
            fetch_all-join fuel row result s f (
              fetch_all-from fuel (row + f.count) result r.1
                (Delivers-IsReady lib copy result s r.1 (consecutive row f.count) f.delivers h)
                (after_fetch row result s f).0 (omega (arith, f.some_row, f.in_range)) f.in_range)
      ]

  -- From before the first row of an open cursor that is not an updatable block cursor, with columns
  -- bound and any size of the rowset: fetching ends, after at most as many fetches as there are rows
  -- and one, with no data, and has then copied every row of the result exactly once and in order.
  pub fetch_all_delivers :
      (fuel : ℕ) (result : lib.PgResult) (s : OdbcStatement lib)
      → IsReady lib copy result s
      → s.current_row_position ≡ negsuc 0
      → lib.ntuples result < fuel
      → ((fetch_all fuel s).0 ≡ true)
        × (rows_copied_by lib (fetch_all fuel s).1
            ≡ rows_copied_by lib s ++ consecutive 0 (lib.ntuples result))
  fetch_all_delivers fuel result s h e l =
      let r = fetch_all-from fuel 0 result s h (ap succ_ℤ e) (omega arith) (omega arith) in
      let whole : lib.ntuples result - 0 ≡ lib.ntuples result = omega arith in
      (r.0, r.1.rows_are ∙ ap (λ n. rows_copied_by lib s ++ consecutive 0 n) whole)
