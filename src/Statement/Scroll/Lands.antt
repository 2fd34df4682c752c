-- ===== src/Statement/Scroll/Lands.antt =====
-- Where a scrolling fetch leaves the cursor, and which rows it copies.
use psqlodbc_new.Prelude.{
  ℕ, ◌<◌, ◌≡◌, refl, sym, ap, ◌∙◌, ◌⊎◌, inl, inr, Bool, true, false, not, ◌&&◌, arith, ltb, leb,
  ◌==◌, if◌then◌else◌, Bool-cases,
}
use mathlib.Core.Path.{subst}
use psqlodbc_new.Prelude.Int.{ℤ, pos, negsuc}
use psqlodbc_new.Environment.{SqlReturn, sql_error, sql_no_data}
use psqlodbc_new.Libpq.{Libpq}
use psqlodbc_new.Statement.{OdbcStatement, row_no_row, cursor_forward_only}
use psqlodbc_new.Statement.Cursor.{Copied, put, put_at}
use psqlodbc_new.Statement.Block.{FetchOrientation, FetchOutput, keyset_block_fetch_active}
use psqlodbc_new.Statement.Fetch.{populate_bound_rowset}
use psqlodbc_new.Statement.Fetch.Delivered.{Delivers-nothing, HasBound, columns-Delivers}
use psqlodbc_new.Statement.Fetch.Rows.{Fetched, Fetched-from, rowset-Fetched, IsReady}
use psqlodbc_new.Statement.Scroll.{
  Target, target, refused, target_of, clamped_result, report_rows, single_row, rows_up_to, landed,
  scroll_to, is_next, results_extended_fetch,
}

module _ (lib : Libpq) (copy : OdbcStatement lib → ℕ → ℕ → Copied lib) where
  -- The result and the statement, without the caller's pointers.
  abbrev pub outcome : SqlReturn × OdbcStatement lib × FetchOutput → SqlReturn × OdbcStatement lib
  outcome r = (r.0, r.1)

  -- A refusal that leaves the cursor where it was; or no data, with the cursor before the first or
  -- behind the last row; or rows from one row of the result on, with the cursor on their last.
  abbrev pub Lands : OdbcStatement lib → ℕ → SqlReturn × OdbcStatement lib × FetchOutput → Type 0
  Lands s total r =
      ((r.0 ≡ sql_error) × (r.1.current_row_position ≡ s.current_row_position))
      ⊎ (((r.0 ≡ sql_no_data)
            × ((r.1.current_row_position ≡ negsuc 0) ⊎ (r.1.current_row_position ≡ pos total)))
          ⊎ ((row : ℕ) × Fetched lib copy s (outcome r) total row))

  report-Fetched :
      (s : OdbcStatement lib) (n total row : ℕ) (out : FetchOutput)
      (r : SqlReturn × OdbcStatement lib)
      → Fetched lib copy s r total row
      → Fetched lib copy s (outcome (report_rows lib copy n out r)) total row
  report-Fetched s n total row out (result, t) f = f

  clamped-Fetched :
      (allocated clamped : Bool) (s : OdbcStatement lib) (total row : ℕ)
      (r : SqlReturn × OdbcStatement lib)
      → Fetched lib copy s r total row
      → Fetched lib copy s (clamped_result lib copy allocated clamped r) total row
  clamped-Fetched allocated false s total row r f = f
  clamped-Fetched allocated true s total row (result, t) f = record {
    count = f.count;
    some_row = f.some_row;
    in_range = f.in_range;
    delivers = record { same = f.delivers.same; rows_are = f.delivers.rows_are };
    moved = f.moved;
    succeeds = (true, refl);
  }

  single_row-Fetched :
      (allocated : Bool) (s : OdbcStatement lib) (total row : ℕ)
      → HasBound lib s
      → row < total
      → s.current_row_position ≡ pos row
      → Fetched lib copy s (single_row lib copy allocated s row) total row
  single_row-Fetched allocated s total row h l e =
      let d = columns-Delivers lib copy allocated s row h in
      record {
        count = 1;
        some_row = omega arith;
        in_range = omega arith;
        delivers = record { same = d.0.same; rows_are = d.0.rows_are };
        moved = d.1 ∙ (e ∙ ap pos (omega arith));
        succeeds = d.2;
      }

  landed-Fetched :
      (allocated clamped : Bool) (s : OdbcStatement lib) (total row : ℕ) (out : FetchOutput)
      → HasBound lib s
      → row < total
      → s.current_row_position ≡ pos row
      → Fetched lib copy s (outcome (landed lib copy allocated total s out row clamped)) total row
  landed-Fetched allocated clamped s total row out h l e =
      elim (Bool-cases (ltb 1 s.row_array_size)) [
        | inl b ↦
            let at = (populate_bound_rowset lib copy total s row).1.current_row_position in
            rw b (
              report-Fetched s (rows_up_to lib row at) total row out _ (
                clamped-Fetched allocated clamped s total row _
                  (rowset-Fetched lib copy total row s h l)))
        | inr b ↦ rw b (
            report-Fetched s 1 total row out _ (
              clamped-Fetched allocated clamped s total row _
                (single_row-Fetched allocated s total row h l e)))
      ]

  scroll_to-Lands :
      (allocated : Bool) (s : OdbcStatement lib) (total : ℕ) (out : FetchOutput) (t : Target)
      → HasBound lib s
      → Lands s total (scroll_to lib copy allocated total s out t)
  scroll_to-Lands allocated s total out (refused sqlstate message) h = inl (refl, refl)
  scroll_to-Lands allocated s total out (target (negsuc n) clamped) h = inr (inl (refl, inl refl))
  scroll_to-Lands allocated s total out (target (pos row) clamped) h =
      elim (Bool-cases (leb total row)) [
        | inl e ↦ rw e (inr (inl (refl, inr refl)))
        | inr e ↦
            let t : OdbcStatement lib = record s { current_row_position = pos row } in
            rw e (
              inr (
                inr (
                  row,
                  Fetched-from lib copy s t _ total row (Delivers-nothing lib s t refl refl)
                      (landed-Fetched allocated clamped t total row out h (ground arith) refl),
                )))
      ]

  -- The caller's pointers before the outcome is known.
  abbrev no_row : FetchOutput → FetchOutput
  no_row out = record {
    fetched_row_count = put out.fetched_row_count 0;
    row_status_array = put_at out.row_status_array 0 row_no_row;
  }

  extended-scroll_to :
      (allocated : Bool) (s : OdbcStatement lib) (orientation : FetchOrientation) (fetch_offset : ℤ)
      (out : FetchOutput) (result : lib.PgResult)
      → IsReady lib copy result s
      → (s.cursor_type == cursor_forward_only && not (is_next lib copy orientation)) ≡ false
      → results_extended_fetch lib copy allocated s orientation fetch_offset out
        ≡ scroll_to lib copy allocated
            (lib.ntuples result)
            s
            (no_row out)
            (target_of lib orientation s (lib.ntuples result) fetch_offset)
  unfolding results_extended_fetch keyset_block_fetch_active
  extended-scroll_to allocated s orientation fetch_offset out result h e =
      rw (h.has_result, h.has_rows_to_fetch, e, h.plain) refl

  forward-refused :
      (allocated : Bool) (s : OdbcStatement lib) (orientation : FetchOrientation) (fetch_offset : ℤ)
      (out : FetchOutput) (result : lib.PgResult)
      → IsReady lib copy result s
      → (s.cursor_type == cursor_forward_only && not (is_next lib copy orientation)) ≡ true
      → (let r = results_extended_fetch lib copy allocated s orientation fetch_offset out in
          (r.0 ≡ sql_error) × (r.1.current_row_position ≡ s.current_row_position))
  unfolding results_extended_fetch
  forward-refused allocated s orientation fetch_offset out result h e =
      rw (h.has_result, h.has_rows_to_fetch, e) (refl, refl)

  -- On an open cursor that is not an updatable block cursor, with columns bound: whatever the
  -- orientation and the offset, a scrolling fetch is refused and leaves the cursor where it was; or
  -- finds no data and leaves it before the first row or just behind the last; or succeeds, copies
  -- consecutive rows of the result, one or more, and leaves the cursor on the last of these. On a
  -- forward-only cursor every orientation but the next row is refused.
  pub extended_fetch-Lands :
      (allocated : Bool) (s : OdbcStatement lib) (orientation : FetchOrientation) (fetch_offset : ℤ)
      (out : FetchOutput) (result : lib.PgResult)
      → IsReady lib copy result s
      → (let r = results_extended_fetch lib copy allocated s orientation fetch_offset out in
          Lands s (lib.ntuples result) r
          × (r.0 ≡ (
              if s.cursor_type == cursor_forward_only && not (is_next lib copy orientation)
              then sql_error
              else r.0)))
  extended_fetch-Lands allocated s orientation fetch_offset out result h =
      elim (Bool-cases
        (s.cursor_type == cursor_forward_only && not (is_next lib copy orientation))) [
          | inl e ↦
              let r = forward-refused allocated s orientation fetch_offset out result h e in
              rw e (inl r, r.0)
          | inr e ↦
              let total = lib.ntuples result in
              let t = target_of lib orientation s total fetch_offset in
              rw e (
                subst (Lands s total)
                    (sym (extended-scroll_to allocated s orientation fetch_offset out result h e))
                    (scroll_to-Lands allocated s total (no_row out) t h.has_bound),
                refl,
              )
        ]
