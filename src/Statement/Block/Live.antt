-- ===== src/Statement/Block/Live.antt =====
-- A block fetch of an updatable cursor copies the live rows next to its rowset.
use psqlodbc_new.Prelude.{
  ℕ, zero, suc, ◌-◌, ◌≤◌, min, ◌≡◌, refl, sym, ap, ◌⊎◌, inl, inr, Bool, true, false, ◌||◌, some,
  List, [], ◌∷◌, arith, ltb, leb, if◌then◌else◌, Bool-cases, length, take, drop,
}
use mathlib.Core.List.{reverse}
use mathlib.Core.Path.{subst}
use psqlodbc_new.Prelude.Int.{ℤ, pos, negsuc, sub_ℕ, ltb_ℤ}
use psqlodbc_new.ColumnBinding.{max_bound_columns, pred_ℤ}
use psqlodbc_new.Environment.{SqlReturn, sql_success, sql_success_with_info, sql_no_data}
use psqlodbc_new.Libpq.{Libpq}
use psqlodbc_new.Statement.{KeysetRow, OdbcStatement, row_success}
use psqlodbc_new.Statement.Cursor.{
  Copied, is_with_info, info_if, put_at, populate_bound_columns_row,
}
use psqlodbc_new.Statement.Block.{
  fetch_next, fetch_first, fetch_last, fetch_prior, FetchOutput, rows_from, rows_down_from, last_or,
  next_index, prior_index, copy_elements, deliver, keyset_block_fetch,
}
use psqlodbc_new.Statement.Fetch.Delivered.{
  Delivers, Delivers-trans, Delivers-nothing, HasBound, Delivers-HasBound, row-Delivers,
}
use psqlodbc_new.Statement.Block.Scan.{
  live_from, live_before, collect_forward-live, collect_backward-live,
}

-- What a prior block ends before: the rowset's first row, or the end of the rows where there is no
-- rowset yet or the cursor is behind the last row.
abbrev pub prior_end : ℤ → ℤ → ℕ → ℕ
prior_end (negsuc n) position total = total
prior_end (pos first) position total = if ltb_ℤ position (pos total) then first else total

-- Where the next block starts: the first row, or the row behind the cursor.
abbrev pub next_start : ℤ → ℕ
next_start (negsuc n) = 0
next_start (pos position) = suc position

next_index-start : (position : ℤ) → next_index position ≡ pos (next_start position)
next_index-start (negsuc n) = refl
next_index-start (pos position) = refl

abbrev pub last_of : ℕ → List ℕ → ℕ
last_of row [] = row
last_of row (next ∷ rows) = last_of next rows

last_or-last_of : (row : ℕ) (rows : List ℕ) → last_or row rows ≡ last_of row rows
last_or-last_of row [] = refl
last_or-last_of row (next ∷ rows) = last_or-last_of next rows

info_if_lem : (b : Bool) → (info_if b ≡ sql_success) ⊎ (info_if b ≡ sql_success_with_info)
info_if_lem true = inr refl
info_if_lem false = inl refl

module _ (lib : Libpq) (copy : OdbcStatement lib → ℕ → ℕ → Copied lib) where
  -- What a block fetch comes to with these rows: they are copied in order, and the cursor is on the
  -- last of them; without rows there is no data, and the cursor is at the end of its direction.
  abbrev pub Outcome :
      OdbcStatement lib → ℤ → List ℕ → SqlReturn × OdbcStatement lib × FetchOutput → Type 0
  Outcome s edge [] r =
      (r.0 ≡ sql_no_data) × (r.1.current_row_position ≡ edge) × Delivers lib s r.1 []
  Outcome s edge (first ∷ rows) r =
      ((r.0 ≡ sql_success) ⊎ (r.0 ≡ sql_success_with_info))
      × (r.1.current_row_position ≡ pos (last_of first rows))
      × (r.1.keyset_rowset_first_row ≡ pos first)
      × (r.1.keyset_rowset_size ≡ suc (length rows))
      × Delivers lib s r.1 (first ∷ rows)

  copy_elements-Delivers :
      (element : ℕ) (rows : List ℕ) (b : Bool) (s : OdbcStatement lib) (out : FetchOutput)
      → HasBound lib s
      → Delivers lib s (copy_elements lib copy element rows (b, s, out)).1 rows
  unfolding copy_elements
  copy_elements-Delivers element [] b s out h = Delivers-nothing lib s s refl refl
  copy_elements-Delivers element (row ∷ rows) b s out h =
      let t = (populate_bound_columns_row lib copy s row element) in
      let u : OdbcStatement lib = record (t.1) {
        row_status = put_at t.1.row_status element row_success;
      } in
      let d = row-Delivers lib copy s row element h in
      let e : Delivers lib s u (row ∷ []) = record { same = d.same; rows_are = d.rows_are } in
      Delivers-trans lib s u _ (row ∷ []) rows e (
        copy_elements-Delivers (suc element) rows (b || is_with_info t.0) u
          (record out { row_status_array = put_at out.row_status_array element row_success })
          (Delivers-HasBound lib s u (row ∷ []) e h))

  deliver-Outcome :
      (allocated backward : Bool) (s : OdbcStatement lib) (out : FetchOutput) (total : ℕ)
      (rows : List ℕ)
      → HasBound lib s
      → Outcome s
          (if backward then negsuc 0 else pos total)
          rows
          (deliver lib copy allocated s out total (some (backward, rows)))
  deliver-Outcome allocated true s out total [] h = (refl, refl, Delivers-nothing lib _ _ refl refl)
  deliver-Outcome allocated false s out total [] h =
      (refl, refl, Delivers-nothing lib _ _ refl refl)
  deliver-Outcome allocated backward s out total (first ∷ rows) h =
      let d = copy_elements-Delivers 0 (first ∷ rows) false s out h in
      (
        info_if_lem _,
        ap pos (last_or-last_of first rows),
        refl,
        refl,
        record { same = d.same; rows_are = d.rows_are },
      )

  next_rows :
      (room behind : ℕ) (position : ℤ) (rows : List KeysetRow)
      → next_index position ≡ pos behind
      → rows_from room (next_index position) rows ≡ take room (live_from behind (drop behind rows))
  next_rows room behind position rows e = rw e (collect_forward-live room behind (drop behind rows))

  take_nothing : (room : ℕ) → [] ≡ take {A = ℕ} room []
  take_nothing zero = refl
  take_nothing (suc room) = refl

  rows_before :
      (room first : ℕ) (rows : List KeysetRow)
      → first ≤ length rows
      → rows_down_from room (pred_ℤ (pos first)) rows ≡ take room (live_before first rows)
  rows_before room zero rows l = take_nothing room
  rows_before room (suc first) rows l =
      let inside : ltb first (length rows) ≡ true = ground arith in
      rw inside (collect_backward-live room (suc first) rows)

  forward :
      (allocated : Bool) (s : OdbcStatement lib) (out : FetchOutput) (total : ℕ)
      {found live : List ℕ}
      → found ≡ live
      → HasBound lib s
      → Outcome s (pos total) live (deliver lib copy allocated s out total (some (false, found)))
  forward allocated s out total {found} {live} e h =
      subst
        (λ r. Outcome s (pos total) live (deliver lib copy allocated s out total (some (false, r))))
        (sym e) (deliver-Outcome allocated false s out total live h)

  backward :
      (allocated : Bool) (s : OdbcStatement lib) (out : FetchOutput) (total : ℕ)
      {found live : List ℕ}
      → found ≡ live
      → HasBound lib s
      → Outcome s
          (negsuc 0)
          (reverse live)
          (deliver lib copy allocated s out total (some (true, reverse found)))
  backward allocated s out total {found} {live} e h =
      subst
        (λ r.
          Outcome s (negsuc 0) (reverse live)
            (deliver lib copy allocated s out total (some (true, reverse r))))
        (sym e) (deliver-Outcome allocated true s out total (reverse live) h)

  rows_to_end :
      (room : ℕ) (rows : List KeysetRow)
      → rows_down_from room (sub_ℕ (length rows) 1) rows
        ≡ take room (live_before (length rows) rows)
  rows_to_end room [] = take_nothing room
  rows_to_end room (row ∷ rows) =
      let one : leb 1 (suc (length rows)) ≡ true = ground arith in
      let less : suc (length rows) - 1 ≡ length rows = omega arith in
      let inside : ltb (length rows) (suc (length rows)) ≡ true = ground arith in
      rw (one, less, inside) (collect_backward-live room (suc (length rows)) (row ∷ rows))

  prior_rows :
      (s : OdbcStatement lib) (room : ℕ) (rows : List KeysetRow) (first : ℤ)
      → s.keyset_rowset_first_row ≡ first
      → prior_end first s.current_row_position (length rows) ≤ length rows
      → rows_down_from room (prior_index lib s (length rows)) rows
        ≡ take room (live_before (prior_end first s.current_row_position (length rows)) rows)
  prior_rows s room rows (negsuc n) f l =
      let from_start : ltb_ℤ (negsuc n) (pos 0) ≡ true = ground arith in
      rw (f, from_start) (rows_to_end room rows)
  prior_rows s room rows (pos first) f l =
      let from_start : ltb_ℤ (pos first) (pos 0) ≡ false = ground arith in
      elim (Bool-cases (ltb_ℤ s.current_row_position (pos (length rows)))) [
        | inl p ↦ rw (f, from_start, p) (rows_before room first rows (ground (arith, l, p)))
        | inr p ↦ rw (f, from_start, p) (rows_to_end room rows)
      ]

  -- On an updatable block cursor with columns bound, whose rowset's first row, if a prior block goes
  -- by it, is one of the rows. A block has at most as many rows as the rowset holds and at most 256,
  -- all live, in ascending order. The next block has those that come first behind the cursor, or
  -- from the start where the cursor is before the first row; the first block those from the start;
  -- the last block the last ones; and the prior block the last ones before the rowset's first row,
  -- or of all rows where there is no rowset yet or the cursor is behind the last row. The cursor is
  -- left on the block's last row; a block without rows gives no data and leaves the cursor before the
  -- first row or behind the last one.
  pub block_fetch_lem :
      (allocated : Bool) (s : OdbcStatement lib) (rows : List KeysetRow) (out : FetchOutput)
      → HasBound lib s
      → prior_end s.keyset_rowset_first_row s.current_row_position (length rows) ≤ length rows
      → (let room = min s.row_array_size max_bound_columns in
          let total = length rows in
          let start = next_start s.current_row_position in
          let end = prior_end s.keyset_rowset_first_row s.current_row_position total in
          Outcome s
            (pos total)
            (take room (live_from start (drop start rows)))
            (keyset_block_fetch lib copy allocated s rows fetch_next out)
          × Outcome s
              (negsuc 0)
              (reverse (take room (live_before end rows)))
              (keyset_block_fetch lib copy allocated s rows fetch_prior out)
          × Outcome s
              (pos total)
              (take room (live_from 0 rows))
              (keyset_block_fetch lib copy allocated s rows fetch_first out)
          × Outcome s
              (negsuc 0)
              (reverse (take room (live_before total rows)))
              (keyset_block_fetch lib copy allocated s rows fetch_last out))
  unfolding keyset_block_fetch
  block_fetch_lem allocated s rows out h l =
      let room = min s.row_array_size max_bound_columns in
      let total = length rows in
      let start = next_start s.current_row_position in
      (
        forward allocated s out total
            (next_rows room start s.current_row_position rows
              (next_index-start s.current_row_position))
            h,
        backward allocated s out total (prior_rows s room rows s.keyset_rowset_first_row refl l) h,
        forward allocated s out total (collect_forward-live room 0 rows) h,
        backward allocated s out total (rows_to_end room rows) h,
      )
