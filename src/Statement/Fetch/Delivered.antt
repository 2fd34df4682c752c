-- ===== src/Statement/Fetch/Delivered.antt =====
-- Which rows a fetch copies into the bound buffers, and what it leaves alone.
use psqlodbc_new.Prelude.{
  ℕ, zero, suc, ◌+◌, ◌-◌, min, ◌≡◌, refl, sym, ap, ◌∙◌, inl, inr, Bool, false, not, ◌&&◌, Option,
  List, [], ◌∷◌, ◌++◌, map, append-nil, append_assoc, arith, leb, ◌==◌, Bool-cases,
}
use mathlib.Core.List.{map-append}
use mathlib.Core.Path.{subst}
use psqlodbc_new.Prelude.Int.{ℤ, pos, ltb_ℤ}
use psqlodbc_new.Libpq.{Libpq}
use psqlodbc_new.Statement.{KeysetRow, OdbcStatement, bookmarks_off}
use psqlodbc_new.Statement.Cursor.{
  Copied, info_if, is_zero_count, write_row_bookmark, populate_bound_columns_row,
  populate_bound_columns, Rowset, copy_next, rowset_loop,
}

abbrev pub consecutive : ℕ → ℕ → List ℕ
consecutive start zero = []
consecutive start (suc count) = start ∷ consecutive (suc start) count

pub consecutive-append :
    (start k l : ℕ) → consecutive start k ++ consecutive (start + k) l ≡ consecutive start (k + l)
consecutive-append start zero l =
    let e : start + 0 ≡ start = omega arith in let f : 0 + l ≡ l = omega arith in rw (e, f) refl
consecutive-append start (suc k) l =
    let e : start + suc k ≡ suc start + k = omega arith in
    let f : suc k + l ≡ suc (k + l) = omega arith in
    rw (e, f) (ap (λ (r : List ℕ). start ∷ r) (consecutive-append (suc start) k l))

abbrev pub row_of : ℕ × ℕ → ℕ
row_of (row, element) = row

module _ (lib : Libpq) where
  -- What no fetch changes.
  pub record Frame : Type 0 where
    pub result : Option lib.PgResult
    pub has_result : Bool
    pub updatable : Bool
    pub keyset : Option (List KeysetRow)
    pub hidden : ℤ
    pub array_size : ℕ
    pub bound : ℤ

  abbrev pub frame : OdbcStatement lib → Frame
  frame s = record {
    result = s.current_result;
    has_result = s.has_result_set;
    updatable = s.is_updatable_cursor;
    keyset = s.keyset_rows;
    hidden = s.hidden_ctid_column_index;
    array_size = s.row_array_size;
    bound = s.bound_column_count;
  }

  abbrev pub rows_copied_by : OdbcStatement lib → List ℕ
  rows_copied_by s = map row_of s.copied_rows

  -- From one state to another these rows are copied, in this order.
  pub record Delivers (s t : OdbcStatement lib) (rows : List ℕ) : Type 0 where
    pub same : frame t ≡ frame s
    pub rows_are : rows_copied_by t ≡ rows_copied_by s ++ rows

  pub Delivers-trans :
      (s t u : OdbcStatement lib) (rows more : List ℕ)
      → Delivers s t rows
      → Delivers t u more
      → Delivers s u (rows ++ more)
  Delivers-trans s t u rows more d e = record {
    same = e.same ∙ d.same;
    rows_are =
        e.rows_are
        ∙ (ap (λ (r : List ℕ). r ++ more) d.rows_are ∙ append_assoc (rows_copied_by s) rows more);
  }

  pub Delivers-nothing :
      (s t : OdbcStatement lib)
      → frame t ≡ frame s
      → t.copied_rows ≡ s.copied_rows
      → Delivers s t []
  Delivers-nothing s t e f = record {
    same = e;
    rows_are = ap (map row_of) f ∙ sym (append-nil (rows_copied_by s));
  }

  pub bookmark-Delivers :
      (allocated : Bool) (s : OdbcStatement lib) (row : ℤ)
      → Delivers s (write_row_bookmark lib allocated s row) []
  unfolding write_row_bookmark
  bookmark-Delivers allocated s row =
      elim (Bool-cases
        (s.bookmark_target.is_variable && ltb_ℤ s.bookmark_target.bookmark_buffer_length (pos 4))) [
          | inl e ↦ rw e (Delivers-nothing _ _ refl refl)
          | inr e ↦ rw e (Delivers-nothing _ _ refl refl)
        ]

  pub bookmark-position :
      (allocated : Bool) (s : OdbcStatement lib) (row : ℤ)
      → (write_row_bookmark lib allocated s row).current_row_position ≡ s.current_row_position
  unfolding write_row_bookmark
  bookmark-position allocated s row =
      elim (Bool-cases
        (s.bookmark_target.is_variable && ltb_ℤ s.bookmark_target.bookmark_buffer_length (pos 4))) [
          | inl e ↦ rw e refl
          | inr e ↦ rw e refl
        ]

-- Columns are bound, so that a row that is fetched is copied.
abbrev pub HasBound : (lib : Libpq) → OdbcStatement lib → Type 0
HasBound lib s = is_zero_count lib s.bound_column_count ≡ false

pub Delivers-HasBound :
    (lib : Libpq) (s t : OdbcStatement lib) (rows : List ℕ)
    → Delivers lib s t rows
    → HasBound lib s
    → HasBound lib t
Delivers-HasBound lib s t rows d h = ap (λ (f : Frame lib). is_zero_count lib f.bound) d.same ∙ h

module _ (lib : Libpq) (copy : OdbcStatement lib → ℕ → ℕ → Copied lib) where
  pub row-Delivers :
      (s : OdbcStatement lib) (row element : ℕ)
      → HasBound lib s
      → Delivers lib s (populate_bound_columns_row lib copy s row element).1 (row ∷ [])
  unfolding populate_bound_columns_row
  row-Delivers s row element h =
      rw h
        (record { same = refl; rows_are = map-append row_of s.copied_rows ((row, element) ∷ []) })

  pub row-position :
      (s : OdbcStatement lib) (row element : ℕ)
      → (populate_bound_columns_row lib copy s row element).1.current_row_position
        ≡ s.current_row_position
  unfolding populate_bound_columns_row
  row-position s row element = elim (Bool-cases (is_zero_count lib s.bound_column_count)) [
    | inl e ↦ rw e refl
    | inr e ↦ rw e refl
  ]

  -- The copy of a row succeeds, with or without information.
  pub row-result :
      (s : OdbcStatement lib) (row element : ℕ)
      → (b : Bool) × ((populate_bound_columns_row lib copy s row element).0 ≡ info_if b)
  unfolding populate_bound_columns_row
  row-result s row element = elim (Bool-cases (is_zero_count lib s.bound_column_count)) [
    | inl e ↦ rw e (false, refl)
    | inr e ↦ rw e ((copy s row element).is_truncated, refl)
  ]

  pub columns-Delivers :
      (allocated : Bool) (s : OdbcStatement lib) (row : ℕ)
      → HasBound lib s
      → Delivers lib s (populate_bound_columns lib copy allocated s row).1 (row ∷ [])
        × ((populate_bound_columns lib copy allocated s row).1.current_row_position
            ≡ s.current_row_position)
        × ((b : Bool) × ((populate_bound_columns lib copy allocated s row).0 ≡ info_if b))
  unfolding populate_bound_columns
  columns-Delivers allocated s row h =
      elim (Bool-cases (s.bookmark_bound && not (s.use_bookmarks == bookmarks_off))) [
        | inl e ↦
            let t = write_row_bookmark lib allocated s (pos row) in
            let d = bookmark-Delivers lib allocated s (pos row) in
            rw e (
              Delivers-trans lib s t _ [] (row ∷ []) d
                  (row-Delivers t row 0 (Delivers-HasBound lib s t [] d h)),
              row-position t row 0 ∙ bookmark-position lib allocated s (pos row),
              row-result t row 0,
            )
        | inr e ↦ rw e (row-Delivers s row 0 h, row-position s row 0, row-result s row 0)
      ]

  -- One round of the loop over the rowset.
  next-Delivers :
      (r : Rowset lib copy) (row : ℕ)
      → HasBound lib r.statement
      → Delivers lib r.statement (copy_next lib copy r row).statement (row ∷ [])
  next-Delivers r row h =
      let d = row-Delivers r.statement row r.rows_copied h in
      record { same = d.same; rows_are = d.rows_are }

  pub rowset-Delivers :
      (rounds total_rows first_row : ℕ) (r : Rowset lib copy)
      → HasBound lib r.statement
      → (let k = min rounds (total_rows - (first_row + r.rows_copied)) in
          let t = rowset_loop lib copy rounds total_rows first_row r in
          Delivers lib r.statement t.statement (consecutive (first_row + r.rows_copied) k)
          × (t.rows_copied ≡ r.rows_copied + k))
  unfolding rowset_loop
  rowset-Delivers zero total_rows first_row r h =
      let none_left : min 0 (total_rows - (first_row + r.rows_copied)) ≡ 0 = omega arith in
      rw none_left (Delivers-nothing lib _ _ refl refl, omega arith)
  rowset-Delivers (suc rounds) total_rows first_row r h =
      let row = first_row + r.rows_copied in
      elim (Bool-cases (leb total_rows row)) [
        | inl e ↦
            let none_left : min (suc rounds) (total_rows - row) ≡ 0 = ground arith in
            rw e (rw none_left (Delivers-nothing lib _ _ refl refl, omega arith))
        | inr e ↦
            let after = copy_next lib copy r row in
            let k = min rounds (total_rows - (first_row + suc r.rows_copied)) in
            let one_more : min (suc rounds) (total_rows - row) ≡ suc k = ground arith in
            let next_row : first_row + suc r.rows_copied ≡ suc row = omega arith in
            let d = next-Delivers r row h in
            let ih =
              rowset-Delivers rounds total_rows first_row after
                (Delivers-HasBound lib r.statement after.statement (row ∷ []) d h) in
            rw e (
              rw one_more (
                Delivers-trans lib r.statement after.statement _ (row ∷ [])
                    (consecutive (suc row) k) d
                    (subst
                      (λ n.
                        Delivers lib after.statement
                          (rowset_loop lib copy rounds total_rows first_row after).statement
                          (consecutive n k))
                      next_row ih.0),
                ih.1 ∙ omega arith,
              ))
      ]
