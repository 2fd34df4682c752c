-- ===== src/Statement/Fetch/Rows.antt =====
-- What a fetch that finds a row comes to.
use psqlodbc_new.Prelude.{
  ℕ, ◌+◌, ◌-◌, ◌≤◌, ◌<◌, min, ◌≡◌, refl, ap, ◌∙◌, Bool, true, false, not, ◌&&◌, some, List, [],
  arith, ltb, ◌==◌, if◌then◌else◌,
}
use mathlib.Core.Path.{subst}
use psqlodbc_new.Prelude.Int.{pos}
use psqlodbc_new.Environment.{SqlReturn}
use psqlodbc_new.Libpq.{Libpq}
use psqlodbc_new.Statement.{OdbcStatement, row_success}
use psqlodbc_new.Statement.Cursor.{Copied, info_if, put, put_at, Rowset, rowset_loop}
use psqlodbc_new.Statement.Block.{has_rows, equals_minus_one}
use psqlodbc_new.Statement.Fetch.{populate_bound_rowset, end_rowset, fetch_row}
use psqlodbc_new.Statement.Fetch.Delivered.{
  consecutive, Frame, frame, Delivers, Delivers-trans, HasBound, Delivers-HasBound,
  columns-Delivers, rowset-Delivers,
}

abbrev pub size_of : ℕ → ℕ
size_of array_size = if ltb 0 array_size then array_size else 1

module _ (lib : Libpq) (copy : OdbcStatement lib → ℕ → ℕ → Copied lib) where
  -- What a fetch that finds a row comes to: so many rows from it on, and the cursor on the last.
  pub record Fetched (s : OdbcStatement lib) (r : SqlReturn × OdbcStatement lib) (total row : ℕ)
      : Type 0 where
    pub count : ℕ
    pub some_row : 1 ≤ count
    pub in_range : row + count ≤ total
    pub delivers : Delivers lib s r.1 (consecutive row count)
    pub moved : r.1.current_row_position ≡ pos (row + count - 1)
    pub succeeds : (b : Bool) × (r.0 ≡ info_if b)

  end-Fetched :
      (size total row k : ℕ) (s : OdbcStatement lib) (r : Rowset lib copy)
      → 1 ≤ k
      → row + k ≤ total
      → r.rows_copied ≡ k
      → Delivers lib s r.statement (consecutive row k)
      → Fetched s (end_rowset lib copy size row r) total row
  end-Fetched size total row k s r h l e d =
      let some_copied : (r.rows_copied == 0) ≡ false = ground arith in
      record {
        count = k;
        some_row = h;
        in_range = l;
        delivers = rw some_copied (record { same = d.same; rows_are = d.rows_are });
        moved = rw some_copied (ap pos (omega arith));
        succeeds = (r.with_info, refl);
      }

  pub rowset-Fetched :
      (total row : ℕ) (s : OdbcStatement lib)
      → HasBound lib s
      → row < total
      → Fetched s (populate_bound_rowset lib copy total s row) total row
  unfolding populate_bound_rowset
  rowset-Fetched total row s h l =
      let size = size_of s.row_array_size in
      let some_size : 1 ≤ size = ground arith in
      let k = min size (total - row) in
      let start : row + 0 ≡ row = omega arith in
      let r =
        rowset_loop lib copy size total row
          (record { statement = s; with_info = false; rows_copied = 0 }) in
      let d =
        rowset-Delivers lib copy size total row
          (record { statement = s; with_info = false; rows_copied = 0 }) h in
      let k0 : min size (total - (row + 0)) ≡ k = ap (λ n. min size (total - n)) start in
      end-Fetched size total row k s r (omega arith) (omega arith) (d.1 ∙ omega arith) (
        subst (λ n. Delivers lib s r.statement (consecutive n k)) start
          (subst (λ n. Delivers lib s r.statement (consecutive (row + 0) n)) k0 d.0))

  pub row-Fetched :
      (allocated : Bool) (total row : ℕ) (s : OdbcStatement lib)
      → HasBound lib s
      → row < total
      → s.current_row_position ≡ pos row
      → Fetched s (fetch_row lib copy allocated s row) total row
  row-Fetched allocated total row s h l e =
      let t : OdbcStatement lib = record s {
        rows_fetched = put s.rows_fetched 1;
        row_status = put_at s.row_status 0 row_success;
      } in
      let d = columns-Delivers lib copy allocated t row h in
      record {
        count = 1;
        some_row = omega arith;
        in_range = omega arith;
        delivers = record { same = d.0.same; rows_are = d.0.rows_are };
        moved = d.1 ∙ (e ∙ ap pos (omega arith));
        succeeds = d.2;
      }

  pub Fetched-from :
      (s t : OdbcStatement lib) (r : SqlReturn × OdbcStatement lib) (total row : ℕ)
      → Delivers lib s t []
      → Fetched t r total row
      → Fetched s r total row
  Fetched-from s t r total row d f = record {
    count = f.count;
    some_row = f.some_row;
    in_range = f.in_range;
    delivers = Delivers-trans lib s t r.1 [] (consecutive row f.count) d f.delivers;
    moved = f.moved;
    succeeds = f.succeeds;
  }

  -- Whether a fetch goes by the rows of an updatable cursor.
  abbrev pub is_block : Frame lib → Bool
  is_block f =
      f.updatable && has_rows f.keyset && not (equals_minus_one f.hidden) && ltb 1 f.array_size

  -- An open cursor that is not an updatable block cursor, with columns bound.
  pub record IsReady (result : lib.PgResult) (s : OdbcStatement lib) : Type 0 where
    pub has_result : s.current_result ≡ some result
    pub has_rows_to_fetch : s.has_result_set ≡ true
    pub plain : is_block (frame lib s) ≡ false
    pub has_bound : HasBound lib s

  pub Delivers-IsReady :
      (result : lib.PgResult) (s t : OdbcStatement lib) (rows : List ℕ)
      → Delivers lib s t rows
      → IsReady result s
      → IsReady result t
  Delivers-IsReady result s t rows d h = record {
    has_result = ap (λ (f : Frame lib). f.result) d.same ∙ h.has_result;
    has_rows_to_fetch = ap (λ (f : Frame lib). f.has_result) d.same ∙ h.has_rows_to_fetch;
    plain = ap is_block d.same ∙ h.plain;
    has_bound = Delivers-HasBound lib s t rows d h.has_bound;
  }
