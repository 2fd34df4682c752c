-- ===== src/QueryParser/Split/Total.antt =====
-- The split of any text: it ends, and its statements are trimmed ranges of the text.
use psqlodbc_new.Prelude.{
  ℕ, zero, suc, ◌≤◌, ◌<◌, ◌≡◌, refl, sym, ap, ◌∙◌, inl, inr, Bool, true, Option, none, some, List,
  [], ◌∷◌, ◌++◌, arith, Bool-cases, length, length-append, All, Bytes, c_str,
}
use psqlodbc_new.QueryParser.{ScanState, normal}
use psqlodbc_new.QueryParser.Split.{
  split_unit, is_separator, trim, append_trimmed, statement_list_append_range, last_byte,
  split_loop, conforming_or_default, query_split_statements, ◌>>=◌,
}
use psqlodbc_new.QueryParser.Split.Trim.{Starts, Ends, IsTrimmed, trim_shape}
use mathlib.Core.List.{cons-ne-nil}
use mathlib.Core.Path.{subst, fun_ext}
use psqlodbc_new.QueryParser.Split.Partition.{
  split_unit-Takes, join, keep_one, keep, at_separator, at_unit, split_loop-partition,
}

abbrev pub always : ℕ → ℕ → Bool
always fragment_length count = true

append_range_total :
    (statements : List Bytes) (range : Bytes)
    → (result : List Bytes) × (statement_list_append_range always statements range ≡ some result)
unfolding statement_list_append_range
append_range_total statements range = go (trim range)
  where
    go : (s : Bytes) → (result : List Bytes) × (append_trimmed always statements s ≡ some result)
    go [] = (statements, refl)
    go (c ∷ s) = (statements ++ (c ∷ s) ∷ [], refl)

unit-shorter :
    (conforming : Bool) (state : ScanState) (depth : ℕ) (previous : Option ℕ) (c : ℕ) (cs : Bytes)
    → length (split_unit conforming state depth previous c cs).rest ≤ length cs
unit-shorter conforming state depth previous c cs =
    let u = split_unit conforming state depth previous c cs in
    let (whole, some_taken) = split_unit-Takes conforming state depth previous c cs in
    omega (arith, ap length whole, length-append u.taken u.rest)

split_loop_total :
    (conforming : Bool) (fuel : ℕ) (state : ScanState) (depth : ℕ) (previous : Option ℕ)
    (fragment : Bytes) (statements : List Bytes) (input : Bytes)
    → length input < fuel
    → (result : List Bytes) × (split_loop always conforming fuel state depth previous fragment
          statements input
        ≡ some result)
split_loop_total conforming zero state depth previous fragment statements input h =
    absurd (omega arith)
split_loop_total conforming (suc fuel) state depth previous fragment statements [] h =
    unfold split_loop in append_range_total statements fragment
split_loop_total conforming (suc fuel) state depth previous fragment statements (c ∷ cs) h =
    elim (Bool-cases (is_separator state c)) [
      | inl ends ↦
          let (more, appended) = append_range_total statements fragment in
          let (result, later) =
            split_loop_total conforming fuel state depth (some c) [] more cs (omega arith) in
          (
            result,
            at_separator always conforming fuel state depth previous fragment statements c cs ends
                ∙ rw appended later,
          )
      | inr goes_on ↦
          let u = split_unit conforming state depth previous c cs in
          let shorter = unit-shorter conforming state depth previous c cs in
          let (result, later) =
            split_loop_total conforming fuel u.state u.depth (last_byte u.taken)
              (fragment ++ u.taken) statements u.rest (omega arith) in
          (
            result,
            at_unit always conforming fuel state depth previous fragment statements c cs goes_on
                ∙ later,
          )
    ]

-- With enough memory the split of any text ends with success.
pub query_split_total :
    (sql : Bytes) (options : Option Bool)
    → (result : List Bytes) × (query_split_statements always (some sql) options ≡ some result)
query_split_total sql options =
    unfold query_split_statements in
    split_loop_total (conforming_or_default options) (suc (length (c_str sql))) normal 0 none [] []
      (c_str sql) (omega arith)

keep-IsTrimmed : (rs : List Bytes) → All IsTrimmed (keep rs)
keep-IsTrimmed [] = tt
keep-IsTrimmed (r ∷ rs) = go (trim r) (trim_shape r) (keep-IsTrimmed rs)
  where
    go :
        (s : Bytes)
        → Starts s × Ends s
        → All IsTrimmed (keep rs)
        → All IsTrimmed (keep_one s (keep rs))
    go [] shape rest = rest
    go (c ∷ s) (st, en) rest = ((cons-ne-nil c s, st, en), rest)

-- A split that succeeds cuts the text at some of its semicolons and loses no byte of it; its
-- statements are the parts between, trimmed, in order, without those that are empty then, so each
-- is a text that is not empty and has no white space at its ends.
pub query_split_partition :
    (allocates : ℕ → ℕ → Bool) (sql : Bytes) (options : Option Bool) (result : List Bytes)
    → query_split_statements allocates (some sql) options ≡ some result
    → (r : Bytes) × (rs : List Bytes) × (c_str sql ≡ join (r ∷ rs))
      × (result ≡ keep (r ∷ rs))
      × All IsTrimmed result
query_split_partition allocates sql options result h =
    let (r, rs, splits, kept) =
      split_loop-partition allocates (conforming_or_default options) (suc (length (c_str sql)))
        normal 0 none [] [] (c_str sql) result (unfold query_split_statements in h) in
    (r, rs, splits, kept, subst (All IsTrimmed) (sym kept) (keep-IsTrimmed (r ∷ rs)))

module _ (allocates : ℕ → ℕ → Bool) (conforming : Bool) where
  -- Fuel beyond the length of the input makes no difference.
  pub split_loop-enough :
      (f g : ℕ) (state : ScanState) (depth : ℕ) (previous : Option ℕ) (fragment : Bytes)
      (statements : List Bytes) (input : Bytes)
      → length input < f
      → length input < g
      → split_loop allocates conforming f state depth previous fragment statements input
        ≡ split_loop allocates conforming g state depth previous fragment statements input
  split_loop-enough zero g state depth previous fragment statements input h k = absurd (omega arith)
  split_loop-enough (suc f) zero state depth previous fragment statements input h k =
      absurd (omega arith)
  split_loop-enough (suc f) (suc g) state depth previous fragment statements [] h k =
      unfold split_loop in refl
  split_loop-enough (suc f) (suc g) state depth previous fragment statements (c ∷ cs) h k =
      elim (Bool-cases (is_separator state c)) [
        | inl ends ↦
            at_separator allocates conforming f state depth previous fragment statements c cs ends
            ∙ ap (λ later. statement_list_append_range allocates statements fragment >>= later)
                (fun_ext λ more.
                  split_loop-enough f g state depth (some c) [] more cs (omega arith) (omega arith))
            ∙ sym (
                at_separator allocates conforming g state depth previous fragment statements c cs
                  ends)
        | inr goes_on ↦
            let u = split_unit conforming state depth previous c cs in
            let shorter = unit-shorter conforming state depth previous c cs in
            at_unit allocates conforming f state depth previous fragment statements c cs goes_on
            ∙ split_loop-enough f g u.state u.depth (last_byte u.taken) (fragment ++ u.taken)
                statements u.rest (omega arith) (omega arith)
            ∙ sym (
                at_unit allocates conforming g state depth previous fragment statements c cs
                  goes_on)
      ]
