-- ===== src/QueryParser/Select/Laws.antt =====
-- The parse of a SELECT list stays inside the caller's array and comes to an end.
use psqlodbc_new.Prelude.{
  ℕ, zero, suc, ◌≤◌, ◌<◌, ◌≡◌, refl, inl, inr, Bool, true, false, Option, none, some, List, [], ◌∷◌,
  arith, ltb, ◌==◌, if◌then◌else◌, ltb→lt, Bool-cases, length, drop, length-concat, Bytes, codes,
  c_str,
}
use psqlodbc_new.Prelude.Int.{ℤ}
use psqlodbc_new.CLib.{isspace, skip_spaces}
use psqlodbc_new.QueryParser.{match_keyword_at}
use psqlodbc_new.QueryParser.Select.{
  from_here, comma_here, comma_step, skip_step, after_literal, QueryColumnOverride, measure_quoted,
  measure_string_literal, skip_select_token, SelectScan, start_scan, Step, go_on, leave,
  record_column, token_step, start_step, select_step, finish, select_loop,
  query_parse_select_columns,
}

measure_quoted-shorter : (q : ℕ) (s : Bytes) → length (measure_quoted q s).1 ≤ length s
unfolding measure_quoted
measure_quoted-shorter q [] = omega arith
measure_quoted-shorter q (c ∷ []) = ground arith
measure_quoted-shorter q (c ∷ d ∷ s) =
    ground (arith, measure_quoted-shorter q s, measure_quoted-shorter q (d ∷ s))

skip_spaces-shorter : (s : Bytes) → length (skip_spaces s) ≤ length s
unfolding skip_spaces isspace
skip_spaces-shorter [] = omega arith
skip_spaces-shorter (c ∷ s) = ground (arith, skip_spaces-shorter s)

skip_select_token-shorter :
    (c : ℕ) (rest : Bytes) (depth : ℤ) → length (skip_select_token c rest depth).0 ≤ length rest
unfolding skip_select_token
skip_select_token-shorter c rest depth =
    ground (arith, measure_quoted-shorter b'\'' rest, measure_quoted-shorter b'"' rest)

module _ (max_columns : ℕ) where
  -- What a step leaves is a shorter text, and no more columns than there is room for.
  abbrev IsFine : ℕ → Step → Type 0
  IsFine n (go_on st text) = (length text < n) × (length st.overrides ≤ max_columns)
  IsFine n (leave st text) = length st.overrides ≤ max_columns

  weaker : {m n : ℕ} (s : Step) → m ≤ n → IsFine m s → IsFine n s
  weaker (go_on st text) l (shorter, h) = (omega arith, h)
  weaker (leave st text) l h = h

  record_column-le :
      (st : SelectScan)
      → length st.overrides ≤ max_columns
      → length (record_column max_columns st).overrides ≤ max_columns
  unfolding record_column
  record_column-le st h = elim (Bool-cases (ltb (length st.overrides) max_columns)) [
    | inl room ↦
        let below = ltb→lt (length st.overrides) max_columns room in
        rw room (
          omega (
            arith,
            length-concat st.overrides (record {
              is_string_literal = st.column_is_literal;
              character_length = st.literal_length;
            }),
          ))
    | inr full ↦ rw full h
  ]

  either-IsFine :
      (n : ℕ) (b : Bool) (x y : Step) → IsFine n x → IsFine n y → IsFine n (if b then x else y)
  either-IsFine n true x y h k = h
  either-IsFine n false x y h k = k

  token_step-IsFine :
      (st : SelectScan) (c : ℕ) (rest : Bytes)
      → length st.overrides ≤ max_columns
      → IsFine (suc (length rest)) (token_step max_columns st c rest)
  unfolding token_step
  token_step-IsFine st c rest h =
      let shorter = skip_select_token-shorter c rest st.paren_depth in
      let recorded = record_column-le st h in
      let counted : (length rest < suc (length rest))
          × (length (record_column max_columns st).overrides ≤ max_columns) =
        (omega arith, recorded) in
      let skipped : (length (skip_select_token c rest st.paren_depth).0 < suc (length rest))
          × (length st.overrides ≤ max_columns) =
        (omega (arith, shorter), h) in
      either-IsFine (suc (length rest)) (from_here st c rest)
        (leave (record_column max_columns st) (c ∷ rest)) _ recorded
        (either-IsFine (suc (length rest)) (comma_here st c) (comma_step max_columns st rest)
          (skip_step max_columns st (skip_select_token c rest st.paren_depth)) counted skipped)

  start_step-IsFine :
      (st : SelectScan) (text : Bytes)
      → length st.overrides ≤ max_columns
      → IsFine (length text) (start_step max_columns st text)
  unfolding start_step
  start_step-IsFine st [] h = h
  start_step-IsFine st (c ∷ rest) h =
      let shorter = measure_quoted-shorter b'\'' rest in
      let measured : (length (measure_quoted b'\'' rest).1 < suc (length rest))
          × (length st.overrides ≤ max_columns) =
        (omega (arith, shorter), h) in
      either-IsFine (suc (length rest)) (c == b'\'')
        (after_literal max_columns st (measure_string_literal rest))
        (token_step max_columns (record st { column_is_literal = false; at_column_start = false }) c
          rest)
        measured (token_step-IsFine _ c rest h)

  select_step-IsFine :
      (st : SelectScan) (c : ℕ) (rest : Bytes)
      → length st.overrides ≤ max_columns
      → IsFine (suc (length rest)) (select_step max_columns st c rest)
  unfolding select_step
  select_step-IsFine st c rest h =
      either-IsFine (suc (length rest)) st.at_column_start
        (start_step max_columns st (skip_spaces (c ∷ rest))) (token_step max_columns st c rest)
        (weaker (start_step max_columns st (skip_spaces (c ∷ rest)))
          (skip_spaces-shorter (c ∷ rest)) (start_step-IsFine st (skip_spaces (c ∷ rest)) h))
        (token_step-IsFine st c rest h)

  finish-le :
      (st : SelectScan) (text : Bytes)
      → length st.overrides ≤ max_columns
      → length (finish max_columns st text).overrides ≤ max_columns
  unfolding finish
  finish-le st (c ∷ rest) h = h
  finish-le st [] h = go st.at_column_start
    where
      go :
          (b : Bool)
          → length (if b then st else record_column max_columns st).overrides ≤ max_columns
      go true = h
      go false = record_column-le st h

  -- A loop that ends with no more columns than there is room for.
  abbrev pub Parses : Option (List QueryColumnOverride) → Type 0
  Parses r =
      (columns : List QueryColumnOverride) × (r ≡ some columns) × (length columns ≤ max_columns)

  -- Each round of the loop reads a byte or more.
  select_loop-Parses :
      (fuel : ℕ) (st : SelectScan) (text : Bytes)
      → length st.overrides ≤ max_columns
      → length text < fuel
      → Parses (select_loop max_columns fuel st text)
  unfolding select_loop
  select_loop-Parses zero st text h l = absurd (omega arith)
  select_loop-Parses (suc fuel) st [] h l =
      ((finish max_columns st []).overrides, refl, finish-le st [] h)
  select_loop-Parses (suc fuel) st (c ∷ rest) h l =
      go (ltb (length st.overrides) max_columns) (select_step max_columns st c rest)
        (select_step-IsFine st c rest h) (select_loop-Parses fuel)
    where
      go :
          (b : Bool) (s : Step)
          → IsFine (suc (length rest)) s
          → ((st : SelectScan) (text : Bytes)
              → length st.overrides ≤ max_columns
              → length text < fuel
              → Parses (select_loop max_columns fuel st text))
          → Parses (elim b as (λ x. Option (List QueryColumnOverride)) [
            | false ↦ some st.overrides
            | true ↦ elim s as (λ x. Option (List QueryColumnOverride)) [
              | go_on next text ↦ select_loop max_columns fuel next text
              | leave last text ↦ some (finish max_columns last text).overrides
            ]
          ])
      go false s fine later = (st.overrides, refl, h)
      go true (go_on next text) (shorter, fine) later = later next text fine (omega arith)
      go true (leave last text) fine later =
          ((finish max_columns last text).overrides, refl, finish-le last text fine)

  drop-shorter : (n : ℕ) (text : Bytes) → length (drop n text) ≤ length text
  drop-shorter zero text = omega arith
  drop-shorter (suc n) [] = omega arith
  drop-shorter (suc n) (c ∷ text) = omega (arith, drop-shorter n text)

  -- Whatever the statement, or none, the parse comes to an end: its loop does not spend the fuel of
  -- the text's length and one; and no more columns are written than the caller has room for.
  pub select_columns_total :
      (sql_input : Option Bytes)
      → (columns : List QueryColumnOverride) × (query_parse_select_columns max_columns sql_input
          ≡ some columns)
        × (length columns ≤ max_columns)
  unfolding query_parse_select_columns
  select_columns_total none = ([], refl, omega arith)
  select_columns_total (some sql_input) =
      go (match_keyword_at (skip_spaces (c_str sql_input)) (codes "select"))
        (skip_spaces (c_str sql_input))
    where
      go :
          (b : Bool) (text : Bytes)
          → Parses (
              if b
              then select_loop max_columns (suc (length text)) start_scan (drop 6 text)
              else some [])
      go true text =
          select_loop-Parses (suc (length text)) start_scan (drop 6 text) (omega arith)
            (omega (arith, drop-shorter 6 text))
      go false text = ([], refl, omega arith)
