-- ===== src/QueryParser/Split/Partition.antt =====
-- The statements are the ranges of the text between separators, trimmed, without the empty ones.
use mathlib.Core.Path.{ap₂}
use psqlodbc_new.Prelude.{
  ℕ, zero, suc, ◌<◌, ◌≡◌, refl, sym, ap, ◌∙◌, inl, inr, Bool, true, false, ◌&&◌, Option, none, some,
  List, [], ◌∷◌, ◌++◌, append-nil, append_assoc, arith, ◌==◌, Bool-cases, length, take, drop,
  take-append-drop, Bytes,
}
use psqlodbc_new.QueryParser.{
  ScanState, normal, in_single_quote, in_escape_string, in_double_quote, in_line_comment,
  in_block_comment, match_tag, match_dollar_quote_open, dollar_body, has_prefix,
}
use psqlodbc_new.QueryParser.Split.{
  Lexeme, dollar_unit, split_unit, is_separator, trim, append_trimmed, statement_list_append_range,
  last_byte, split_loop, ◌>>=◌,
}

dollar_body_splits : (tag s : Bytes) → (dollar_body tag s).0 ++ (dollar_body tag s).1 ≡ s
unfolding dollar_body
dollar_body_splits tag [] = refl
dollar_body_splits tag (c ∷ s) = elim (Bool-cases (c == b'$' && has_prefix tag (c ∷ s))) [
  | inl closes ↦ rw closes (take-append-drop (length tag) (c ∷ s))
  | inr other ↦ rw other (ap (◌∷◌ c) (dollar_body_splits tag s))
]

match_tag_grows : (s : Bytes) (n k : ℕ) → match_tag s n ≡ some k → n < k
unfolding match_tag
match_tag_grows [] n k h = cc
match_tag_grows (c ∷ s) n k h = ground (arith, match_tag_grows s (suc n) k)

tag_length_pos : (s : Bytes) (k : ℕ) → match_dollar_quote_open s ≡ some k → 0 < k
unfolding match_dollar_quote_open
tag_length_pos [] k h = cc
tag_length_pos (c ∷ s) k h = ground (arith, match_tag_grows s 2 k)

-- A unit is a part of the input with its first byte, and leaves what is behind it.
abbrev pub Takes : Lexeme → ℕ → Bytes → Type 0
Takes u c cs = (u.taken ++ u.rest ≡ c ∷ cs) × (0 < length u.taken)

dollar_unit-Takes :
    (depth c : ℕ) (cs : Bytes) (o : Option ℕ)
    → match_dollar_quote_open cs ≡ o
    → Takes (dollar_unit depth c cs o) c cs
dollar_unit-Takes depth c cs none e = (refl, omega arith)
dollar_unit-Takes depth c cs (some zero) e = absurd (omega (arith, tag_length_pos cs zero e))
dollar_unit-Takes depth c cs (some (suc k)) e = (
  ap (◌∷◌ c) (
      append_assoc (take k cs) _ _
      ∙ ap (λ r. take k cs ++ r) (dollar_body_splits (c ∷ take k cs) (drop k cs))
      ∙ take-append-drop k cs),
  omega arith,
)

pub split_unit-Takes :
    (conforming : Bool) (state : ScanState) (depth : ℕ) (previous : Option ℕ) (c : ℕ) (cs : Bytes)
    → Takes (split_unit conforming state depth previous c cs) c cs
unfolding split_unit
split_unit-Takes conforming in_single_quote depth previous c [] = ground arith
split_unit-Takes conforming in_single_quote depth previous c (d ∷ cs) = ground arith
split_unit-Takes conforming in_escape_string depth previous c [] = ground arith
split_unit-Takes conforming in_escape_string depth previous c (d ∷ cs) = ground arith
split_unit-Takes conforming in_double_quote depth previous c cs =
    ground (arith, take-append-drop 1 cs)
split_unit-Takes conforming in_line_comment depth previous c cs =
    ground (arith, take-append-drop 1 cs)
split_unit-Takes conforming in_block_comment depth previous c cs =
    ground (arith, take-append-drop 1 cs)
split_unit-Takes conforming normal depth previous c cs =
    ground
      (arith, take-append-drop 1 cs, dollar_unit-Takes depth c cs (match_dollar_quote_open cs) refl)

-- The texts joined by separators.
abbrev pub join : List Bytes → Bytes
join [] = []
join (r ∷ []) = r
join (r ∷ s ∷ rs) = r ++ (b';' ∷ join (s ∷ rs))

abbrev pub keep_one : Bytes → List Bytes → List Bytes
keep_one [] statements = statements
keep_one (c ∷ s) statements = (c ∷ s) ∷ statements

-- Each range trimmed, and dropped where nothing is left of it.
abbrev pub keep : List Bytes → List Bytes
keep [] = []
keep (r ∷ rs) = keep_one (trim r) (keep rs)

separator_byte : (state : ScanState) (c : ℕ) → is_separator state c ≡ true → c ≡ b';'
separator_byte normal c h = ground arith
separator_byte in_single_quote c h = cc
separator_byte in_escape_string c h = cc
separator_byte in_double_quote c h = cc
separator_byte in_line_comment c h = cc
separator_byte in_block_comment c h = cc

keep_one-append : (s : Bytes) (xs ys : List Bytes) → keep_one s xs ++ ys ≡ keep_one s (xs ++ ys)
keep_one-append [] xs ys = refl
keep_one-append (c ∷ s) xs ys = refl

append_range-keep :
    (allocates : ℕ → ℕ → Bool) (statements : List Bytes) (range : Bytes) (result : List Bytes)
    → statement_list_append_range allocates statements range ≡ some result
    → result ≡ statements ++ keep (range ∷ [])
unfolding statement_list_append_range
append_range-keep allocates statements range result h = go (trim range) h
  where
    go :
        (s : Bytes)
        → append_trimmed allocates statements s ≡ some result
        → result ≡ statements ++ keep_one s []
    go [] e = let same : statements ≡ result = cc in sym same ∙ sym (append-nil statements)
    go (c ∷ s) e = ground arith

pub bind-some :
    (o : Option (List Bytes)) (f : List Bytes → Option (List Bytes)) (r : List Bytes)
    → (o >>= f) ≡ some r
    → (a : List Bytes) × (o ≡ some a) × (f a ≡ some r)
bind-some none f r h = cc
bind-some (some a) f r h = (a, refl, h)

module _ (allocates : ℕ → ℕ → Bool) (conforming : Bool) where
  module _ (fuel : ℕ) (state : ScanState) (depth : ℕ) (previous : Option ℕ) (fragment : Bytes)
      (statements : List Bytes) (c : ℕ) (cs : Bytes) where
    -- The loop's two ways to go on.
    pub at_separator :
        is_separator state c ≡ true
        → split_loop allocates conforming
            (suc fuel)
            state
            depth
            previous
            fragment
            statements
            (c ∷ cs)
          ≡ (statement_list_append_range allocates statements fragment >>= λ more.
              split_loop allocates conforming fuel state depth (some c) [] more cs)
    unfolding split_loop
    at_separator e = rw (e, split_loop)

    abbrev unit : Lexeme
    unit = split_unit conforming state depth previous c cs

    pub at_unit :
        is_separator state c ≡ false
        → split_loop allocates conforming
            (suc fuel)
            state
            depth
            previous
            fragment
            statements
            (c ∷ cs)
          ≡ split_loop allocates conforming fuel unit.state unit.depth
              (last_byte unit.taken)
              (fragment ++ unit.taken)
              statements
              unit.rest
    unfolding split_loop
    at_unit e = rw (e, split_loop)

  pub split_loop-partition :
      (fuel : ℕ) (state : ScanState) (depth : ℕ) (previous : Option ℕ) (fragment : Bytes)
      (statements : List Bytes) (input : Bytes) (result : List Bytes)
      → split_loop allocates conforming fuel state depth previous fragment statements input
        ≡ some result
      → (r : Bytes) × (rs : List Bytes) × (fragment ++ input ≡ join (r ∷ rs))
        × (result ≡ statements ++ keep (r ∷ rs))
  split_loop-partition zero state depth previous fragment statements input result h =
      unfold split_loop in cc
  split_loop-partition (suc fuel) state depth previous fragment statements [] result h = (
    fragment,
    [],
    append-nil fragment,
    append_range-keep allocates statements fragment result (unfold split_loop in h),
  )
  split_loop-partition (suc fuel) state depth previous fragment statements (c ∷ cs) result h =
      elim (Bool-cases (is_separator state c)) [
        | inl ends ↦
            let (more, appended, later) =
              bind-some _ _ result
                (sym (at_separator fuel state depth previous fragment statements c cs ends) ∙ h) in
            let (r, rs, splits, kept) =
              split_loop-partition fuel state depth (some c) [] more cs result later in
            (
              fragment,
              r ∷ rs,
              ap₂ (λ x s. fragment ++ (x ∷ s)) (separator_byte state c ends) splits,
              kept
                  ∙ ap (λ m. m ++ keep (r ∷ rs))
                      (append_range-keep allocates statements fragment more appended)
                  ∙ append_assoc statements _ _
                  ∙ ap (λ ks. statements ++ ks)
                      (keep_one-append (trim fragment) [] (keep (r ∷ rs))),
            )
        | inr goes_on ↦
            let u = split_unit conforming state depth previous c cs in
            let (whole, _) = split_unit-Takes conforming state depth previous c cs in
            let (r, rs, splits, kept) =
              split_loop-partition fuel u.state u.depth (last_byte u.taken) (fragment ++ u.taken)
                statements u.rest result
                (sym (at_unit fuel state depth previous fragment statements c cs goes_on) ∙ h) in
            (
              r,
              rs,
              ap (λ s. fragment ++ s) (sym whole)
                  ∙ sym (append_assoc fragment u.taken u.rest)
                  ∙ splits,
              kept,
            )
      ]
