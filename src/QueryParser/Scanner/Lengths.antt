-- ===== src/QueryParser/Scanner/Lengths.antt =====
-- No helper of the scanner makes its input longer.
use psqlodbc_new.Prelude.{
  ℕ, zero, suc, ◌+◌, ◌≤◌, ◌<◌, ◌≡◌, refl, ◌∙◌, inl, inr, Bool, true, false, ◌&&◌, ◌||◌, none, some,
  List, [], ◌∷◌, arith, leb, ◌==◌, if◌then◌else◌, Bool-cases, length, drop, Bytes,
}
use psqlodbc_new.CLib.{decimal}
use psqlodbc_new.QueryParser.{
  skip_space, skip_blank, has_prefix, match_tag, match_dollar_quote_open,
  is_identifier_continuation_char,
}
use psqlodbc_new.QueryParser.Scanner.{
  Setting, Scanner, emit_string, emit_char, emit_chars, emit_all, scanner_reserve, new_capacity,
  emit_cast, emit_parameter_marker, count_parameter, marker_cast, role_input,
}
use psqlodbc_new.QueryParser.Scanner.Rewrites.{
  default_values_rest, starts_with, after_first, close_last, after_values, after_columns,
}
use psqlodbc_new.QueryParser.Scanner.Escapes.{seek_brace, past_brace, copy_datetime, copy_to_brace}
use psqlodbc_new.QueryParser.Scanner.Call.{
  read_while, read_literal, read_cast, Literal, stop_at, with_byte,
}
use psqlodbc_new.QueryParser.Scanner.Copy.{dollar_pieces}

pub drop-le : (n : ℕ) (s : Bytes) → length (drop n s) ≤ length s
drop-le zero s = omega arith
drop-le (suc n) [] = omega arith
drop-le (suc n) (x ∷ s) = omega (arith, drop-le n s)

pub skip_space-le : (s : Bytes) → length (skip_space s) ≤ length s
unfolding skip_space
skip_space-le [] = omega arith
skip_space-le (x ∷ s) = ground (arith, skip_space-le s)

pub skip_blank-le : (s : Bytes) → length (skip_blank s) ≤ length s
unfolding skip_blank
skip_blank-le [] = omega arith
skip_blank-le (x ∷ s) = ground (arith, skip_blank-le s)

pub past_brace-le : (s : Bytes) → length (past_brace s) ≤ length s
past_brace-le [] = omega arith
past_brace-le (x ∷ s) = ground arith

pub seek_brace-le : (s : Bytes) → length (seek_brace s) ≤ length s
unfolding seek_brace
seek_brace-le [] = omega arith
seek_brace-le (x ∷ s) = ground (arith, seek_brace-le s)

pub copy_datetime-le : (s : Bytes) → length (copy_datetime s).1 ≤ length s
unfolding copy_datetime
copy_datetime-le [] = omega arith
copy_datetime-le (x ∷ s) = ground (arith, copy_datetime-le s, skip_blank-le (x ∷ s))

pub copy_to_brace-le : (s : Bytes) → length (copy_to_brace s).1 ≤ length s
unfolding copy_to_brace
copy_to_brace-le [] = omega arith
copy_to_brace-le (x ∷ s) = ground (arith, copy_to_brace-le s)

pub read_while-le : (p : ℕ → Bool) (n : ℕ) (s : Bytes) → length (read_while p n s).1 ≤ length s
unfolding read_while
read_while-le p zero s = omega arith
read_while-le p (suc n) [] = omega arith
read_while-le p (suc n) (x ∷ s) = elim (Bool-cases (p x)) [
  | inl h ↦ rw h (omega (arith, read_while-le p n s))
  | inr h ↦ rw h (omega arith)
]

pub dollar_pieces-le : (tag s : Bytes) → length (dollar_pieces tag s).1 ≤ length s
unfolding dollar_pieces
dollar_pieces-le tag [] = omega arith
dollar_pieces-le tag (x ∷ s) = elim (Bool-cases (x == b'$' && has_prefix tag (x ∷ s))) [
  | inl closes ↦ rw closes (drop-le (length tag) (x ∷ s))
  | inr other ↦ rw other (omega (arith, dollar_pieces-le tag s))
]

pub default_values_rest-le :
    (s rest : Bytes) → default_values_rest s ≡ some rest → length rest ≤ length s
unfolding default_values_rest
default_values_rest-le s rest e = go (skip_blank s) (skip_blank-le s) e
  where
    last : (t u : Bytes) → close_last t ≡ some u → length u ≤ length t
    last [] u h = cc
    last (x ∷ t) u h = ground (arith)

    values : (t u : Bytes) → after_values t ≡ some u → length u ≤ length t
    values [] u h = cc
    values (x ∷ t) u h = ground (arith, skip_blank-le t, last (skip_blank t) u)

    columns : (t u : Bytes) → after_columns t ≡ some u → length u ≤ length t
    columns t u h =
        ground (arith, skip_space-le (drop 6 t), drop-le 6 t, values (skip_space (drop 6 t)) u)

    go :
        (t : Bytes)
        → length t ≤ length s
        → (if starts_with b')' t then after_columns (skip_space (after_first t)) else none)
          ≡ some rest
        → length rest ≤ length s
    go [] le h = cc
    go (x ∷ t) le h = ground (arith, skip_space-le t, columns (skip_space t) rest)

pub match_tag-pos : (s : Bytes) (n k : ℕ) → match_tag s n ≡ some k → n < k
unfolding match_tag
match_tag-pos [] n k h = cc
match_tag-pos (c ∷ s) n k h = ground (arith, match_tag-pos s (suc n) k)

pub match_dollar-pos : (s : Bytes) (k : ℕ) → match_dollar_quote_open s ≡ some k → 0 < k
unfolding match_dollar_quote_open
match_dollar-pos [] k h = cc
match_dollar-pos (c ∷ s) k h = ground (arith, match_tag-pos s 2 k)

-- What is left behind a literal.
pub read_literal-le :
    (limit depth : ℕ) (s : Bytes) → length (read_literal limit depth s).behind ≤ length s
unfolding read_literal
read_literal-le zero depth s = omega arith
read_literal-le (suc limit) depth [] = omega arith
read_literal-le (suc limit) depth (x ∷ s) =
    either-Literal (x == b'(') _ _ (omega (arith, read_literal-le limit (suc depth) s))
      (inner (λ e. read_literal-le limit e s) depth)
  where
    either-Literal :
        (b : Bool) (l m : Literal)
        → length l.behind ≤ suc (length s)
        → length m.behind ≤ suc (length s)
        → length (elim b as (λ z. Literal) [ true ↦ l | false ↦ m ]).behind ≤ suc (length s)
    either-Literal true l m h k = h
    either-Literal false l m h k = k

    inner :
        ((e : ℕ) → length (read_literal limit e s).behind ≤ length s)
        → (e : ℕ)
        → length
            (elim e as (λ z. Literal) [
              | zero ↦ elim (x == b')' || x == b',') [
                | true ↦ stop_at 0 (x ∷ s)
                | false ↦ with_byte x (read_literal limit 0 s)
              ]
              | suc d ↦ with_byte x (read_literal limit (if x == b')' then d else suc d) s)
            ]).behind
          ≤ suc (length s)
    inner ih zero = either-Literal (x == b')' || x == b',') _ _ (omega arith) (omega (arith, ih 0))
    inner ih (suc d) = omega (arith, ih (if x == b')' then d else suc d))

-- A literal that does not begin with a parenthesis that closes or a comma has a byte.
pub read_literal-shorter :
    (limit depth x : ℕ) (s : Bytes)
    → (x == b')' || x == b',') ≡ false
    → length (read_literal (suc limit) depth (x ∷ s)).behind ≤ length s
unfolding read_literal
read_literal-shorter limit zero x s h = elim (Bool-cases (x == b'(')) [
  | inl k ↦ rw (k, length) (omega (arith, read_literal-le limit 1 s))
  | inr k ↦ rw (k, h, length) (omega (arith, read_literal-le limit 0 s))
]
read_literal-shorter limit (suc depth) x s h = elim (Bool-cases (x == b'(')) [
  | inl k ↦ rw (k, length) (omega (arith, read_literal-le limit (suc (suc depth)) s))
  | inr k ↦
      rw (k, length)
        (omega (arith, read_literal-le limit (if x == b')' then depth else suc depth) s))
]

pub read_cast-le : (s : Bytes) → length (read_cast s).1 ≤ length s
unfolding read_cast
read_cast-le [] = omega arith
read_cast-le (x ∷ []) = omega arith
read_cast-le (x ∷ y ∷ s) = elim (Bool-cases (x == b':' && y == b':')) [
  | inl h ↦ rw h (omega (arith, read_while-le is_identifier_continuation_char 29 s))
  | inr h ↦ rw h (omega arith)
]

module _ (c : Setting) where
  pub input-emit_string : (text : Bytes) (s : Scanner) → (emit_string c text s).input ≡ s.input
  unfolding emit_string scanner_reserve
  input-emit_string text s =
      elim (Bool-cases (leb (length s.output + length text + 1) s.output_capacity)) [
        | inl h ↦ rw h refl
        | inr h ↦
            elim (Bool-cases
              (c.allocates (new_capacity s.output_capacity (length s.output + length text + 1)))) [
                | inl k ↦ rw (h, k) refl
                | inr k ↦ rw (h, k) refl
              ]
      ]

  pub input-emit_chars : (text : Bytes) (s : Scanner) → (emit_chars c text s).input ≡ s.input
  input-emit_chars [] s = refl
  input-emit_chars (x ∷ text) s =
      input-emit_chars text (emit_char c x s) ∙ input-emit_string (x ∷ []) s

  pub input-emit_all : (pieces : List Bytes) (s : Scanner) → (emit_all c pieces s).input ≡ s.input
  input-emit_all [] s = refl
  input-emit_all (p ∷ pieces) s = input-emit_all pieces (emit_string c p s) ∙ input-emit_string p s

  pub input-emit_cast : (cast : Bytes) (s : Scanner) → (emit_cast c cast s).input ≡ s.input
  input-emit_cast [] s = refl
  input-emit_cast (x ∷ cast) s = input-emit_string (x ∷ cast) s

  pub input-emit_marker : (s : Scanner) → (emit_parameter_marker c s).input ≡ s.input
  unfolding emit_parameter_marker
  input-emit_marker s =
      let counted = count_parameter role_input s in
      let number = b'$' ∷ decimal (suc s.param_number) in
      input-emit_cast (marker_cast c s) (emit_string c number counted)
      ∙ input-emit_string number counted
