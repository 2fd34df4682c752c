-- ===== src/QueryParser/Scanner/Progress/Calls.antt =====
-- Procedure calls leave less input than they find.
use psqlodbc_new.Prelude.{
  ℕ, zero, suc, ◌-◌, ◌≤◌, ◌<◌, ◌≡◌, refl, ap, ◌∙◌, Bool, true, false, not, ◌&&◌, ◌||◌, Option, none,
  some, [], ◌∷◌, arith, ltb, ◌==◌, if◌then◌else◌, length, Bytes, codes,
}
use psqlodbc_new.QueryParser.{skip_space, next_is}
use psqlodbc_new.QueryParser.Scanner.{
  Setting, Scanner, at_input, emit_string, QueryCallArgument, count_parameter, role_input,
  query_max_call_literal,
}
use psqlodbc_new.QueryParser.Scanner.Escapes.{seek_brace}
use psqlodbc_new.QueryParser.Scanner.Call.{
  read_while, read_literal, read_cast, Place, at_close, at_comma, at_marker, at_literal, place_of,
  call_at, call_round, call_loop, marker_argument, literal_argument, handle_call_escape,
  finish_argument, past_comma, ended, arguments_of, read_head, emit_head, trim_blanks,
  leading_marker, past_equals, past_call, in_name, procedure_name_size,
}
use psqlodbc_new.QueryParser.Scanner.Lengths.{
  skip_space-le, past_brace-le, seek_brace-le, read_while-le, read_literal-shorter, read_cast-le,
  input-emit_string, drop-le,
}
use psqlodbc_new.QueryParser.Scanner.Progress.{Below, either, either-if, Below-mono}

module _ (c : Setting) where
  -- The loop over a call's arguments.
  abbrev Calls : ℕ → (Scanner → ℕ → Option Scanner) → Type 0
  Calls n more = (t : Scanner) (depth : ℕ) → length t.input < n → Below n (more t depth)

  finish_argument-le :
      (argument : QueryCallArgument) (rest : Bytes) (s : Scanner)
      → length (finish_argument argument rest s).input ≤ length rest
  finish_argument-le argument rest s = go (skip_space rest) (skip_space-le rest)
    where
      go : (t : Bytes) → length t ≤ length rest → length (past_comma t) ≤ length rest
      go [] h = omega arith
      go (x ∷ t) h = ground arith

  literal_place :
      (x : ℕ) (rest : Bytes) → place_of x rest ≡ at_literal → (x == b')' || x == b',') ≡ false
  literal_place x rest e = go (x == b')') (x == b',') (x == b'?' && not (next_is b'?' rest)) e
    where
      go :
          (p q r : Bool)
          → (if p then at_close else if q then at_comma else if r then at_marker else at_literal)
            ≡ at_literal
          → (p || q) ≡ false
      go true q r h = cc
      go false true r h = cc
      go false false r h = refl

  call_at-Below :
      (more : Scanner → ℕ → Option Scanner) (s : Scanner) (depth : ℕ) (p : Place) (x : ℕ)
      (rest : Bytes) (n : ℕ)
      → place_of x rest ≡ p
      → suc (length rest) ≤ n
      → Calls n more
      → Below n (call_at more s depth p x rest)
  call_at-Below more s depth at_close x rest n e h ih = omega arith
  call_at-Below more s depth at_comma x rest n e h ih = ih (at_input s rest) depth (omega arith)
  call_at-Below more s depth at_marker x rest n e h ih = ih (marker_argument s rest) depth (
      omega (
        arith,
        finish_argument-le
            (record {
              parameter_number = suc s.param_number;
              cast_suffix = (read_cast (skip_space rest)).0;
              literal_text = [];
            })
            (read_cast (skip_space rest)).1 (count_parameter role_input s),
        read_cast-le (skip_space rest),
        skip_space-le rest,
      ))
  call_at-Below more s depth at_literal x rest n e h ih =
      let l = read_literal (query_max_call_literal - 1) depth (x ∷ rest) in
      ih (literal_argument s l) l.depth (
        omega (
          arith,
          finish_argument-le
              (record { parameter_number = 0; cast_suffix = []; literal_text = trim_blanks l.text })
              l.behind s,
          read_literal-shorter 126 depth x rest (literal_place x rest e),
        ))

  call_round-Below :
      (more : Scanner → ℕ → Option Scanner) (s : Scanner) (depth : ℕ) (text : Bytes) (n : ℕ)
      → length text ≤ n
      → Calls n more
      → Below (suc n) (call_round more s depth text)
  call_round-Below more s depth [] n h ih = omega arith
  call_round-Below more s depth (x ∷ rest) n h ih =
      Below-mono n (suc n) (call_at more s depth (place_of x rest) x rest) (omega arith)
        (call_at-Below more s depth (place_of x rest) x rest n refl h ih)

  call_loop-Below :
      (fuel : ℕ) (s : Scanner) (depth : ℕ)
      → length s.input < fuel
      → Below (suc (length s.input)) (call_loop fuel s depth)
  unfolding call_loop
  call_loop-Below zero s depth h = absurd (omega arith)
  call_loop-Below (suc fuel) s depth h =
      let later : Calls (length s.input) (call_loop fuel) = λ t depth' l.
        Below-mono (suc (length t.input)) (length s.input) (call_loop fuel t depth') (omega arith)
          (call_loop-Below fuel t depth' (omega arith)) in
      either (Below (suc (length s.input))) s.out_of_memory _ _ (omega arith) (
        call_round-Below (call_loop fuel) s depth (skip_space s.input) (length s.input)
          (skip_space-le s.input) later)

  ended-Below : (n : ℕ) (m : Option Scanner) → Below n m → Below n (ended m)
  ended-Below n none h = h
  ended-Below n (some s) h =
      omega (arith, past_brace-le (seek_brace s.input), seek_brace-le s.input)

  arguments_of-Below :
      (fuel n : ℕ) (s : Scanner) (text : Bytes)
      → s.input ≡ text
      → length s.input < n
      → length s.input < fuel
      → Below n (arguments_of c fuel s text)
  arguments_of-Below fuel n s [] e h k = h
  arguments_of-Below fuel n s (x ∷ rest) e h k =
      either (Below n) (x == b'(') _ _
        (Below-mono (suc (length rest)) n (call_loop fuel (at_input s rest) 0)
          (omega (arith, ap length e))
          (call_loop-Below fuel (at_input s rest) 0 (omega (arith, ap length e))))
        h

  leading_marker-le :
      (text : Bytes) (s : Scanner)
      → s.input ≡ text
      → length (leading_marker text s).input ≤ length s.input
  leading_marker-le [] s e = omega arith
  leading_marker-le (x ∷ rest) s e =
      either-if (λ (r : Scanner). length r.input ≤ length s.input) (x == b'?') _ _
        (omega (
          arith,
          skip_space-le (past_equals (skip_space rest)),
          equals (skip_space rest),
          skip_space-le rest,
          ap length e,
        ))
        (omega arith)
    where
      equals : (t : Bytes) → length (past_equals t) ≤ length t
      equals [] = omega arith
      equals (y ∷ t) = ground arith

  past_call-le : (text : Bytes) → length (past_call text) ≤ length text
  past_call-le text = ground (arith, drop-le 4 text)

  read_head-le : (s : Scanner) → length (read_head s).input ≤ length s.input
  read_head-le s =
      let started = record s { analysis = record s.analysis { is_procedure_call = true } } in
      let valued = leading_marker s.input started in
      let name = skip_space (past_call valued.input) in
      omega (
        arith,
        leading_marker-le s.input started refl,
        past_call-le valued.input,
        skip_space-le (past_call valued.input),
        read_while-le in_name (procedure_name_size - 1) name,
        skip_space-le (read_while in_name (procedure_name_size - 1) name).1,
      )

  pub call_escape-Below :
      (fuel : ℕ) (s : Scanner)
      → length s.input < fuel
      → Below (suc (length s.input)) (handle_call_escape c fuel s)
  unfolding handle_call_escape
  call_escape-Below fuel s h =
      let head = emit_head c (read_head s) in
      let start =
        if ltb 0 (read_head s).analysis.return_value_count
        then codes "SELECT "
        else codes "SELECT * FROM " in
      let same : head.input ≡ (read_head s).input =
        input-emit_string c (read_head s).analysis.procedure_name
          (emit_string c start (read_head s))
        ∙ input-emit_string c start (read_head s) in
      ended-Below (suc (length s.input)) (arguments_of c fuel head head.input) (
        arguments_of-Below fuel (suc (length s.input)) head head.input refl
          (omega (arith, read_head-le s, ap length same))
          (omega (arith, read_head-le s, ap length same)))
