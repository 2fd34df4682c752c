-- ===== src/QueryParser/Scanner/Progress/Total.antt =====
-- A step of the scanner leaves less input than it finds.
use psqlodbc_new.Prelude.{
  ℕ, zero, suc, ◌≤◌, ◌<◌, ◌≡◌, refl, ap, [], ◌∷◌, arith, length, take, drop, Bytes, codes,
}
use psqlodbc_new.QueryParser.{
  ScanState, normal, in_single_quote, in_escape_string, in_double_quote, in_line_comment,
  in_block_comment, skip_space, skip_blank,
}
use psqlodbc_new.QueryParser.Scanner.{Setting, Scanner, at_input}
use psqlodbc_new.QueryParser.Scanner.Lex.{
  Escape, fn, ts, d, t, oj, escape, call, no_escape, escape_of, Lexed, identity, brace,
  question_question, marker, escape_string, dollar_quote, single_quote, double_quote, line_comment,
  block_comment, default_values, close_paren, plain, lex,
}
use psqlodbc_new.QueryParser.Scanner.Arguments.{Scan}
use psqlodbc_new.QueryParser.Scanner.Call.{handle_call_escape}
use psqlodbc_new.QueryParser.Scanner.Copy.{
  copy_two, copy_dollar, dollar_pieces, single_quote_step, escape_string_step, double_quote_step,
  line_comment_step, block_comment_step,
}
use psqlodbc_new.QueryParser.Scanner.Step.{
  normal_step, run_escape, copy_escape_body, handle_open_brace, handle_function_escape, step_at,
  step_with, scan_step,
}
use psqlodbc_new.QueryParser.Scanner.Lengths.{
  skip_space-le, skip_blank-le, dollar_pieces-le, drop-le,
}
use psqlodbc_new.QueryParser.Scanner.Progress.{Below, Scans, Below-mono, copy_escape_body-Below}
use psqlodbc_new.QueryParser.Scanner.Progress.Shapes.{
  Shortens, Shortens-mono, escape_of-Shortens, Consumes, lex-Consumes,
}
use psqlodbc_new.QueryParser.Scanner.Progress.Calls.{call_escape-Below}
use psqlodbc_new.QueryParser.Scanner.Progress.Steps.{datetime-le, like-le, function_escape-Below}

module _ (c : Setting) where
  pub run_escape-Below :
      (scan : Scan) (n fuel : ℕ) (s : Scanner) (x : ℕ) (xs : Bytes) (e : Escape)
      → s.input ≡ x ∷ xs
      → Shortens (length xs) e
      → Scans n scan
      → length s.input ≤ fuel
      → length s.input ≤ n
      → Below (length s.input) (run_escape c scan fuel s xs e)
  unfolding run_escape
  run_escape-Below scan n fuel s x xs (fn rest) e le ok h k =
      let l = ap length e in
      Below-mono (suc (length rest)) (length s.input)
        (handle_function_escape c scan fuel (at_input s rest)) (omega arith)
        (function_escape-Below c scan n fuel (at_input s rest) ok (omega arith) (omega arith))
  run_escape-Below scan n fuel s x xs (ts rest) e le ok h k =
      let l = ap length e in omega (arith, datetime-le c (codes "::timestamp") (at_input s rest))
  run_escape-Below scan n fuel s x xs (d rest) e le ok h k =
      let l = ap length e in omega (arith, datetime-le c (codes "::date") (at_input s rest))
  run_escape-Below scan n fuel s x xs (t rest) e le ok h k =
      let l = ap length e in omega (arith, datetime-le c (codes "::time") (at_input s rest))
  run_escape-Below scan n fuel s x xs (oj rest) e le ok h k =
      let l = ap length e in
      let shorter = skip_space-le rest in
      Below-mono (suc (length (skip_space rest))) (length s.input)
        (copy_escape_body c scan fuel (at_input s (skip_space rest))) (omega arith)
        (copy_escape_body-Below c scan n fuel (at_input s (skip_space rest)) ok (omega arith)
          (omega arith))
  run_escape-Below scan n fuel s x xs (escape rest) e le ok h k =
      let l = ap length e in omega (arith, like-le c (at_input s rest))
  run_escape-Below scan n fuel s x xs (call rest) e le ok h k =
      let l = ap length e in
      Below-mono (suc (length rest)) (length s.input) (handle_call_escape c fuel (at_input s rest))
        (omega arith) (call_escape-Below c fuel (at_input s rest) (omega arith))
  run_escape-Below scan n fuel s x xs no_escape e le ok h k = omega (arith, ap length e)

  open_brace-Below :
      (scan : Scan) (n fuel : ℕ) (s : Scanner) (x : ℕ) (xs : Bytes)
      → s.input ≡ x ∷ xs
      → Scans n scan
      → length s.input ≤ fuel
      → length s.input ≤ n
      → Below (length s.input) (handle_open_brace c scan fuel s xs)
  unfolding handle_open_brace
  open_brace-Below scan n fuel s x xs e ok h k =
      run_escape-Below scan n fuel s x xs (escape_of (skip_blank xs)) e
        (Shortens-mono (length (skip_blank xs)) (length xs) (escape_of (skip_blank xs))
          (skip_blank-le xs) (escape_of-Shortens (skip_blank xs)))
        ok h k

  copy_two-le : (s : Scanner) (x : ℕ) (xs : Bytes) → length (copy_two c s x xs).input ≤ length xs
  copy_two-le s x [] = omega arith
  copy_two-le s x (y ∷ ys) = omega arith

  copy_dollar-le :
      (s : Scanner) (k x : ℕ) (xs : Bytes)
      → 0 < k
      → length (copy_dollar c s k (x ∷ xs)).input ≤ length xs
  unfolding dollar_pieces
  copy_dollar-le s zero x xs h = absurd (omega arith)
  copy_dollar-le s (suc k) x xs h =
      omega (arith, dollar_pieces-le (x ∷ take k xs) (drop k xs), drop-le k xs)

  normal_step-Below :
      (scan : Scan) (n fuel : ℕ) (s : Scanner) (x : ℕ) (xs : Bytes) (l : Lexed)
      → s.input ≡ x ∷ xs
      → Consumes xs l
      → Scans n scan
      → length s.input ≤ fuel
      → length s.input ≤ n
      → Below (length s.input) (normal_step c scan fuel s x xs l)
  unfolding normal_step
  normal_step-Below scan n fuel s x xs identity e le ok h k =
      omega (arith, ap length e, drop-le 9 xs)
  normal_step-Below scan n fuel s x xs brace e le ok h k =
      open_brace-Below scan n fuel s x xs e ok h k
  normal_step-Below scan n fuel s x xs question_question e le ok h k =
      omega (arith, ap length e, drop-le 1 xs)
  normal_step-Below scan n fuel s x xs marker e le ok h k = omega (arith, ap length e)
  normal_step-Below scan n fuel s x xs escape_string e le ok h k =
      omega (arith, ap length e, copy_two-le s x xs)
  normal_step-Below scan n fuel s x xs (dollar_quote tag) e le ok h k =
      omega (arith, ap length e, copy_dollar-le s tag x xs le)
  normal_step-Below scan n fuel s x xs single_quote e le ok h k = omega (arith, ap length e)
  normal_step-Below scan n fuel s x xs double_quote e le ok h k = omega (arith, ap length e)
  normal_step-Below scan n fuel s x xs line_comment e le ok h k =
      omega (arith, ap length e, copy_two-le s x xs)
  normal_step-Below scan n fuel s x xs block_comment e le ok h k =
      omega (arith, ap length e, copy_two-le s x xs)
  normal_step-Below scan n fuel s x xs (default_values rest) e le ok h k =
      omega (arith, ap length e, le)
  normal_step-Below scan n fuel s x xs close_paren e le ok h k = omega (arith, ap length e)
  normal_step-Below scan n fuel s x xs plain e le ok h k = omega (arith, ap length e)

  -- The states inside literals and comments take a byte or two.
  abbrev Takes : Bytes → Scanner → Type 0
  Takes xs s = length s.input ≤ length xs

  single_quote-Takes : (s : Scanner) (x : ℕ) (xs : Bytes) → Takes xs (single_quote_step c s x xs)
  unfolding single_quote_step
  single_quote-Takes s x xs = ground (arith, copy_two-le s x xs)

  escape_string-Takes : (s : Scanner) (x : ℕ) (xs : Bytes) → Takes xs (escape_string_step c s x xs)
  unfolding escape_string_step
  escape_string-Takes s x xs = ground (arith, copy_two-le s x xs)

  double_quote-Takes : (s : Scanner) (x : ℕ) (xs : Bytes) → Takes xs (double_quote_step c s x xs)
  unfolding double_quote_step
  double_quote-Takes s x xs = ground (arith, copy_two-le s x xs)

  line_comment-Takes : (s : Scanner) (x : ℕ) (xs : Bytes) → Takes xs (line_comment_step c s x xs)
  unfolding line_comment_step
  line_comment-Takes s x xs = ground (arith, copy_two-le s x xs)

  block_comment-Takes : (s : Scanner) (x : ℕ) (xs : Bytes) → Takes xs (block_comment_step c s x xs)
  unfolding block_comment_step
  block_comment-Takes s x xs = ground (arith, copy_two-le s x xs)

  step_at-Below :
      (scan : Scan) (n fuel : ℕ) (s : Scanner) (state : ScanState) (x : ℕ) (xs : Bytes)
      → s.input ≡ x ∷ xs
      → Scans n scan
      → length s.input ≤ fuel
      → length s.input ≤ n
      → Below (length s.input) (step_at c scan fuel s state x xs)
  unfolding step_at
  step_at-Below scan n fuel s normal x xs e ok h k =
      normal_step-Below scan n fuel s x xs (lex c s x xs) e (lex-Consumes c s x xs) ok h k
  step_at-Below scan n fuel s in_single_quote x xs e ok h k =
      omega (arith, ap length e, single_quote-Takes s x xs)
  step_at-Below scan n fuel s in_escape_string x xs e ok h k =
      omega (arith, ap length e, escape_string-Takes s x xs)
  step_at-Below scan n fuel s in_double_quote x xs e ok h k =
      omega (arith, ap length e, double_quote-Takes s x xs)
  step_at-Below scan n fuel s in_line_comment x xs e ok h k =
      omega (arith, ap length e, line_comment-Takes s x xs)
  step_at-Below scan n fuel s in_block_comment x xs e ok h k =
      omega (arith, ap length e, block_comment-Takes s x xs)

  step_with-Below :
      (scan : Scan) (fuel : ℕ) (s : Scanner) (text : Bytes)
      → s.input ≡ text
      → Scans fuel scan
      → length s.input ≤ fuel
      → 0 < length s.input
      → Below (length s.input) (step_with c scan fuel s text)
  step_with-Below scan fuel s [] e ok h k = absurd (omega (arith, ap length e))
  step_with-Below scan fuel s (x ∷ xs) e ok h k =
      step_at-Below scan fuel fuel s s.state x xs e ok h h

  -- A step with more fuel than there is input returns, and takes at least a byte.
  pub scan_step-Below :
      (fuel : ℕ) (s : Scanner)
      → length s.input < fuel
      → 0 < length s.input
      → Below (length s.input) (scan_step c fuel s)
  unfolding scan_step
  scan_step-Below zero s h k = absurd (omega arith)
  scan_step-Below (suc fuel) s h k =
      step_with-Below (scan_step c fuel) fuel s s.input refl (scan_step-Below fuel) (omega arith) k
