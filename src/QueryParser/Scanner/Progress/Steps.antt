-- ===== src/QueryParser/Scanner/Progress/Steps.antt =====
-- The escapes and the step itself: each leaves less input than it finds.
use psqlodbc_new.Prelude.{
  ℕ, suc, ◌-◌, ◌≤◌, ◌<◌, ap, Option, none, some, [], ◌∷◌, arith, ◌==◌, length, Bytes,
}
use psqlodbc_new.QueryParser.{skip_space}
use psqlodbc_new.QueryParser.Scanner.{Setting, Scanner, at_input, emit_all}
use psqlodbc_new.QueryParser.Scanner.Functions.{function_pieces}
use psqlodbc_new.QueryParser.Scanner.Call.{read_while}
use psqlodbc_new.QueryParser.Scanner.Escapes.{
  seek_brace, copy_datetime, copy_to_brace, handle_datetime_escape, handle_like_escape,
}
use psqlodbc_new.QueryParser.Scanner.Arguments.{Scan, Collected, collect_function_arguments}
use psqlodbc_new.QueryParser.Scanner.Call.{read_while}
use psqlodbc_new.QueryParser.Scanner.Step.{
  closed, function_call, in_function_name, function_name_size, handle_function_escape,
}
use psqlodbc_new.QueryParser.Scanner.Lengths.{
  skip_space-le, past_brace-le, seek_brace-le, copy_datetime-le, copy_to_brace-le, read_while-le,
  input-emit_all,
}
use psqlodbc_new.QueryParser.Scanner.Progress.{
  Below, BelowCollected, Scans, either, Below-mono, BelowCollected-mono,
  collect_function_arguments-Below,
}

module _ (c : Setting) where
  pub datetime-le :
      (suffix : Bytes) (s : Scanner)
      → length (handle_datetime_escape c suffix s).input ≤ length s.input
  unfolding handle_datetime_escape
  datetime-le suffix s = omega (
    arith,
    past_brace-le (copy_datetime (skip_space s.input)).1,
    copy_datetime-le (skip_space s.input),
    skip_space-le s.input,
  )

  pub like-le : (s : Scanner) → length (handle_like_escape c s).input ≤ length s.input
  unfolding handle_like_escape
  like-le s = omega (
    arith,
    past_brace-le (copy_to_brace (skip_space s.input)).1,
    copy_to_brace-le (skip_space s.input),
    skip_space-le s.input,
  )

  module _ (scan : Scan) where
    closed-Below :
        (n : ℕ) (name : Bytes) (m : Option Collected)
        → BelowCollected n m
        → Below n (closed c scan name m)
    closed-Below n name none h = h
    closed-Below n name (some (s, none)) h = h
    closed-Below n name (some (s, some arguments)) h =
        let emitted = emit_all c (function_pieces name arguments) s in
        omega (
          arith,
          past_brace-le (skip_space emitted.input),
          skip_space-le emitted.input,
          ap length (input-emit_all c (function_pieces name arguments) s),
        )

    function_call-Below :
        (n fuel : ℕ) (s : Scanner) (name rest : Bytes)
        → Scans n scan
        → length rest < fuel
        → length rest < n
        → Below (suc (length rest)) (function_call c scan fuel s name rest)
    function_call-Below n fuel s name [] ok h k = unfold seek_brace in omega arith
    function_call-Below n fuel s name (x ∷ xs) ok h k =
        either (Below (suc (suc (length xs)))) (x == b'(') _ _
          (closed-Below (suc (suc (length xs))) name
            (collect_function_arguments c scan fuel (at_input s xs))
            (BelowCollected-mono (suc (length xs)) (suc (suc (length xs)))
              (collect_function_arguments c scan fuel (at_input s xs)) (omega arith)
              (collect_function_arguments-Below c scan n fuel (at_input s xs) ok (omega arith)
                (omega arith))))
          (omega (arith, past_brace-le (seek_brace (x ∷ xs)), seek_brace-le (x ∷ xs)))

    pub function_escape-Below :
        (n fuel : ℕ) (s : Scanner)
        → Scans n scan
        → length s.input < fuel
        → length s.input < n
        → Below (suc (length s.input)) (handle_function_escape c scan fuel s)
    unfolding handle_function_escape
    function_escape-Below n fuel s ok h k =
        let named =
          read_while (in_function_name c scan) (function_name_size c scan - 1)
            (skip_space s.input) in
        let rest = skip_space named.1 in
        let shorter : length rest ≤ length s.input = omega (
          arith,
          skip_space-le named.1,
          skip_space-le s.input,
          read_while-le (in_function_name c scan) (function_name_size c scan - 1)
              (skip_space s.input),
        ) in
        Below-mono (suc (length rest)) (suc (length s.input))
          (function_call c scan fuel s named.0 rest) (omega arith)
          (function_call-Below n fuel s named.0 rest ok (omega arith) (omega arith))
