-- ===== src/QueryParser/Scanner/Plain.antt =====
-- Texts without quotes, comments and escapes: their markers are numbered, and nothing else changes.
pub mod Numbering
pub mod Rounds
pub mod Numbered
use psqlodbc_new.Prelude.{
  ℕ, suc, ◌+◌, ◌≡◌, refl, sym, ap, ◌∙◌, inl, inr, Bool, true, false, not, ◌&&◌, ◌||◌, some, [], ◌∷◌,
  arith, leb, ◌==◌, if◌then◌else◌, Bool-cases, length, Bytes,
}
use mathlib.Core.Path.{subst}
use psqlodbc_new.CLib.{decimal}
use psqlodbc_new.QueryParser.{normal, next_is}
use psqlodbc_new.QueryParser.Scanner.{
  Setting, Scanner, emit_string, emit_char, emit_cast, scanner_reserve, append_reversed,
  new_capacity, emit_parameter_marker, count_parameter, marker_cast, role_input, cast_for_parameter,
  at_input,
}
use psqlodbc_new.QueryParser.Scanner.Rewrites.{statement_is_insert, maybe_rewrite_msaccess_boolean}
use psqlodbc_new.QueryParser.Scanner.Lex.{Lexed, close_paren, plain, marker, question_question, lex}
use psqlodbc_new.QueryParser.Scanner.Copy.{copy_one}
use psqlodbc_new.QueryParser.Scanner.Step.{scan_step, step_at, step_with, normal_step}

-- A byte that opens no quote, comment or escape.
abbrev pub is_plain : ℕ → Bool
is_plain x =
    not (x == b'@' || x == b'{' || x == b'$' || x == b'\'' || x == b'"' || x == b'-' || x == b'/')

and_false : (b : Bool) → (b && false) ≡ false
and_false true = refl
and_false false = refl

module _ (c : Setting) (grants : (n : ℕ) → c.allocates n ≡ true) where
  -- Where the scanner stands.
  pub record At (s : Scanner) (text output : Bytes) (n : ℕ) : Type 0 where
    pub input_is : s.input ≡ text
    pub output_is : s.output ≡ output
    pub state_is : s.state ≡ normal
    pub memory_is : s.out_of_memory ≡ false
    pub number_is : s.param_number ≡ n
    pub call_is : s.analysis.is_procedure_call ≡ false

  emit_string-At :
      (s : Scanner) (text output : Bytes) (n : ℕ) (piece : Bytes)
      → At s text output n
      → At (emit_string c piece s) text (append_reversed piece output) n
  unfolding emit_string scanner_reserve
  emit_string-At s text output n piece a =
      elim (Bool-cases (leb (length s.output + length piece + 1) s.output_capacity)) [
        | inl h ↦ rw h (same s a)
        | inr h ↦
            rw (h, grants (new_capacity s.output_capacity (length s.output + length piece + 1)))
              (same
                (record s {
                  output_capacity =
                      new_capacity s.output_capacity (length s.output + length piece + 1);
                })
                (record {
                  input_is = a.input_is;
                  output_is = a.output_is;
                  state_is = a.state_is;
                  memory_is = a.memory_is;
                  number_is = a.number_is;
                  call_is = a.call_is;
                }))
      ]
    where
      same :
          (t : Scanner)
          → At t text output n
          → At
              (record t { output = append_reversed piece t.output })
              text
              (append_reversed piece output)
              n
      same t b = record {
        input_is = b.input_is;
        output_is = ap (append_reversed piece) b.output_is;
        state_is = b.state_is;
        memory_is = b.memory_is;
        number_is = b.number_is;
        call_is = b.call_is;
      }

  moved_on :
      (s : Scanner) (text rest output : Bytes) (n : ℕ)
      → At s text output n
      → At (at_input s rest) rest output n
  moved_on s text rest output n a = record {
    input_is = refl;
    output_is = a.output_is;
    state_is = a.state_is;
    memory_is = a.memory_is;
    number_is = a.number_is;
    call_is = a.call_is;
  }

  -- What stands at a plain byte that is no question mark.
  lex-plain :
      (s : Scanner) (x : ℕ) (xs : Bytes)
      → is_plain x ≡ true
      → (x == b'?') ≡ false
      → next_is b'\'' xs ≡ false
      → statement_is_insert c.whole_input ≡ false
      → lex c s x xs ≡ (if x == b')' then close_paren else plain)
  unfolding lex
  lex-plain s x xs p q e i =
      let at : (x == b'@') ≡ false = ground arith in
      let brace : (x == b'{') ≡ false = ground arith in
      let dollar : (x == b'$') ≡ false = ground arith in
      let quote : (x == b'\'') ≡ false = ground arith in
      let double : (x == b'"') ≡ false = ground arith in
      let dash : (x == b'-') ≡ false = ground arith in
      let slash : (x == b'/') ≡ false = ground arith in
      rw
        (
          at,
          brace,
          q,
          e,
          and_false (x == b'E' || x == b'e'),
          dollar,
          quote,
          double,
          dash,
          slash,
          i,
          and_false (x == b'('),
        )
        refl

  -- A step where the byte is lexed.
  lexed-step :
      (fuel : ℕ) (s : Scanner) (x : ℕ) (xs output : Bytes) (n : ℕ) (l : Lexed)
      → At s (x ∷ xs) output n
      → lex c s x xs ≡ l
      → scan_step c (suc fuel) s ≡ normal_step c (scan_step c fuel) fuel s x xs l
  unfolding scan_step step_at
  lexed-step fuel s x xs output n l a e =
      ap (step_with c (scan_step c fuel) fuel s) a.input_is
      ∙ ap (λ st. step_at c (scan_step c fuel) fuel s st x xs) a.state_is
      ∙ ap (normal_step c (scan_step c fuel) fuel s x xs) e

  plain-step :
      (fuel : ℕ) (s : Scanner) (x : ℕ) (xs output : Bytes) (n : ℕ)
      → At s (x ∷ xs) output n
      → is_plain x ≡ true
      → (x == b'?') ≡ false
      → next_is b'\'' xs ≡ false
      → statement_is_insert c.whole_input ≡ false
      → c.options.ms_jet ≡ false
      → (t : Scanner) × (scan_step c (suc fuel) s ≡ some t) × At t xs (x ∷ output) n
  unfolding normal_step maybe_rewrite_msaccess_boolean
  plain-step fuel s x xs output n a p q e i ms = (
    copy_one c s x xs,
    lexed-step fuel s x xs output n (if x == b')' then close_paren else plain) a
          (lex-plain s x xs p q e i)
        ∙ closing (x == b')'),
    moved (emit_string-At s (x ∷ xs) output n (x ∷ []) a),
  )
    where
      closing :
          (b : Bool)
          → normal_step c (scan_step c fuel) fuel s x xs (if b then close_paren else plain)
            ≡ some (copy_one c s x xs)
      closing true = rw ms refl
      closing false = refl

      moved :
          At (emit_string c (x ∷ []) s) (x ∷ xs) (x ∷ output) n
          → At (copy_one c s x xs) xs (x ∷ output) n
      moved b = moved_on (emit_string c (x ∷ []) s) (x ∷ xs) xs (x ∷ output) n b

  lex-mark :
      (s : Scanner) (xs : Bytes)
      → lex c s b'?' xs ≡ (if next_is b'?' xs then question_question else marker)
  unfolding lex
  lex-mark s xs = refl

  -- Two question marks stand for one.
  double-step :
      (fuel : ℕ) (s : Scanner) (xs output : Bytes) (n : ℕ)
      → At s (b'?' ∷ b'?' ∷ xs) output n
      → (t : Scanner) × (scan_step c (suc fuel) s ≡ some t) × At t xs (b'?' ∷ output) n
  unfolding normal_step
  double-step fuel s xs output n a = (
    at_input (emit_char c b'?' s) xs,
    lexed-step fuel s b'?' (b'?' ∷ xs) output n question_question a (lex-mark s (b'?' ∷ xs)),
    moved_on (emit_string c (b'?' ∷ []) s) (b'?' ∷ b'?' ∷ xs) xs (b'?' ∷ output) n
        (emit_string-At s (b'?' ∷ b'?' ∷ xs) output n (b'?' ∷ []) a),
  )

  emit_cast-At :
      (s : Scanner) (text output : Bytes) (n : ℕ) (cast : Bytes)
      → At s text output n
      → At (emit_cast c cast s) text (append_reversed cast output) n
  emit_cast-At s text output n [] a = a
  emit_cast-At s text output n (x ∷ cast) a = emit_string-At s text output n (x ∷ cast) a

  -- One question mark is a marker: its number and its cast are written.
  marker-step :
      (fuel : ℕ) (s : Scanner) (xs output : Bytes) (n : ℕ)
      → At s (b'?' ∷ xs) output n
      → next_is b'?' xs ≡ false
      → (t : Scanner) × (scan_step c (suc fuel) s ≡ some t)
        × At t xs
            (append_reversed
              (cast_for_parameter c.param_casts n)
              (append_reversed (b'$' ∷ decimal (suc n)) output))
            (suc n)
  unfolding normal_step emit_parameter_marker
  marker-step fuel s xs output n a e = (
    at_input (emit_parameter_marker c s) xs,
    lexed-step fuel s b'?' xs output n marker a
        (lex-mark s xs ∙ ap (λ b. if b then question_question else marker) e),
    marked,
  )
    where
      numbered_out : Bytes
      numbered_out = append_reversed (b'$' ∷ decimal (suc n)) output

      counted : At (count_parameter role_input s) (b'?' ∷ xs) output (suc n)
      counted = record {
        input_is = a.input_is;
        output_is = a.output_is;
        state_is = a.state_is;
        memory_is = a.memory_is;
        number_is = ap suc a.number_is;
        call_is = a.call_is;
      }

      digits : b'$' ∷ decimal (suc s.param_number) ≡ b'$' ∷ decimal (suc n)
      digits = ap (λ k. b'$' ∷ decimal (suc k)) a.number_is

      with_number :
          At
            (emit_string c (b'$' ∷ decimal (suc s.param_number)) (count_parameter role_input s))
            (b'?' ∷ xs)
            numbered_out
            (suc n)
      with_number =
          subst
            (λ d.
              At (emit_string c d (count_parameter role_input s)) (b'?' ∷ xs) numbered_out (suc n))
            (sym digits)
            (emit_string-At (count_parameter role_input s) (b'?' ∷ xs) output (suc n)
              (b'$' ∷ decimal (suc n)) counted)

      suffix : marker_cast c s ≡ cast_for_parameter c.param_casts n
      suffix =
          ap (λ b. if b then [] else cast_for_parameter c.param_casts s.param_number) a.call_is
          ∙ ap (cast_for_parameter c.param_casts) a.number_is

      marked :
          At
            (at_input (emit_parameter_marker c s) xs)
            xs
            (append_reversed (cast_for_parameter c.param_casts n) numbered_out)
            (suc n)
      marked =
          moved_on (emit_parameter_marker c s) (b'?' ∷ xs) xs
            (append_reversed (cast_for_parameter c.param_casts n) numbered_out) (suc n)
            (subst
              (λ d.
                At
                  (emit_cast c d (
                    emit_string c (b'$' ∷ decimal (suc s.param_number))
                      (count_parameter role_input s)))
                  (b'?' ∷ xs) (append_reversed (cast_for_parameter c.param_casts n) numbered_out)
                  (suc n))
              (sym suffix)
              (emit_cast-At _ (b'?' ∷ xs) numbered_out (suc n) (cast_for_parameter c.param_casts n)
                with_number))
