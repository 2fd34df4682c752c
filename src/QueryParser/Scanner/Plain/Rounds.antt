-- ===== src/QueryParser/Scanner/Plain/Rounds.antt =====
-- The scan of a plain text, round by round.
use psqlodbc_new.Prelude.{
  ℕ, zero, suc, ◌≤◌, ◌<◌, ◌≡◌, refl, sym, ap, ◌∙◌, inl, inr, true, false, Option, some, [], ◌∷◌,
  arith, ◌==◌, ==_iff, Bool-cases, length, All, Bytes,
}
use mathlib.Core.Path.{subst}
use psqlodbc_new.CLib.{decimal}
use psqlodbc_new.QueryParser.{next_is}
use psqlodbc_new.QueryParser.Scanner.{Setting, Scanner, append_reversed, cast_for_parameter}
use psqlodbc_new.QueryParser.Scanner.Rewrites.{statement_is_insert}
use psqlodbc_new.QueryParser.Scanner.Arguments.{◌>>=◌}
use psqlodbc_new.QueryParser.Scanner.Step.{scan_step}
use psqlodbc_new.QueryParser.Scanner.Analyze.{scan_loop, scan_round}
use psqlodbc_new.QueryParser.Scanner.Plain.{is_plain, At, plain-step, double-step, marker-step}
use psqlodbc_new.QueryParser.Scanner.Plain.Numbering.{
  marker_text, before, numbered, numbered-plain, numbered-marker, numbered-double, reversed-append,
}

module _ (c : Setting) (grants : (n : ℕ) → c.allocates n ≡ true)
    (other : statement_is_insert c.whole_input ≡ false) (no_jet : c.options.ms_jet ≡ false) where
  loop-step :
      (depth fuel : ℕ) (s t : Scanner) (x : ℕ) (xs output : Bytes) (n : ℕ)
      → At c grants s (x ∷ xs) output n
      → scan_step c depth s ≡ some t
      → scan_loop c depth (suc fuel) s ≡ scan_loop c depth fuel t
  unfolding scan_loop
  loop-step depth fuel s t x xs output n a e =
      ap
        (λ b. elim b as (λ z. Option Scanner) [
          | true ↦ some s
          | false ↦ scan_round c depth (scan_loop c depth fuel) s s.input
        ])
        a.memory_is
      ∙ ap (scan_round c depth (scan_loop c depth fuel) s) a.input_is
      ∙ ap (λ m. m >>= scan_loop c depth fuel) e

  loop-end :
      (depth fuel : ℕ) (s : Scanner) (output : Bytes) (n : ℕ)
      → At c grants s [] output n
      → scan_loop c depth (suc fuel) s ≡ some s
  unfolding scan_loop
  loop-end depth fuel s output n a =
      ap
        (λ b. elim b as (λ z. Option Scanner) [
          | true ↦ some s
          | false ↦ scan_round c depth (scan_loop c depth fuel) s s.input
        ])
        a.memory_is
      ∙ ap (scan_round c depth (scan_loop c depth fuel) s) a.input_is

  -- The loop ends with this written behind the output.
  abbrev Ends : ℕ → ℕ → Scanner → Bytes → Bytes × ℕ → Type 0
  Ends depth fuel s output (written, n) =
      (t : Scanner) × (scan_loop c depth fuel s ≡ some t)
      × At c grants t [] (append_reversed written output) n

  stepped :
      (depth fuel : ℕ) (s t : Scanner) (x : ℕ) (xs output piece : Bytes) (n : ℕ) (rest : Bytes × ℕ)
      → At c grants s (x ∷ xs) output n
      → scan_step c depth s ≡ some t
      → Ends depth fuel t (append_reversed piece output) rest
      → Ends depth (suc fuel) s output (before piece rest)
  stepped depth fuel s t x xs output piece n (rest, m) a e (u, f, b) = (
    u,
    loop-step depth fuel s t x xs output n a e ∙ f,
    subst (λ o. At c grants u [] o m) (reversed-append piece rest output) b,
  )

  abbrev ArePlain : Bytes → Type 0
  ArePlain text = All (λ x. is_plain x ≡ true) text

  -- What is known of the later rounds.
  abbrev Later : ℕ → ℕ → Bytes → Type 0
  Later depth fuel xs =
      (rest : Bytes) (t : Scanner) (o : Bytes) (m : ℕ)
      → length rest ≤ length xs
      → ArePlain rest
      → At c grants t rest o m
      → Ends (suc depth) fuel t o (numbered c.param_casts m rest)

  no_quote : (xs : Bytes) → ArePlain xs → next_is b'\'' xs ≡ false
  no_quote [] p = refl
  no_quote (y ∷ ys) (p, q) = ground arith

  plain-Ends :
      (depth fuel : ℕ) (s : Scanner) (x : ℕ) (xs output : Bytes) (n : ℕ)
      → ArePlain (x ∷ xs)
      → (x == b'?') ≡ false
      → At c grants s (x ∷ xs) output n
      → Later depth fuel xs
      → Ends (suc depth) (suc fuel) s output (numbered c.param_casts n (x ∷ xs))
  plain-Ends depth fuel s x xs output n (p, q) h a later =
      let (t, e, b) =
        plain-step c grants depth s x xs output n a p h (no_quote xs q) other no_jet in
      subst (Ends (suc depth) (suc fuel) s output) (numbered-plain c.param_casts n x xs h) (
        stepped (suc depth) fuel s t x xs output (x ∷ []) n (numbered c.param_casts n xs) a e
          (later xs t (x ∷ output) n (omega arith) q b))

  marker-Ends :
      (depth fuel : ℕ) (s : Scanner) (xs output : Bytes) (n : ℕ)
      → ArePlain xs
      → next_is b'?' xs ≡ false
      → At c grants s (b'?' ∷ xs) output n
      → Later depth fuel xs
      → Ends (suc depth) (suc fuel) s output (numbered c.param_casts n (b'?' ∷ xs))
  marker-Ends depth fuel s xs output n q h a later =
      let (t, e, b) = marker-step c grants depth s xs output n a h in
      let number = b'$' ∷ decimal (suc n) in
      let cast = cast_for_parameter c.param_casts n in
      subst (Ends (suc depth) (suc fuel) s output) (numbered-marker c.param_casts n xs h) (
        stepped (suc depth) fuel s t b'?' xs output (marker_text c.param_casts n) n
          (numbered c.param_casts (suc n) xs) a e
          (later xs t (append_reversed (marker_text c.param_casts n) output) (suc n) (omega arith) q
            (subst (λ o. At c grants t xs o (suc n)) (reversed-append number cast output) b)))

  double-Ends :
      (depth fuel : ℕ) (s : Scanner) (xs output : Bytes) (n : ℕ)
      → ArePlain xs
      → At c grants s (b'?' ∷ b'?' ∷ xs) output n
      → Later depth fuel (b'?' ∷ xs)
      → Ends (suc depth) (suc fuel) s output (numbered c.param_casts n (b'?' ∷ b'?' ∷ xs))
  double-Ends depth fuel s xs output n q a later =
      let (t, e, b) = double-step c grants depth s xs output n a in
      subst (Ends (suc depth) (suc fuel) s output) (numbered-double c.param_casts n xs) (
        stepped (suc depth) fuel s t b'?' (b'?' ∷ xs) output (b'?' ∷ []) n
          (numbered c.param_casts n xs) a e (later xs t (b'?' ∷ output) n (omega arith) q b))

  mark-Ends :
      (depth fuel : ℕ) (s : Scanner) (xs output : Bytes) (n : ℕ)
      → ArePlain xs
      → At c grants s (b'?' ∷ xs) output n
      → Later depth fuel xs
      → Ends (suc depth) (suc fuel) s output (numbered c.param_casts n (b'?' ∷ xs))
  mark-Ends depth fuel s [] output n q a later = marker-Ends depth fuel s [] output n q refl a later
  mark-Ends depth fuel s (y ∷ ys) output n (p, q) a later = elim (Bool-cases (y == b'?')) [
    | inl h ↦
        subst
          (λ z.
            At c grants s (b'?' ∷ z ∷ ys) output n
            → Ends (suc depth) (suc fuel) s output (numbered c.param_casts n (b'?' ∷ z ∷ ys)))
          (sym ((==_iff y b'?').0 h)) (λ b. double-Ends depth fuel s ys output n q b later) a
    | inr h ↦ marker-Ends depth fuel s (y ∷ ys) output n (p, q) h a later
  ]

  round-Ends :
      (depth fuel : ℕ) (s : Scanner) (x : ℕ) (xs output : Bytes) (n : ℕ)
      → ArePlain (x ∷ xs)
      → At c grants s (x ∷ xs) output n
      → Later depth fuel xs
      → Ends (suc depth) (suc fuel) s output (numbered c.param_casts n (x ∷ xs))
  round-Ends depth fuel s x xs output n (p, q) a later = elim (Bool-cases (x == b'?')) [
    | inl h ↦
        subst
          (λ z.
            At c grants s (z ∷ xs) output n
            → Ends (suc depth) (suc fuel) s output (numbered c.param_casts n (z ∷ xs)))
          (sym ((==_iff x b'?').0 h)) (λ b. mark-Ends depth fuel s xs output n q b later) a
    | inr h ↦ plain-Ends depth fuel s x xs output n (p, q) h a later
  ]

  pub loop-Ends :
      (depth fuel : ℕ) (s : Scanner) (text output : Bytes) (n : ℕ)
      → length text < fuel
      → All (λ x. is_plain x ≡ true) text
      → At c grants s text output n
      → Ends (suc depth) fuel s output (numbered c.param_casts n text)
  loop-Ends depth zero s text output n h p a = absurd (omega arith)
  loop-Ends depth (suc fuel) s [] output n h p a =
      unfold numbered in (s, loop-end (suc depth) fuel s output n a, a)
  loop-Ends depth (suc fuel) s (x ∷ xs) output n h p a =
      round-Ends depth fuel s x xs output n p a
        (λ rest t o m l q b. loop-Ends depth fuel t rest o m (omega arith) q b)
