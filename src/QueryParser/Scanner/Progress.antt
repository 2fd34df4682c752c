-- ===== src/QueryParser/Scanner/Progress.antt =====
-- Every step of the scanner moves on in its input, with enough fuel.
pub mod Shapes
pub mod Calls
pub mod Steps
pub mod Total
pub mod Returns
use psqlodbc_new.Prelude.{
  ℕ, zero, suc, ◌≤◌, ◌<◌, ◌≡◌, refl, ap, Bool, true, false, ◌&&◌, ◌||◌, Option, none, some, [], ◌∷◌,
  arith, leb, ◌==◌, if◌then◌else◌, length, Bytes,
}
use psqlodbc_new.QueryParser.Scanner.{Setting, Scanner, at_input}
use psqlodbc_new.QueryParser.Scanner.Arguments.{
  Scan, ◌>>=◌, is_normal, Collecting, Collected, collect_loop, argument_byte,
  collect_function_arguments, ArgumentByte, opens, closes_inner, closes_outer, separates, other,
  finish_arguments, with_scanner, note_content, argument_buffer, max_fn_arguments, after_scan,
  collect_at, collect_round,
}
use psqlodbc_new.QueryParser.Scanner.Step.{copy_escape_body, escape_body_round}

-- The scanner returns, with less than so many bytes of input left.
abbrev pub Below : ℕ → Option Scanner → Type 0
Below n none = ⊥
Below n (some s) = length s.input < n

-- The same of the collected arguments.
abbrev pub BelowCollected : ℕ → Option Collected → Type 0
BelowCollected n none = ⊥
BelowCollected n (some (s, arguments)) = length s.input < n

-- The step moves on wherever less than so many bytes, but some, are left.
abbrev pub Scans : ℕ → Scan → Type 0
Scans n scan =
    (s : Scanner) → length s.input < n → 0 < length s.input → Below (length s.input) (scan s)

pub either {ℓ} :
    {A : Type ℓ}
    → (P : A → Type 0) (b : Bool) (x y : A) → P x
    → P y
    → P (elim b as (λ z. A) [ true ↦ x | false ↦ y ])
either P true x y h k = h
either P false x y h k = k

pub either-if {ℓ} :
    {A : Type ℓ} → (P : A → Type 0) (b : Bool) (x y : A) → P x → P y → P (if b then x else y)
either-if P true x y h k = h
either-if P false x y h k = k

pub bind-Below :
    (k n : ℕ) (m : Option Scanner) (f : Scan)
    → Below k m
    → ((t : Scanner) → length t.input < k → Below n (f t))
    → Below n (m >>= f)
bind-Below k n none f h g = h
bind-Below k n (some t) f h g = g t h

pub Below-mono : (k n : ℕ) (m : Option Scanner) → k ≤ n → Below k m → Below n m
Below-mono k n none le h = h
Below-mono k n (some s) le h = omega arith

pub BelowCollected-mono :
    (k n : ℕ) (m : Option Collected) → k ≤ n → BelowCollected k m → BelowCollected n m
BelowCollected-mono k n none le h = h
BelowCollected-mono k n (some (s, arguments)) le h = omega arith

-- What is said of a loop's later rounds.
abbrev pub Continues : ℕ → Scan → Type 0
Continues n more = (t : Scanner) → length t.input < n → Below (suc n) (more t)

module _ (c : Setting) (scan : Scan) where
  escape_body_round-Below :
      (n : ℕ) (s : Scanner) (more : Scan) (text : Bytes)
      → s.input ≡ text
      → Scans n scan
      → length s.input < n
      → Continues (length s.input) more
      → Below (suc (length s.input)) (escape_body_round c scan more s text)
  escape_body_round-Below n s more [] e ok k ih = omega arith
  escape_body_round-Below n s more (x ∷ xs) e ok k ih =
      either (Below (suc (length s.input))) (is_normal s.state && x == b'}') _ _
        (omega (arith, ap length e))
        (bind-Below (length s.input) (suc (length s.input)) (scan s) more
          (ok s k (omega (arith, ap length e))) ih)

  pub copy_escape_body-Below :
      (n fuel : ℕ) (s : Scanner)
      → Scans n scan
      → length s.input < fuel
      → length s.input < n
      → Below (suc (length s.input)) (copy_escape_body c scan fuel s)
  unfolding copy_escape_body
  copy_escape_body-Below n zero s ok h k = absurd (omega arith)
  copy_escape_body-Below n (suc fuel) s ok h k =
      let later : Continues (length s.input) (copy_escape_body c scan fuel) = λ t l.
        Below-mono (suc (length t.input)) (suc (length s.input)) (copy_escape_body c scan fuel t)
          (omega arith) (copy_escape_body-Below n fuel t ok (omega arith) (omega arith)) in
      either (Below (suc (length s.input))) s.out_of_memory _ _ (omega arith)
        (escape_body_round-Below n s (copy_escape_body c scan fuel) s.input refl ok k later)

  -- The same of the collection's later rounds.
  abbrev Collects : ℕ → (Collecting → Option Collected) → Type 0
  Collects n more =
      (now : Collecting) → length now.scanner.input < n → BelowCollected (suc n) (more now)

  finish-Below :
      (n : ℕ) (saved : Scanner) (st : Collecting)
      → length st.scanner.input < n
      → BelowCollected n (some (finish_arguments c scan saved st))
  finish-Below n saved st h =
      either-if (λ (r : Collected). length r.0.input < n)
        (st.scanner.out_of_memory || leb max_fn_arguments (length st.argument_texts)) _ _ h h

  after_scan-Below :
      (n : ℕ) (st : Collecting) (more : Collecting → Option Collected) (m : Option Scanner)
      → Below n m
      → Collects n more
      → BelowCollected (suc n) (after_scan c scan more st m)
  after_scan-Below n st more none h ih = h
  after_scan-Below n st more (some s) h ih = ih (with_scanner c scan st s) h

  collect_at-Below :
      (n : ℕ) (saved : Scanner) (st : Collecting) (more : Collecting → Option Collected)
      (b : ArgumentByte) (x : ℕ) (xs : Bytes)
      → st.scanner.input ≡ x ∷ xs
      → Scans n scan
      → length st.scanner.input < n
      → Collects (length st.scanner.input) more
      → BelowCollected (suc (length st.scanner.input)) (collect_at c scan more saved st b x xs)
  collect_at-Below n saved st more opens x xs e ok k ih = ih _ (omega (arith, ap length e))
  collect_at-Below n saved st more closes_inner x xs e ok k ih = ih _ (omega (arith, ap length e))
  collect_at-Below n saved st more closes_outer x xs e ok k ih =
      finish-Below (suc (length st.scanner.input)) saved
        (with_scanner c scan st (at_input st.scanner xs)) (omega (arith, ap length e))
  collect_at-Below n saved st more separates x xs e ok k ih =
      either (BelowCollected (suc (length st.scanner.input)))
        (leb max_fn_arguments (length st.argument_texts)) _ _ (omega arith)
        (either (BelowCollected (suc (length st.scanner.input))) (c.allocates argument_buffer) _ _
          (ih _ (omega (arith, ap length e))) (omega arith))
  collect_at-Below n saved st more other x xs e ok k ih =
      after_scan-Below (length st.scanner.input) (note_content c scan st x) more (scan st.scanner)
        (ok st.scanner k (omega (arith, ap length e))) ih

  collect_round-Below :
      (n : ℕ) (saved : Scanner) (st : Collecting) (more : Collecting → Option Collected)
      (text : Bytes)
      → st.scanner.input ≡ text
      → Scans n scan
      → length st.scanner.input < n
      → Collects (length st.scanner.input) more
      → BelowCollected (suc (length st.scanner.input)) (collect_round c scan more saved st text)
  collect_round-Below n saved st more [] e ok k ih =
      finish-Below (suc (length st.scanner.input)) saved st (omega arith)
  collect_round-Below n saved st more (x ∷ xs) e ok k ih =
      collect_at-Below n saved st more (argument_byte (is_normal st.scanner.state) st.depth x) x xs
        e ok k ih

  pub collect_loop-Below :
      (n fuel : ℕ) (saved : Scanner) (st : Collecting)
      → Scans n scan
      → length st.scanner.input < fuel
      → length st.scanner.input < n
      → BelowCollected (suc (length st.scanner.input)) (collect_loop c scan fuel saved st)
  unfolding collect_loop
  collect_loop-Below n zero saved st ok h k = absurd (omega arith)
  collect_loop-Below n (suc fuel) saved st ok h k =
      let later : Collects (length st.scanner.input) (collect_loop c scan fuel saved) = λ now l.
        BelowCollected-mono (suc (length now.scanner.input)) (suc (length st.scanner.input))
          (collect_loop c scan fuel saved now) (omega arith)
          (collect_loop-Below n fuel saved now ok (omega arith) (omega arith)) in
      either (BelowCollected (suc (length st.scanner.input))) st.scanner.out_of_memory _ _
        (finish-Below (suc (length st.scanner.input)) saved st (omega arith))
        (collect_round-Below n saved st (collect_loop c scan fuel saved) st.scanner.input refl ok k
          later)

  pub collect_function_arguments-Below :
      (n fuel : ℕ) (s : Scanner)
      → Scans n scan
      → length s.input < fuel
      → length s.input < n
      → BelowCollected (suc (length s.input)) (collect_function_arguments c scan fuel s)
  unfolding collect_function_arguments
  collect_function_arguments-Below n fuel s ok h k =
      either (BelowCollected (suc (length s.input))) (c.allocates argument_buffer) _ _
        (collect_loop-Below n fuel s _ ok h k) (omega arith)
