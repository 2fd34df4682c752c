-- ===== src/QueryParser/Scanner/Progress/Returns.antt =====
-- The scan of a whole text ends.
use psqlodbc_new.Prelude.{
  ℕ, zero, suc, ◌+◌, ◌<◌, ◌≡◌, refl, ap, Bool, true, false, Option, none, some, List, [], ◌∷◌,
  arith, if◌then◌else◌, length, Bytes, c_str,
}
use psqlodbc_new.QueryParser.Scanner.{Setting, Scanner, QueryAnalysis, QueryParseOptions}
use psqlodbc_new.QueryParser.Scanner.Analyze.{
  query_analyze, scan_loop, scan_round, finish_scan, finished, setting, start_scanner,
  empty_analysis,
}
use psqlodbc_new.QueryParser.Scanner.Step.{scan_step}
use psqlodbc_new.QueryParser.Scanner.Progress.{Below, Continues, either, Below-mono, bind-Below}
use psqlodbc_new.QueryParser.Scanner.Progress.Total.{scan_step-Below}

module _ (c : Setting) where
  -- With enough fuel the loop ends.
  scan_loop-Below :
      (depth fuel : ℕ) (s : Scanner)
      → length s.input < depth
      → length s.input < fuel
      → Below (suc (length s.input)) (scan_loop c depth fuel s)
  unfolding scan_loop
  scan_loop-Below depth zero s h k = absurd (omega arith)
  scan_loop-Below depth (suc fuel) s h k =
      either (Below (suc (length s.input))) s.out_of_memory _ _ (omega arith) (
        round s.input refl (λ t l.
          Below-mono (suc (length t.input)) (suc (length s.input)) (scan_loop c depth fuel t)
            (omega arith) (scan_loop-Below depth fuel t (omega arith) (omega arith))))
    where
      round :
          (text : Bytes)
          → s.input ≡ text
          → Continues (length s.input) (scan_loop c depth fuel)
          → Below (suc (length s.input)) (scan_round c depth (scan_loop c depth fuel) s text)
      round [] e ih = omega arith
      round (x ∷ xs) e ih =
          bind-Below (length s.input) (suc (length s.input)) (scan_step c depth s)
            (scan_loop c depth fuel) (scan_step-Below c depth s h (omega (arith, ap length e))) ih

finished-some :
    (n : ℕ) (m : Option Scanner)
    → Below n m
    → (result : Bool × QueryAnalysis) × (finished m ≡ some result)
finished-some n none h = absurd h
finished-some n (some s) h = (finish_scan s, refl)

-- For any allocator, any text or none, any options and any casts, the scan of the text returns a
-- result: no loop of it and no nesting of escapes goes on for ever.
pub query_analyze_returns :
    (allocates : ℕ → Bool) (sql : Option Bytes) (options : Option QueryParseOptions)
    (param_casts : List (Option Bytes))
    → (result : Bool × QueryAnalysis) × (query_analyze allocates sql options param_casts
        ≡ some result)
unfolding query_analyze
query_analyze_returns allocates none options param_casts = ((false, empty_analysis), refl)
query_analyze_returns allocates (some sql) options param_casts =
    let input = c_str sql in
    let c = setting allocates input options param_casts in
    go (allocates (length input + 64)) (
      finished-some (suc (length input))
        (scan_loop c (suc (length input)) (suc (length input)) (start_scanner input))
        (scan_loop-Below c (suc (length input)) (suc (length input)) (start_scanner input)
          (omega arith) (omega arith)))
  where
    go :
        (b : Bool)
        → {m : Option (Bool × QueryAnalysis)} → (result : Bool × QueryAnalysis) × (m ≡ some result)
        → (result : Bool × QueryAnalysis) × ((if b then m else some (false, empty_analysis))
            ≡ some result)
    go true h = h
    go false h = ((false, empty_analysis), refl)
