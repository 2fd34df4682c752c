-- ===== src/QueryParser/Scanner/Plain/Numbered.antt =====
-- The translation of a whole plain text.
use psqlodbc_new.Prelude.{
  ℕ, suc, ◌+◌, ◌≡◌, refl, ap, ◌∙◌, Bool, true, false, Option, none, some, List, [], append-nil,
  arith, if◌then◌else◌, length, All, Bytes, c_str,
}
use psqlodbc_new.QueryParser.Scanner.{QueryParseOptions, QueryAnalysis, Scanner, append_reversed}
use psqlodbc_new.QueryParser.Scanner.Rewrites.{statement_is_insert}
use psqlodbc_new.QueryParser.Scanner.Analyze.{
  analyze_text, scan_loop, query_analyze, start_scanner, setting, empty_analysis, finished,
  finish_scan,
}
use psqlodbc_new.QueryParser.Scanner.Plain.{is_plain}
use psqlodbc_new.QueryParser.Scanner.Plain.Numbering.{numbered, reversed_twice}
use psqlodbc_new.QueryParser.Scanner.Plain.Rounds.{loop-Ends}

finish_granted :
    (t : Scanner)
    → t.out_of_memory ≡ false
    → finish_scan t ≡ (
      true,
      record t.analysis {
        transformed_sql = some (append_reversed t.output []);
        parameter_count = t.param_number;
      },
    )
finish_granted t h =
    ap
      (λ b. if b then (false, record t.analysis { transformed_sql = none }) else (
        true,
        record t.analysis {
          transformed_sql = some (append_reversed t.output []);
          parameter_count = t.param_number;
        },
      ))
      h

-- For any text without NUL, quotes, hyphens, slashes, opening braces, dollar and at signs that is
-- no INSERT,
-- with every allocation granted and the rewrite for MS Access off: the scan succeeds, and the
-- transformed text and the number of parameters are those of the text's numbering from the first
-- parameter, with the casts that are given.
pub query_analyze_numbers :
    (allocates : ℕ → Bool) (sql : Bytes) (options : QueryParseOptions) (casts : List (Option Bytes))
    → ((n : ℕ) → allocates n ≡ true)
    → c_str sql ≡ sql
    → All (λ x. is_plain x ≡ true) sql
    → statement_is_insert sql ≡ false
    → options.ms_jet ≡ false
    → (analysis : QueryAnalysis) × (query_analyze allocates (some sql) (some options) casts
        ≡ some (true, analysis))
      × (analysis.transformed_sql ≡ some (numbered casts 0 sql).0)
      × (analysis.parameter_count ≡ (numbered casts 0 sql).1)
unfolding query_analyze
query_analyze_numbers allocates sql options casts grants whole p other no_jet =
    let c = setting allocates sql (some options) casts in
    let size = length sql in
    let (t, e, b) =
      loop-Ends c grants other no_jet size (suc size) (start_scanner sql) sql [] 0 (omega arith) p
        (record {
          input_is = refl;
          output_is = refl;
          state_is = refl;
          memory_is = refl;
          number_is = refl;
          call_is = refl;
        }) in
    let text = append_reversed t.output [] in
    (
      record t.analysis { transformed_sql = some text; parameter_count = t.param_number },
      ap (λ input. analyze_text allocates input (some options) casts) whole
          ∙ ap
              (λ b.
                if b
                then finished (scan_loop c (suc size) (suc size) (start_scanner sql))
                else some (false, empty_analysis))
              (grants (size + 64))
          ∙ ap finished e
          ∙ ap some (finish_granted t b.memory_is),
      ap some (
          ap (λ o. append_reversed o []) b.output_is
          ∙ reversed_twice (numbered casts 0 sql).0 [] []
          ∙ append-nil (numbered casts 0 sql).0),
      b.number_is,
    )
