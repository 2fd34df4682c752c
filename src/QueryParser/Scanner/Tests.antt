-- ===== src/QueryParser/Scanner/Tests.antt =====
-- Concrete texts.
use psqlodbc_new.Prelude.{
  ℕ, ◌≡◌, refl, Bool, true, false, Option, none, some, [], ◌∷◌, Bytes, codes,
}
use psqlodbc_new.CLib.{decimal}
use psqlodbc_new.QueryParser.Scanner.{QueryAnalysis, cast_for_parameter}
use psqlodbc_new.QueryParser.Scanner.Analyze.{
  default_options, query_analyze, query_translate_markers,
}
use psqlodbc_new.QueryParser.Scanner.Rewrites.{statement_is_insert}
use psqlodbc_new.QueryParser.Scanner.Plain.Numbering.{numbered}
use psqlodbc_new.QueryParser.Scanner.Plain.Numbered.{query_analyze_numbers}
use psqlodbc_new.QueryParser.Scanner.Progress.Returns.{query_analyze_returns}

abbrev enough : ℕ → Bool
enough size = true

abbrev translation : Bytes → Option (Option Bytes × ℕ)
translation sql = query_translate_markers enough (some sql) (none ∷ some (codes "::int4") ∷ [])

markers :
    translation (codes "select ?, '?', ?, ?? -- ?")
    ≡ some (some (codes "select $1, '?', $2::int4, ? -- ?"), 2)
unfolding query_translate_markers
markers = refl

functions :
    translation (codes "{fn LOCATE('a', {fn UCASE(?)}, 2)} x")
    ≡ some (some (codes "strpos(substring( upper($1) from  2), 'a') +  2 - 1 x"), 1)
unfolding query_translate_markers
functions = refl

escapes :
    translation (codes "{d '2014-12-21' } {oj a {t '1'}}{escape '!'}")
    ≡ some (some (codes "'2014-12-21'::date a '1'::timeESCAPE '!'"), 0)
unfolding query_translate_markers
escapes = refl

procedure : translation (codes "{ ? = call f(?::text, 'a') }") ≡ some (some (codes "SELECT f"), 2)
unfolding query_translate_markers
procedure = refl

query_analyze_returns_example :
    (result : Bool × QueryAnalysis) × (query_analyze enough (some (codes "{fn UCASE(?)} '")) none []
      ≡ some result)
query_analyze_returns_example =
    query_analyze_returns enough (some (codes "{fn UCASE(?)} '")) none []

abbrev pair_call : Bytes
pair_call = codes "f(?,?)"

no_insert : statement_is_insert pair_call ≡ false
unfolding statement_is_insert
no_insert = refl

query_analyze_numbers_example :
    (analysis : QueryAnalysis) × (query_analyze enough (some pair_call) (some default_options) []
      ≡ some (true, analysis))
    × (analysis.transformed_sql ≡ some (numbered [] 0 pair_call).0)
    × (analysis.parameter_count ≡ (numbered [] 0 pair_call).1)
query_analyze_numbers_example =
    query_analyze_numbers enough pair_call default_options [] (λ n. refl) refl
      (refl, (refl, (refl, (refl, (refl, (refl, tt)))))) no_insert refl

numbers :
    numbered (none ∷ some (codes "::int4") ∷ []) 0 (codes "? ?? ?") ≡ (codes "$1 ? $2::int4", 2)
unfolding numbered decimal cast_for_parameter
numbers = refl
