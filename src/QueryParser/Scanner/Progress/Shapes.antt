-- ===== src/QueryParser/Scanner/Progress/Shapes.antt =====
-- What a keyword or a lexed byte takes from the input.
use psqlodbc_new.Prelude.{
  ℕ, ◌≤◌, ◌<◌, ◌≡◌, refl, Bool, ◌&&◌, ◌||◌, Option, none, some, ◌∷◌, arith, ◌==◌, if◌then◌else◌,
  length, Bytes, codes,
}
use psqlodbc_new.QueryParser.{
  match_keyword_at, next_is, match_dollar_quote_open, dollar_can_open_here,
}
use psqlodbc_new.QueryParser.Scanner.{Setting, Scanner}
use psqlodbc_new.QueryParser.Scanner.Rewrites.{default_values_rest, statement_is_insert}
use psqlodbc_new.QueryParser.Scanner.Lex.{
  Escape, fn, ts, d, t, oj, escape, call, no_escape, escape_of, Lexed, dollar_quote, default_values,
  lex, dollar, open_paren, head_of,
}
use psqlodbc_new.QueryParser.Scanner.Lengths.{drop-le, match_dollar-pos, default_values_rest-le}
use psqlodbc_new.QueryParser.Scanner.Progress.{either-if}

-- An escape's keyword leaves at most so many bytes.
abbrev pub Shortens : ℕ → Escape → Type 0
Shortens n (fn rest) = length rest ≤ n
Shortens n (ts rest) = length rest ≤ n
Shortens n (d rest) = length rest ≤ n
Shortens n (t rest) = length rest ≤ n
Shortens n (oj rest) = length rest ≤ n
Shortens n (escape rest) = length rest ≤ n
Shortens n (call rest) = length rest ≤ n
Shortens n no_escape = Unit {0}

pub Shortens-mono : (m n : ℕ) (e : Escape) → m ≤ n → Shortens m e → Shortens n e
Shortens-mono m n (fn rest) le h = omega arith
Shortens-mono m n (ts rest) le h = omega arith
Shortens-mono m n (d rest) le h = omega arith
Shortens-mono m n (t rest) le h = omega arith
Shortens-mono m n (oj rest) le h = omega arith
Shortens-mono m n (escape rest) le h = omega arith
Shortens-mono m n (call rest) le h = omega arith
Shortens-mono m n no_escape le h = tt

pub escape_of-Shortens : (text : Bytes) → Shortens (length text) (escape_of text)
escape_of-Shortens text = pick (match_keyword_at text (codes "fn")) _ _ (drop-le 2 text) (
    pick (match_keyword_at text (codes "ts")) _ _ (drop-le 2 text) (
      pick (match_keyword_at text (codes "d")) _ _ (drop-le 1 text) (
        pick (match_keyword_at text (codes "t")) _ _ (drop-le 1 text) (
          pick (match_keyword_at text (codes "oj")) _ _ (drop-le 2 text) (
            pick (match_keyword_at text (codes "escape")) _ _ (drop-le 6 text) (
              pick (match_keyword_at text (codes "call") || next_is b'?' text) _ _ (omega arith)
                tt))))))
  where
    pick :
        (b : Bool) (x y : Escape)
        → Shortens (length text) x
        → Shortens (length text) y
        → Shortens (length text) (if b then x else y)
    pick = either-if (Shortens (length text))

-- A dollar quote has a tag, and DEFAULT VALUES leaves no more than there was.
abbrev pub Consumes : Bytes → Lexed → Type 0
Consumes xs (dollar_quote tag_length) = 0 < tag_length
Consumes xs (default_values rest) = length rest ≤ length xs
Consumes xs _ = Unit {0}

dollar-Consumes :
    (xs : Bytes) (m : Option ℕ) → match_dollar_quote_open xs ≡ m → Consumes xs (dollar m)
dollar-Consumes xs none e = tt
dollar-Consumes xs (some k) e = match_dollar-pos xs k e

open_paren-Consumes :
    (xs : Bytes) (m : Option Bytes) → default_values_rest xs ≡ m → Consumes xs (open_paren m)
open_paren-Consumes xs none e = tt
open_paren-Consumes xs (some rest) e = default_values_rest-le xs rest e

pub lex-Consumes : (c : Setting) (s : Scanner) (x : ℕ) (xs : Bytes) → Consumes xs (lex c s x xs)
unfolding lex
lex-Consumes c s x xs = pick (x == b'@' && match_keyword_at (x ∷ xs) (codes "@@identity")) _ _ tt (
    pick (x == b'{') _ _ tt (
      pick (x == b'?') _ _ (pick (next_is b'?' xs) _ _ tt tt) (
        pick ((x == b'E' || x == b'e') && next_is b'\'' xs) _ _ tt (
          pick (x == b'$' && dollar_can_open_here (head_of s.output)) _ _
            (dollar-Consumes xs (match_dollar_quote_open xs) refl)
            (pick (x == b'\'') _ _ tt (
              pick (x == b'"') _ _ tt (
                pick (x == b'-' && next_is b'-' xs) _ _ tt (
                  pick (x == b'/' && next_is b'*' xs) _ _ tt (
                    pick (x == b'(' && statement_is_insert c.whole_input) _ _
                      (open_paren-Consumes xs (default_values_rest xs) refl)
                      (pick (x == b')') _ _ tt tt))))))))))
  where
    pick :
        (b : Bool) (l m : Lexed) → Consumes xs l → Consumes xs m → Consumes xs (if b then l else m)
    pick = either-if (Consumes xs)
