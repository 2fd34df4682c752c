-- ===== src/QueryParser/Scanner/Plain/Numbering.antt =====
-- The numbering of a plain text's markers, described without the scanner.
use psqlodbc_new.Prelude.{ℕ, suc, ◌≡◌, refl, true, false, Option, List, [], ◌∷◌, ◌++◌, ◌==◌, Bytes}
use psqlodbc_new.CLib.{decimal}
use psqlodbc_new.QueryParser.{next_is}
use psqlodbc_new.QueryParser.Scanner.{append_reversed, cast_for_parameter}

-- A marker with its cast, as it is written for the parameter at the position.
abbrev pub marker_text : List (Option Bytes) → ℕ → Bytes
marker_text casts n = b'$' ∷ decimal (suc n) ++ cast_for_parameter casts n

abbrev pub before : Bytes → Bytes × ℕ → Bytes × ℕ
before piece (rest, n) = (piece ++ rest, n)

-- The text with its markers numbered on from a position, and the position after it: two question
-- marks stand for one, and one is a marker.
unfoldable pub numbered : List (Option Bytes) → ℕ → Bytes → Bytes × ℕ
numbered casts n [] = ([], n)
numbered casts n (x ∷ []) = elim (x == b'?') [
  | true ↦ (marker_text casts n ++ [], suc n)
  | false ↦ (x ∷ [], n)
]
numbered casts n (x ∷ y ∷ ys) = elim (x == b'?') [
  | true ↦ elim (y == b'?') [
    | true ↦ before (b'?' ∷ []) (numbered casts n ys)
    | false ↦ before (marker_text casts n) (numbered casts (suc n) (y ∷ ys))
  ]
  | false ↦ before (x ∷ []) (numbered casts n (y ∷ ys))
]

pub numbered-plain :
    (casts : List (Option Bytes)) (n x : ℕ) (xs : Bytes)
    → (x == b'?') ≡ false
    → before (x ∷ []) (numbered casts n xs) ≡ numbered casts n (x ∷ xs)
unfolding numbered
numbered-plain casts n x [] h = rw (numbered, h) refl
numbered-plain casts n x (y ∷ ys) h = rw (numbered, h) refl

pub numbered-marker :
    (casts : List (Option Bytes)) (n : ℕ) (xs : Bytes)
    → next_is b'?' xs ≡ false
    → before (marker_text casts n) (numbered casts (suc n) xs) ≡ numbered casts n (b'?' ∷ xs)
unfolding numbered
numbered-marker casts n [] h = refl
numbered-marker casts n (y ∷ ys) h = let e : (y == b'?') ≡ false = h in rw (numbered, e) refl

pub numbered-double :
    (casts : List (Option Bytes)) (n : ℕ) (xs : Bytes)
    → before (b'?' ∷ []) (numbered casts n xs) ≡ numbered casts n (b'?' ∷ b'?' ∷ xs)
unfolding numbered
numbered-double casts n xs = refl

pub reversed-append :
    (xs ys output : Bytes)
    → append_reversed ys (append_reversed xs output) ≡ append_reversed (xs ++ ys) output
reversed-append [] ys output = refl
reversed-append (x ∷ xs) ys output = reversed-append xs ys (x ∷ output)

pub reversed_twice :
    (xs ys zs : Bytes) → append_reversed (append_reversed xs ys) zs ≡ append_reversed ys (xs ++ zs)
reversed_twice [] ys zs = refl
reversed_twice (x ∷ xs) ys zs = reversed_twice xs (x ∷ ys) zs
