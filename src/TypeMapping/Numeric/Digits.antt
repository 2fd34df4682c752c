-- ===== src/TypeMapping/Numeric/Digits.antt =====
-- The decimal digits of a mantissa, and the text of a run of them.
use psqlodbc_new.Prelude.{
  ℕ, zero, suc, ◌+◌, ◌*◌, ◌^◌, ◌≤◌, ◌<◌, ◌≡◌, refl, ap, ◌∙◌, inl, inr, List, [], ◌∷◌, arith, ◌==◌,
  Bool-cases, length, get_or, drop, All,
}
use psqlodbc_new.CLib.Decimal.{ten_to}
use native.Mathlib.Nat.{add-mul, mul_comm, mul_assoc}
use psqlodbc_new.CLib.{isdigit}
use psqlodbc_new.TypeMapping.Numeric.{divide, significant_before, significant, extract, emit_digits}
use psqlodbc_new.TypeMapping.Numeric.Mantissa.{le_value, IsByte, digits_value}
use psqlodbc_new.TypeMapping.Numeric.Collect.{IsDigits}

divide_lem :
    (bs : List ℕ)
    → All IsByte bs
    → (le_value bs ≡ 10 * le_value (divide bs).0 + (divide bs).1)
      × ((divide bs).1 < 10)
      × All IsByte (divide bs).0
unfolding divide
divide_lem [] h = (omega arith, omega arith, tt)
divide_lem (b ∷ bs) (h, hs) =
    let (value, small, bytes) = divide_lem bs hs in
    (omega (arith, value, small), omega arith, (omega arith, bytes))

significant_lem :
    (bs : List ℕ)
    → All IsByte bs
    → (le_value (significant bs) ≡ le_value bs) × All IsByte (significant bs)
unfolding significant
significant_lem [] h = (refl, tt)
significant_lem (b ∷ bs) (h, hs) = go (significant bs) (significant_lem bs hs)
  where
    go :
        (s : List ℕ)
        → (le_value s ≡ le_value bs) × All IsByte s
        → (le_value (significant_before b s) ≡ le_value (b ∷ bs))
          × All IsByte (significant_before b s)
    go [] (e, bytes) = elim (Bool-cases (b == 0)) [
      | inl zero_byte ↦ rw zero_byte (ground arith, tt)
      | inr other ↦ rw other (omega arith, (h, tt))
    ]
    go (x ∷ xs) (e, bytes) = (ap (λ v. b + 2 ^ 8 * v) e, (h, bytes))

-- The number that decimal digits stand for, the lowest first.
abbrev pub le10_value : List ℕ → ℕ
le10_value [] = 0
le10_value (d ∷ ds) = d + 10 * le10_value ds

abbrev pub IsSmall : ℕ → Type 0
IsSmall d = d < 10

-- A mantissa below 10^n has at most n digits, and they stand for it.
pub extract_lem :
    (n : ℕ) (bs : List ℕ)
    → All IsByte bs
    → le_value bs < ten_to n
    → (le10_value (extract n bs) ≡ le_value bs)
      × All IsSmall (extract n bs)
      × (length (extract n bs) ≤ n)
unfolding extract
extract_lem zero bs h l = (omega arith, tt, omega arith)
extract_lem (suc n) bs h l =
    let (value, small, bytes) = divide_lem bs h in
    let (same, sig) = significant_lem (divide bs).0 bytes in
    go (significant (divide bs).0) refl same sig value small (extract_lem n)
  where
    go :
        (s : List ℕ)
        → s ≡ significant (divide bs).0
        → le_value s ≡ le_value (divide bs).0
        → All IsByte s
        → le_value bs ≡ 10 * le_value (divide bs).0 + (divide bs).1
        → (divide bs).1 < 10
        → ((xs : List ℕ)
            → All IsByte xs
            → le_value xs < ten_to n
            → (le10_value (extract n xs) ≡ le_value xs)
              × All IsSmall (extract n xs)
              × (length (extract n xs) ≤ n))
        → (le10_value (extract (suc n) bs) ≡ le_value bs)
          × All IsSmall (extract (suc n) bs)
          × (length (extract (suc n) bs) ≤ suc n)
    go [] at_end same bytes value small later =
        rw (← at_end) (omega arith, (small, tt), omega arith)
    go (x ∷ xs) more same bytes value small later =
        let (rest, smalls, shorter) = later (x ∷ xs) bytes (omega arith) in
        rw (← more) (omega arith, (small, smalls), omega arith)

-- The part of a number below 10^n.
abbrev pub low_part : List ℕ → ℕ → ℕ
low_part ds zero = 0
low_part [] (suc n) = 0
low_part (d ∷ ds) (suc n) = d + 10 * low_part ds n

low_part-suc :
    (ds : List ℕ) (n : ℕ) → low_part ds (suc n) ≡ low_part ds n + ten_to n * get_or ds n 0
low_part-suc [] zero = omega arith
low_part-suc [] (suc n) = omega arith
low_part-suc (d ∷ ds) zero = omega arith
low_part-suc (d ∷ ds) (suc n) = omega (arith, low_part-suc ds n)

pub low_part-all : (ds : List ℕ) (n : ℕ) → length ds ≤ n → low_part ds n ≡ le10_value ds
low_part-all [] zero h = refl
low_part-all [] (suc n) h = refl
low_part-all (d ∷ ds) zero h = absurd (omega arith)
low_part-all (d ∷ ds) (suc n) h = ap (λ v. d + 10 * v) (low_part-all ds n (omega arith))

pub low_part-drop :
    (ds : List ℕ) (n : ℕ) → le10_value ds ≡ low_part ds n + ten_to n * le10_value (drop n ds)
low_part-drop ds zero = omega arith
low_part-drop [] (suc n) = omega arith
low_part-drop (d ∷ ds) (suc n) = omega (arith, low_part-drop ds n)

get_or-drop : (ds : List ℕ) (low n : ℕ) → get_or (drop low ds) n 0 ≡ get_or ds (low + n) 0
get_or-drop ds zero n = ap (λ i. get_or ds i 0) (omega arith)
get_or-drop [] (suc low) n = refl
get_or-drop (d ∷ ds) (suc low) n =
    let next : suc (low + n) ≡ suc low + n = omega arith in
    get_or-drop ds low n ∙ ap (λ i. get_or (d ∷ ds) i 0) next

-- The text of a run of digits is read as their number.
pub digits_value-emit :
    (ds : List ℕ) (low n acc : ℕ)
    → digits_value acc (emit_digits ds low n) ≡ acc * ten_to n + low_part (drop low ds) n
unfolding emit_digits
digits_value-emit ds low zero acc = omega arith
digits_value-emit ds low (suc n) acc =
    let d = get_or ds (low + n) 0 in
    let top =
      low_part-suc (drop low ds) n
      ∙ ap (λ g. low_part (drop low ds) n + ten_to n * g) (get_or-drop ds low n) in
    ap (λ k. digits_value (acc * 10 + k) (emit_digits ds low n)) (omega arith)
    ∙ digits_value-emit ds low n (acc * 10 + d)
    ∙ omega (
      arith,
      top,
      add-mul (acc * 10) d (ten_to n),
      mul_comm d (ten_to n),
      mul_assoc acc 10 (ten_to n),
    )

get_or-small : (ds : List ℕ) (i : ℕ) → All IsSmall ds → get_or ds i 0 < 10
get_or-small [] i h = omega arith
get_or-small (d ∷ ds) zero (h, hs) = h
get_or-small (d ∷ ds) (suc i) (h, hs) = get_or-small ds i hs

pub emit_digits-IsDigits :
    (ds : List ℕ) (low n : ℕ) → All IsSmall ds → IsDigits (emit_digits ds low n)
unfolding emit_digits isdigit
emit_digits-IsDigits ds low zero h = tt
emit_digits-IsDigits ds low (suc n) h =
    let small = get_or-small ds (low + n) h in (ground arith, emit_digits-IsDigits ds low n h)

pub length-emit_digits : (ds : List ℕ) (low n : ℕ) → length (emit_digits ds low n) ≡ n
unfolding emit_digits
length-emit_digits ds low zero = refl
length-emit_digits ds low (suc n) = ap suc (length-emit_digits ds low n)
