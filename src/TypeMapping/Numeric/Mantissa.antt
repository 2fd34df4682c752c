-- ===== src/TypeMapping/Numeric/Mantissa.antt =====
-- The arithmetic on the bytes of a mantissa.
use psqlodbc_new.Prelude.{
  ℕ, ◌+◌, ◌-◌, ◌*◌, ◌/◌, ◌^◌, ◌<◌, ◌≡◌, refl, ap, Bool, not, ◌||◌, List, [], ◌∷◌, arith, ◌==◌, All,
  Bytes,
}
use psqlodbc_new.TypeMapping.Numeric.{mul_add, accumulate}

-- The number that bytes stand for, the lowest first.
abbrev pub le_value : List ℕ → ℕ
le_value [] = 0
le_value (b ∷ bs) = b + 2 ^ 8 * le_value bs

abbrev pub weight : List ℕ → ℕ
weight [] = 1
weight (b ∷ bs) = 2 ^ 8 * weight bs

abbrev pub IsByte : ℕ → Type 0
IsByte b = b < 2 ^ 8

-- The number that decimal digits stand for, behind one that is read already.
abbrev pub digits_value : ℕ → Bytes → ℕ
digits_value n [] = n
digits_value n (d ∷ ds) = digits_value (n * 10 + (d - b'0')) ds

pub le_value-less : (bs : List ℕ) → All IsByte bs → le_value bs < weight bs
le_value-less [] h = omega arith
le_value-less (b ∷ bs) (h, hs) = omega (arith, le_value-less bs hs)

pub le_value-mul_add :
    (bs : List ℕ) (c : ℕ)
    → le_value (mul_add bs c).0 + weight bs * (mul_add bs c).1 ≡ 10 * le_value bs + c
unfolding mul_add
le_value-mul_add [] c = omega arith
le_value-mul_add (b ∷ bs) c = let k = (b * 10 + c) / 2 ^ 8 in omega (arith, le_value-mul_add bs k)

mul_add-weight : (bs : List ℕ) (c : ℕ) → weight (mul_add bs c).0 ≡ weight bs
unfolding mul_add
mul_add-weight [] c = refl
mul_add-weight (b ∷ bs) c = ap (λ w. 2 ^ 8 * w) (mul_add-weight bs ((b * 10 + c) / 2 ^ 8))

pub mul_add-IsByte : (bs : List ℕ) (c : ℕ) → All IsByte (mul_add bs c).0
unfolding mul_add
mul_add-IsByte [] c = tt
mul_add-IsByte (b ∷ bs) c = (omega arith, mul_add-IsByte bs ((b * 10 + c) / 2 ^ 8))

-- The mantissa falls short of the number by a multiple of its weight, and the flag says whether
-- that is not zero.
pub accumulate_lem :
    (ds : Bytes) (val : List ℕ) (overflow : Bool) (n q : ℕ)
    → All IsByte val
    → n ≡ le_value val + weight val * q
    → overflow ≡ not (q == 0)
    → (r : ℕ) × (digits_value n ds ≡ le_value (accumulate (val, overflow) ds).0 + weight val * r)
      × ((accumulate (val, overflow) ds).1 ≡ not (r == 0))
      × (le_value (accumulate (val, overflow) ds).0 < weight val)
unfolding accumulate
accumulate_lem [] val overflow n q h e o = (q, e, o, le_value-less val h)
accumulate_lem (d ∷ ds) val overflow n q h e o =
    let (v, k) = mul_add val (d - b'0') in
    let same : weight v ≡ weight val = mul_add-weight val (d - b'0') in
    let product = le_value-mul_add val (d - b'0') in
    rw same at (
      accumulate_lem ds v (overflow || not (k == 0)) (n * 10 + (d - b'0')) (k + 10 * q)
        (mul_add-IsByte val (d - b'0')) (rw same (omega (arith, product, e))) (rw o (ground arith)))
