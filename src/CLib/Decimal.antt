-- ===== src/CLib/Decimal.antt =====
-- Printing a number in decimal and reading it back.
use psqlodbc_new.Prelude.{
  ℕ, zero, suc, ◌+◌, ◌*◌, ◌/◌, ◌%◌, ◌^◌, ◌≤◌, ◌<◌, ◌≡◌, refl, ◌≢◌, inl, inr, true, [], ◌∷◌, arith,
  ltb, Bool-cases, length, Bytes, c_str,
}
use psqlodbc_new.Prelude.Int.{pos}
use psqlodbc_new.CLib.{isspace, read_digits, strtol, strtoul, to_int, decimal_onto, decimal}

abbrev IsDigit : ℕ → Type 0
IsDigit c = (b'0' ≤ c) × (c ≤ b'9')

-- Reading what is printed onto `out` is reading `out` behind the number.
read-decimal_onto :
    (fuel n : ℕ) (out : Bytes)
    → n < fuel
    → read_digits 10 (decimal_onto fuel n out) 0 ≡ read_digits 10 out n
unfolding decimal_onto read_digits
read-decimal_onto zero n out h = absurd (omega arith)
read-decimal_onto (suc fuel) n out h =
    ground (arith, read-decimal_onto fuel (n / 10) ((b'0' + n % 10) ∷ out))

-- The print begins with a digit.
decimal_onto_head :
    (fuel n : ℕ) (out : Bytes)
    → n < fuel
    → (c : ℕ) × (cs : Bytes) × (decimal_onto fuel n out ≡ c ∷ cs) × IsDigit c
unfolding decimal_onto
decimal_onto_head zero n out h = absurd (omega arith)
decimal_onto_head (suc fuel) n out h = elim (Bool-cases (ltb n 10)) [
  | inl small ↦ (b'0' + n, out, rw small, ground arith)
  | inr large ↦ rw large (decimal_onto_head fuel (n / 10) ((b'0' + n % 10) ∷ out) (ground arith))
]

strtoul-digits :
    (c : ℕ) (cs : Bytes) (n : ℕ)
    → IsDigit c
    → read_digits 10 (c ∷ cs) 0 ≡ n
    → n < 2 ^ 64
    → strtoul (c ∷ cs) 10 ≡ n
unfolding strtoul isspace
strtoul-digits c [] n d e h = ground arith
strtoul-digits c (x ∷ []) n d e h = ground arith
strtoul-digits c (x ∷ y ∷ cs) n d e h = ground arith

-- Every number below 2 ^ 64 is read back from its decimal print.
pub strtoul-decimal : (n : ℕ) → n < 2 ^ 64 → strtoul (decimal n) 10 ≡ n
unfolding decimal read_digits
strtoul-decimal n h =
    let (c, cs, e, d) = decimal_onto_head (suc n) n [] (omega arith) in
    rw e (strtoul-digits c cs n d (rw e at (read-decimal_onto (suc n) n [] (omega arith))) h)

strtol-digits :
    (c : ℕ) (cs : Bytes) (n : ℕ)
    → IsDigit c
    → read_digits 10 (c ∷ cs) 0 ≡ n
    → n < 2 ^ 63
    → strtol (c ∷ cs) 10 ≡ pos n
unfolding strtol isspace
strtol-digits c [] n d e h = ground arith
strtol-digits c (x ∷ []) n d e h = ground arith
strtol-digits c (x ∷ y ∷ cs) n d e h = ground arith

-- Every number below 2 ^ 31 is read back as an `int` from its decimal print.
pub to_int-strtol-decimal : (n : ℕ) → n < 2 ^ 31 → to_int (strtol (decimal n) 10) ≡ pos n
unfolding decimal read_digits to_int
to_int-strtol-decimal n h =
    let (c, cs, e, d) = decimal_onto_head (suc n) n [] (omega arith) in
    let read =
      strtol-digits c cs n d (rw e at (read-decimal_onto (suc n) n [] (omega arith)))
        (omega arith) in
    let whole : n % 2 ^ 32 ≡ n = omega arith in
    let small : ltb n (2 ^ 31) ≡ true = ground arith in rw e (rw read (rw (whole, small) refl))

abbrev pub ten_to : ℕ → ℕ
ten_to zero = 1
ten_to (suc k) = 10 * ten_to k

length-decimal_onto :
    (fuel n k : ℕ) (out : Bytes)
    → n < fuel
    → n < ten_to (suc k)
    → length (decimal_onto fuel n out) ≤ suc k + length out
unfolding decimal_onto
length-decimal_onto zero n k out h b = absurd (omega arith)
length-decimal_onto (suc fuel) n zero out h b = ground arith
length-decimal_onto (suc fuel) n (suc k) out h b =
    ground (arith, length-decimal_onto fuel (n / 10) k ((b'0' + n % 10) ∷ out))

-- A number below 10 ^ (k + 1) prints in at most k + 1 digits.
pub length-decimal : (n k : ℕ) → n < ten_to (suc k) → length (decimal n) ≤ suc k
unfolding decimal
length-decimal n k h = omega (arith, length-decimal_onto (suc n) n k [] (omega arith) h)

c_str-decimal_onto :
    (fuel n : ℕ) (out : Bytes)
    → c_str out ≡ out
    → c_str (decimal_onto fuel n out) ≡ decimal_onto fuel n out
unfolding decimal_onto
c_str-decimal_onto zero n out e = e
c_str-decimal_onto (suc fuel) n out e =
    ground (arith, c_str-decimal_onto fuel (n / 10) ((b'0' + n % 10) ∷ out))

-- A print holds no NUL.
pub c_str-decimal : (n : ℕ) → c_str (decimal n) ≡ decimal n
unfolding decimal
c_str-decimal n = c_str-decimal_onto (suc n) n [] refl

-- A print is not empty, and does not begin with a NUL.
pub decimal_starts : (n : ℕ) → (c : ℕ) × (cs : Bytes) × (decimal n ≡ c ∷ cs) × (c ≢ 0)
unfolding decimal
decimal_starts n =
    let (c, cs, e, (low, high)) = decimal_onto_head (suc n) n [] (omega arith) in
    (c, cs, e, omega arith)
