-- ===== src/TypeMapping/Numeric/Collect.antt =====
-- The loop over the digits of a decimal.
use psqlodbc_new.Prelude.{
  ℕ, suc, ◌+◌, ◌≤◌, ◌<◌, ◌≡◌, ◌∙◌, Bool, true, false, some, [], ◌∷◌, ◌++◌, append-nil, append_assoc,
  arith, leb, ◌==◌, length, length-concat, All, Bytes,
}
use psqlodbc_new.Prelude.Int.{ℤ, pos}
use psqlodbc_new.CLib.{isdigit}
use psqlodbc_new.TypeMapping.Numeric.{Collecting, collect_step, collect, digits_size}

abbrev pub IsDigits : Bytes → Type 0
IsDigits ds = All (λ d. isdigit d ≡ true) ds

abbrev pub gathered : Bytes → ℤ → Bool → Collecting
gathered ds s seen = record {
  digits = ds;
  collected_scale = s;
  overflow = false;
  seen_decimal_point = seen;
}

pub isdigit_bounds : (c : ℕ) → isdigit c ≡ true → (48 ≤ c) × (c ≤ 57)
unfolding isdigit
isdigit_bounds c h = ground arith

step-integer :
    (ds : Bytes) (s : ℤ) (c : ℕ)
    → isdigit c ≡ true
    → length ds < digits_size
    → collect_step (gathered ds s false) c ≡ some (gathered (ds ++ c ∷ []) s false)
unfolding collect_step
step-integer ds s c h l =
    let (low, high) = isdigit_bounds c h in
    let room : leb digits_size (length ds) ≡ false = ground arith in
    let digit : (c == b'.') ≡ false = ground arith in rw (digit, h, room)

step-fraction :
    (ds : Bytes) (s : ℕ) (c : ℕ)
    → isdigit c ≡ true
    → length ds < digits_size
    → s ≤ length ds
    → collect_step (gathered ds (pos s) true) c ≡ some (gathered (ds ++ c ∷ []) (pos (suc s)) true)
unfolding collect_step
step-fraction ds s c h l below =
    let (low, high) = isdigit_bounds c h in
    let room : leb digits_size (length ds) ≡ false = ground arith in
    let digit : (c == b'.') ≡ false = ground arith in
    let small : leb 127 s ≡ false = ground arith in rw (digit, h, room, small)

pub goes_on :
    (st next : Collecting) (c : ℕ) (cs : Bytes)
    → collect_step st c ≡ some next
    → collect st (c ∷ cs) ≡ collect next cs
unfolding collect
goes_on st next c cs e = rw (e, collect)

-- Digits before the point are gathered as they are.
pub collect-integer :
    (ip ds rest : Bytes)
    → IsDigits ip
    → length ds + length ip ≤ digits_size
    → collect (gathered ds (pos 0) false) (ip ++ rest)
      ≡ collect (gathered (ds ++ ip) (pos 0) false) rest
collect-integer [] ds rest h l = rw (append-nil ds)
collect-integer (c ∷ ip) ds rest (h, hs) l =
    goes_on _ _ c (ip ++ rest) (step-integer ds (pos 0) c h (omega arith))
    ∙ collect-integer ip (ds ++ c ∷ []) rest hs (omega (arith, length-concat ds c))
    ∙ rw (append_assoc ds (c ∷ []) ip)

-- Digits behind the point count for the scale.
pub collect-fraction :
    (fp ds : Bytes) (s : ℕ)
    → IsDigits fp
    → s ≤ length ds
    → length ds + length fp ≤ digits_size
    → collect (gathered ds (pos s) true) fp ≡ gathered (ds ++ fp) (pos (s + length fp)) true
collect-fraction [] ds s h b l =
    let zero_more : s + 0 ≡ s = omega arith in unfold collect in rw (append-nil ds, zero_more)
collect-fraction (c ∷ fp) ds s (h, hs) b l =
    let count : suc s + length fp ≡ s + suc (length fp) = omega arith in
    goes_on _ _ c fp (step-fraction ds s c h (omega arith) b)
    ∙ collect-fraction fp (ds ++ c ∷ []) (suc s) hs (omega (arith, length-concat ds c))
        (omega (arith, length-concat ds c))
    ∙ rw (append_assoc ds (c ∷ []) fp, count)
