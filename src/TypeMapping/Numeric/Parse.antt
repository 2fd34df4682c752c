-- ===== src/TypeMapping/Numeric/Parse.antt =====
-- What the parser reads of a decimal.
use psqlodbc_new.Prelude.{
  ℕ, ◌+◌, ◌-◌, ◌*◌, ◌%◌, ◌^◌, ◌≤◌, ◌<◌, ◌≡◌, refl, sym, ap, ◌∙◌, inl, inr, Bool, true, false, not,
  [], ◌∷◌, ◌++◌, append-nil, arith, leb, ◌==◌, if◌then◌else◌, Bool-cases, length, length-append,
  All, Bytes, c_str,
}
use psqlodbc_new.Prelude.Int.{pos}
use psqlodbc_new.CLib.{isspace, skip_spaces}
use psqlodbc_new.TypeMapping.Numeric.{
  collect_step, collect, skip_zeros, read_sign, zero_bytes, digits_size, start_collecting, assemble,
  type_mapping_parse_numeric_text,
}
use psqlodbc_new.TypeMapping.Numeric.Mantissa.{le_value, IsByte, digits_value, accumulate_lem}
use psqlodbc_new.TypeMapping.Numeric.Collect.{
  IsDigits, gathered, isdigit_bounds, goes_on, collect-integer, collect-fraction,
}

-- The fraction of a decimal, with its point where there is any.
abbrev pub point : Bytes → Bytes
point [] = []
point (d ∷ ds) = b'.' ∷ d ∷ ds

abbrev pub minus : Bool → Bytes
minus negative = if negative then b'-' ∷ [] else []

-- The text of a decimal: its sign, its integer part and its fraction.
abbrev pub numeric_text : Bool → Bytes → Bytes → Bytes
numeric_text negative ip fp = minus negative ++ (ip ++ point fp)

c_str-digits : (ds : Bytes) → IsDigits ds → c_str ds ≡ ds
c_str-digits [] h = refl
c_str-digits (c ∷ ds) (h, hs) =
    let (low, high) = isdigit_bounds c h in
    let ends : (c == 0) ≡ false = ground arith in rw ends (ap (◌∷◌ c) (c_str-digits ds hs))

c_str-body : (ip fp : Bytes) → IsDigits ip → IsDigits fp → c_str (ip ++ point fp) ≡ ip ++ point fp
c_str-body [] [] h k = refl
c_str-body [] (d ∷ fp) h k = ap (◌∷◌ b'.') (c_str-digits (d ∷ fp) k)
c_str-body (c ∷ ip) fp (h, hs) k =
    let (low, high) = isdigit_bounds c h in
    let ends : (c == 0) ≡ false = ground arith in rw ends (ap (◌∷◌ c) (c_str-body ip fp hs k))

-- The text without the sign begins with no white space and no sign.
body_starts :
    (ip fp : Bytes)
    → IsDigits ip
    → (skip_spaces (ip ++ point fp) ≡ ip ++ point fp)
      × (read_sign (ip ++ point fp) ≡ (1, ip ++ point fp))
unfolding skip_spaces isspace
body_starts [] [] h = (refl, refl)
body_starts [] (d ∷ fp) h = (refl, refl)
body_starts (c ∷ ip) fp (h, hs) =
    let (low, high) = isdigit_bounds c h in
    let space : isspace c ≡ false = ground arith in
    let negative : (c == b'-') ≡ false = ground arith in
    let positive : (c == b'+') ≡ false = ground arith in (rw space, rw (negative, positive))

skip_zeros-body : (ip fp : Bytes) → skip_zeros (ip ++ point fp) ≡ skip_zeros ip ++ point fp
unfolding skip_zeros
skip_zeros-body [] [] = refl
skip_zeros-body [] (d ∷ fp) = refl
skip_zeros-body (c ∷ ip) fp = elim (Bool-cases (c == b'0')) [
  | inl is ↦ rw is (skip_zeros-body ip fp)
  | inr other ↦ rw other
]

skip_zeros-IsDigits : (ip : Bytes) → IsDigits ip → IsDigits (skip_zeros ip)
unfolding skip_zeros
skip_zeros-IsDigits [] h = tt
skip_zeros-IsDigits (c ∷ ip) (h, hs) = elim (Bool-cases (c == b'0')) [
  | inl is ↦ rw is (skip_zeros-IsDigits ip hs)
  | inr other ↦ rw other (h, hs)
]

digits_value-skip_zeros :
    (ip fp : Bytes) → digits_value 0 (skip_zeros ip ++ fp) ≡ digits_value 0 (ip ++ fp)
unfolding skip_zeros
digits_value-skip_zeros [] fp = refl
digits_value-skip_zeros (c ∷ ip) fp = elim (Bool-cases (c == b'0')) [
  | inl is ↦
      let none_yet : 0 + (c - b'0') ≡ 0 = ground arith in
      rw is (digits_value-skip_zeros ip fp ∙ ap (λ n. digits_value n (ip ++ fp)) (sym none_yet))
  | inr other ↦ rw other
]

IsDigits-append : (xs ys : Bytes) → IsDigits xs → IsDigits ys → IsDigits (xs ++ ys)
IsDigits-append [] ys h k = k
IsDigits-append (x ∷ xs) ys (h, hs) k = (h, IsDigits-append xs ys hs k)

-- The digits of a decimal, its sign and its leading zeros read, are gathered in full.
assemble-collect :
    (sign : ℕ) (ip fp : Bytes)
    → IsDigits ip
    → IsDigits fp
    → length ip + length fp ≤ digits_size
    → assemble sign (collect start_collecting (ip ++ point fp))
      ≡ assemble sign (gathered (ip ++ fp) (pos (length fp)) true)
assemble-collect sign ip [] h k l =
    ap (assemble sign) (collect-integer ip [] [] h (omega arith))
    ∙ unfold collect in rw (append-nil ip)
assemble-collect sign ip (d ∷ fp) h k l =
    let dot =
      goes_on (gathered ip (pos 0) false) (gathered ip (pos 0) true) b'.' (d ∷ fp)
        (unfold collect_step in refl) in
    let count : 0 + length (d ∷ fp) ≡ length (d ∷ fp) = omega arith in
    ap (assemble sign) (
      collect-integer ip [] (b'.' ∷ d ∷ fp) h (omega arith)
      ∙ dot
      ∙ collect-fraction (d ∷ fp) ip 0 k (omega arith) l
      ∙ ap (λ n. gathered (ip ++ d ∷ fp) (pos n) true) count)

abbrev pub sign_of : Bool → ℕ
sign_of negative = if negative then 0 else 1

parse_text :
    (negative : Bool) (ip fp : Bytes)
    → IsDigits ip
    → IsDigits fp
    → length (skip_zeros ip) + length fp ≤ digits_size
    → type_mapping_parse_numeric_text (numeric_text negative ip fp)
      ≡ assemble (sign_of negative) (gathered (skip_zeros ip ++ fp) (pos (length fp)) true)
unfolding type_mapping_parse_numeric_text skip_spaces isspace
parse_text true ip fp h k l =
    rw (c_str-body ip fp h k, skip_zeros-body ip fp)
      (assemble-collect 0 (skip_zeros ip) fp (skip_zeros-IsDigits ip h) k l)
parse_text false ip fp h k l =
    let (spaces, sign) = body_starts ip fp h in
    rw (c_str-body ip fp h k, spaces, sign, skip_zeros-body ip fp)
      (assemble-collect 1 (skip_zeros ip) fp (skip_zeros-IsDigits ip h) k l)

overflow_lem : (n v r : ℕ) → n ≡ v + 2 ^ 128 * r → v < 2 ^ 128 → not (r == 0) ≡ leb (2 ^ 128) n
overflow_lem n v r e h = ground arith

pub zero_bytes-IsByte : All IsByte (zero_bytes 16)
zero_bytes-IsByte = grind arith

-- The text of a decimal, whose integer part without its leading zeros and whose fraction have at
-- most 48 digits together, is read exactly: the sign is the text's, the scale is the number of
-- fraction digits, the mantissa is the number that all the digits stand for modulo 2^128, and the
-- overflow flag says whether that number is 2^128 or more.
pub parse_numeric_text_lem :
    (negative : Bool) (ip fp : Bytes)
    → IsDigits ip
    → IsDigits fp
    → length (skip_zeros ip) + length fp ≤ digits_size
    → let (numeric, overflow) = type_mapping_parse_numeric_text (numeric_text negative ip fp) in
      (numeric.sign ≡ sign_of negative)
      × (numeric.scale ≡ pos (length fp))
      × (numeric.precision ≡ length (skip_zeros ip) + length fp)
      × (le_value numeric.val ≡ digits_value 0 (ip ++ fp) % 2 ^ 128)
      × (overflow ≡ leb (2 ^ 128) (digits_value 0 (ip ++ fp)))
parse_numeric_text_lem negative ip fp h k l =
    let (r, value, flag, less) =
      accumulate_lem (skip_zeros ip ++ fp) (zero_bytes 16) false 0 0 zero_bytes-IsByte refl refl in
    let same = digits_value-skip_zeros ip fp in
    let digits = length-append (skip_zeros ip) fp in
    rw (parse_text negative ip fp h k l) (
      refl,
      refl,
      omega (arith, digits),
      omega (arith, value, same, less),
      flag ∙ overflow_lem _ _ r (sym same ∙ value) less,
    )
