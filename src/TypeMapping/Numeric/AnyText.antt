-- ===== src/TypeMapping/Numeric/AnyText.antt =====
-- What the parser gives for a text of any kind.
use psqlodbc_new.Prelude.{
  ℕ, suc, ◌+◌, ◌-◌, ◌*◌, ◌/◌, ◌^◌, ◌≤◌, ◌≡◌, refl, ap, ◌∙◌, Bool, not, ◌||◌, Option, none, some,
  List, [], ◌∷◌, arith, ◌==◌, length, length-concat, All, Bytes, c_str,
}
use psqlodbc_new.CLib.{skip_spaces}
use psqlodbc_new.TypeMapping.Numeric.{
  Collecting, collect_step, collect, skip_zeros, read_sign, mul_add, accumulate, zero_bytes,
  start_collecting, type_mapping_parse_numeric_text,
}
use psqlodbc_new.TypeMapping.Numeric.Mantissa.{IsByte, mul_add-IsByte}
use psqlodbc_new.TypeMapping.Numeric.Parse.{zero_bytes-IsByte}

abbrev HasRoom : Option Collecting → Type 0
HasRoom none = Unit
HasRoom (some st) = length st.digits ≤ 48

collect_step-HasRoom :
    (st : Collecting) (c : ℕ) → length st.digits ≤ 48 → HasRoom (collect_step st c)
unfolding collect_step
collect_step-HasRoom st c h = ground (arith, length-concat st.digits c)

collect-length :
    (st : Collecting) (cs : Bytes) → length st.digits ≤ 48 → length (collect st cs).digits ≤ 48
unfolding collect
collect-length st [] h = h
collect-length st (c ∷ cs) h =
    go (collect_step st c) (collect_step-HasRoom st c h) (λ next. collect-length next cs)
  where
    go :
        (o : Option Collecting)
        → HasRoom o
        → ((next : Collecting) → length next.digits ≤ 48 → length (collect next cs).digits ≤ 48)
        → length (elim o as (λ x. Collecting) [ none ↦ st | some next ↦ collect next cs ]).digits
          ≤ 48
    go none room later = h
    go (some next) room later = later next room

length-mul_add : (bs : List ℕ) (c : ℕ) → length (mul_add bs c).0 ≡ length bs
unfolding mul_add
length-mul_add [] c = refl
length-mul_add (b ∷ bs) c = ap suc (length-mul_add bs ((b * 10 + c) / 2 ^ 8))

accumulate-bytes :
    (ds : Bytes) (val : List ℕ) (overflow : Bool)
    → All IsByte val
    → All IsByte (accumulate (val, overflow) ds).0
      × (length (accumulate (val, overflow) ds).0 ≡ length val)
unfolding accumulate
accumulate-bytes [] val overflow h = (h, refl)
accumulate-bytes (d ∷ ds) val overflow h =
    let (next, carry) = mul_add val (d - b'0') in
    let (bytes, size) =
      accumulate-bytes ds next (overflow || not (carry == 0)) (mul_add-IsByte val (d - b'0')) in
    (bytes, size ∙ length-mul_add val (d - b'0'))

-- Whatever the text, the precision is at most 48 and the mantissa is sixteen bytes.
pub parse_numeric_text_well_formed :
    (text : Bytes)
    → let numeric = (type_mapping_parse_numeric_text text).0 in
      (numeric.precision ≤ 48) × (length numeric.val ≡ 16) × All IsByte numeric.val
unfolding type_mapping_parse_numeric_text
parse_numeric_text_well_formed text =
    let (sign, rest) = read_sign (skip_spaces (c_str text)) in
    let st = collect start_collecting (skip_zeros rest) in
    let few = collect-length start_collecting (skip_zeros rest) (omega arith) in
    let (bytes, size) = accumulate-bytes st.digits (zero_bytes 16) st.overflow zero_bytes-IsByte in
    (omega (arith, few), size, bytes)
