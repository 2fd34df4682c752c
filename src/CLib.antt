-- ===== src/CLib.antt =====
-- What the driver uses of the C library's number parsing and printing: `strtol`, `strtoul`,
-- `isspace`, `printf` of an unsigned number, and the casts of their results. `long` has 64 bits and
-- `int` 32, as on the 64-bit systems other than Windows.
pub mod Decimal
use psqlodbc_new.Prelude.{
  ℕ, zero, suc, ◌+◌, ◌-◌, ◌*◌, ◌/◌, ◌%◌, ◌^◌, min, Bool, true, false, not, ◌&&◌, ◌||◌, [], ◌∷◌, ltb,
  leb, ◌==◌, if◌then◌else◌, Bytes,
}
use psqlodbc_new.Prelude.Int.{ℤ, pos, negsuc, sub_ℕ}

-- `isspace` in the C locale.
unfoldable pub isspace : ℕ → Bool
isspace c = c == b' ' || leb 9 c && leb c 13

unfoldable pub isdigit : ℕ → Bool
isdigit c = leb b'0' c && leb c b'9'

-- The value of a digit or letter in the bases up to 36; anything else is no digit in any base.
unfoldable pub digit_value : ℕ → ℕ
unfolding isdigit
digit_value c =
    if isdigit c
    then c - b'0'
    else if leb b'a' c && leb c b'z'
    then c - b'a' + 10
    else if leb b'A' c && leb c b'Z'
    then c - b'A' + 10
    else 36

-- The longest run of digits, read onto `value`.
unfoldable pub read_digits : ℕ → Bytes → ℕ → ℕ
unfolding digit_value
read_digits base [] value = value
read_digits base (c ∷ cs) value =
    let rest = read_digits base cs (value * base + digit_value c) in
    if ltb (digit_value c) base then rest else value

unfoldable pub skip_spaces : Bytes → Bytes
unfolding isspace
skip_spaces [] = []
skip_spaces (c ∷ cs) = if isspace c then skip_spaces cs else c ∷ cs

-- In base 16 a prefix "0x" is skipped where a digit follows it.
abbrev skip_hex_prefix : ℕ → Bytes → Bytes
skip_hex_prefix base (z ∷ x ∷ d ∷ cs) =
    if base == 16 && z == b'0' && (x == b'x' || x == b'X') && ltb (digit_value d) 16
    then d ∷ cs
    else z ∷ x ∷ d ∷ cs
skip_hex_prefix base cs = cs

-- The sign, `true` for minus, and the magnitude.
abbrev signed_digits : ℕ → Bytes → Bool × ℕ
signed_digits base [] = (false, 0)
signed_digits base (c ∷ cs) =
    if c == b'-'
    then (true, read_digits base (skip_hex_prefix base cs) 0)
    else if c == b'+'
    then (false, read_digits base (skip_hex_prefix base cs) 0)
    else (false, read_digits base (skip_hex_prefix base (c ∷ cs)) 0)

clamp_long : Bool × ℕ → ℤ
clamp_long (false, n) = pos (min n (2 ^ 63 - 1))
clamp_long (true, n) = sub_ℕ 0 (min n (2 ^ 63))

clamp_ulong : Bool × ℕ → ℕ
clamp_ulong (minus, n) =
    if ltb (2 ^ 64 - 1) n then 2 ^ 64 - 1 else if minus then (2 ^ 64 - n) % 2 ^ 64 else n

unfoldable pub strtol : Bytes → ℕ → ℤ
unfolding clamp_long skip_spaces read_digits digit_value
strtol text base = clamp_long (signed_digits base (skip_spaces text))

unfoldable pub strtoul : Bytes → ℕ → ℕ
unfolding clamp_ulong skip_spaces read_digits digit_value
strtoul text base = clamp_ulong (signed_digits base (skip_spaces text))

-- `(unsigned int)n` and `(int)z`.
abbrev pub u32 : ℕ → ℕ
u32 n = n % 2 ^ 32

abbrev low_word : ℤ → ℕ
low_word (pos n) = n % 2 ^ 32
low_word (negsuc n) = 2 ^ 32 - 1 - n % 2 ^ 32

unfoldable pub to_int : ℤ → ℤ
to_int z = if ltb (low_word z) (2 ^ 31) then pos (low_word z) else negsuc (2 ^ 32 - 1 - low_word z)

-- `(z & 2 ^ k) != 0`, in two's complement.
unfoldable pub has_bit : ℤ → ℕ → Bool
has_bit (pos n) k = n / 2 ^ k % 2 == 1
has_bit (negsuc n) k = n / 2 ^ k % 2 == 0

abbrev pub is_nonzero : ℤ → Bool
is_nonzero (pos n) = not (n == 0)
is_nonzero (negsuc n) = true

-- The digits of "%u", on fuel: a number has at most as many digits as itself, and one.
unfoldable pub decimal_onto : ℕ → ℕ → Bytes → Bytes
decimal_onto zero n out = out
decimal_onto (suc fuel) n out =
    let more = decimal_onto fuel (n / 10) ((b'0' + n % 10) ∷ out) in
    if ltb n 10 then (b'0' + n) ∷ out else more

unfoldable pub decimal : ℕ → Bytes
unfolding decimal_onto
decimal n = decimal_onto (suc n) n []
