-- ===== src/ConnectionString.antt =====
-- Parsing an ODBC connection string: src/connection_string.c. A position in the working copy is the
-- list of the bytes from it on.
pub mod Keys
pub mod Scan
pub mod Bounds
pub mod RoundTrip
pub mod Params
mod Tests
pub mod Store
use psqlodbc_new.Prelude.{
  ℕ, zero, suc, ◌+◌, ◌-◌, ◌<◌, Bool, true, false, not, ◌&&◌, ◌||◌, Option, none, some, [], ◌∷◌, leb,
  ◌==◌, if◌then◌else◌, length, take, Bytes, c_str,
}
use psqlodbc_new.Prelude.Int.{ℤ, pos, negsuc}
use psqlodbc_new.ConnectionInfo.{ConnectionInfo, Platform}
use psqlodbc_new.ConnectionString.Store.{store_connection_parameter}

abbrev pub is_blank : ℕ → Bool
is_blank c = c == b' ' || c == b'\t'

-- Between pairs: semicolons and blanks.
pub skip_separators : Bytes → Bytes
skip_separators [] = []
skip_separators (c ∷ cs) = if c == b';' || is_blank c then skip_separators cs else c ∷ cs

pub skip_blanks : Bytes → Bytes
skip_blanks [] = []
skip_blanks (c ∷ cs) = if is_blank c then skip_blanks cs else c ∷ cs

-- Behind a closing brace: semicolons and spaces, but no tabs.
pub skip_after_brace : Bytes → Bytes
skip_after_brace [] = []
skip_after_brace (c ∷ cs) = if c == b';' || c == b' ' then skip_after_brace cs else c ∷ cs

abbrev pub pass : ℕ → Bytes × Bytes → Bytes × Bytes
pass c (passed, rest) = (c ∷ passed, rest)

-- `while (position < end && *position != stop) position++`: what is passed over, and the rest.
pub read_until : ℕ → Bytes → Bytes × Bytes
read_until stop [] = ([], [])
read_until stop (c ∷ cs) =
    let more = pass c (read_until stop cs) in if c == stop then ([], c ∷ cs) else more

-- A byte before what is left of the bytes behind it.
abbrev pub trim_before : ℕ → Bytes → Bytes
trim_before c [] = if is_blank c then [] else c ∷ []
trim_before c (x ∷ xs) = c ∷ x ∷ xs

-- Trailing blanks cut off.
unfoldable pub trim_end : Bytes → Bytes
trim_end [] = []
trim_end (c ∷ cs) = trim_before c (trim_end cs)

abbrev pub key_buffer_size : ℕ
key_buffer_size = 256

-- The bytes that fit the key buffer.
abbrev pub cut_key : Bytes → Bytes
cut_key key = if leb key_buffer_size (length key) then take (key_buffer_size - 1) key else key

-- Past a closing brace, where there is one.
abbrev pub close_brace : Bytes → Bytes
close_brace [] = []
close_brace (c ∷ rest) = skip_after_brace rest

abbrev pub braced_value : Bytes × Bytes → Bytes × Bytes
braced_value (value, rest) = (value, close_brace rest)

abbrev pub plain_value : Bytes × Bytes → Bytes × Bytes
plain_value (value, rest) = (trim_end value, rest)

-- The value at a position behind '=' and its blanks, and the position behind the value.
pub read_value : Bytes → Bytes × Bytes
read_value [] = ([], [])
read_value (c ∷ cs) =
    if c == b'{' then braced_value (read_until b'}' cs) else plain_value (read_until b';' (c ∷ cs))

abbrev pub with_key : Bytes → Bytes × Bytes → Option (Bytes × Bytes × Bytes)
with_key key (value, rest) = some (cut_key (trim_end key), value, rest)

abbrev pub read_pair : Bytes × Bytes → Option (Bytes × Bytes × Bytes)
read_pair (passed, []) = none
read_pair (passed, equals ∷ rest) = with_key passed (read_value (skip_blanks rest))

abbrev pub pair_at : Bytes → Option (Bytes × Bytes × Bytes)
pair_at [] = none
pair_at (c ∷ cs) = read_pair (read_until b'=' (c ∷ cs))

-- One round of the loop: the key, the value, and the position behind them; `none` where it breaks.
pub next_pair : Bytes → Option (Bytes × Bytes × Bytes)
next_pair input = pair_at (skip_separators input)

-- A pair is stored where its key is not empty and the copy of its value gets memory.
abbrev pub store_pair : Platform → ConnectionInfo → Bytes → Bytes → ConnectionInfo
store_pair p info [] value = info
store_pair p info (c ∷ key) value =
    if p.allocates (length value + 1)
    then store_connection_parameter p info (c ∷ key) value
    else info

-- The loop, on fuel; `none` means that the fuel ran out.
pub parse_pairs : Platform → ℕ → ConnectionInfo → Bytes → Option ConnectionInfo
parse_pairs p zero info input = none
parse_pairs p (suc fuel) info input = elim (next_pair input) [
  | none ↦ some info
  | some (key, value, rest) ↦ parse_pairs p fuel (store_pair p info key value) rest
]

-- The bytes of the argument: to the NUL for SQL_NTS, which is -3, and `none` for another negative
-- length. The memory behind the pointer holds at least the length that the caller states.
abbrev pub actual_bytes : Bytes → ℤ → Option Bytes
actual_bytes memory (pos n) = some (take n memory)
actual_bytes memory (negsuc n) = if n == 2 then some (c_str memory) else none

abbrev pub succeed : Option ConnectionInfo → Option (ConnectionInfo × Bool)
succeed none = none
succeed (some info) = some (info, true)

pub parse_bytes : Platform → ConnectionInfo → Bytes → Option (ConnectionInfo × Bool)
parse_bytes p info [] = some (info, true)
parse_bytes p info (c ∷ cs) =
    if p.allocates (length (c ∷ cs) + 1)
    then succeed (parse_pairs p (suc (length (c ∷ cs))) info (c ∷ cs))
    else some (info, false)

abbrev pub parse_actual : Platform → ConnectionInfo → Option Bytes → Option (ConnectionInfo × Bool)
parse_actual p info none = some (info, false)
parse_actual p info (some bytes) = parse_bytes p info bytes

-- The parameters after the call and the code's result; `none` only if the loop's fuel ran out.
unfoldable pub connection_string_parse :
    Platform → Option Bytes → ℤ → ConnectionInfo → Option (ConnectionInfo × Bool)
unfolding parse_bytes parse_pairs store_connection_parameter next_pair read_value trim_end
    read_until skip_after_brace skip_blanks skip_separators
connection_string_parse p none string_length info = some (info, true)
connection_string_parse p (some memory) string_length info =
    parse_actual p info (actual_bytes memory string_length)
