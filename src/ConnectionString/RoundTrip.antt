-- ===== src/ConnectionString/RoundTrip.antt =====
-- What a string written as pairs stores: the pairs, one after the other.
use psqlodbc_new.Prelude.{ℕ, ◌<◌, ◌≡◌, ◌≢◌, false, some, List, [], ◌∷◌, ◌++◌, length, All, Bytes}
use psqlodbc_new.ConnectionInfo.{ConnectionInfo, Platform}
use psqlodbc_new.ConnectionString.{is_blank, skip_separators, trim_end, next_pair, store_pair}

-- A pair as an application writes it: the value in braces or not.
pub data Written : Type 0 where
  braced : Bytes → Bytes → Written
  plain : Bytes → Bytes → Written

-- The pair's text before a rest: `key={value};` or `key=value;`.
abbrev pub render : Written → Bytes → Bytes
render (braced key value) rest = key ++ (b'=' ∷ b'{' ∷ (value ++ (b'}' ∷ b';' ∷ rest)))
render (plain key value) rest = key ++ (b'=' ∷ (value ++ (b';' ∷ rest)))

abbrev pub render_all : List Written → Bytes
render_all [] = []
render_all (w ∷ ws) = render w (render_all ws)

abbrev pub Lacks : ℕ → Bytes → Type 0
Lacks b = All (λ c. c ≢ b)

-- The first byte is neither a semicolon nor a blank.
abbrev pub StartsKey : Bytes → Type 0
StartsKey [] = ⊥
StartsKey (c ∷ cs) = (c ≢ b';') × (is_blank c ≡ false)

abbrev pub StartsValue : Bytes → Type 0
StartsValue [] = Unit
StartsValue (c ∷ cs) = (c ≢ b'{') × (is_blank c ≡ false)

-- A key that the parser reads whole: it fits the key buffer, has no '=' and no blanks at its ends.
pub record IsKey (key : Bytes) : Type 0 where
  pub starts : StartsKey key
  pub lacks_equals : Lacks b'=' key
  pub trimmed : trim_end key ≡ key
  pub fits : length key < 256

-- A value in braces may hold anything but a closing brace; any other has no semicolon, no blank at
-- its ends, and does not begin with an opening brace.
abbrev pub IsWritten : Written → Type 0
IsWritten (braced key value) = IsKey key × Lacks b'}' value
IsWritten (plain key value) =
    IsKey key × Lacks b';' value × StartsValue value × (trim_end value ≡ value)

abbrev pub key_of : Written → Bytes
key_of (braced key value) = key
key_of (plain key value) = key

abbrev pub value_of : Written → Bytes
value_of (braced key value) = value
value_of (plain key value) = value

abbrev pub store_all : Platform → ConnectionInfo → List Written → ConnectionInfo
store_all p info [] = info
store_all p info (w ∷ ws) = store_all p (store_pair p info (key_of w) (value_of w)) ws

-- One round reads the written pair, and the position behind it is that of the rest, up to the
-- separators there.
abbrev Reads : Written → Bytes → Bytes → Type 0
Reads w s rest =
    (after : Bytes) × (next_pair s ≡ some (key_of w, value_of w, after))
    × (skip_separators after ≡ skip_separators rest)
