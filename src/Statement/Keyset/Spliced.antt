-- ===== src/Statement/Keyset/Spliced.antt =====
-- The hidden column goes right before the top-level FROM, and the names of savepoints are read.
use psqlodbc_new.Prelude.{
  ℕ, zero, suc, ◌-◌, ◌≤◌, ◌<◌, ◌≡◌, refl, sym, ap, ◌∙◌, ◌⊎◌, inl, inr, Bool, true, false, not, ◌&&◌,
  ◌||◌, Option, none, some, [], ◌∷◌, ◌++◌, append_assoc, arith, leb, ◌==◌, if◌then◌else◌,
  Bool-cases, length, drop, All, Bytes, codes,
}
use psqlodbc_new.CLib.{isspace}
use psqlodbc_new.Statement.Keyset.{
  skip_leading_spaces, starts_with_keyword, Quoting, after_byte, from_starts, found_after,
  find_from, find_top_level_from, ends_table, table_token, single_table, has_text,
  extract_from_table_name, leading_spaces, spliced, splice_at, append_ctid_to,
  rewrite_select_append_ctid, savepoint_name, parse_savepoint_command, checked_name,
  starts_with_any, allowed_following_clauses, unquoted,
}

-- A place in a text where FROM starts, as the text before and from there.
abbrev FoundIn : Bytes → Option (Bytes × Bytes) → Type 0
FoundIn text none = Unit {0}
FoundIn text (some (before, from)) =
    (text ≡ before ++ from) × (starts_with_keyword from (codes "FROM") ≡ true)

behind-FoundIn :
    (c : ℕ) (text : Bytes) (m : Option (Bytes × Bytes))
    → FoundIn text m
    → FoundIn (c ∷ text) (found_after c m)
behind-FoundIn c text none h = tt
behind-FoundIn c text (some (before, from)) (e, h) = (ap (λ (r : Bytes). c ∷ r) e, h)

starts_in :
    (quoting : Quoting) (depth : ℕ) (after_space : Bool) (text : Bytes)
    → from_starts quoting depth after_space text ≡ true
    → starts_with_keyword text (codes "FROM") ≡ true
starts_in quoting depth after_space text e = ground arith

find_from-FoundIn :
    (quoting : Quoting) (depth : ℕ) (after_space : Bool) (text : Bytes)
    → FoundIn text (find_from quoting depth after_space text)
unfolding find_from
find_from-FoundIn quoting depth after_space [] = tt
find_from-FoundIn quoting depth after_space (c ∷ text) =
    let next = after_byte quoting depth c in
    elim (Bool-cases (from_starts quoting depth after_space (c ∷ text))) [
      | inl e ↦ rw e (refl, starts_in quoting depth after_space (c ∷ text) e)
      | inr e ↦ rw e (behind-FoundIn c text _ (find_from-FoundIn next.0 next.1 (isspace c) text))
    ]

leading_spaces-skip : (text : Bytes) → leading_spaces text ++ skip_leading_spaces text ≡ text
unfolding leading_spaces skip_leading_spaces
leading_spaces-skip [] = refl
leading_spaces-skip (c ∷ text) = elim (Bool-cases (isspace c)) [
  | inl e ↦ rw e (ap (λ (r : Bytes). c ∷ r) (leading_spaces-skip text))
  | inr e ↦ rw e refl
]

-- A name that fits a buffer of this size with its terminator.
abbrev NameFits : ℕ → Option (Bytes × Bytes) → Type 0
NameFits size none = Unit {0}
NameFits size (some (name, rest)) = length name < size

behind-NameFits :
    (c size : ℕ) (m : Option (Bytes × Bytes))
    → NameFits size m
    → NameFits (suc size) (found_after c m)
behind-NameFits c size none h = tt
behind-NameFits c size (some (name, rest)) h = omega arith

table_token-NameFits :
    (in_quote : Bool) (size : ℕ) (text : Bytes)
    → 1 ≤ size
    → NameFits size (table_token in_quote size text)
unfolding table_token
table_token-NameFits in_quote zero text h = absurd (omega arith)
table_token-NameFits in_quote (suc size) [] h = omega arith
table_token-NameFits in_quote (suc size) (c ∷ text) h = elim (Bool-cases (ends_table in_quote c)) [
  | inl e ↦ rw e (omega arith)
  | inr e ↦ elim (Bool-cases (leb (suc size) 1)) [
    | inl l ↦ rw (e, l) tt
    | inr l ↦
        let less : suc size - 1 ≡ size = omega arith in
        rw (e, l, less)
          (behind-NameFits c size _ (
            table_token-NameFits (if c == b'"' then not in_quote else in_quote) size text
              (ground arith)))
  ]
]

-- The rewritten text and the table's name: the text as it was and no name, or the hidden column
-- right before a FROM, and a name that is not empty and fits its buffer.
abbrev pub Spliced : Bytes → Bytes × Bytes → Type 0
Spliced original (text, name) =
    ((text ≡ original) × (name ≡ []))
    ⊎ ((before : Bytes) × (from : Bytes) × (original ≡ before ++ from)
        × (starts_with_keyword from (codes "FROM") ≡ true)
        × (text ≡ before ++ (codes ", ctid " ++ from))
        × (has_text name ≡ true)
        × (length name < 256))

-- A name that is not empty and fits a buffer of 256 bytes.
abbrev IsName : Option Bytes → Type 0
IsName none = Unit {0}
IsName (some name) = (has_text name ≡ true) × (length name < 256)

single_table-IsName : (m : Option (Bytes × Bytes)) → NameFits 256 m → IsName (single_table m)
single_table-IsName none h = tt
single_table-IsName (some (name, text)) h =
    let rest = skip_leading_spaces text in
    elim (Bool-cases
      (has_text name && (not (has_text rest) || starts_with_any allowed_following_clauses rest))) [
        | inl e ↦ rw e (and_left (has_text name) _ e, h)
        | inr e ↦ rw e tt
      ]
  where
    and_left : (a b : Bool) → (a && b) ≡ true → a ≡ true
    and_left true b e = refl
    and_left false b e = e

extract-IsName : (from : Bytes) → IsName (extract_from_table_name from 256)
unfolding extract_from_table_name
extract-IsName from =
    single_table-IsName _
      (table_token-NameFits false 256 (skip_leading_spaces (drop 4 from)) (omega arith))

spliced-Spliced :
    (original before from : Bytes) (m : Option Bytes)
    → original ≡ before ++ from
    → starts_with_keyword from (codes "FROM") ≡ true
    → IsName m
    → Spliced original (spliced original (before, from) m)
spliced-Spliced original before from none e h n = inl (refl, refl)
spliced-Spliced original before from (some name) e h (some_name, fits) =
    inr (before, from, e, h, append_assoc before (codes ", ctid ") from, some_name, fits)

splice_at-Spliced :
    (allocated : Bool) (original spaces text : Bytes) (m : Option (Bytes × Bytes))
    → original ≡ spaces ++ text
    → FoundIn text m
    → Spliced original (splice_at allocated original spaces m)
splice_at-Spliced allocated original spaces text none e h = inl (refl, refl)
splice_at-Spliced false original spaces text (some (before, from)) e h = inl (refl, refl)
splice_at-Spliced true original spaces text (some (before, from)) e (split, h) =
    spliced-Spliced original (spaces ++ before) from (extract_from_table_name from 256)
      (e ∙ (ap (λ (r : Bytes). spaces ++ r) split ∙ sym (append_assoc spaces before from))) h
      (extract-IsName from)

append_ctid_to-Spliced :
    (allocated : Bool) (original : Bytes) → Spliced original (append_ctid_to allocated original)
append_ctid_to-Spliced allocated original =
    let text = skip_leading_spaces original in
    elim (Bool-cases (starts_with_keyword text (codes "SELECT"))) [
      | inl e ↦ rw e (
          splice_at-Spliced allocated original (leading_spaces original) text
            (find_top_level_from text) (sym (leading_spaces-skip original))
            (unfold find_top_level_from in find_from-FoundIn unquoted 0 false text))
      | inr e ↦ rw e (inl (refl, refl))
    ]

-- For the text of a command that may be rewritten, with memory or without: the rewrite leaves the
-- text alone and gives no table name, or it puts the hidden column right before a FROM, keeps every
-- byte of the text around it, and gives a table name that is not empty and fits its buffer.
pub rewrite_splices :
    (allocated : Bool) (original : Bytes)
    → (text : Bytes) × ((rewrite_select_append_ctid allocated true (some original)).0 ≡ some text)
      × Spliced original (text, (rewrite_select_append_ctid allocated true (some original)).1)
unfolding rewrite_select_append_ctid
rewrite_splices allocated original =
    ((append_ctid_to allocated original).0, refl, append_ctid_to-Spliced allocated original)

-- A byte of a savepoint's name.
abbrev pub NameByte : ℕ → Type 0
NameByte c = ((isspace c) ≡ false) × ((c == b';') ≡ false)

savepoint_name-whole :
    (size : ℕ) (name rest : Bytes)
    → All NameByte name
    → length name < size
    → savepoint_name size (name ++ b';' ∷ rest) ≡ some name
unfolding savepoint_name
savepoint_name-whole size [] rest h l = refl
savepoint_name-whole size (c ∷ name) rest (hc, h) l =
    let more : leb size 1 ≡ false = ground arith in
    rw (hc.0, hc.1, more, savepoint_name-whole (size - 1) name rest h (omega arith)) refl

skip-NameByte : (c : ℕ) (text : Bytes) → NameByte c → skip_leading_spaces (c ∷ text) ≡ c ∷ text
unfolding skip_leading_spaces
skip-NameByte c text h = rw h.0 refl

-- For a name of 1 to 63 bytes without white space and semicolons, that does not start with the word
-- SAVEPOINT, both commands are recognised with their name, whatever follows a semicolon.
pub parse_savepoint_lem :
    (c : ℕ) (name rest : Bytes)
    → All NameByte (c ∷ name)
    → length name < 63
    → starts_with_keyword (c ∷ name ++ b';' ∷ rest) (codes "SAVEPOINT") ≡ false
    → (parse_savepoint_command (codes "savepoint " ++ c ∷ name ++ b';' ∷ rest) 64
        ≡ some (c ∷ name, false))
      × (parse_savepoint_command (codes "ROLLBACK to " ++ c ∷ name ++ b';' ∷ rest) 64
          ≡ some (c ∷ name, true))
unfolding parse_savepoint_command
parse_savepoint_lem c name rest h l other =
    let whole = savepoint_name-whole 64 (c ∷ name) rest h (omega arith) in
    (rw (h.0.0) (ap (checked_name false) whole), rw (h.0.0, other) (ap (checked_name true) whole))
