-- ===== src/Results/Text/Laws.antt =====
-- What the conversions of a text keep and what they drop.
use psqlodbc_new.Prelude.{
  ℕ, suc, ◌+◌, ◌*◌, ◌≤◌, ◌≡◌, refl, sym, ap, ◌∙◌, inl, inr, Bool, true, false, not, ◌&&◌, ◌||◌,
  some, [], ◌∷◌, ◌++◌, arith, ◌==◌, if◌then◌else◌, ==_iff, Bool-cases, length, length-append, All,
  Bytes,
}
use psqlodbc_new.Results.Bytea.{begins_with}
use psqlodbc_new.Results.Text.{
  expand_byte, expand_from, expand_line_feeds, behind_space, is_zone_sign, sign_from,
  timestamptz_text_length_without_zone,
}

-- Whether a line feed stands alone, without a carriage return before it.
abbrev pub has_bare_line_feed : Bool → Bytes → Bool
has_bare_line_feed after_return [] = false
has_bare_line_feed after_return (c ∷ text) =
    c == b'\n' && not after_return || has_bare_line_feed (c == b'\r') text

-- The text without the carriage returns that stand before line feeds.
abbrev pub without_returns : Bytes → Bytes
without_returns [] = []
without_returns (c ∷ text) =
    if c == b'\r' && begins_with b'\n' text then without_returns text else c ∷ without_returns text

length-expand_from :
    (after_return : Bool) (source : Bytes)
    → length (expand_from after_return source) ≤ 2 * length source
unfolding expand_from
length-expand_from after_return [] = omega arith
length-expand_from after_return (c ∷ source) =
    ground (arith, length-expand_from (c == b'\r') source)

expand_from-not_bare :
    (after_return : Bool) (source : Bytes)
    → has_bare_line_feed after_return (expand_from after_return source) ≡ false
unfolding expand_from
expand_from-not_bare after_return [] = refl
expand_from-not_bare after_return (c ∷ source) = elim (Bool-cases (c == b'\n')) [
  | inl e ↦ rw ((==_iff c b'\n').0 e) (feed after_return (expand_from-not_bare false source))
  | inr e ↦ rw e (rw e (expand_from-not_bare (c == b'\r') source))
]
  where
    feed :
        (after : Bool)
        → has_bare_line_feed false (expand_from false source) ≡ false
        → has_bare_line_feed after (expand_byte after b'\n' (expand_from false source)) ≡ false
    feed true h = h
    feed false h = h

expand_from-stable :
    (after_return : Bool) (source : Bytes)
    → has_bare_line_feed after_return source ≡ false
    → expand_from after_return source ≡ source
unfolding expand_from
expand_from-stable after_return [] h = refl
expand_from-stable after_return (c ∷ source) h =
    elim (Bool-cases (c == b'\n' && not after_return)) [
      | inl e ↦ let clash : true ≡ false = sym (rw e refl) ∙ h in cc
      | inr e ↦
          let rest : has_bare_line_feed (c == b'\r') source ≡ false = sym (rw e refl) ∙ h in
          rw e (ap (λ (r : Bytes). c ∷ r) (expand_from-stable (c == b'\r') source rest))
    ]

begins_with-expand_from :
    (source : Bytes) → begins_with b'\n' (expand_from true source) ≡ begins_with b'\n' source
unfolding expand_from
begins_with-expand_from [] = refl
begins_with-expand_from (c ∷ source) =
    let same : (c == b'\n' && not true) ≡ false = ground arith in rw same refl

without_returns-expand_from :
    (after_return : Bool) (source : Bytes)
    → without_returns (expand_from after_return source) ≡ without_returns source
unfolding expand_from
without_returns-expand_from after_return [] = refl
without_returns-expand_from after_return (c ∷ source) = elim (Bool-cases (c == b'\n')) [
  | inl e ↦ rw ((==_iff c b'\n').0 e) (feed after_return (without_returns-expand_from false source))
  | inr e ↦ elim (Bool-cases (c == b'\r')) [
    | inl r ↦
        rw (e, r, begins_with-expand_from source, without_returns-expand_from true source) refl
    | inr r ↦ rw (e, r, without_returns-expand_from false source) refl
  ]
]
  where
    feed :
        (after : Bool)
        → without_returns (expand_from false source) ≡ without_returns source
        → without_returns (expand_byte after b'\n' (expand_from false source))
          ≡ b'\n' ∷ without_returns source
    feed true h = ap (λ (r : Bytes). b'\n' ∷ r) h
    feed false h = ap (λ (r : Bytes). b'\n' ∷ r) h

-- Where there is memory, the expanded text fits the buffer of twice the length and a terminator, it
-- has no line feed without a carriage return before it, expanding it again changes nothing, and
-- without the carriage returns before line feeds it is the source without them.
pub expand_line_feeds_lem :
    (source : Bytes)
    → (text : Bytes) × (expand_line_feeds true source ≡ some text)
      × (length text + 1 ≤ length source * 2 + 1)
      × (has_bare_line_feed false text ≡ false)
      × (expand_line_feeds true text ≡ some text)
      × (without_returns text ≡ without_returns source)
unfolding expand_line_feeds
expand_line_feeds_lem source =
    let text = expand_from false source in
    let ends = expand_from-not_bare false source in
    (
      text,
      refl,
      omega (arith, length-expand_from false source),
      ends,
      ap some (expand_from-stable false text ends),
      without_returns-expand_from false source,
    )

-- No byte of the text satisfies the test.
abbrev pub None : (ℕ → Bool) → Bytes → Type 0
None p text = All (λ c. p c ≡ false) text

abbrev pub is_blank : ℕ → Bool
is_blank c = c == b' '

behind_space_at :
    (date rest : Bytes)
    → None is_blank date
    → behind_space (date ++ b' ' ∷ rest) ≡ some (suc (length date))
unfolding behind_space
behind_space_at [] rest h = refl
behind_space_at (c ∷ date) rest (hc, h) = rw (hc, behind_space_at date rest h) refl

sign_from_time :
    (date : Bytes) (c : ℕ) (rest : Bytes)
    → sign_from (suc (length date)) (date ++ c ∷ rest) ≡ suc (length date) + sign_from 0 rest
unfolding sign_from
sign_from_time [] c rest = omega arith
sign_from_time (d ∷ date) c rest = omega (arith, sign_from_time date c rest)

sign_from_zone :
    (time zone : Bytes) (sign : ℕ)
    → None is_zone_sign time
    → is_zone_sign sign ≡ true
    → sign_from 0 (time ++ sign ∷ zone) ≡ length time
unfolding sign_from
sign_from_zone [] zone sign h e = rw e refl
sign_from_zone (c ∷ time) zone sign (hc, h) e = rw hc (ap suc (sign_from_zone time zone sign h e))

sign_from-None : (time : Bytes) → None is_zone_sign time → sign_from 0 time ≡ length time
unfolding sign_from
sign_from-None [] h = refl
sign_from-None (c ∷ time) (hc, h) = rw hc (ap suc (sign_from-None time h))

stamp_lem :
    (date rest : Bytes)
    → None is_blank date
    → timestamptz_text_length_without_zone (date ++ b' ' ∷ rest)
      ≡ suc (length date) + sign_from 0 rest
unfolding timestamptz_text_length_without_zone
stamp_lem date rest h = rw (behind_space_at date rest h) (sign_from_time date b' ' rest)

-- For a date without a space and a time without a sign, the text of a timestamptz is cut just
-- before the sign of its zone, whatever signs the date has; without a zone it keeps its length.
pub without_zone_lem :
    (date time zone : Bytes) (sign : ℕ)
    → None is_blank date
    → None is_zone_sign time
    → is_zone_sign sign ≡ true
    → (timestamptz_text_length_without_zone (date ++ b' ' ∷ (time ++ sign ∷ zone))
        ≡ length (date ++ b' ' ∷ time))
      × (timestamptz_text_length_without_zone (date ++ b' ' ∷ time) ≡ length (date ++ b' ' ∷ time))
without_zone_lem date time zone sign hd ht hs = (
  omega (
    arith,
    stamp_lem date (time ++ sign ∷ zone) hd,
    sign_from_zone time zone sign ht hs,
    length-append {0} date (b' ' ∷ time),
  ),
  omega
      (arith, stamp_lem date time hd, sign_from-None time ht, length-append {0} date (b' ' ∷ time)),
)
