-- ===== src/Results/Text/Money.antt =====
-- The plain number of a money text.
use psqlodbc_new.Prelude.{
  ℕ, suc, ◌+◌, ◌≤◌, ◌<◌, ◌≡◌, refl, sym, ap, ◌∙◌, ◌⊎◌, inl, inr, true, false, ◌||◌, some, [], ◌∷◌,
  ◌++◌, append-nil, append_assoc, arith, leb, ◌==◌, if◌then◌else◌, length, length-append, All,
  Bytes, c_str,
}
use mathlib.Core.Path.{subst}
use psqlodbc_new.Prelude.Int.{ℤ, pos, negsuc, pos_part, neg_part}
use psqlodbc_new.CLib.{isdigit}
use psqlodbc_new.Results.Text.{
  MoneyScan, first_or, scan_money_byte, scan_money, no_index, decimal_separator, money_byte,
  emit_money, convert_money_to_plain_number,
}

-- The sign and the digits of a text, without anything else.
abbrev pub plain_byte : ℕ → Bytes
plain_byte c = if c == b'(' || c == b'-' then b'-' ∷ [] else if isdigit c then c ∷ [] else []

abbrev pub plain : Bytes → Bytes
plain [] = []
plain (c ∷ text) = plain_byte c ++ plain text

-- A byte of a text that is neither its end nor the separator.
abbrev pub Other : ℕ → ℕ → Type 0
Other separator c = ((c == 0) ≡ false) × ((c == separator) ≡ false)

abbrev Below : ℕ → ℤ → Type 0
Below n z = pos_part z < n + neg_part z

record Behind (n : ℕ) (s : MoneyScan) : Type 0 where
  digit : Below n s.last_digit_index
  period : Below n s.first_period_index
  comma : Below n s.first_comma_index

first_or-Below : (n : ℕ) (z : ℤ) → Below n z → Below (suc n) (first_or z n)
first_or-Below n (pos m) h = omega arith
first_or-Below n (negsuc m) h = omega arith

scan_money_byte-Behind :
    (n c : ℕ) (s : MoneyScan) → Behind n s → Behind (suc n) (scan_money_byte n c s)
scan_money_byte-Behind n c s h =
    ground (arith, first_or-Below n s.first_period_index, first_or-Below n s.first_comma_index)

scan_money-Behind :
    (n m : ℕ) (text : Bytes) (s : MoneyScan)
    → n + length text ≡ m
    → Behind n s
    → Behind m (scan_money n text s)
unfolding scan_money
scan_money-Behind n m [] s e h = let same : n ≡ m = omega arith in rw (← same) h
scan_money-Behind n m (c ∷ text) s e h =
    scan_money-Behind (suc n) m text (scan_money_byte n c s) (omega arith)
      (scan_money_byte-Behind n c s h)

scan_money-append :
    (n m : ℕ) (text rest : Bytes) (s : MoneyScan)
    → n + length text ≡ m
    → scan_money n (text ++ rest) s ≡ scan_money m rest (scan_money n text s)
unfolding scan_money
scan_money-append n m [] rest s e = let same : n ≡ m = omega arith in rw same refl
scan_money-append n m (c ∷ text) rest s e =
    scan_money-append (suc n) m text rest (scan_money_byte n c s) (omega arith)

scan_money-period :
    (n : ℕ) (text : Bytes) (s : MoneyScan)
    → All (Other b'.') text
    → (scan_money n text s).first_period_index ≡ s.first_period_index
unfolding scan_money
scan_money-period n [] s h = refl
scan_money-period n (c ∷ text) s (hc, h) =
    scan_money-period (suc n) text (scan_money_byte n c s) h ∙ ground arith

scan_money-comma :
    (n : ℕ) (text : Bytes) (s : MoneyScan)
    → All (Other b',') text
    → (scan_money n text s).first_comma_index ≡ s.first_comma_index
unfolding scan_money
scan_money-comma n [] s h = refl
scan_money-comma n (c ∷ text) s (hc, h) =
    scan_money-comma (suc n) text (scan_money_byte n c s) h ∙ ground arith

-- What the second loop emits for a text.
abbrev spelled : ℕ → Bytes → Bytes
spelled separator [] = []
spelled separator (c ∷ text) = money_byte separator c ++ spelled separator text

length-money_byte : (separator c : ℕ) → length (money_byte separator c) ≤ 1
length-money_byte separator c = ground arith

emit_money_lem :
    (size separator : ℕ) (out text : Bytes)
    → length out + length text < size
    → emit_money size separator out text ≡ some (out ++ spelled separator text)
unfolding emit_money
emit_money_lem size separator out [] h = ap some (sym (append-nil out))
emit_money_lem size separator out (c ∷ text) h =
    let room : leb size (length out + 1) ≡ false = ground arith in
    let fits : length (out ++ money_byte separator c) + length text < size =
      omega
        (arith, length-append {0} out (money_byte separator c), length-money_byte separator c) in
    rw room (
      emit_money_lem size separator (out ++ money_byte separator c) text fits
      ∙ ap some (append_assoc out (money_byte separator c) (spelled separator text)))

spelled-append :
    (separator : ℕ) (text rest : Bytes)
    → spelled separator (text ++ rest) ≡ spelled separator text ++ spelled separator rest
spelled-append separator [] rest = refl
spelled-append separator (c ∷ text) rest =
    ap (λ (r : Bytes). money_byte separator c ++ r) (spelled-append separator text rest)
    ∙ sym (append_assoc (money_byte separator c) (spelled separator text) (spelled separator rest))

spelled-plain :
    (separator : ℕ) (text : Bytes)
    → All (Other separator) text
    → spelled separator text ≡ plain text
spelled-plain separator [] h = refl
spelled-plain separator (c ∷ text) (hc, h) = rw (hc.1, spelled-plain separator text h) refl

c_str-Other :
    (separator : ℕ) (text rest : Bytes)
    → All (Other separator) text
    → c_str (text ++ rest) ≡ text ++ c_str rest
c_str-Other separator [] rest h = refl
c_str-Other separator (c ∷ text) rest (hc, h) =
    rw hc.0 (ap (λ (r : Bytes). c ∷ r) (c_str-Other separator text rest h))

digit_scanned :
    (n d : ℕ) (s : MoneyScan)
    → isdigit d ≡ true
    → scan_money_byte n d s ≡ record s { last_digit_index = pos n }
unfolding isdigit
digit_scanned n d s h = ground arith

-- The indices behind the text, the separator and two digits.
scanned :
    (separator d e : ℕ) (text : Bytes)
    → isdigit d ≡ true
    → isdigit e ≡ true
    → (let n = length text in
        scan_money 0 (text ++ separator ∷ d ∷ e ∷ []) no_index
        ≡ record (scan_money_byte n separator (scan_money 0 text no_index)) {
          last_digit_index = pos (suc (suc n));
        })
unfolding scan_money
scanned separator d e text hd he =
    let n = length text in
    let s = scan_money_byte n separator (scan_money 0 text no_index) in
    scan_money-append 0 n text (separator ∷ d ∷ e ∷ []) no_index (omega arith)
    ∙ (ap (λ (r : MoneyScan). scan_money_byte (suc (suc n)) e r) (digit_scanned (suc n) d s hd)
        ∙ digit_scanned (suc (suc n)) e (record s { last_digit_index = pos (suc n) }) he)

Behind-text : (text : Bytes) → Behind (length text) (scan_money 0 text no_index)
Behind-text text =
    scan_money-Behind 0 (length text) text no_index (omega arith)
      (record { digit = omega arith; period = omega arith; comma = omega arith })

separated_period :
    (n : ℕ) (s : MoneyScan)
    → Behind n s
    → s.first_period_index ≡ negsuc 0
    → decimal_separator (record (scan_money_byte n b'.' s) { last_digit_index = pos (suc (suc n)) })
      ≡ b'.'
unfolding decimal_separator
separated_period n s h e = ground (arith, h.comma)

separated_comma :
    (n : ℕ) (s : MoneyScan)
    → Behind n s
    → s.first_comma_index ≡ negsuc 0
    → decimal_separator (record (scan_money_byte n b',' s) { last_digit_index = pos (suc (suc n)) })
      ≡ b','
unfolding decimal_separator
separated_comma n s h e = ground (arith, h.period)

separated :
    (separator d e : ℕ) (text : Bytes)
    → (separator ≡ b'.') ⊎ (separator ≡ b',')
    → isdigit d ≡ true
    → isdigit e ≡ true
    → All (Other separator) text
    → decimal_separator (scan_money 0 (text ++ separator ∷ d ∷ e ∷ []) no_index) ≡ separator
separated separator d e text (inl k) hd he =
    subst
      (λ c.
        All (Other c) text → decimal_separator (scan_money 0 (text ++ c ∷ d ∷ e ∷ []) no_index) ≡ c)
      (sym k)
      (λ h.
        ap decimal_separator (scanned b'.' d e text hd he)
        ∙ separated_period (length text) (scan_money 0 text no_index) (Behind-text text)
            (scan_money-period 0 text no_index h))
separated separator d e text (inr k) hd he =
    subst
      (λ c.
        All (Other c) text → decimal_separator (scan_money 0 (text ++ c ∷ d ∷ e ∷ []) no_index) ≡ c)
      (sym k)
      (λ h.
        ap decimal_separator (scanned b',' d e text hd he)
        ∙ separated_comma (length text) (scan_money 0 text no_index) (Behind-text text)
            (scan_money-comma 0 text no_index h))

spelled_digit :
    (separator d : ℕ) → isdigit d ≡ true → (money_byte separator d ≡ d ∷ []) × ((d == 0) ≡ false)
unfolding isdigit
spelled_digit separator d h = (ground arith, ground arith)

spelled_cents :
    (separator d e : ℕ)
    → (separator ≡ b'.') ⊎ (separator ≡ b',')
    → isdigit d ≡ true
    → isdigit e ≡ true
    → (spelled separator (separator ∷ d ∷ e ∷ []) ≡ b'.' ∷ d ∷ e ∷ [])
      × (c_str (separator ∷ d ∷ e ∷ []) ≡ separator ∷ d ∷ e ∷ [])
spelled_cents separator d e k hd he =
    let same : money_byte separator separator ≡ b'.' ∷ [] = unfold isdigit in ground arith in
    let more : (separator == 0) ≡ false = ground arith in
    (
      rw (same, (spelled_digit separator d hd).0, (spelled_digit separator e he).0) refl,
      rw (more, (spelled_digit separator d hd).1, (spelled_digit separator e he).1) refl,
    )

-- For a period or a comma that does not stand in the text before it, and two digits behind it: a
-- buffer with room for the whole money text and a terminator gets the sign and the digits of the
-- text before it, a period, and the two digits, whatever currency symbol, spaces and separators of
-- the other kind the text has.
pub money_lem :
    (separator d e size : ℕ) (text : Bytes)
    → (separator ≡ b'.') ⊎ (separator ≡ b',')
    → isdigit d ≡ true
    → isdigit e ≡ true
    → All (Other separator) text
    → length text + 3 < size
    → convert_money_to_plain_number (text ++ separator ∷ d ∷ e ∷ []) size
      ≡ some (plain text ++ b'.' ∷ d ∷ e ∷ [])
unfolding convert_money_to_plain_number
money_lem separator d e size text k hd he h room =
    let cents = spelled_cents separator d e k hd he in
    let whole = text ++ separator ∷ d ∷ e ∷ [] in
    rw
      (
        c_str-Other separator text (separator ∷ d ∷ e ∷ []) h,
        cents.1,
        separated separator d e text k hd he h,
      )
      (emit_money_lem size separator [] whole
          (omega (arith, length-append {0} text (separator ∷ d ∷ e ∷ [])))
        ∙ ap some (
            spelled-append separator text (separator ∷ d ∷ e ∷ [])
            ∙ (ap (λ (r : Bytes). spelled separator text ++ r) cents.0
                ∙ ap (λ (r : Bytes). r ++ b'.' ∷ d ∷ e ∷ []) (spelled-plain separator text h))))
