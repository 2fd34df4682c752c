-- ===== src/ErrorMapping/Reported.antt =====
-- The record that each kind of result leads to.
use psqlodbc_new.Prelude.{
  ℕ, zero, suc, ◌^◌, ◌<◌, ◌≡◌, refl, ap, ◌∙◌, inl, inr, true, false, Option, none, some, [], ◌∷◌,
  ◌++◌, arith, leb, ◌==◌, Bool-cases, length, take, take-length_le, Bytes, codes, c_str,
}
use psqlodbc_new.Prelude.Int.{ℤ, pos}
use psqlodbc_new.CLib.{decimal}
use psqlodbc_new.CLib.Decimal.{to_int-strtol-decimal, c_str-decimal}
use psqlodbc_new.Diagnostics.{DiagnosticRecords, record_count, diagnostics_add_record}
use psqlodbc_new.Libpq.{
  Libpq, pg_diag_sqlstate, pg_diag_severity, pg_diag_severity_nonlocalized, pg_diag_message_primary,
  pg_diag_message_detail, pg_diag_statement_position,
}
use psqlodbc_new.ErrorMapping.{result_state, error_position, error_add_diagnostic_from_result_ctx}
use psqlodbc_new.ErrorMapping.Laws.{detailed, result_text, error_diagnostic_lem}

-- A text without a NUL.
abbrev pub IsText : Bytes → Type 0
IsText text = c_str text ≡ text

IsText-cons : (c : ℕ) (text : Bytes) → IsText (c ∷ text) → ((c == 0) ≡ false) × IsText text
IsText-cons c text h = elim (Bool-cases (c == 0)) [
  | inl e ↦ let ends : [] ≡ c ∷ text = rw e at h in cc
  | inr e ↦ let same : c ∷ c_str text ≡ c ∷ text = rw e at h in (e, cc)
]

IsText-append : (left right : Bytes) → IsText left → IsText right → IsText (left ++ right)
IsText-append [] right h k = k
IsText-append (c ∷ left) right h k =
    let (e, later) = IsText-cons c left h in
    rw e (ap (λ (r : Bytes). c ∷ r) (IsText-append left right later k))

IsText-take : (n : ℕ) (text : Bytes) → IsText text → IsText (take n text)
IsText-take zero text h = refl
IsText-take (suc n) [] h = refl
IsText-take (suc n) (c ∷ text) h =
    let (e, later) = IsText-cons c text h in
    rw e (ap (λ (r : Bytes). c ∷ r) (IsText-take n text later))

-- The diagnostics with one more record.
abbrev pub with_record : DiagnosticRecords → Bytes → ℤ → Bytes → DiagnosticRecords
with_record d sqlstate position message = record d {
  records =
      d.records
      ++ record {
        sqlstate = sqlstate;
        native_error_code = position;
        message_text = some (take 4095 message);
      }
        ∷ [];
}

add_record_room :
    (d : DiagnosticRecords) (state message : Bytes) (position : ℤ)
    → record_count d < 16
    → IsText state
    → length state ≡ 5
    → IsText message
    → (diagnostics_add_record true d (some state) position (some (take 4095 message))).0
      ≡ with_record d state position message
unfolding diagnostics_add_record
add_record_room d state message position room h five k =
    let test : leb 16 (record_count d) ≡ false = ground arith in
    let whole : take 5 state ≡ state = take-length_le 5 state (omega (arith, five)) in
    rw test (rw (h, whole, IsText-take 4095 message k) refl)

module _ (lib : Libpq) where
  -- A result of a failed statement with these fields.
  pub record Shows (result : lib.PgResult) (state severity primary detail : Bytes) (position : ℕ)
      : Type 0 where
    pub state_field : lib.result_error_field result pg_diag_sqlstate ≡ some state
    pub severity_field : lib.result_error_field result pg_diag_severity_nonlocalized ≡ some severity
    pub primary_field : lib.result_error_field result pg_diag_message_primary ≡ some primary
    pub detail_field : lib.result_error_field result pg_diag_message_detail ≡ some detail
    pub position_field :
        lib.result_error_field result pg_diag_statement_position ≡ some (decimal position)
    pub five_bytes : length state ≡ 5
    pub texts : IsText state × IsText severity × IsText primary × IsText detail

  -- A result that has no more than a message as a whole and the severity in the server's language.
  pub record ShowsWhole (result : lib.PgResult) (severity whole : Bytes) : Type 0 where
    pub no_state : lib.result_error_field result pg_diag_sqlstate ≡ none
    pub no_severity : lib.result_error_field result pg_diag_severity_nonlocalized ≡ none
    pub severity_field : lib.result_error_field result pg_diag_severity ≡ some severity
    pub no_primary : lib.result_error_field result pg_diag_message_primary ≡ none
    pub no_detail : lib.result_error_field result pg_diag_message_detail ≡ none
    pub no_position : lib.result_error_field result pg_diag_statement_position ≡ none
    pub whole_message : lib.result_error_message result ≡ some whole
    pub texts : IsText severity × IsText whole

  detailed-some :
      (severity primary detail : Bytes)
      → detailed (severity ++ codes ": " ++ primary) (some detail)
        ≡ (severity ++ codes ": " ++ primary) ++ (codes "\nDETAIL: " ++ detail)
  detailed-some [] primary detail = refl
  detailed-some (c ∷ severity) primary detail = refl

  detailed-none : (text : Bytes) → detailed text none ≡ text
  detailed-none [] = refl
  detailed-none (c ∷ text) = refl

  -- What a result with these fields leads to.
  Shows-record :
      (d : DiagnosticRecords) (result : lib.PgResult) (state severity primary detail : Bytes)
      (position c : ℕ) (context : Bytes) (fallback : Option Bytes)
      → record_count d < 16
      → Shows result state severity primary detail position
      → position < 2 ^ 31
      → IsText (c ∷ context)
      → error_add_diagnostic_from_result_ctx lib true d (some result) fallback (some (c ∷ context))
        ≡ with_record d state (pos position) (
            ((severity ++ codes ": " ++ primary) ++ (codes "\nDETAIL: " ++ detail))
            ++ (codes ";\n" ++ c ∷ context))
  Shows-record d result state severity primary detail position c context fallback room s small k =
      let (state_text, severity_text, primary_text, detail_text) = s.texts in
      let five : (length state == 5) ≡ true = ground (arith, s.five_bytes) in
      let state_is : result_state lib (some result) fallback ≡ state =
        rw (s.state_field, state_text, five) refl in
      let position_is : error_position lib (some result) ≡ pos position =
        rw (s.position_field, c_str-decimal position) (to_int-strtol-decimal position small) in
      let text_is : result_text lib (some result)
          ≡ (severity ++ codes ": " ++ primary) ++ (codes "\nDETAIL: " ++ detail) =
        rw
          (
            s.primary_field, s.severity_field, s.detail_field, primary_text, severity_text,
            detail_text,
          )
          (detailed-some severity primary detail) in
      let head =
        IsText-append (severity ++ codes ": ") primary
          (IsText-append severity (codes ": ") severity_text refl) primary_text in
      let body =
        IsText-append (severity ++ codes ": " ++ primary) (codes "\nDETAIL: " ++ detail) head
          (IsText-append (codes "\nDETAIL: ") detail refl detail_text) in
      let whole =
        IsText-append _ (codes ";\n" ++ c ∷ context) body
          (IsText-append (codes ";\n") (c ∷ context) refl k) in
      error_diagnostic_lem lib true d (some result) fallback (some (c ∷ context))
      ∙ rw (state_is, position_is, text_is, k)
          (add_record_room d state _ (pos position) room state_text s.five_bytes whole)

  whole_record :
      (d : DiagnosticRecords) (result : lib.PgResult) (severity whole : Bytes) (c : ℕ)
      (context fallback : Bytes)
      → record_count d < 16
      → ShowsWhole result severity whole
      → IsText (c ∷ context)
      → IsText fallback
      → length fallback ≡ 5
      → error_add_diagnostic_from_result_ctx lib true d
          (some result)
          (some fallback)
          (some (c ∷ context))
        ≡ with_record d fallback
            (pos 0)
            ((severity ++ codes ": " ++ whole) ++ (codes ";\n" ++ c ∷ context))
  whole_record d result severity whole c context fallback room s k fallback_text five =
      let cut : take 5 fallback ≡ fallback = take-length_le 5 fallback (omega (arith, five)) in
      let state_is : result_state lib (some result) (some fallback) ≡ fallback =
        rw (s.no_state, fallback_text, cut) refl in
      let position_is : error_position lib (some result) ≡ pos 0 = rw s.no_position refl in
      let text_is : result_text lib (some result) ≡ severity ++ codes ": " ++ whole =
        rw
          (
            s.no_primary, s.whole_message, s.no_severity, s.severity_field, s.no_detail, s.texts.0,
            s.texts.1,
          )
          (detailed-none (severity ++ codes ": " ++ whole)) in
      let body =
        IsText-append (severity ++ codes ": ") whole
          (IsText-append severity (codes ": ") s.texts.0 refl) s.texts.1 in
      let message =
        IsText-append _ (codes ";\n" ++ c ∷ context) body
          (IsText-append (codes ";\n") (c ∷ context) refl k) in
      error_diagnostic_lem lib true d (some result) (some fallback) (some (c ∷ context))
      ∙ rw (state_is, position_is, text_is, k)
          (add_record_room d fallback _ (pos 0) room fallback_text five message)

  no_result_record :
      (d : DiagnosticRecords) (c : ℕ) (context fallback : Bytes)
      → record_count d < 16
      → IsText (c ∷ context)
      → IsText fallback
      → length fallback ≡ 5
      → error_add_diagnostic_from_result_ctx lib true d none (some fallback) (some (c ∷ context))
        ≡ with_record d fallback
            (pos 0)
            (codes "Unknown error (no result available)." ++ (codes ";\n" ++ c ∷ context))
  no_result_record d c context fallback room k fallback_text five =
      let cut : take 5 fallback ≡ fallback = take-length_le 5 fallback (omega (arith, five)) in
      let state_is : result_state lib none (some fallback) ≡ fallback =
        rw (fallback_text, cut) refl in
      let message =
        IsText-append (codes "Unknown error (no result available).") (codes ";\n" ++ c ∷ context)
          refl (IsText-append (codes ";\n") (c ∷ context) refl k) in
      error_diagnostic_lem lib true d none (some fallback) (some (c ∷ context))
      ∙ rw (state_is, k) (add_record_room d fallback _ (pos 0) room fallback_text five message)

  -- With room for a record and memory for its text, with a context that is not empty and a fallback
  -- state of five bytes, all texts without NUL, a shown state of five bytes and a shown position below
  -- 2 ^ 31: a result that shows a state, a severity, a message, a detail and a position adds one
  -- record behind the earlier ones with this state, the position as its native code, and the first
  -- 4095 bytes of "severity: message", the line "DETAIL: detail", a semicolon and the context on a
  -- line of its own. A result that shows a message as a whole only, and the severity in the server's
  -- language, gives the fallback state, code 0 and the text from these two and the context; and a
  -- missing result the fallback state, code 0, and a text that says so, with the context.
  pub error_records :
      (d : DiagnosticRecords) (full bare : lib.PgResult)
      (state severity primary detail local whole : Bytes) (position c : ℕ)
      (context fallback : Bytes)
      → record_count d < 16
      → Shows full state severity primary detail position
      → ShowsWhole bare local whole
      → position < 2 ^ 31
      → IsText (c ∷ context)
      → IsText fallback
      → length fallback ≡ 5
      → (let add = λ (r : Option lib.PgResult).
            error_add_diagnostic_from_result_ctx lib true d r
              (some fallback)
              (some (c ∷ context)) in
          (add (some full)
            ≡ with_record d state (pos position) (
                ((severity ++ codes ": " ++ primary) ++ (codes "\nDETAIL: " ++ detail))
                ++ (codes ";\n" ++ c ∷ context)))
          × (add (some bare)
              ≡ with_record d fallback
                  (pos 0)
                  ((local ++ codes ": " ++ whole) ++ (codes ";\n" ++ c ∷ context)))
          × (add none
              ≡ with_record d fallback
                  (pos 0)
                  (codes "Unknown error (no result available)." ++ (codes ";\n" ++ c ∷ context))))
  error_records d full bare state severity primary detail local whole position c context fallback
        room s w small k fallback_text five =
      (
        Shows-record d full state severity primary detail position c context (some fallback) room s
            small k,
        whole_record d bare local whole c context fallback room w k fallback_text five,
        no_result_record d c context fallback room k fallback_text five,
      )
