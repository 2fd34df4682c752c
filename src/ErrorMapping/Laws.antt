-- ===== src/ErrorMapping/Laws.antt =====
-- The messages of the diagnostics are whole texts, cut once.
use psqlodbc_new.Prelude.{
  ℕ, zero, suc, ◌-◌, ◌≤◌, ◌<◌, ◌≡◌, refl, sym, ap, ◌∙◌, inl, inr, Bool, true, false, ◌&&◌, Option,
  none, some, List, [], ◌∷◌, ◌++◌, append-nil, arith, ltb, ◌==◌, Bool-cases, length, take,
  length-take, All, Bytes, codes, c_str,
}
use psqlodbc_new.Diagnostics.{DiagnosticRecords, diagnostics_add_record}
use psqlodbc_new.Libpq.{Libpq, pg_diag_message_detail, pg_diag_sqlstate}
use psqlodbc_new.ErrorMapping.{
  fit, shown, with_severity, with_detail, with_context, max_error_message_length, result_state,
  severity_of, primary_or_whole, message_of, result_message, field, error_position,
  error_extract_from_result, error_add_diagnostic_from_result_ctx, fallback_state, state_or,
  is_line_end, trim_line_ends, trim_step, error_extract_from_connection,
}

take-append {ℓ} :
    {A : Type ℓ} (n k : ℕ) (xs ys : List A)
    → k ≡ n - length xs
    → take n xs ++ take k ys ≡ take n (xs ++ ys)
take-append zero k [] ys h = let e : k ≡ 0 = omega arith in rw e refl
take-append (suc n) k [] ys h = let e : k ≡ suc n = omega arith in rw e refl
take-append zero k (x ∷ xs) ys h = let e : k ≡ 0 = omega arith in rw e refl
take-append (suc n) k (x ∷ xs) ys h = ap (λ l. x ∷ l) (take-append n k xs ys (omega arith))

-- What is put behind a text that was cut for a buffer, in the room that is left, is the whole cut.
fit-append :
    (n : ℕ) (xs ys : Bytes) → 0 < n → fit n xs ++ fit (n - length (fit n xs)) ys ≡ fit n (xs ++ ys)
fit-append n xs ys h =
    take-append (n - 1) (n - length (fit n xs) - 1) xs ys (omega (arith, length-take (n - 1) xs))

-- The whole text about an error, before it is cut: the severity, the message and the detail.
abbrev pub detailed : Bytes → Option Bytes → Bytes
detailed [] detail = []
detailed (c ∷ text) none = c ∷ text
detailed (c ∷ text) (some detail) = c ∷ text ++ (codes "\nDETAIL: " ++ detail)

with_detail_lem :
    (n : ℕ) (text : Bytes) (detail : Option Bytes)
    → 0 < n
    → with_detail n text detail ≡ fit n (detailed text detail)
with_detail_lem n [] none h = refl
with_detail_lem n (c ∷ text) none h = refl
with_detail_lem n [] (some detail) h = refl
with_detail_lem n (c ∷ text) (some detail) h =
    elim (Bool-cases (ltb 0 (suc (length text)) && ltb (suc (length text)) n)) [
      | inl l ↦
          let short : suc (length text) < n = ground arith in
          rw l (
            take-append (n - 1) (n - suc (length text) - 1) (c ∷ text)
              (codes "\nDETAIL: " ++ detail) (omega arith))
      | inr l ↦
          let long : n ≤ suc (length text) = ground arith in
          rw l (
            sym (append-nil (fit n (c ∷ text)))
            ∙ take-append (n - 1) 0 (c ∷ text) (codes "\nDETAIL: " ++ detail) (omega arith))
    ]

-- What the driver adds: its context.
abbrev pub context_text : Option Bytes → Bytes
context_text none = []
context_text (some []) = []
context_text (some (c ∷ context)) = codes ";\n" ++ c ∷ context

with_context_lem :
    (text : Bytes) (context : Option Bytes)
    → with_context (fit max_error_message_length text) context
      ≡ fit max_error_message_length (text ++ context_text context)
with_context_lem text none = rw (append-nil text) refl
with_context_lem text (some []) = rw (append-nil text) refl
with_context_lem text (some (c ∷ context)) =
    fit-append max_error_message_length text (codes ";\n" ++ c ∷ context) (omega arith)

module _ (lib : Libpq) where
  -- The whole text about a result, or about none.
  abbrev pub primary_text : lib.PgResult → Option Bytes → Bytes
  primary_text result none = codes "Query execution failed."
  primary_text result (some primary_message) =
      detailed (with_severity (severity_of lib result) primary_message)
        (field lib result pg_diag_message_detail)

  abbrev pub result_text : Option lib.PgResult → Bytes
  result_text none = codes "Unknown error (no result available)."
  result_text (some result) = primary_text result (primary_or_whole lib result)

  result_message_lem :
      (n : ℕ) (result : Option lib.PgResult)
      → 0 < n
      → result_message lib n result ≡ fit n (result_text result)
  result_message_lem n none h = refl
  result_message_lem n (some result) h = go (primary_or_whole lib result)
    where
      go :
          (primary : Option Bytes)
          → message_of lib n result primary ≡ fit n (primary_text result primary)
      go none = refl
      go (some primary_message) =
          with_detail_lem n (with_severity (severity_of lib result) primary_message)
            (field lib result pg_diag_message_detail) h

  -- For any result or none, any fallback state and any context, the call adds one record by
  -- `diagnostics_add_record`: with the state of the result or the fallback, with the position of
  -- the error as its native code, and with the first 4095 bytes of one text, which is the
  -- severity, the message, the detail and the context in that order.
  pub error_diagnostic_lem :
      (allocated : Bool) (diagnostics : DiagnosticRecords) (result : Option lib.PgResult)
      (fallback_sqlstate driver_context : Option Bytes)
      → error_add_diagnostic_from_result_ctx lib allocated diagnostics result fallback_sqlstate
          driver_context
        ≡ (diagnostics_add_record allocated diagnostics
            (some (result_state lib result fallback_sqlstate))
            (error_position lib result)
            (some (take 4095 (result_text result ++ context_text (shown driver_context))))).0
  unfolding error_add_diagnostic_from_result_ctx error_extract_from_result
  error_diagnostic_lem allocated diagnostics result fallback_sqlstate driver_context =
      ap
        (λ message.
          (diagnostics_add_record allocated diagnostics
            (some (result_state lib result fallback_sqlstate)) (error_position lib result)
            (some message)).0)
        (ap (λ message. with_context message (shown driver_context))
            (result_message_lem max_error_message_length result (omega arith))
          ∙ with_context_lem (result_text result) (shown driver_context))

  fallback-le : (fallback : Option Bytes) → length (fallback_state fallback) ≤ 5
  fallback-le none = omega arith
  fallback-le (some text) = omega (arith, length-take 5 (c_str text))

  state_or-le : (state fallback : Option Bytes) → length (state_or state fallback) ≤ 5
  state_or-le none fallback = fallback-le fallback
  state_or-le (some text) fallback = ground (arith, fallback-le fallback)

  state-le :
      (result : Option lib.PgResult) (fallback : Option Bytes)
      → length (result_state lib result fallback) ≤ 5
  state-le none fallback = fallback-le fallback
  state-le (some result) fallback = state_or-le (field lib result pg_diag_sqlstate) fallback

  -- For any result or none, any fallback state and any buffer that is not empty, the state that is
  -- written has at most 5 bytes and the message leaves room for a terminator.
  pub error_extract_fits :
      (result : Option lib.PgResult) (fallback_sqlstate : Option Bytes) (message_buffer_size : ℕ)
      → 0 < message_buffer_size
      → (sqlstate : Bytes) × (message : Bytes) × (error_extract_from_result lib result
            fallback_sqlstate message_buffer_size
          ≡ some (sqlstate, message))
        × (length sqlstate ≤ 5)
        × (length message < message_buffer_size)
  unfolding error_extract_from_result
  error_extract_fits result fallback_sqlstate message_buffer_size h =
      let nonempty : (message_buffer_size == 0) ≡ false = ground arith in
      let cut = ap length (result_message_lem message_buffer_size result h) in
      (
        result_state lib result fallback_sqlstate,
        result_message lib message_buffer_size result,
        rw nonempty refl,
        state-le result fallback_sqlstate,
        omega (arith, cut, length-take (message_buffer_size - 1) (result_text result)),
      )

-- The ends of lines behind a text.
abbrev pub EndsInText : Bytes → Type 0
EndsInText [] = Unit {0}
EndsInText (c ∷ []) = is_line_end c ≡ false
EndsInText (c ∷ d ∷ rest) = EndsInText (d ∷ rest)

trim_step_shape :
    (c : ℕ) (trimmed ends : Bytes)
    → EndsInText trimmed
    → All (λ e. is_line_end e ≡ true) ends
    → (behind : Bytes) × (c ∷ trimmed ++ ends ≡ trim_step c trimmed ++ behind)
      × EndsInText (trim_step c trimmed)
      × All (λ e. is_line_end e ≡ true) behind
trim_step_shape c [] ends h k = elim (Bool-cases (is_line_end c)) [
  | inl l ↦ rw l (c ∷ ends, refl, tt, (l, k))
  | inr l ↦ rw l (ends, refl, l, k)
]
trim_step_shape c (d ∷ rest) ends h k = (ends, refl, h, k)

trim_line_ends_shape :
    (text : Bytes)
    → (behind : Bytes) × (text ≡ trim_line_ends text ++ behind)
      × EndsInText (trim_line_ends text)
      × All (λ e. is_line_end e ≡ true) behind
unfolding trim_line_ends
trim_line_ends_shape [] = ([], refl, tt, tt)
trim_line_ends_shape (c ∷ text) =
    let (ends, e, h, k) = trim_line_ends_shape text in
    let (behind, f, l, m) = trim_step_shape c (trim_line_ends text) ends h k in
    (behind, ap (λ t. c ∷ t) e ∙ f, l, m)

-- For a connection with an error text, the message that is written is the text less the ends of
-- lines behind it, cut to the buffer: the text is some `kept`, which ends in no end of a line,
-- and ends of lines.
pub connection_message_lem :
    (lib : Libpq) (connection : lib.PgConn) (fallback_sqlstate : Option Bytes) (size c : ℕ)
    (text : Bytes)
    → 0 < size
    → shown (lib.error_message connection) ≡ some (c ∷ text)
    → (kept : Bytes) × (behind : Bytes) × (error_extract_from_connection lib
          (some connection)
          fallback_sqlstate
          size
        ≡ some (fallback_state fallback_sqlstate, take (size - 1) kept))
      × (c ∷ text ≡ kept ++ behind)
      × EndsInText kept
      × All (λ e. is_line_end e ≡ true) behind
unfolding error_extract_from_connection
connection_message_lem lib connection fallback_sqlstate size c text h e =
    let nonempty : (size == 0) ≡ false = ground arith in
    let (behind, splits, ends, all_ends) = trim_line_ends_shape (c ∷ text) in
    (trim_line_ends (c ∷ text), behind, rw (nonempty, e) refl, splits, ends, all_ends)
