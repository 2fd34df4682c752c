-- ===== src/Statement/DataAtExec/Streamed.antt =====
-- The pieces of a streamed parameter add up to the value that is sent.
use psqlodbc_new.Prelude.{
  ℕ, zero, suc, ◌+◌, ◌*◌, ◌≤◌, ◌<◌, ◌≡◌, refl, sym, ap, ◌∙◌, inl, inr, Bool, true, false, ◌&&◌,
  some, List, [], ◌∷◌, ◌++◌, append-nil, append_assoc, arith, ltb, if◌then◌else◌, Bool-cases,
  length, get_elem?, get_or, set, take, length-append, take-length_le, All, Bytes,
}
use mathlib.Core.Path.{subst}
use psqlodbc_new.Prelude.Int.{pos}
use psqlodbc_new.Environment.{sql_success}
use psqlodbc_new.Libpq.{Libpq}
use psqlodbc_new.LargeObject.{LargeObjectCalls}
use psqlodbc_new.Parameters.Bytea.{bytea_literal}
use psqlodbc_new.Results.Bytea.RoundTrip.{IsByte, decoded, decode-bytea_literal}
use psqlodbc_new.Statement.{DataAtExecParameter, OdbcStatement}
use psqlodbc_new.Statement.DataAtExec.{fresh_parameter, with_parameter}
use psqlodbc_new.Statement.DataAtExec.PutData.{
  resolve_chunk, doubled, grown_capacity, buffered, appended, accumulate_chunk, started, is_success,
  accumulated_in, statement_put_data,
}
use psqlodbc_new.Statement.DataAtExec.Arrays.{streamed_value}

-- So many rounds double past any number.
doubled-enough :
    (fuel required capacity : ℕ)
    → 1 ≤ capacity
    → required ≤ fuel + capacity
    → required ≤ doubled fuel required capacity
unfolding doubled
doubled-enough zero required capacity h l = omega (arith, l)
doubled-enough (suc fuel) required capacity h l = elim (Bool-cases (ltb capacity required)) [
  | inl e ↦ rw e (doubled-enough fuel required (capacity * 2) (omega arith) (omega arith))
  | inr e ↦ rw e (ground arith)
]

grown-enough : (required capacity : ℕ) → required ≤ grown_capacity required capacity
unfolding grown_capacity
grown-enough required capacity =
    let start : 1 ≤ (if ltb 0 capacity then capacity else 16) = ground arith in
    doubled-enough required required _ start (omega arith)

-- A parameter that is no large object, is not NULL, and holds these bytes so far.
pub record Collects (bytes : Bytes) (p : DataAtExecParameter) : Type 0 where
  pub in_memory : p.is_large_object ≡ false
  pub not_null : p.is_null ≡ false
  pub holds : buffered p.buffer ≡ bytes
  pub length_is : p.data_length ≡ length bytes

-- What the parameter holds after a piece; its length and the terminator are within its capacity.
pub record Holds (bytes : Bytes) (p : DataAtExecParameter) : Type 0 where
  pub collects : Collects bytes p
  pub has_buffer : p.buffer ≡ some bytes
  pub has_room : p.data_length < p.capacity

appended-Holds :
    (bytes piece : Bytes) (p : DataAtExecParameter) (capacity : ℕ)
    → Collects bytes p
    → p.data_length + length piece + 1 ≤ capacity
    → Holds (bytes ++ piece) (appended p capacity piece (length piece))
appended-Holds bytes piece p capacity h l =
    let text : buffered p.buffer ++ piece ≡ bytes ++ piece =
      ap (λ (r : Bytes). r ++ piece) h.holds in
    record {
      collects = record {
        in_memory = h.in_memory;
        not_null = h.not_null;
        holds = text;
        length_is = ap (λ n. n + length piece) h.length_is ∙ sym (length-append bytes piece);
      };
      has_buffer = ap some text;
      has_room = omega (arith, l);
    }

accumulate_chunk-Holds :
    (bytes piece : Bytes) (p : DataAtExecParameter)
    → Collects bytes p
    → (q : DataAtExecParameter) × (accumulate_chunk true p (length piece) piece ≡ some q)
      × Holds (bytes ++ piece) q
accumulate_chunk-Holds bytes piece p h =
    let required = p.data_length + length piece + 1 in
    elim (Bool-cases (ltb p.capacity required)) [
      | inl e ↦
          let capacity = grown_capacity required p.capacity in
          (
            appended p capacity piece (length piece),
            rw e refl,
            appended-Holds bytes piece p capacity h (grown-enough required p.capacity),
          )
      | inr e ↦ (
        appended p p.capacity piece (length piece),
        rw e refl,
        appended-Holds bytes piece p p.capacity h (ground arith),
      )
    ]

may_append : (p : DataAtExecParameter) → p.is_null ≡ false → (p.data_started && p.is_null) ≡ false
may_append p e = elim (Bool-cases p.data_started) [ inl b ↦ rw (b, e) refl | inr b ↦ rw b refl ]

get_or-some {ℓ} :
    {A : Type ℓ} (xs : List A) (i : ℕ) (x y : A) → get_elem? xs i ≡ some x → get_or xs i y ≡ x
get_or-some [] i x y e = cc
get_or-some (a ∷ xs) zero x y e = cc
get_or-some (a ∷ xs) (suc i) x y e = get_or-some xs i x y e

get-set {ℓ} :
    {A : Type ℓ} (xs : List A) (i : ℕ) (x y : A)
    → get_elem? xs i ≡ some x
    → get_elem? (set xs i y) i ≡ some y
get-set [] i x y e = cc
get-set (a ∷ xs) zero x y e = refl
get-set (a ∷ xs) (suc i) x y e = get-set xs i x y e

module _ (lib : Libpq) (calls : LargeObjectCalls lib) where
  -- The current parameter of a statement that waits for data.
  pub record Waits (index : ℕ) (p : DataAtExecParameter) (s : OdbcStatement lib) : Type 0 where
    pub needs : s.data_at_exec.in_need_data ≡ true
    pub current : s.data_at_exec.current_parameter_index ≡ some index
    pub parameter : get_elem? s.data_at_exec.parameters index ≡ some p

  -- All pieces, each with its length, and whether every call succeeds; there is memory.
  unfoldable pub put_pieces : OdbcStatement lib → List Bytes → Bool × OdbcStatement lib
  unfolding statement_put_data
  put_pieces s [] = (true, s)
  put_pieces s (piece ∷ pieces) =
      let r = statement_put_data lib calls true true [] s (some piece) (pos (length piece)) in
      let rest = put_pieces r.1 pieces in (is_success r.0 && rest.0, rest.1)

  abbrev pub all_pieces : List Bytes → Bytes
  all_pieces [] = []
  all_pieces (piece ∷ pieces) = piece ++ all_pieces pieces

  piece-accumulated :
      (index : ℕ) (p : DataAtExecParameter) (s : OdbcStatement lib) (piece : Bytes)
      → Waits index p s
      → p.is_large_object ≡ false
      → p.is_null ≡ false
      → statement_put_data lib calls true true [] s (some piece) (pos (length piece))
        ≡ accumulated_in lib true
            (with_parameter lib s index (started p))
            index
            (accumulate_chunk true (started p) (length piece) piece)
  unfolding statement_put_data resolve_chunk
  piece-accumulated index p s piece w in_memory not_null =
      let here = get_or-some s.data_at_exec.parameters index p fresh_parameter w.parameter in
      let whole = take-length_le (length piece) piece (omega arith) in
      rw (w.needs, w.current, here, may_append p not_null, in_memory, whole) refl

  put-piece :
      (index : ℕ) (p : DataAtExecParameter) (s : OdbcStatement lib) (bytes piece : Bytes)
      → Waits index p s
      → Collects bytes p
      → (q : DataAtExecParameter) × (statement_put_data lib calls true true [] s
            (some piece)
            (pos (length piece))
          ≡ (sql_success, with_parameter lib (with_parameter lib s index (started p)) index q))
        × Holds (bytes ++ piece) q
  put-piece index p s bytes piece w h =
      let (q, e, f) = accumulate_chunk-Holds bytes piece (started p) (record {
        in_memory = h.in_memory;
        not_null = h.not_null;
        holds = h.holds;
        length_is = h.length_is;
      }) in
      let s' = with_parameter lib s index (started p) in
      (
        q,
        piece-accumulated index p s piece w h.in_memory h.not_null
            ∙ ap (accumulated_in lib true s' index) e,
        f,
      )

  Waits-after :
      (index : ℕ) (p q : DataAtExecParameter) (s : OdbcStatement lib)
      → Waits index p s
      → Waits index q (with_parameter lib (with_parameter lib s index (started p)) index q)
  Waits-after index p q s w = record {
    needs = w.needs;
    current = w.current;
    parameter =
        get-set (set s.data_at_exec.parameters index (started p)) index (started p) q
          (get-set s.data_at_exec.parameters index p (started p) w.parameter);
  }

  put_pieces-from :
      (index : ℕ) (p : DataAtExecParameter) (s : OdbcStatement lib) (bytes : Bytes)
      (pieces : List Bytes)
      → Waits index p s
      → Holds bytes p
      → (q : DataAtExecParameter) × ((put_pieces s pieces).0 ≡ true)
        × Waits index q (put_pieces s pieces).1
        × Holds (bytes ++ all_pieces pieces) q
  unfolding put_pieces
  put_pieces-from index p s bytes [] w h =
      (p, refl, w, subst (λ (r : Bytes). Holds r p) (sym (append-nil bytes)) h)
  put_pieces-from index p s bytes (piece ∷ pieces) w h =
      let (q, e, f) = put-piece index p s bytes piece w h.collects in
      let s' = with_parameter lib (with_parameter lib s index (started p)) index q in
      let (q', ok, w', f') =
        put_pieces-from index q s' (bytes ++ piece) pieces (Waits-after index p q s w) f in
      let whole = append_assoc bytes piece (all_pieces pieces) in
      (q', rw e ok, rw e w', subst (λ (r : Bytes). Holds r q') whole f')

  -- For a statement that waits for the data of a parameter that is no large object, is not NULL and
  -- has none yet, with memory for its buffer: one or more pieces, each given with its length, are all
  -- accepted; the bytes and a terminator behind them stay within the buffer's capacity; and the
  -- parameter is sent as the hex literal of the pieces in their order, one behind the other, which
  -- reads back as these bytes.
  pub put_pieces_lem :
      (index : ℕ) (p : DataAtExecParameter) (s : OdbcStatement lib) (piece : Bytes)
      (pieces : List Bytes)
      → Waits index p s
      → Collects [] p
      → All IsByte (all_pieces (piece ∷ pieces))
      → (let r = put_pieces s (piece ∷ pieces) in
          let value = bytea_literal true (all_pieces (piece ∷ pieces)) in
          (q : DataAtExecParameter) × (r.0 ≡ true)
          × (get_elem? r.1.data_at_exec.parameters index ≡ some q)
          × (q.data_length < q.capacity)
          × (streamed_value true q ≡ some value)
          × (decoded value ≡ some (all_pieces (piece ∷ pieces))))
  unfolding put_pieces streamed_value
  put_pieces_lem index p s piece pieces w h b =
      let (q, e, f) = put-piece index p s [] piece w h in
      let s' = with_parameter lib (with_parameter lib s index (started p)) index q in
      let (q', ok, w', f') =
        put_pieces-from index q s' piece pieces (Waits-after index p q s w) f in
      let all = all_pieces (piece ∷ pieces) in
      let whole : take q'.data_length all ≡ all =
        take-length_le q'.data_length all (omega (arith, f'.collects.length_is)) in
      (
        q',
        rw e ok,
        rw e w'.parameter,
        f'.has_room,
        rw (f'.collects.in_memory, f'.collects.not_null, f'.has_buffer, whole, bytea_literal) refl,
        (decode-bytea_literal all b).0,
      )
