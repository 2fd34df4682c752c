-- ===== src/Parameters/Laws.antt =====
-- Which values are sent for which parameters, and the count of the bound ones.
use psqlodbc_new.Prelude.{
  ℕ, zero, suc, ◌+◌, ◌*◌, ◌≤◌, ◌<◌, ◌≡◌, refl, ap, ◌∙◌, ◌⊎◌, inl, inr, Bool, true, false, not, ◌&&◌,
  Option, none, some, List, [], ◌∷◌, arith, ltb, ◌==◌, if◌then◌else◌, ltb→lt, ==_iff, Bool-cases,
  length, get_elem?, get_or, drop, get_elem?-beyond, Bytes,
}
use psqlodbc_new.Environment.{sql_success}
use psqlodbc_new.Prelude.Int.{ℤ, pos, negsuc}
use psqlodbc_new.Parameters.{
  ParameterType, sql_c_slong, sql_c_long, sql_c_ulong, sql_c_sshort, sql_c_short, sql_c_ushort,
  sql_c_sbigint, sql_c_ubigint, sql_c_float, sql_c_double, sql_c_bit, sql_c_stinyint, sql_c_tinyint,
  sql_c_utinyint, sql_c_numeric, other_parameter_type, c_type_element_size, length_or,
  ParameterBinding, no_binding, parameter_element_stride,
}
use psqlodbc_new.Parameters.Arrays.{
  position_behind, highest_bound_position, address_at, indicators_at, row_view, element_value,
  values_for_row, parameter_build_libpq_arrays_for_row,
}

-- Whether the slot of this index is bound.
abbrev pub bound_at : List ParameterBinding → ℕ → Bool
bound_at bindings index = (get_or bindings index no_binding).is_bound

-- A bound slot is one of those that are counted.
pub bound-below-highest :
    (bindings : List ParameterBinding) (index : ℕ)
    → bound_at bindings index ≡ true
    → index < highest_bound_position bindings
unfolding highest_bound_position
bound-below-highest [] index h = absurd (cc)
bound-below-highest (b ∷ bindings) zero h = go (highest_bound_position bindings)
  where
    go : (n : ℕ) → 0 < position_behind b.is_bound n
    go zero = rw h (omega arith)
    go (suc n) = omega arith
bound-below-highest (b ∷ bindings) (suc index) h =
    go (highest_bound_position bindings) (bound-below-highest bindings index h)
  where
    go : (n : ℕ) → index < n → suc index < position_behind b.is_bound n
    go zero l = absurd (omega arith)
    go (suc n) l = omega arith

highest-le-length :
    (bindings : List ParameterBinding) → highest_bound_position bindings ≤ length bindings
unfolding highest_bound_position
highest-le-length [] = omega arith
highest-le-length (b ∷ bindings) =
    go b.is_bound (highest_bound_position bindings) (highest-le-length bindings)
  where
    go :
        (bound : Bool) (n : ℕ)
        → n ≤ length bindings
        → position_behind bound n ≤ suc (length bindings)
    go true zero l = omega arith
    go false zero l = omega arith
    go bound (suc n) l = omega arith

-- The count is 0, or the last slot that it counts is bound.
highest-bound :
    (bindings : List ParameterBinding)
    → (highest_bound_position bindings ≡ 0)
      ⊎ ((last : ℕ) × (highest_bound_position bindings ≡ suc last)
          × (bound_at bindings last ≡ true))
unfolding highest_bound_position
highest-bound [] = inl refl
highest-bound (b ∷ bindings) = elim (highest-bound bindings) [
  | inl e ↦ elim (Bool-cases b.is_bound) [
    | inl h ↦ inr (0, rw (e, h) refl, h)
    | inr h ↦ inl (rw (e, h) refl)
  ]
  | inr (last, e, h) ↦ inr (suc last, rw e refl, h)
]

-- The bytes of one element of each C type, and of a type without a fixed size none.
abbrev pub type_width : ParameterType → ℕ
type_width sql_c_bit = 1
type_width sql_c_tinyint = 1
type_width sql_c_stinyint = 1
type_width sql_c_utinyint = 1
type_width sql_c_short = 2
type_width sql_c_sshort = 2
type_width sql_c_ushort = 2
type_width sql_c_long = 4
type_width sql_c_slong = 4
type_width sql_c_ulong = 4
type_width sql_c_float = 4
type_width sql_c_double = 8
type_width sql_c_sbigint = 8
type_width sql_c_ubigint = 8
type_width sql_c_numeric = 19
type_width (other_parameter_type code) = 0

-- A buffer length that is given goes before the width of the type.
abbrev pub element_width : ℤ → ParameterType → ℕ
element_width (pos zero) c_type = type_width c_type
element_width (negsuc n) c_type = type_width c_type
element_width (pos (suc n)) c_type = suc n

type_width_lem : (c_type : ParameterType) → c_type_element_size c_type ≡ type_width c_type
unfolding c_type_element_size
type_width_lem sql_c_slong = refl
type_width_lem sql_c_long = refl
type_width_lem sql_c_ulong = refl
type_width_lem sql_c_sshort = refl
type_width_lem sql_c_short = refl
type_width_lem sql_c_ushort = refl
type_width_lem sql_c_sbigint = refl
type_width_lem sql_c_ubigint = refl
type_width_lem sql_c_float = refl
type_width_lem sql_c_double = refl
type_width_lem sql_c_bit = refl
type_width_lem sql_c_stinyint = refl
type_width_lem sql_c_tinyint = refl
type_width_lem sql_c_utinyint = refl
type_width_lem sql_c_numeric = refl
type_width_lem (other_parameter_type code) = refl

stride-width :
    (b : ParameterBinding) → parameter_element_stride b ≡ element_width b.buffer_length b.c_type
unfolding parameter_element_stride
stride-width b = go b.buffer_length
  where
    go : (given : ℤ) → length_or given (c_type_element_size b.c_type) ≡ element_width given b.c_type
    go (pos zero) = type_width_lem b.c_type
    go (pos (suc n)) = refl
    go (negsuc n) = type_width_lem b.c_type

abbrev pub moved_by : ℕ → Option ℕ → Option ℕ
moved_by offset none = none
moved_by offset (some address) = some (address + offset)

abbrev pub from_index : ℕ → Option (List ℤ) → Option (List ℤ)
from_index index none = none
from_index index (some indicators) = some (drop index indicators)

-- The slot's element of a parameter set: the buffer moved by the set's index times the width, and
-- the indicators from that index on.
abbrev pub element_at : ParameterBinding → ℕ → ParameterBinding
element_at b row = record b {
  value_buffer = moved_by (row * element_width b.buffer_length b.c_type) b.value_buffer;
  indicator_or_length = from_index row b.indicator_or_length;
}

address_at-moved_by :
    (offset : ℕ) (address : Option ℕ) → address_at address offset ≡ moved_by offset address
address_at-moved_by offset none = refl
address_at-moved_by offset (some address) = refl

indicators_at-from_index :
    (index : ℕ) (indicators : Option (List ℤ))
    → indicators_at indicators index ≡ from_index index indicators
indicators_at-from_index index none = refl
indicators_at-from_index index (some indicators) = refl

row_view-element_at : (b : ParameterBinding) (row : ℕ) → row_view b row ≡ element_at b row
unfolding row_view
row_view-element_at b row =
    let width = row * element_width b.buffer_length b.c_type in
    rw
      (
        stride-width b,
        address_at-moved_by width b.value_buffer,
        indicators_at-from_index row b.indicator_or_length,
      )
      refl

module _ (convert : ParameterBinding → Option Bytes) where
  pub length-values_for_row :
      (count row : ℕ) (bindings : List ParameterBinding)
      → count ≤ length bindings
      → length (values_for_row convert count row bindings) ≡ count
  unfolding values_for_row
  length-values_for_row zero row bindings l = refl
  length-values_for_row (suc count) row [] l = absurd (omega arith)
  length-values_for_row (suc count) row (b ∷ bindings) l =
      ap suc (length-values_for_row count row bindings (omega arith))

  pub get-values_for_row :
      (count row index : ℕ) (bindings : List ParameterBinding)
      → count ≤ length bindings
      → index < count
      → get_elem? (values_for_row convert count row bindings) index
        ≡ some (element_value convert (get_or bindings index no_binding) row)
  unfolding values_for_row
  get-values_for_row zero row index bindings l m = absurd (omega arith)
  get-values_for_row (suc count) row index [] l m = absurd (omega arith)
  get-values_for_row (suc count) row zero (b ∷ bindings) l m = refl
  get-values_for_row (suc count) row (suc index) (b ∷ bindings) l m =
      get-values_for_row count row index bindings (omega arith) (omega arith)

  built :
      (bindings : List ParameterBinding) (row : ℕ)
      → parameter_build_libpq_arrays_for_row convert true bindings row
        ≡ (sql_success, values_for_row convert (highest_bound_position bindings) row bindings)
  unfolding parameter_build_libpq_arrays_for_row values_for_row
  built bindings row = elim (Bool-cases (highest_bound_position bindings == 0)) [
    | inl e ↦
        let nothing : highest_bound_position bindings ≡ 0 =
          (==_iff (highest_bound_position bindings) 0).0 e in
        rw e (rw nothing refl)
    | inr e ↦ rw e refl
  ]

  -- Where the arrays get their memory, the values of a parameter set are built, up to the last bound
  -- slot: there is no value, or the last value is of a bound slot; no bound slot is left out; a bound
  -- slot gives the text of its element of that set, whose address is the slot's plus the set's index
  -- times the buffer length, or times the bytes of the C type where no length is given, and whose
  -- indicators are the slot's from that index on; and a slot that is not bound gives NULL.
  pub build_for_row_lem :
      (bindings : List ParameterBinding) (row index : ℕ)
      → (let r = parameter_build_libpq_arrays_for_row convert true bindings row in
          let b = get_or bindings index no_binding in
          (r.0 ≡ sql_success)
          × ((length r.1 ≡ 0)
              ⊎ ((last : ℕ) × (length r.1 ≡ suc last) × (bound_at bindings last ≡ true)))
          × ((bound_at bindings index && not (ltb index (length r.1))) ≡ false)
          × (get_elem? r.1 index ≡ (
              if ltb index (length r.1)
              then some (if bound_at bindings index then convert (element_at b row) else none)
              else none)))
  build_for_row_lem bindings row index =
      let count = highest_bound_position bindings in
      let values = values_for_row convert count row bindings in
      let size = length-values_for_row count row bindings (highest-le-length bindings) in
      let none_left : (bound_at bindings index && not (ltb index count)) ≡ false =
        elim (Bool-cases (bound_at bindings index)) [
          | inl e ↦
              let inside : ltb index count ≡ true =
                ground (arith, bound-below-highest bindings index e) in
              rw (e, inside) refl
          | inr e ↦ rw e refl
        ] in
      let view = row_view-element_at (get_or bindings index no_binding) row in
      rw (built bindings row) (
        rw size (
          refl,
          highest-bound bindings,
          none_left,
          elim (Bool-cases (ltb index count)) [
            | inl e ↦ rw e (
                get-values_for_row count row index bindings (highest-le-length bindings)
                  (ltb→lt index count e)
                ∙ ap (λ v. some (if bound_at bindings index then convert v else none)) view)
            | inr e ↦ rw e (get_elem?-beyond values index (ground (arith, size)))
          ],
        ))
