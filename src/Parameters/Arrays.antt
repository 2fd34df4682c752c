-- ===== src/Parameters/Arrays.antt =====
-- The values that a statement's parameters are sent as: `parameter_build_libpq_arrays` and
-- `parameter_build_libpq_arrays_for_row` of src/parameter.c. The conversion of one bound value to
-- its text is a parameter, and NULL, for the SQL NULL, is `none`. A value's length is that of its
-- text, and all formats are text.
use psqlodbc_new.Prelude.{
  ℕ, zero, suc, ◌+◌, ◌*◌, Bool, true, false, Option, none, some, List, [], ◌∷◌, ◌==◌, if◌then◌else◌,
  drop, Bytes,
}
use psqlodbc_new.Environment.{SqlReturn, sql_success, sql_error}
use psqlodbc_new.Parameters.{ParameterBinding, parameter_element_stride}

-- One position behind the last bound slot, or 0.
abbrev pub position_behind : Bool → ℕ → ℕ
position_behind true zero = 1
position_behind false zero = 0
position_behind bound (suc n) = suc (suc n)

unfoldable pub highest_bound_position : List ParameterBinding → ℕ
highest_bound_position [] = 0
highest_bound_position (b ∷ bindings) = position_behind b.is_bound (highest_bound_position bindings)

abbrev pub address_at : Option ℕ → ℕ → Option ℕ
address_at none offset = none
address_at (some address) offset = some (address + offset)

abbrev pub indicators_at {ℓ} : {A : Type ℓ} → Option (List A) → ℕ → Option (List A)
indicators_at none row_index = none
indicators_at (some indicators) row_index = some (drop row_index indicators)

-- The parameter as element `row_index` of the arrays that are bound.
unfoldable pub row_view : ParameterBinding → ℕ → ParameterBinding
unfolding parameter_element_stride
row_view b row_index = record b {
  value_buffer = address_at b.value_buffer (row_index * parameter_element_stride b);
  indicator_or_length = indicators_at b.indicator_or_length row_index;
}

module _ (convert : ParameterBinding → Option Bytes) where
  abbrev pub element_value : ParameterBinding → ℕ → Option Bytes
  element_value b row_index = if b.is_bound then convert (row_view b row_index) else none

  unfoldable pub values_for_row : ℕ → ℕ → List ParameterBinding → List (Option Bytes)
  unfolding row_view
  values_for_row zero row_index bindings = []
  values_for_row (suc count) row_index [] = []
  values_for_row (suc count) row_index (b ∷ bindings) =
      element_value b row_index ∷ values_for_row count row_index bindings

  -- `allocated` is whether the arrays get their memory.
  unfoldable pub parameter_build_libpq_arrays_for_row :
      Bool → List ParameterBinding → ℕ → SqlReturn × List (Option Bytes)
  unfolding highest_bound_position values_for_row
  parameter_build_libpq_arrays_for_row allocated bindings row_index =
      let count = highest_bound_position bindings in
      if count == 0
      then (sql_success, [])
      else if allocated
      then (sql_success, values_for_row count row_index bindings)
      else (sql_error, [])

  abbrev pub scalar_value : ParameterBinding → Option Bytes
  scalar_value b = if b.is_bound then convert b else none

  unfoldable pub scalar_values : ℕ → List ParameterBinding → List (Option Bytes)
  scalar_values zero bindings = []
  scalar_values (suc count) [] = []
  scalar_values (suc count) (b ∷ bindings) = scalar_value b ∷ scalar_values count bindings

  unfoldable pub parameter_build_libpq_arrays :
      Bool → List ParameterBinding → SqlReturn × List (Option Bytes)
  unfolding highest_bound_position scalar_values
  parameter_build_libpq_arrays allocated bindings =
      let count = highest_bound_position bindings in
      if count == 0
      then (sql_success, [])
      else if allocated
      then (sql_success, scalar_values count bindings)
      else (sql_error, [])
