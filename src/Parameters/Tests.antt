-- ===== src/Parameters/Tests.antt =====
-- Parameters at concrete inputs.
use psqlodbc_new.Prelude.{
  ℕ, suc, ◌≡◌, refl, ◌⊎◌, true, false, not, ◌&&◌, Option, none, some, [], ◌∷◌, ltb, if◌then◌else◌,
  length, get_elem?, get_or, Bytes,
}
use psqlodbc_new.Prelude.Int.{pos}
use psqlodbc_new.Environment.{sql_success, sql_error}
use psqlodbc_new.Parameters.{
  sql_c_slong, ParameterBinding, no_binding, Parameters, BindCall, binding_of, parameter_bind,
  unbound_slots, parameter_unbind_all,
}
use psqlodbc_new.Parameters.Arrays.{
  parameter_build_libpq_arrays_for_row, parameter_build_libpq_arrays,
}
use psqlodbc_new.Parameters.Laws.{bound_at, element_at, build_for_row_lem}

abbrev call : ℕ → BindCall
call number = record {
  parameter_number = number;
  input_output_type = pos 1;
  c_type = sql_c_slong;
  sql_type = pos 4;
  column_size = 0;
  decimal_digits = pos 0;
  value_buffer = some 1000;
  buffer_length = pos 0;
  indicator_or_length = none;
}

abbrev no_parameters : Parameters
no_parameters = record { bindings = unbound_slots 4; bound_count = pos 0 }

-- A conversion that shows the address that it is given.
abbrev show_address : ParameterBinding → Option Bytes
show_address b = elim b.value_buffer [ none ↦ none | some address ↦ some (address ∷ []) ]

abbrev second_bound : Parameters
second_bound = record {
  bindings = no_binding ∷ binding_of (call 2) ∷ no_binding ∷ [];
  bound_count = pos 1;
}

bind_second : (parameter_bind no_parameters (call 2)).1.bound_count ≡ pos 1
unfolding parameter_bind
bind_second = refl

bind_none : (parameter_bind no_parameters (call 0)).0 ≡ sql_error
unfolding parameter_bind
bind_none = refl

unbind_all : (parameter_unbind_all second_bound).bound_count ≡ pos 0
unfolding parameter_unbind_all
unbind_all = refl

third_row :
    parameter_build_libpq_arrays_for_row show_address true second_bound.bindings 2
    ≡ (sql_success, none ∷ some (1008 ∷ []) ∷ [])
unfolding parameter_build_libpq_arrays_for_row
third_row = refl

one_row :
    parameter_build_libpq_arrays show_address true second_bound.bindings
    ≡ (sql_success, none ∷ some (1000 ∷ []) ∷ [])
unfolding parameter_build_libpq_arrays
one_row = refl

build_for_row_lem_example :
    (let r = parameter_build_libpq_arrays_for_row show_address true second_bound.bindings 2 in
      let b = get_or second_bound.bindings 1 no_binding in
      (r.0 ≡ sql_success)
      × ((length r.1 ≡ 0)
          ⊎ ((last : ℕ) × (length r.1 ≡ suc last) × (bound_at second_bound.bindings last ≡ true)))
      × ((bound_at second_bound.bindings 1 && not (ltb 1 (length r.1))) ≡ false)
      × (get_elem? r.1 1 ≡ (
          if ltb 1 (length r.1)
          then some
              (if bound_at second_bound.bindings 1 then show_address (element_at b 2) else none)
          else none)))
build_for_row_lem_example = build_for_row_lem show_address second_bound.bindings 2 1
