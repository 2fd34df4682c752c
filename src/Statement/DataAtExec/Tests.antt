-- ===== src/Statement/DataAtExec/Tests.antt =====
-- Streamed parameters at concrete inputs.
use psqlodbc_new.Prelude.{◌<◌, ◌≡◌, refl, true, false, none, some, [], ◌∷◌, arith, get_elem?, codes}
use psqlodbc_new.Prelude.Int.{pos, negsuc}
use psqlodbc_new.Environment.{sql_success, sql_error}
use psqlodbc_new.Parameters.Bytea.{bytea_literal}
use psqlodbc_new.Results.Bytea.RoundTrip.{decoded}
use psqlodbc_new.Statement.{DataAtExecParameter, OdbcStatement}
use psqlodbc_new.Statement.DataAtExec.{
  fresh_parameter, no_streaming, statement_length_is_data_at_exec,
}
use psqlodbc_new.Statement.DataAtExec.PutData.{statement_put_data}
use psqlodbc_new.Statement.DataAtExec.Arrays.{data_at_exec_build_arrays, streamed_value}
use psqlodbc_new.Statement.DataAtExec.Streamed.{all_pieces, put_pieces, put_pieces_lem}
use psqlodbc_new.Statement.Tests.{mute, no_objects, open_cursor}
use psqlodbc_new.Parameters.{ParameterBinding, no_binding}

abbrev needed : DataAtExecParameter
needed = record fresh_parameter { needs_data = true }

abbrev used : ParameterBinding
used = record no_binding { is_bound = true; indicator_or_length = some (negsuc 99 ∷ []) }

-- The second of two parameters waits for data.
abbrev waiting : OdbcStatement mute
waiting = record open_cursor {
  detected_param_count = 2;
  parameter_bindings = used ∷ used ∷ used ∷ [];
  data_at_exec = record (no_streaming mute) {
    in_need_data = true;
    current_parameter_index = some 1;
    row_count = 1;
    parameters = fresh_parameter ∷ needed ∷ fresh_parameter ∷ [];
  };
}

put_pieces_lem_example :
    (let r = put_pieces mute no_objects waiting (codes "ab" ∷ [] ∷ codes "c" ∷ []) in
      let value =
        bytea_literal true (all_pieces mute no_objects (codes "ab" ∷ [] ∷ codes "c" ∷ [])) in
      (q : DataAtExecParameter) × (r.0 ≡ true)
      × (get_elem? r.1.data_at_exec.parameters 1 ≡ some q)
      × (q.data_length < q.capacity)
      × (streamed_value true q ≡ some value)
      × (decoded value ≡ some (all_pieces mute no_objects (codes "ab" ∷ [] ∷ codes "c" ∷ []))))
put_pieces_lem_example =
    put_pieces_lem mute no_objects 1 needed waiting (codes "ab") ([] ∷ codes "c" ∷ [])
      (record { needs = refl; current = refl; parameter = refl })
      (record { in_memory = refl; not_null = refl; holds = refl; length_is = refl }) (omega arith)

-- The unused third slot is not sent.
pieces_sent :
    (data_at_exec_build_arrays mute no_objects
      (λ b. some (codes "5"))
      true
      true
      (put_pieces mute no_objects waiting (codes "a" ∷ codes "b" ∷ [])).1).2
    ≡ some (codes "5") ∷ some (codes "\\x6162") ∷ []
unfolding data_at_exec_build_arrays put_pieces
pieces_sent = refl

null_is_final :
    (let r = statement_put_data mute no_objects true true [] waiting none (negsuc 0) in
      (r.0 ≡ sql_success)
      × ((statement_put_data mute no_objects true true [] r.1 (some (codes "a")) (pos 1)).0
          ≡ sql_error))
unfolding statement_put_data
null_is_final = (refl, refl)

out_of_sequence :
    (statement_put_data mute no_objects true true [] open_cursor (some (codes "a")) (pos 1)).0
    ≡ sql_error
unfolding statement_put_data
out_of_sequence = refl

deferred_lengths :
    (statement_length_is_data_at_exec (negsuc 1) ≡ true)
    × (statement_length_is_data_at_exec (negsuc 99) ≡ true)
    × (statement_length_is_data_at_exec (negsuc 98) ≡ false)
unfolding statement_length_is_data_at_exec
deferred_lengths = (refl, refl, refl)
