-- ===== src/ErrorMapping/Tests.antt =====
-- A small libpq, and concrete results.
use psqlodbc_new.Prelude.{
  ◌≤◌, ◌<◌, ◌≡◌, refl, Bool, true, false, Option, none, some, [], ◌∷◌, ◌++◌, arith, length, take,
  All, Bytes, codes,
}
use psqlodbc_new.Prelude.Int.{pos}
use psqlodbc_new.Diagnostics.{empty_diagnostics, diagnostics_add_record}
use psqlodbc_new.Libpq.{
  Libpq, ErrorField, pg_diag_sqlstate, pg_diag_severity, pg_diag_severity_nonlocalized,
  pg_diag_message_primary, pg_diag_message_detail, pg_diag_statement_position,
}
use psqlodbc_new.ErrorMapping.{
  shown, fallback_state, is_line_end, error_extract_from_result, error_extract_from_connection,
  error_add_diagnostic_from_result_ctx, result_state, error_position,
}
use psqlodbc_new.CLib.{decimal}
use psqlodbc_new.ErrorMapping.Reported.{Shows, ShowsWhole, with_record, error_records}
use psqlodbc_new.ErrorMapping.Laws.{
  error_diagnostic_lem, error_extract_fits, connection_message_lem, EndsInText, result_text,
  context_text,
}

abbrev missing_table : ErrorField → Option Bytes
missing_table pg_diag_sqlstate = some (codes "42P01")
missing_table pg_diag_severity = some (codes "FEHLER")
missing_table pg_diag_severity_nonlocalized = some (codes "ERROR")
missing_table pg_diag_message_primary = some (codes "no table t")
missing_table pg_diag_message_detail = some (codes "here")
missing_table pg_diag_statement_position = some (codes "15")

abbrev severity_only : ErrorField → Option Bytes
severity_only pg_diag_severity = some (codes "FEHLER")
severity_only _ = none

-- The results are one with all fields, and one with the server's severity alone.
abbrev fields_of : Bool → ErrorField → Option Bytes
fields_of true = missing_table
fields_of false = severity_only

abbrev small : Libpq
small = record {
  PgConn = Unit {0};
  PgResult = Bool;
  exec = λ c text. (c, some true);
  command_ok = λ r. false;
  result_error_field = fields_of;
  result_error_message = λ r. some (codes "fehlt");
  error_message = λ c. some (codes "gone\r\n");
  connectdb_params = λ params. some tt;
  connection_ok = λ c. true;
  parameter_status = λ c name. none;
  server_version = λ c. 170002;
  client_encoding_name = λ c. some (codes "UTF8");
  tuples_ok = λ r. false;
  ntuples = λ r. 0;
  getvalue = λ r row column. [];
}

extracted :
    error_extract_from_result small (some true) none 12 ≡ some (codes "42P01", codes "ERROR: no t")
unfolding error_extract_from_result
extracted = refl

added :
    error_add_diagnostic_from_result_ctx small true empty_diagnostics
      (some true)
      none
      (some (codes "Error while executing the query"))
    ≡ record {
      records =
          record {
            sqlstate = codes "42P01";
            native_error_code = pos 15;
            message_text =
                some (codes "ERROR: no table t\nDETAIL: here;\nError while executing the query");
          }
          ∷ [];
      paging_chunk_size = pos 0;
    }
unfolding error_add_diagnostic_from_result_ctx
added = refl

error_diagnostic_lem_case :
    error_add_diagnostic_from_result_ctx small true empty_diagnostics
      (some true)
      none
      (some (codes "here"))
    ≡ (diagnostics_add_record true empty_diagnostics
        (some (result_state small (some true) none))
        (error_position small (some true))
        (some (
          take 4095
            (result_text small (some true) ++ context_text (shown (some (codes "here"))))))).0
error_diagnostic_lem_case =
    error_diagnostic_lem small true empty_diagnostics (some true) none (some (codes "here"))

error_extract_fits_example :
    (sqlstate : Bytes) × (message : Bytes) × (error_extract_from_result small (some true) none 12
      ≡ some (sqlstate, message))
    × (length sqlstate ≤ 5)
    × (length message < 12)
error_extract_fits_example = error_extract_fits small (some true) none 12 (omega arith)

line_end_dropped :
    (kept : Bytes) × (behind : Bytes) × (error_extract_from_connection small (some tt) none 4096
      ≡ some (fallback_state none, take 4095 kept))
    × (codes "gone\r\n" ≡ kept ++ behind)
    × EndsInText kept
    × All (λ e. is_line_end e ≡ true) behind
line_end_dropped =
    connection_message_lem small tt none 4096 b'g' (codes "one\r\n") (omega arith) refl

full_Shows : Shows small true (codes "42P01") (codes "ERROR") (codes "no table t") (codes "here") 15
full_Shows = record {
  state_field = refl;
  severity_field = refl;
  primary_field = refl;
  detail_field = refl;
  position_field = unfold decimal in refl;
  five_bytes = refl;
  texts = (refl, refl, refl, refl);
}

bare_ShowsWhole : ShowsWhole small false (codes "FEHLER") (codes "fehlt")
bare_ShowsWhole = record {
  no_state = refl;
  no_severity = refl;
  severity_field = refl;
  no_primary = refl;
  no_detail = refl;
  no_position = refl;
  whole_message = refl;
  texts = (refl, refl);
}

error_records_example :
    (let add = λ (r : Option Bool).
        error_add_diagnostic_from_result_ctx small true empty_diagnostics r
          (some (codes "HY000"))
          (some (codes "here")) in
      (add (some true)
        ≡ with_record empty_diagnostics (codes "42P01") (pos 15) (
            ((codes "ERROR" ++ codes ": " ++ codes "no table t")
              ++ (codes "\nDETAIL: " ++ codes "here"))
            ++ (codes ";\n" ++ codes "here")))
      × (add (some false)
          ≡ with_record empty_diagnostics
              (codes "HY000")
              (pos 0)
              ((codes "FEHLER" ++ codes ": " ++ codes "fehlt") ++ (codes ";\n" ++ codes "here")))
      × (add none
          ≡ with_record empty_diagnostics
              (codes "HY000")
              (pos 0)
              (codes "Unknown error (no result available)." ++ (codes ";\n" ++ codes "here"))))
error_records_example =
    error_records small empty_diagnostics true false (codes "42P01") (codes "ERROR")
      (codes "no table t") (codes "here") (codes "FEHLER") (codes "fehlt") 15 b'h' (codes "ere")
      (codes "HY000") (omega arith) full_Shows bare_ShowsWhole (omega arith) refl refl refl
