-- ===== src/Connection/Handle/Notices.antt =====
-- The notices of a connection, and what it says of its server: src/connection.c.
use psqlodbc_new.Prelude.{
  ℕ, Bool, true, false, ◌&&◌, ◌||◌, Option, none, some, [], ◌∷◌, ◌++◌, leb, ◌==◌, if◌then◌else◌,
  length, Bytes, codes, c_str,
}
use psqlodbc_new.TypeMapping.Catalog.{pg_type_oid}
use psqlodbc_new.Libpq.{Libpq, pg_diag_severity, pg_diag_message_primary}
use psqlodbc_new.Connection.{OdbcConnection, max_captured_notices}
use psqlodbc_new.Connection.Handle.{same_text}

module _ (lib : Libpq) where
  unfoldable pub connection_clear_notices : OdbcConnection lib → OdbcConnection lib
  connection_clear_notices k = record k { captured_notices = [] }

  abbrev pub severity_or_notice : Option Bytes → Bytes
  severity_or_notice none = codes "NOTICE"
  severity_or_notice (some severity) = c_str severity

  abbrev pub capture : Bool → Option Bytes → Bytes → OdbcConnection lib → OdbcConnection lib
  capture allocated severity [] k = k
  capture allocated severity (c ∷ primary) k =
      if allocated
      then record k {
        captured_notices =
            k.captured_notices ++ (severity_or_notice severity ++ (codes ": " ++ c ∷ primary)) ∷ [];
      }
      else k

  abbrev pub capture_primary :
      Bool → Option Bytes → Option Bytes → OdbcConnection lib → OdbcConnection lib
  capture_primary allocated severity none k = k
  capture_primary allocated severity (some primary) k = capture allocated severity (c_str primary) k

  -- `allocated` is whether the copy of the text gets its memory.
  unfoldable pub notice_receiver_callback :
      Bool → OdbcConnection lib → lib.PgResult → OdbcConnection lib
  notice_receiver_callback allocated k notice_result =
      if leb max_captured_notices (length k.captured_notices)
      then k
      else capture_primary allocated (lib.result_error_field notice_result pg_diag_severity)
          (lib.result_error_field notice_result pg_diag_message_primary) k

  abbrev pub is_on : Option Bytes → Bool
  is_on none = true
  is_on (some status) = same_text (c_str status) (codes "on")

  abbrev pub conforming_at : Option lib.PgConn → Bool
  conforming_at none = true
  conforming_at (some link) =
      is_on (lib.parameter_status link (codes "standard_conforming_strings"))

  unfoldable pub connection_standard_conforming_strings : OdbcConnection lib → Bool
  connection_standard_conforming_strings k = conforming_at k.libpq_connection

  unfoldable pub connection_type_is_large_object : OdbcConnection lib → ℕ → Bool
  connection_type_is_large_object k type_oid =
      if k.large_object_type_oid == 0
      then false
      else type_oid == k.large_object_type_oid
        || k.large_object_is_domain && type_oid == pg_type_oid
