-- ===== src/StringUtils/Tests.antt =====
-- Concrete comparisons.
use psqlodbc_new.Prelude.{◌≡◌, ◌↔◌, true, codes}
use psqlodbc_new.StringUtils.{pg_ascii_case_equal}
use psqlodbc_new.StringUtils.CaseFold.{folded, case_equal_iff}

case_equal_iff_case :
    (pg_ascii_case_equal (codes "PwD") (codes "pwd") ≡ true)
    ↔ (folded (codes "PwD") ≡ folded (codes "pwd"))
case_equal_iff_case = case_equal_iff (codes "PwD") (codes "pwd")
