-- ===== src/ColumnBinding.antt =====
-- The buffers that an application binds to the columns of a result: src/column_binding.c and
-- src/column_binding.h. An address is a number, and NULL is `none`.
pub mod Laws
mod Tests
use psqlodbc_new.Prelude.{
  ℕ, zero, suc, ◌-◌, Bool, true, false, not, ◌||◌, Option, none, some, List, [], ◌∷◌, ltb,
  if◌then◌else◌, get_or, set,
}
use psqlodbc_new.Prelude.Int.{ℤ, pos, negsuc}
use psqlodbc_new.Environment.{SqlReturn, sql_success, sql_error}

abbrev pub max_bound_columns : ℕ
max_bound_columns = 256

pub record ColumnBinding : Type 0 where
  pub column_number : ℕ
  pub target_type : ℤ
  pub target_buffer : Option ℕ
  pub buffer_length : ℤ
  pub indicator_or_length : Option ℕ
  pub is_bound : Bool

-- A slot after `memset` to zero.
abbrev pub cleared : ColumnBinding
cleared = record {
  column_number = 0;
  target_type = pos 0;
  target_buffer = none;
  buffer_length = pos 0;
  indicator_or_length = none;
  is_bound = false;
}

-- The array and the count of the slots that are bound, an `int`.
pub record Bindings : Type 0 where
  pub bindings : List ColumnBinding
  pub bound_count : ℤ

abbrev pub succ_ℤ : ℤ → ℤ
succ_ℤ (pos n) = pos (suc n)
succ_ℤ (negsuc zero) = pos 0
succ_ℤ (negsuc (suc n)) = negsuc n

abbrev pub pred_ℤ : ℤ → ℤ
pred_ℤ (pos zero) = negsuc 0
pred_ℤ (pos (suc n)) = pos n
pred_ℤ (negsuc n) = negsuc (suc n)

-- What the arguments of the call ask for; without a buffer the column is unbound.
abbrev pub wanted : ℕ → ℤ → Option ℕ → ℤ → Option ℕ → ColumnBinding
wanted column_number target_type none buffer_length indicator_or_length = cleared
wanted column_number target_type (some buffer) buffer_length indicator_or_length = record {
  column_number = column_number;
  target_type = target_type;
  target_buffer = some buffer;
  buffer_length = buffer_length;
  indicator_or_length = indicator_or_length;
  is_bound = true;
}

-- The count after a slot that was bound or not becomes bound or not.
abbrev pub recount : Bool → Bool → ℤ → ℤ
recount true true count = count
recount true false count = pred_ℤ count
recount false true count = succ_ℤ count
recount false false count = count

abbrev pub store_at : Bindings → ℕ → ColumnBinding → Bindings
store_at b slot_index slot = record {
  bindings = set b.bindings slot_index slot;
  bound_count = recount (get_or b.bindings slot_index cleared).is_bound slot.is_bound b.bound_count;
}

unfoldable pub column_binding_bind :
    Bindings → ℕ → ℤ → Option ℕ → ℤ → Option ℕ → SqlReturn × Bindings
column_binding_bind b column_number target_type target_buffer buffer_length indicator_or_length =
    if ltb column_number 1 || ltb max_bound_columns column_number then (sql_error, b) else (
      sql_success,
      store_at b (column_number - 1)
          (wanted column_number target_type target_buffer buffer_length indicator_or_length),
    )

abbrev pub all_cleared : ℕ → List ColumnBinding
all_cleared zero = []
all_cleared (suc n) = cleared ∷ all_cleared n

unfoldable pub column_binding_unbind_all : Bindings → Bindings
column_binding_unbind_all b = record {
  bindings = all_cleared max_bound_columns;
  bound_count = pos 0;
}
