-- ===== src/Parameters.antt =====
-- The parameters of a statement: src/parameter.c and src/parameter.h. An address is a number, what
-- an indicator pointer shows is the list of the indicators from there on, and `none` is NULL.
pub mod Arrays
pub mod Bytea
pub mod Laws
mod Tests
use psqlodbc_new.Prelude.{
  ℕ, zero, suc, ◌-◌, Bool, true, false, ◌||◌, Option, none, List, [], ◌∷◌, ltb, ◌==◌, if◌then◌else◌,
  get_or, set, Bytes,
}
use psqlodbc_new.Prelude.Int.{ℤ, pos, negsuc}
use psqlodbc_new.ColumnBinding.{succ_ℤ}
use psqlodbc_new.Environment.{SqlReturn, sql_success, sql_error}

abbrev pub max_parameters : ℕ
max_parameters = 256

-- The C types that have a size of their own, and the others.
pub data ParameterType : Type 0 where
  sql_c_slong sql_c_long sql_c_ulong : ParameterType
  sql_c_sshort sql_c_short sql_c_ushort : ParameterType
  sql_c_sbigint sql_c_ubigint sql_c_float sql_c_double : ParameterType
  sql_c_bit sql_c_stinyint sql_c_tinyint sql_c_utinyint sql_c_numeric : ParameterType
  other_parameter_type : ℤ → ParameterType

pub record ParameterBinding : Type 0 where
  pub parameter_number : ℕ
  pub input_output_type : ℤ
  pub c_type : ParameterType
  pub sql_type : ℤ
  pub column_size : ℕ
  pub decimal_digits : ℤ
  pub value_buffer : Option ℕ
  pub buffer_length : ℤ
  pub indicator_or_length : Option (List ℤ)
  pub is_bound : Bool
  pub name : Bytes

-- A slot after `memset` to zero.
abbrev pub no_binding : ParameterBinding
no_binding = record {
  parameter_number = 0;
  input_output_type = pos 0;
  c_type = other_parameter_type (pos 0);
  sql_type = pos 0;
  column_size = 0;
  decimal_digits = pos 0;
  value_buffer = none;
  buffer_length = pos 0;
  indicator_or_length = none;
  is_bound = false;
  name = [];
}

-- The sizes of ODBC's C types; 0 where there is none.
unfoldable pub c_type_element_size : ParameterType → ℕ
c_type_element_size sql_c_slong = 4
c_type_element_size sql_c_long = 4
c_type_element_size sql_c_ulong = 4
c_type_element_size sql_c_sshort = 2
c_type_element_size sql_c_short = 2
c_type_element_size sql_c_ushort = 2
c_type_element_size sql_c_sbigint = 8
c_type_element_size sql_c_ubigint = 8
c_type_element_size sql_c_float = 4
c_type_element_size sql_c_double = 8
c_type_element_size sql_c_bit = 1
c_type_element_size sql_c_stinyint = 1
c_type_element_size sql_c_tinyint = 1
c_type_element_size sql_c_utinyint = 1
c_type_element_size sql_c_numeric = 19
c_type_element_size (other_parameter_type code) = 0

abbrev pub length_or : ℤ → ℕ → ℕ
length_or (pos zero) size = size
length_or (pos (suc n)) size = suc n
length_or (negsuc n) size = size

unfoldable pub parameter_element_stride : ParameterBinding → ℕ
unfolding c_type_element_size
parameter_element_stride b = length_or b.buffer_length (c_type_element_size b.c_type)

-- The array of the slots, and the count of those that are bound, an `int`.
pub record Parameters : Type 0 where
  pub bindings : List ParameterBinding
  pub bound_count : ℤ

-- The arguments of a call, as the slot that they make.
pub record BindCall : Type 0 where
  pub parameter_number : ℕ
  pub input_output_type : ℤ
  pub c_type : ParameterType
  pub sql_type : ℤ
  pub column_size : ℕ
  pub decimal_digits : ℤ
  pub value_buffer : Option ℕ
  pub buffer_length : ℤ
  pub indicator_or_length : Option (List ℤ)

abbrev pub binding_of : BindCall → ParameterBinding
binding_of c = record {
  parameter_number = c.parameter_number;
  input_output_type = c.input_output_type;
  c_type = c.c_type;
  sql_type = c.sql_type;
  column_size = c.column_size;
  decimal_digits = c.decimal_digits;
  value_buffer = c.value_buffer;
  buffer_length = c.buffer_length;
  indicator_or_length = c.indicator_or_length;
  is_bound = true;
  name = [];
}

unfoldable pub parameter_bind : Parameters → BindCall → SqlReturn × Parameters
parameter_bind p c =
    if c.parameter_number == 0 || ltb max_parameters c.parameter_number
    then (sql_error, p)
    else let slot_index = c.parameter_number - 1 in
      (
        sql_success,
        record {
          bindings = set p.bindings slot_index (binding_of c);
          bound_count =
              if (get_or p.bindings slot_index no_binding).is_bound
              then p.bound_count
              else succ_ℤ p.bound_count;
        },
      )

abbrev pub unbound_slots : ℕ → List ParameterBinding
unbound_slots zero = []
unbound_slots (suc n) = no_binding ∷ unbound_slots n

unfoldable pub parameter_unbind_all : Parameters → Parameters
parameter_unbind_all p = record { bindings = unbound_slots max_parameters; bound_count = pos 0 }
