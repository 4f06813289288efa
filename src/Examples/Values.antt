-- ===== src/Examples/Values.antt =====
-- Values and their data, and the handlers on them, on concrete values.
use modbusone.Base.{
  ℕ, ◌+◌, ◌≡◌, refl, Bool, true, false, List, [], ◌∷◌, length, none, some, ok, panic, arith,
}
use modbusone.Data.{data_to_bools, data_to_registers}
use modbusone.Data.Safe.{data_to_bools_panics}
use modbusone.FunctionCode.{is_bool, is_uint16, is_single}
use modbusone.Pdu.{Pdu, big_endian, get_function_code, get_address, get_request_count}
use modbusone.Pdu.Values.{request_bytes}
use modbusone.SimpleHandler.{SimpleHandler, Reader, Writer, on_read, on_write}
use modbusone.SimpleHandler.Steps.{Asks}
use modbusone.SimpleHandler.Transfer.{bools_transfer}

two_read : data_to_registers (0x12 ∷ 0x34 ∷ []) ≡ ok (0x1234 ∷ [])
unfolding data_to_registers
two_read = refl

data_to_bools_panics_example : data_to_bools [] 65530 15 ≡ panic
data_to_bools_panics_example =
    data_to_bools_panics 65530 15 (omega arith) (omega arith) (omega arith)

-- A device with two coils and two registers, which keeps the number of values that it was given.
abbrev coils : Reader ℕ Bool
coils address quantity s = (ok (true ∷ false ∷ true ∷ []), s)

abbrev set_coils : Writer ℕ Bool
set_coils address values s = (ok tt, s + length values)

abbrev registers : Reader ℕ ℕ
registers address quantity s = (ok (0x1234 ∷ 0xABCD ∷ []), s)

abbrev set_registers : Writer ℕ ℕ
set_registers address values s = (ok tt, s + length values)

abbrev device : SimpleHandler ℕ
device = record {
  read_discrete_inputs = none;
  write_discrete_inputs = none;
  read_coils = some coils;
  write_coils = some set_coils;
  read_input_registers = none;
  write_input_registers = none;
  read_holding_registers = some registers;
  write_holding_registers = some set_registers;
  on_error_imp = none;
}

abbrev coils_request : Pdu
coils_request = 1 ∷ 0 ∷ 19 ∷ 0 ∷ 2 ∷ []

abbrev registers_request : Pdu
registers_request = 3 ∷ 0 ∷ 19 ∷ 0 ∷ 2 ∷ []

coils_asked : Asks coils_request 1 19 2
unfolding get_function_code get_address get_request_count is_single big_endian
coils_asked = record { code = refl; address = refl; count = refl }

registers_asked : Asks registers_request 3 19 2
unfolding get_function_code get_address get_request_count is_single big_endian
registers_asked = record { code = refl; address = refl; count = refl }

one_is_bool : is_bool 1 ≡ true
unfolding is_bool
one_is_bool = refl

three_is_uint16 : is_uint16 3 ≡ true
unfolding is_uint16
three_is_uint16 = refl

bools_transfer_example :
    (bytes : List ℕ) × (on_read device coils_request 0 ≡ (ok bytes, 0))
    × (length bytes ≡ request_bytes 1 2)
    × (on_write device coils_request bytes 5 ≡ set_coils 19 (true ∷ false ∷ []) 5)
bools_transfer_example =
    bools_transfer device device 0 0 5 coils_asked coils_asked coils set_coils
      (true ∷ false ∷ true ∷ []) one_is_bool (omega arith) refl refl refl (omega arith)
