-- ===== src/FunctionCode.antt =====
-- The function codes of modbus.go. A `FunctionCode` is a byte.
pub mod Limits
use modbusone.Base.{
  ℕ, zero, suc, ◌+◌, ◌-◌, ◌*◌, ◌/◌, ◌%◌, ◌≤◌, ◌<◌, Bool, true, false, ◌&&◌, ◌||◌, ltb, leb, ◌==◌,
  List, [], ◌∷◌, ◌++◌, if◌then◌else◌, u8, u16, bit_and, Result, ok, err, Error, exception, wrap,
}
use modbusone.Base.Int.{ℤ, pos, negsuc}
use modbusone.OverSize.{max_pdu_size}

abbrev pub fc_read_coils : ℕ
fc_read_coils = 1

abbrev pub fc_read_discrete_inputs : ℕ
fc_read_discrete_inputs = 2

abbrev pub fc_read_holding_registers : ℕ
fc_read_holding_registers = 3

abbrev pub fc_read_input_registers : ℕ
fc_read_input_registers = 4

abbrev pub fc_write_single_coil : ℕ
fc_write_single_coil = 5

abbrev pub fc_write_single_register : ℕ
fc_write_single_register = 6

abbrev pub fc_write_multiple_coils : ℕ
fc_write_multiple_coils = 15

abbrev pub fc_write_multiple_registers : ℕ
fc_write_multiple_registers = 16

-- `Valid`
unfoldable pub valid : ℕ → Bool
valid f = (ltb 0 f && ltb f 7) || (ltb 14 f && ltb f 17)

abbrev pub max_range : ℕ
max_range = 0xFFFF

unfoldable pub max_per_packet : ℕ → ℕ
max_per_packet f =
    if f == fc_read_coils || f == fc_read_discrete_inputs
    then 2000
    else if f == fc_read_holding_registers || f == fc_read_input_registers
    then 125
    else if f == fc_write_single_coil || f == fc_write_single_register
    then 1
    else if f == fc_write_multiple_coils
    then 0x07B0
    else if f == fc_write_multiple_registers
    then 0x007B
    else 0

-- `uint16(size)` of an `int`, after the cut to `MaxPDUSize`.
unfoldable pub clamp_size : ℤ → ℕ
clamp_size (pos n) = if ltb max_pdu_size n then max_pdu_size else u16 n
clamp_size (negsuc n) = u16 (65536 - u16 (n + 1))

-- `MaxPerPacketSized`. The subtractions follow a test that the size is at least what they take.
unfoldable pub max_per_packet_sized : ℕ → ℤ → ℕ
unfolding clamp_size
max_per_packet_sized f size =
    let s = clamp_size size in
    if f == fc_read_coils || f == fc_read_discrete_inputs
    then (if ltb s 4 then 8 else u16 (((if s == max_pdu_size then s - 1 else s) - 2) * 8))
    else if f == fc_read_holding_registers || f == fc_read_input_registers
    then (if ltb s 6 then 1 else (s - 2) / 2)
    else if f == fc_write_single_coil || f == fc_write_single_register
    then 1
    else if f == fc_write_multiple_coils
    then (if ltb s 8 then 8 else u16 (((if s == max_pdu_size then s - 1 else s) - 6) * 8))
    else if f == fc_write_multiple_registers
    then (if ltb s 10 then 1 else (s - 6) / 2)
    else 0

-- `IsUint16`
unfoldable pub is_uint16 : ℕ → Bool
is_uint16 f = f == 3 || f == 4 || f == 6 || f == 16

-- `IsBool`
unfoldable pub is_bool : ℕ → Bool
is_bool f = f == 1 || f == 2 || f == 5 || f == 15

-- `IsSingle`
unfoldable pub is_single : ℕ → Bool
is_single f = f == 5 || f == 6

-- `IsWriteToServer`
unfoldable pub is_write_to_server : ℕ → Bool
is_write_to_server f = f == 5 || f == 6 || f == 15 || f == 16 || f == 22 || f == 23

-- `IsReadToServer`
unfoldable pub is_read_to_server : ℕ → Bool
is_read_to_server f = f == 1 || f == 2 || f == 3 || f == 4 || f == 23

-- `SeparateError`
unfoldable pub separate_error : ℕ → Bool × ℕ
separate_error f = (ltb 0x7f f, bit_and f 0x7f)

-- `WithError`
unfoldable pub with_error : ℕ → ℕ
with_error f = u8 (f + 0x80)

abbrev pub ec_illegal_function : ℕ
ec_illegal_function = 1

abbrev pub ec_illegal_data_address : ℕ
ec_illegal_data_address = 2

abbrev pub ec_illegal_data_value : ℕ
ec_illegal_data_value = 3

abbrev pub ec_server_device_failure : ℕ
ec_server_device_failure = 4

-- `MakeRequestHeader`. The sum is taken in a uint32, where it cannot wrap.
unfoldable pub make_request_header : ℕ → ℕ → ℕ → Result (List ℕ)
unfolding max_per_packet is_single
make_request_header f address quantity =
    let header = f ∷ u8 (address / 256) ∷ u8 address ∷ [] in
    let counted = header ++ (u8 (quantity / 256) ∷ u8 quantity ∷ []) in
    if max_per_packet f == 0
    then err (wrap (exception ec_illegal_function))
    else if quantity == 0
    then err (wrap (exception ec_illegal_data_address))
    else if ltb (max_per_packet f) quantity
    then err (wrap (exception ec_illegal_data_address))
    else if ltb max_range (address + quantity)
    then err (wrap (exception ec_illegal_data_address))
    else if is_single f
    then ok header
    else if f == fc_write_multiple_coils
    then ok (counted ++ (u8 (u16 (quantity + 7) / 8) ∷ []))
    else if f == fc_write_multiple_registers
    then ok (counted ++ (u8 (u16 (quantity * 2)) ∷ []))
    else ok counted
