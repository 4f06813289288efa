-- ===== src/SimpleHandler.antt =====
-- The type `SimpleHandler` of simple_handler.go: functions of the user on values, by kind.
pub mod Steps
pub mod Transfer
use modbusone.Base.{
  ℕ, Bool, ◌||◌, ltb, ◌==◌, List, Option, none, some, length, take, if◌then◌else◌, Result, ok, err,
  panic, ◌>>=◌, exception, fc_not_supported,
}
use modbusone.Data.{bools_to_data, data_to_bools, registers_to_data, data_to_registers}
use modbusone.FunctionCode.{
  fc_read_coils, fc_read_discrete_inputs, fc_read_holding_registers, fc_read_input_registers,
  fc_write_single_coil, fc_write_single_register, fc_write_multiple_coils,
  fc_write_multiple_registers, ec_server_device_failure,
}
use modbusone.Handler.{Action, ProtocolHandler, and_then}
use modbusone.Pdu.{Pdu, get_function_code, get_address, get_request_count}

-- A function that gives values of an address and a quantity, and one that takes them.
abbrev pub Reader {ℓ} : Type ℓ → Type 0 → Type ℓ
Reader S A = ℕ → ℕ → Action S (List A)

abbrev pub Writer {ℓ} : Type ℓ → Type 0 → Type ℓ
Writer S A = ℕ → List A → Action S (Unit {0})

-- A field is `none` for a nil function.
pub record SimpleHandler {ℓ} (S : Type ℓ) : Type ℓ where
  pub read_discrete_inputs : Option (Reader S Bool)
  pub write_discrete_inputs : Option (Writer S Bool)
  pub read_coils : Option (Reader S Bool)
  pub write_coils : Option (Writer S Bool)
  pub read_input_registers : Option (Reader S ℕ)
  pub write_input_registers : Option (Writer S ℕ)
  pub read_holding_registers : Option (Reader S ℕ)
  pub write_holding_registers : Option (Writer S ℕ)
  pub on_error_imp : Option (Pdu → Pdu → S → S)

-- `checkValues`, on what a function of the user returned.
unfoldable pub check_values : {A : Type 0} → Result (List A) → ℕ → Result (List A)
check_values returned count = returned >>= λ values.
    if ltb count (length values)
    then ok (take count values)
    else if ltb (length values) count
    then err (exception ec_server_device_failure)
    else ok values

-- The body of a case of the `switch` in `OnRead`: the bytes of the values that are read.
unfoldable pub read_bytes {ℓ} :
    {S : Type ℓ} {A : Type 0}
    → Option (Reader S A)
    → (List A → Result (List ℕ))
    → ℕ
    → ℕ
    → Action S (List ℕ)
unfolding check_values
read_bytes none encode address count s = (err fc_not_supported, s)
read_bytes (some read) encode address count s =
    let (returned, s') = read address count s in
    ((do values ← check_values returned count; encode values), s')

-- The body of a case of the `switch` in `OnWrite`: the values of the bytes are written.
unfoldable pub write_values {ℓ} :
    {S : Type ℓ} {A : Type 0} → Option (Writer S A) → Result (List A) → ℕ → Action S (Unit {0})
write_values none values address s = (err fc_not_supported, s)
write_values (some write) values address s = and_then values (write address) s

-- The address, which may panic, and the count of a request.
unfoldable pub asked : Pdu → Result (ℕ × ℕ)
asked req = do address ← get_address req; count ← get_request_count req; ok (address, count)

-- The `switch` of `OnRead`.
unfoldable pub read_by {ℓ} : {S : Type ℓ} → SimpleHandler S → ℕ → ℕ × ℕ → Action S (List ℕ)
unfolding read_bytes
read_by h fc (address, count) s =
    let bools = λ (values : List Bool). bools_to_data values fc in
    if fc == fc_read_discrete_inputs
    then read_bytes h.read_discrete_inputs bools address count s
    else if fc == fc_read_coils || fc == fc_write_single_coil || fc == fc_write_multiple_coils
    then read_bytes h.read_coils bools address count s
    else if fc == fc_read_input_registers
    then read_bytes h.read_input_registers registers_to_data address count s
    else if fc == fc_read_holding_registers
        || fc == fc_write_single_register
        || fc == fc_write_multiple_registers
    then read_bytes h.read_holding_registers registers_to_data address count s
    else (err fc_not_supported, s)

-- `OnRead`
unfoldable pub on_read {ℓ} : {S : Type ℓ} → SimpleHandler S → Pdu → Action S (List ℕ)
unfolding asked read_by
on_read h req = and_then (asked req) (read_by h (get_function_code req))

-- The `switch` of `OnWrite`. A test of nil is before the data is looked at.
unfoldable pub write_by {ℓ} :
    {S : Type ℓ} → SimpleHandler S → ℕ → List ℕ → ℕ × ℕ → Action S (Unit {0})
unfolding write_values
write_by h fc bytes (address, count) s =
    if fc == fc_read_discrete_inputs
    then write_values h.write_discrete_inputs (data_to_bools bytes count fc) address s
    else if fc == fc_read_coils || fc == fc_write_single_coil || fc == fc_write_multiple_coils
    then write_values h.write_coils (data_to_bools bytes count fc) address s
    else if fc == fc_read_input_registers
    then write_values h.write_input_registers (data_to_registers bytes) address s
    else if fc == fc_read_holding_registers
        || fc == fc_write_single_register
        || fc == fc_write_multiple_registers
    then write_values h.write_holding_registers (data_to_registers bytes) address s
    else (err fc_not_supported, s)

-- `OnWrite`
unfoldable pub on_write {ℓ} : {S : Type ℓ} → SimpleHandler S → Pdu → List ℕ → Action S (Unit {0})
unfolding asked write_by
on_write h req bytes = and_then (asked req) (write_by h (get_function_code req) bytes)

-- `OnError`
unfoldable pub on_error {ℓ} : {S : Type ℓ} → SimpleHandler S → Pdu → Pdu → S → S
on_error h req reply s = elim h.on_error_imp [ none ↦ s | some f ↦ f req reply s ]

-- A `SimpleHandler` as a `ProtocolHandler`.
abbrev pub protocol {ℓ} : {S : Type ℓ} → SimpleHandler S → ProtocolHandler S
protocol h = record { on_read = on_read h; on_write = on_write h; on_error = on_error h }
