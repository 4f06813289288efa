-- ===== src/ExceptionCode.antt =====
-- The exception codes of modbus.go that the other modules do not name, and their text. A code is a byte.
use modbusone.Base.{ℕ, ◌+◌, ◌/◌, ◌%◌, ◌≡◌, ◌<◌, List, [], ◌∷◌, ltb, if◌then◌else◌, arith, u8}

abbrev pub ec_ok : ℕ
ec_ok = 0

abbrev pub ec_internal : ℕ
ec_internal = 255

abbrev pub ec_acknowledge : ℕ
ec_acknowledge = 5

abbrev pub ec_server_device_busy : ℕ
ec_server_device_busy = 6

abbrev pub ec_memory_parity_error : ℕ
ec_memory_parity_error = 8

abbrev pub ec_gateway_path_unavailable : ℕ
ec_gateway_path_unavailable = 10

abbrev pub ec_gateway_target_device_failed_to_respond : ℕ
ec_gateway_target_device_failed_to_respond = 11

-- A digit of "%02X".
abbrev hex_digit : ℕ → ℕ
hex_digit d = if ltb d 10 then b'0' + d else 55 + d

-- `Error`: the characters of "ExceptionCode:0x" and two digits.
unfoldable pub error_text : ℕ → List ℕ
error_text e =
    b'E'
    ∷ b'x'
    ∷ b'c'
    ∷ b'e'
    ∷ b'p'
    ∷ b't'
    ∷ b'i'
    ∷ b'o'
    ∷ b'n'
    ∷ b'C'
    ∷ b'o'
    ∷ b'd'
    ∷ b'e'
    ∷ b':'
    ∷ b'0'
    ∷ b'x'
    ∷ hex_digit (u8 e / 16)
    ∷ hex_digit (u8 e % 16)
    ∷ []

-- No two codes have the same text.
error_text_injective : (a b : ℕ) → a < 256 → b < 256 → error_text a ≡ error_text b → a ≡ b
unfolding error_text
error_text_injective a b ha hb e = ground arith
