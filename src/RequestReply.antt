-- ===== src/RequestReply.antt =====
-- `IsRequestReply` of failover.go: whether two PDUs are a request and its reply. The settings
-- `o` are read by the sizes that are inferred from the two.
pub mod Sound
pub mod Total
use modbusone.Base.{
  ℕ, ◌+◌, ◌*◌, ◌/◌, Bool, true, false, not, ◌&&◌, ◌||◌, ◌==◌, List, [], ◌∷◌, length, if◌then◌else◌,
  u8, u16, Result, ok, err, panic, ◌>>=◌,
}
use modbusone.FunctionCode.{
  fc_read_coils, fc_read_discrete_inputs, fc_read_holding_registers, fc_read_input_registers,
  fc_write_single_coil, fc_write_single_register, fc_write_multiple_coils,
  fc_write_multiple_registers,
}
use modbusone.OverSize.{OverSize}
use modbusone.PacketSize.{get_pdu_size_from_header}
use modbusone.Pdu.{Pdu, at, slice_to, get_function_code, get_request_count}

-- `bytes.Equal`
unfoldable pub equal : List ℕ → List ℕ → Bool
equal [] [] = true
equal (x ∷ xs) (y ∷ ys) = x == y && equal xs ys
equal _ _ = false

-- The `switch` of the function, on the number `c` of values that the request asks for.
unfoldable pub header_matches : Pdu → Pdu → ℕ → Result Bool
header_matches r a c =
    let f = get_function_code r in
    if f == fc_read_coils || f == fc_read_discrete_inputs
    then (do n ← at a 1; ok (u8 (u16 (c + 7) / 8) == n))
    else if f == fc_read_holding_registers || f == fc_read_input_registers
    then (do n ← at a 1; ok (u8 (u16 (c * 2)) == n))
    else if f == fc_write_single_coil
        || f == fc_write_single_register
        || f == fc_write_multiple_coils
        || f == fc_write_multiple_registers
    then (do x ← slice_to r [] 5; y ← slice_to a [] 5; ok (equal x y))
    else ok false

-- The count, or an answer of no where `GetRequestCount` fails.
unfoldable pub with_count : Result ℕ → (ℕ → Result Bool) → Result Bool
with_count (ok c) k = k c
with_count (err e) k = ok false
with_count panic k = panic

unfoldable pub is_request_reply : OverSize → Pdu → Pdu → Result Bool
unfolding with_count header_matches equal
is_request_reply o r a =
    if not (get_function_code r == get_function_code a)
    then ok false
    else if not (get_pdu_size_from_header o r false == length r)
    then ok false
    else if not (get_pdu_size_from_header o a true == length a)
    then ok false
    else with_count (get_request_count r) (header_matches r a)
