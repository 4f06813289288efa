-- ===== src/Pdu.antt =====
-- The type `PDU` of modbus.go and its methods. A PDU is the list of its bytes. An index or a slice
-- bound out of range is a panic. Results are values: no operation is seen to share a byte array with
-- its argument, except that `make_write_request` is given the bytes behind the PDU in its array.
pub mod Fields
pub mod Header
pub mod Values
pub mod Reply
pub mod Sent
use modbusone.Base.{
  ℕ, zero, suc, ◌+◌, ◌-◌, ◌*◌, ◌/◌, ◌%◌, ◌^◌, Bool, true, false, ◌&&◌, ◌||◌, not, ltb, leb, ◌==◌,
  List, [], ◌∷◌, ◌++◌, Option, none, some, length, get_elem?, take, drop, if◌then◌else◌, u8, u16,
  bit_or, Result, fail_if, ok, err, panic, ◌>>=◌, ◌>>◌, Error, exception, fc_not_supported,
  crc_invalid, io_failure, message, wrap,
}
use modbusone.FunctionCode.{
  valid, is_single, is_uint16, max_range, ec_illegal_function, ec_illegal_data_address,
  ec_illegal_data_value, ec_server_device_failure, fc_write_single_coil, fc_write_single_register,
  fc_write_multiple_coils, fc_write_multiple_registers,
}
use modbusone.OverSize.{OverSize}

abbrev pub Pdu : Type 0
Pdu = List ℕ

-- `p[i]`
abbrev pub at : List ℕ → ℕ → Result ℕ
at [] i = panic
at (x ∷ xs) zero = ok x
at (x ∷ xs) (suc i) = at xs i

-- `p[n:]`
abbrev pub slice_from : List ℕ → ℕ → Result (List ℕ)
slice_from p n = if leb n (length p) then ok (drop n p) else panic

-- `p[:n]`, where `spare` is what the array of `p` holds behind `p`, up to the slice's capacity.
abbrev pub slice_to : List ℕ → List ℕ → ℕ → Result (List ℕ)
slice_to p spare n = if leb n (length (p ++ spare)) then ok (take n (p ++ spare)) else panic

-- `uint16(hi)<<8 | uint16(lo)`
unfoldable pub big_endian : ℕ → ℕ → ℕ
big_endian hi lo = bit_or (u16 (hi * 2 ^ 8)) lo

-- `ToExceptionCode`: what `errors.As` finds on the chain of an error, or what `errors.Is` does.
unfoldable pub as_exception : Error → Option ℕ
as_exception (exception e) = some e
as_exception (wrap e) = as_exception e
as_exception _ = none

unfoldable pub is_fc_not_supported : Error → Bool
is_fc_not_supported fc_not_supported = true
is_fc_not_supported (wrap e) = is_fc_not_supported e
is_fc_not_supported _ = false

-- The argument is `none` for nil.
unfoldable pub to_exception_code : Option Error → ℕ
to_exception_code none = ec_server_device_failure
to_exception_code (some error) = elim (as_exception error) [
  | some e ↦ e
  | none ↦ if is_fc_not_supported error then ec_illegal_function else ec_server_device_failure
]

-- `GetFunctionCode`
unfoldable pub get_function_code : Pdu → ℕ
get_function_code [] = 0
get_function_code (f ∷ p) = f

-- `ExceptionReplyPacket`
unfoldable pub exception_reply_packet : Pdu → ℕ → Pdu
exception_reply_packet req e = bit_or (get_function_code req) 0x80 ∷ e ∷ []

-- `MatchPDU`
unfoldable pub match_pdu : Pdu → Pdu → Bool
match_pdu ask ans = get_function_code ask == get_function_code ans % 128

-- `ValidateRequest`
unfoldable pub validate_request : Pdu → Result (Unit {0})
unfolding valid get_function_code
validate_request p =
    if not (valid (get_function_code p))
    then err (exception ec_illegal_function)
    else if ltb (length p) 3
    then err (exception ec_illegal_data_address)
    else ok tt

-- `GetAddress`
unfoldable pub get_address : Pdu → Result ℕ
get_address p = do hi ← at p 1; lo ← at p 2; ok (big_endian hi lo)

-- `GetRequestCount`
unfoldable pub get_request_count : Pdu → Result ℕ
get_request_count p =
    if is_single (get_function_code p)
    then ok 1
    else if ltb (length p) 5
    then err (exception ec_illegal_data_value)
    else (do hi ← at p 3; lo ← at p 4; ok (big_endian hi lo))

-- The end of `GetRequestValues`, for `lb` bytes that hold `l` values.
unfoldable pub checked_values : Pdu → ℕ → ℕ → Result (List ℕ)
checked_values p lb l =
    let expected = if is_uint16 (get_function_code p) then l * 2 else (l + 7) / 8 in
    if lb == expected then slice_from p 6 else err (exception ec_illegal_data_value)

-- `GetRequestValues`. The test `lb < 1` on `len(p) - 6` is one on the length.
unfoldable pub get_request_values : OverSize → Pdu → Result (List ℕ)
unfolding get_function_code checked_values get_request_count get_address
get_request_values o p =
    let f = get_function_code p in
    let lb = length p - 6 in
    if f == 0
    then err (exception ec_illegal_function)
    else if is_single f
    then (if length p == 5 then slice_from p 3 else err (exception ec_illegal_data_value))
    else if ltb (length p) 7
    then err (exception ec_illegal_data_value)
    else do
      declared ← at p 5
      fail_if (not (lb == declared) && not o.support) (exception ec_illegal_data_value)
      l ← get_request_count p
      address ← get_address p
      fail_if (ltb max_range (l + address)) (exception ec_illegal_data_address)
      checked_values p lb l

-- `GetReplyValues`. The test `l < 1` on `len(p) - 2` is one on the length.
unfoldable pub get_reply_values : Pdu → Result (List ℕ)
get_reply_values p =
    if ltb (length p) 3
    then err message
    else do declared ← at p 1; fail_if (not (length p - 2 == declared)) message; slice_from p 2

-- `MakeReadReply`
unfoldable pub make_read_reply : Pdu → List ℕ → Pdu
make_read_reply p values = get_function_code p ∷ u8 (length values) ∷ values

-- `MakeWriteRequest`. The result for other function codes is nil.
unfoldable pub make_write_request : Pdu → List ℕ → List ℕ → Result Pdu
make_write_request p spare values =
    let fc = get_function_code p in
    if fc == fc_write_single_coil || fc == fc_write_single_register
    then (do head ← slice_to p spare 3; ok (head ++ values))
    else if fc == fc_write_multiple_coils || fc == fc_write_multiple_registers
    then (do head ← slice_to p spare 6; ok (head ++ values))
    else ok []

-- `MakeWriteReply`
unfoldable pub make_write_reply : Pdu → Pdu
make_write_reply p = if ltb 5 (length p) then take 5 p else p
