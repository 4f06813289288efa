-- ===== src/Data.antt =====
-- data.go: the data part of a PDU as bools or registers.
mod Bits
pub mod Pack
pub mod Bools
pub mod Safe
pub mod Registers
use modbusone.Base.{
  ℕ, zero, suc, ◌+◌, ◌-◌, ◌*◌, ◌/◌, ◌%◌, ◌^◌, Bool, true, false, ◌&&◌, ◌||◌, not, ltb, leb, ◌==◌,
  List, [], ◌∷◌, ◌++◌, length, set, take, replicate, if◌then◌else◌, u8, u16, bit_and, bit_or,
  Result, ok, err, panic, fail_if, ◌>>=◌, ◌>>◌, Error, exception, message,
}
use modbusone.FunctionCode.{fc_write_single_coil, ec_illegal_data_value}

-- The inner loop over `j`, for the `k` rounds that are left of eight: `int(data[i]) & (1 << j) > 0`.
unfoldable pub byte_bools : ℕ → ℕ → List Bool
byte_bools zero b = []
byte_bools (suc k) b = ltb 0 (bit_and b (2 ^ (8 - suc k))) ∷ byte_bools k b

-- The outer loop over `i`. The bools of byte `i` go to the indices from `i * 8`, in order.
unfoldable pub all_bools : List ℕ → List Bool
unfolding byte_bools
all_bools [] = []
all_bools (b ∷ bytes) = byte_bools 8 b ++ all_bools bytes

-- `r[:count]`, where the capacity of `r` is its length.
unfoldable pub first_bools : List Bool → ℕ → Result (List Bool)
first_bools r count = if leb count (length r) then ok (take count r) else panic

-- The two bytes of a single coil.
unfoldable pub single_coil : List ℕ → Result (List Bool)
single_coil (b₀ ∷ b₁ ∷ []) =
    if not (b₁ == 0)
    then err (exception ec_illegal_data_value)
    else if b₀ == 0
    then ok (false ∷ [])
    else if b₀ == 0xff
    then ok (true ∷ [])
    else err (exception ec_illegal_data_value)
single_coil _ = err (exception ec_illegal_data_value)

-- `DataToBools`. The sum `count+7` is one of uint16.
unfoldable pub data_to_bools : List ℕ → ℕ → ℕ → Result (List Bool)
unfolding single_coil all_bools first_bools
data_to_bools bytes count fc =
    if fc == fc_write_single_coil
    then single_coil bytes
    else if not (u16 (count + 7) / 8 == u16 (length bytes))
    then err (exception ec_illegal_data_value)
    else first_bools (all_bools bytes) count

-- The loop over the values, with the bytes written so far. The list is what the loop has not
-- reached, so `v+1 == count` is that nothing is left behind the value.
unfoldable pub pack_loop : List Bool → List ℕ → ℕ → ℕ → ℕ → List ℕ
pack_loop [] bytes byte_nr bit_nr byte_val = bytes
pack_loop (v ∷ rest) bytes byte_nr bit_nr byte_val =
    let byte_val' = if v then bit_or byte_val (u8 (2 ^ bit_nr)) else byte_val in
    let next_byte = pack_loop rest (set bytes byte_nr byte_val') (byte_nr + 1) 0 0 in
    let last_bit = pack_loop rest (set bytes byte_nr byte_val') byte_nr bit_nr byte_val' in
    let next_bit = pack_loop rest bytes byte_nr (u8 (bit_nr + 1)) byte_val' in
    if bit_nr == 7 then next_byte else if length rest == 0 then last_bit else next_bit

-- `values[0]` as the two bytes of a single coil.
unfoldable pub coil_bytes : Bool → List ℕ
coil_bytes true = 0xff ∷ 0x00 ∷ []
coil_bytes false = 0x00 ∷ 0x00 ∷ []

unfoldable pub one_coil : List Bool → Result (List ℕ)
unfolding coil_bytes
one_coil (v ∷ []) = ok (coil_bytes v)
one_coil _ = err message

-- `BoolsToData`
unfoldable pub bools_to_data : List Bool → ℕ → Result (List ℕ)
unfolding pack_loop one_coil
bools_to_data values fc =
    if fc == fc_write_single_coil
    then one_coil values
    else ok (pack_loop values (replicate ((length values + 7) / 8) 0) 0 0 0)

-- The loop of `DataToRegisters`, over an even number of bytes.
unfoldable pub registers_loop : List ℕ → List ℕ
registers_loop (hi ∷ lo ∷ rest) = (hi * 256 + lo) ∷ registers_loop rest
registers_loop _ = []

-- `DataToRegisters`. `BigEndian.Uint16` of two bytes is their number to the base 256.
unfoldable pub data_to_registers : List ℕ → Result (List ℕ)
unfolding registers_loop
data_to_registers bytes =
    if ltb (length bytes) 2 || not (length bytes % 2 == 0)
    then err (exception ec_illegal_data_value)
    else ok (registers_loop bytes)

-- The loop of `RegistersToData`, with `PutUint16` for each value.
unfoldable pub register_bytes : List ℕ → List ℕ
register_bytes [] = []
register_bytes (v ∷ values) = u8 (v / 256) ∷ u8 v ∷ register_bytes values

-- `RegistersToData`
unfoldable pub registers_to_data : List ℕ → Result (List ℕ)
unfolding register_bytes
registers_to_data values = ok (register_bytes values)
