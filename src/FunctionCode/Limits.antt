-- ===== src/FunctionCode/Limits.antt =====
-- The limits on the number of values in one packet: `MaxPerPacket` and `MaxPerPacketSized`.
use modbusone.Base.{
  ℕ, ◌+◌, ◌*◌, ◌/◌, ◌%◌, ◌≤◌, ◌<◌, ◌≡◌, ◌≢◌, ◌⊎◌, ◌↔◌, inl, inr, true, not, if◌then◌else◌, arith,
}
use modbusone.Base.Bits.{low_seven}
use modbusone.Base.Int.{pos, negsuc}
use modbusone.OverSize.{max_pdu_size}
use modbusone.FunctionCode.{
  valid, max_per_packet, max_per_packet_sized, is_uint16, is_bool, is_single, is_write_to_server,
  is_read_to_server, separate_error, with_error, fc_read_holding_registers,
}

-- The function codes that the package implements, as an enumeration for case splits.
pub data Code : Type 0 where
  read_coils read_discrete_inputs read_holding_registers read_input_registers : Code
  write_single_coil write_single_register write_multiple_coils write_multiple_registers : Code

abbrev pub number : Code → ℕ
number read_coils = 1
number read_discrete_inputs = 2
number read_holding_registers = 3
number read_input_registers = 4
number write_single_coil = 5
number write_single_register = 6
number write_multiple_coils = 15
number write_multiple_registers = 16

abbrev OneOf : ℕ → Type 0
OneOf f =
    (f ≡ 1) ⊎ ((f ≡ 2) ⊎ ((f ≡ 3) ⊎ ((f ≡ 4) ⊎ ((f ≡ 5) ⊎ ((f ≡ 6) ⊎ ((f ≡ 15) ⊎ (f ≡ 16)))))))

OneOf→Code : (f : ℕ) → OneOf f → (c : Code) × (f ≡ number c)
OneOf→Code f (inl e) = (read_coils, e)
OneOf→Code f (inr (inl e)) = (read_discrete_inputs, e)
OneOf→Code f (inr (inr (inl e))) = (read_holding_registers, e)
OneOf→Code f (inr (inr (inr (inl e)))) = (read_input_registers, e)
OneOf→Code f (inr (inr (inr (inr (inl e))))) = (write_single_coil, e)
OneOf→Code f (inr (inr (inr (inr (inr (inl e)))))) = (write_single_register, e)
OneOf→Code f (inr (inr (inr (inr (inr (inr (inl e))))))) = (write_multiple_coils, e)
OneOf→Code f (inr (inr (inr (inr (inr (inr (inr e))))))) = (write_multiple_registers, e)

valid→OneOf : (f : ℕ) → valid f ≡ true → OneOf f
unfolding valid
valid→OneOf f h = ground arith

supported→OneOf : (f : ℕ) → max_per_packet f ≢ 0 → OneOf f
unfolding max_per_packet
supported→OneOf f h = ground arith

-- `Valid` accepts only codes of the enumeration, and so does a limit that is not 0.
pub valid→Code : (f : ℕ) → valid f ≡ true → (c : Code) × (f ≡ number c)
valid→Code f h = OneOf→Code f (valid→OneOf f h)

pub supported→Code : (f : ℕ) → max_per_packet f ≢ 0 → (c : Code) × (f ≡ number c)
supported→Code f h = OneOf→Code f (supported→OneOf f h)

-- A code has a limit above 0 exactly when it is valid.
pub valid-max_per_packet : (f : ℕ) → (valid f ≡ true) ↔ (0 < max_per_packet f)
unfolding valid max_per_packet
valid-max_per_packet f = (λ h. ground arith, λ h. ground arith)

-- A valid code is either a read or a write, and concerns either 16-bit or Boolean values.
pub classified :
    (f : ℕ)
    → valid f ≡ true
    → (is_read_to_server f ≡ not (is_write_to_server f)) × (is_uint16 f ≡ not (is_bool f))
unfolding valid is_read_to_server is_write_to_server is_uint16 is_bool
classified f h = (ground arith, ground arith)

-- The bytes of `q` values.
abbrev pub data_bytes : ℕ → ℕ → ℕ
data_bytes f q = if is_uint16 f then 2 * q else (q + 7) / 8

-- The bytes of the packet that carries `q` values: the reply of a read, the request of a write.
abbrev pub packet_bytes : ℕ → ℕ → ℕ
packet_bytes f q =
    if is_single f then 5 else (if is_read_to_server f then 2 else 6) + data_bytes f q

-- For a supported function code, which is one of the eight of `Code`, and a size of 10 bytes at least,
-- `MaxPerPacketSized` is at least one and at most `MaxPerPacket`, and the packet that carries that many values fits both the size and `MaxPDUSize`.
pub sized-fits :
    (c : Code) (n : ℕ)
    → 10 ≤ n
    → let q = max_per_packet_sized (number c) (pos n) in
      (1 ≤ q)
      × (q ≤ max_per_packet (number c))
      × (packet_bytes (number c) q ≤ n)
      × (packet_bytes (number c) q ≤ max_pdu_size)
unfolding max_per_packet_sized max_per_packet is_single is_read_to_server is_uint16
sized-fits read_coils n h = ground arith
sized-fits _ n h = ground arith

-- From `MaxPDUSize` on, `MaxPerPacketSized` is `MaxPerPacket`, for every code, supported or not.
pub sized_full : (f n : ℕ) → max_pdu_size ≤ n → max_per_packet_sized f (pos n) ≡ max_per_packet f
unfolding max_per_packet_sized max_per_packet
sized_full f n h = ground arith

-- A negative size is not cut to a small limit but wraps around: down to -65282, the limit for
-- reading registers is above `MaxPerPacket`.
pub sized_negative :
    (n : ℕ)
    → n < 65282
    → max_per_packet fc_read_holding_registers
      < max_per_packet_sized fc_read_holding_registers (negsuc n)
unfolding max_per_packet_sized max_per_packet
sized_negative n h = ground arith

-- `SeparateError` takes off the flag that `WithError` sets, on every code without it.
pub separate_error-with_error : (f : ℕ) → f < 128 → separate_error (with_error f) ≡ (true, f)
unfolding separate_error with_error
separate_error-with_error f h = ground (arith, low_seven ((f + 128) % 256))
