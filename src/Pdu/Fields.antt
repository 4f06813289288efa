-- ===== src/Pdu/Fields.antt =====
-- The two-byte fields of a PDU.
use modbusone.Base.{bit_or, ℕ, ◌+◌, ◌*◌, ◌/◌, ◌%◌, ◌^◌, ◌<◌, ◌≡◌, u8, arith, ap}
use modbusone.Base.Bits.{bit_or_shifted}
use modbusone.Pdu.{big_endian}

pub big_endian_lem : (hi lo : ℕ) → hi < 256 → lo < 256 → big_endian hi lo ≡ hi * 256 + lo
unfolding big_endian
big_endian_lem hi lo h l = omega (arith, ap (λ (t : ℕ). bit_or t lo) same, bit_or_shifted 8 hi lo l)
  where
    same : hi * 2 ^ 8 % 65536 ≡ hi * 2 ^ 8
    same = omega arith

-- A uint16 is put together from its two bytes.
pub big_endian_split : (n : ℕ) → n < 65536 → big_endian (u8 (n / 256)) (u8 n) ≡ n
big_endian_split n h =
    omega (arith, big_endian_lem (u8 (n / 256)) (u8 n) (omega arith) (omega arith))
