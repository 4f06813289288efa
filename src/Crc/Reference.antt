-- ===== src/Crc/Reference.antt =====
-- The tables against the definition of CRC-16/MODBUS: the reflected polynomial 0xA001, one bit at
-- a time, from the register 0xFFFF.
use modbusone.Base.{
  ℕ, zero, suc, ◌+◌, ◌*◌, ◌/◌, ◌%◌, ◌^◌, ◌<◌, ◌≡◌, refl, sym, ap, bit_xor, List, [], ◌∷◌, get_or,
  All, IsByte, ltb, ltb→lt, ◌==◌, if◌then◌else◌, arith,
}
use modbusone.Base.Bits.{
  bit_xor-half, bit_xor-parity, bit_xor_assoc, bit_xor_comm, bit_xor-lt, bit_xor_shifted,
  holds_below, holds_at, agree_below,
}
use native.Mathlib.Nat.{pow-suc}
use modbusone.Crc.{Crc, reset, write_byte, write}
use modbusone.Crc.Table.{crc_high_bytes, crc_low_bytes}

-- One bit: shift right, and take the polynomial in where a one falls out.
unfoldable pub shift : ℕ → ℕ
shift r = if r % 2 == 1 then bit_xor (r / 2) 0xA001 else r / 2

unfoldable pub rounds : ℕ → ℕ → ℕ
rounds zero r = r
rounds (suc k) r = rounds k (shift r)

unfoldable pub crc16 : ℕ → List ℕ → ℕ
unfolding rounds shift
crc16 r [] = r
crc16 r (b ∷ bs) = crc16 (rounds 8 (bit_xor r b)) bs

-- The 16-bit register that the struct holds in two bytes.
abbrev pub register : Crc → ℕ
register c = c.high * 256 + c.low

pub record IsReg (c : Crc) : Type 0 where
  pub high : IsByte c.high
  pub low : IsByte c.low

half-double : (h y : ℕ) → bit_xor (h * 2) y / 2 ≡ bit_xor h (y / 2)
half-double h y = rw bit_xor-half (ap (λ (t : ℕ). bit_xor t (y / 2)) (omega arith))

-- What stands above the lowest bit only moves down.
shift-double : (h y : ℕ) → shift (bit_xor (h * 2) y) ≡ bit_xor h (shift y)
unfolding shift
shift-double h y =
    ground (arith, half-double h y, bit_xor-parity (h * 2) y, bit_xor_assoc h (y / 2) 0xA001)

double_shifted : (k h : ℕ) → h * 2 ^ suc k ≡ h * 2 ^ k * 2
double_shifted k h = omega (arith, ap (λ (t : ℕ). h * t) (pow-suc 2 k))

rounds-shifted : (k h y : ℕ) → rounds k (bit_xor (h * 2 ^ k) y) ≡ bit_xor h (rounds k y)
unfolding rounds
rounds-shifted zero h y = ap (λ (t : ℕ). bit_xor t y) (omega arith)
rounds-shifted (suc k) h y =
    rw (double_shifted k h, shift-double (h * 2 ^ k) y) (rounds-shifted k h (shift y))

-- Entry for entry, the tables hold the eight-round image of their index.
tables_lem :
    (i : ℕ) → i < 256 → rounds 8 i ≡ get_or crc_low_bytes i 0 * 256 + get_or crc_high_bytes i 0
unfolding rounds shift crc_low_bytes crc_high_bytes holds_below
tables_lem =
    agree_below 256 (rounds 8) (λ i. get_or crc_low_bytes i 0 * 256 + get_or crc_high_bytes i 0)
      refl

-- The entries are bytes.
pub low_bytes-IsByte : (i : ℕ) → i < 256 → get_or crc_low_bytes i 0 < 256
unfolding crc_low_bytes holds_below
low_bytes-IsByte i h =
    ltb→lt _ 256 (holds_at (λ j. ltb (get_or crc_low_bytes j 0) 256) 256 refl i h)

pub high_bytes-IsByte : (i : ℕ) → i < 256 → get_or crc_high_bytes i 0 < 256
unfolding crc_high_bytes holds_below
high_bytes-IsByte i h =
    ltb→lt _ 256 (holds_at (λ j. ltb (get_or crc_high_bytes j 0) 256) 256 refl i h)

pub write_byte-IsReg : (c : Crc) (b : ℕ) → IsReg c → IsByte b → IsReg (write_byte c b)
unfolding write_byte
write_byte-IsReg c b h hb =
    let idx : bit_xor c.low b < 256 = bit_xor-lt 8 c.low b h.low hb in
    record {
      high = low_bytes-IsByte _ idx;
      low = bit_xor-lt 8 c.high _ h.high (high_bytes-IsByte _ idx);
    }

pub IsReg-reset : IsReg reset
IsReg-reset = omega arith

pub write-IsReg : (c : Crc) (bs : List ℕ) → IsReg c → All IsByte bs → IsReg (write c bs)
unfolding write
write-IsReg c [] h hs = h
write-IsReg c (b ∷ bs) h (hb, hs) = write-IsReg (write_byte c b) bs (write_byte-IsReg c b h hb) hs

-- The register with a byte taken in, and the high byte apart.
split_register :
    (c : Crc) (b : ℕ)
    → IsReg c
    → bit_xor (register c) b ≡ bit_xor (c.high * 2 ^ 8) (bit_xor c.low b)
split_register c b h =
    rw (← bit_xor_shifted 8 c.high c.low h.low) (bit_xor_assoc (c.high * 2 ^ 8) c.low b)

-- A byte joins the low byte of a register.
xor_low_byte : (x l h : ℕ) → x < 256 → h < 256 → bit_xor x (l * 2 ^ 8 + h) ≡ l * 2 ^ 8 + bit_xor x h
xor_low_byte x l h hx hh =
    rw
      (
        ← bit_xor_shifted 8 l h hh,
        ← bit_xor_assoc x (l * 2 ^ 8) h,
        bit_xor_comm x (l * 2 ^ 8),
        bit_xor_assoc (l * 2 ^ 8) x h,
      )
      (bit_xor_shifted 8 l (bit_xor x h) (bit_xor-lt 8 x h hx hh))

-- One round by the tables is eight rounds by the polynomial.
write_byte-register :
    (c : Crc) (b : ℕ)
    → IsReg c
    → IsByte b
    → register (write_byte c b) ≡ rounds 8 (bit_xor (register c) b)
unfolding write_byte
write_byte-register c b h hb =
    let idx : bit_xor c.low b < 256 = bit_xor-lt 8 c.low b h.low hb in
    rw (split_register c b h, rounds-shifted 8 c.high (bit_xor c.low b), tables_lem _ idx)
      (sym (xor_low_byte c.high _ _ h.high (high_bytes-IsByte _ idx)))

write-register :
    (c : Crc) (bs : List ℕ)
    → IsReg c
    → All IsByte bs
    → register (write c bs) ≡ crc16 (register c) bs
unfolding write crc16
write-register c [] h hs = refl
write-register c (b ∷ bs) h (hb, hs) =
    rw (← write_byte-register c b h hb)
      (write-register (write_byte c b) bs (write_byte-IsReg c b h hb) hs)

-- On any bytes, the table-driven `write` from a fresh state computes the CRC-16 of the polynomial
-- 0xA001 taken one bit at a time from the register 0xFFFF: `crc16` is its high byte times 256 plus
-- its low byte.
pub write-eq-crc16 : (bs : List ℕ) → All IsByte bs → register (write reset bs) ≡ crc16 0xFFFF bs
write-eq-crc16 bs h = write-register reset bs IsReg-reset h
