-- ===== src/Crc.antt =====
-- The package crc (crc/crc.go, crc/rtu.go): the running CRC-16 of Modbus, by tables.
pub mod Table
pub mod Reference
pub mod Frame
pub mod Detect
use modbusone.Base.{
  ℕ, List, [], ◌∷◌, ◌++◌, bit_xor, length, get_or, take, leb, ◌+◌, ◌*◌, ◌-◌, Bool, false, ◌&&◌,
  ◌==◌, if◌then◌else◌,
}
use Table.{crc_high_bytes, crc_low_bytes}

-- The struct `crc`.
pub record Crc : Type 0 where
  pub high : ℕ
  pub low : ℕ

-- `Reset`, and the state of a hash that `New` returns.
abbrev pub reset : Crc
reset = record { high = 0xff; low = 0xff }

-- One round of the loop of `Write`. The index is a byte, and the tables have 256 entries.
unfoldable pub write_byte : Crc → ℕ → Crc
write_byte c b =
    let idx = bit_xor c.low b in
    record { low = bit_xor c.high (get_or crc_high_bytes idx 0); high = get_or crc_low_bytes idx 0 }

unfoldable pub write : Crc → List ℕ → Crc
write c [] = c
write c (b ∷ bs) = write (write_byte c b) bs

-- The method `Sum`: it works on a copy of the state.
unfoldable pub sum_from : Crc → List ℕ → List ℕ
sum_from c0 bs = let c = write c0 bs in bs ++ (c.low ∷ c.high ∷ [])

-- `Sum16`, of two bytes.
unfoldable pub sum16 : Crc → ℕ
sum16 c = c.low * 256 + c.high

-- The function `Sum` of crc/rtu.go.
unfoldable pub sum : List ℕ → List ℕ
unfolding sum_from
sum bs = sum_from reset bs

-- `bs[length-2]` and `bs[length-1]` are in range once the length is above 2.
unfoldable pub validate : List ℕ → Bool
validate bs =
    let n = length bs in
    let c = write reset (take (n - 2) bs) in
    if leb n 2 then false else get_or bs (n - 2) 0 == c.low && get_or bs (n - 1) 0 == c.high
