-- ===== src/Rtu.antt =====
-- The type `RTU` of serial_rtu.go: a slave id, a PDU and two bytes of checksum.
pub mod Frame
use modbusone.Base.{
  ℕ, ◌-◌, Bool, true, false, not, ltb, leb, ◌==◌, List, [], ◌∷◌, length, take, drop, if◌then◌else◌,
  Result, ok, err, panic, crc_invalid, message,
}
use modbusone.Crc
use modbusone.Pdu.{Pdu}

abbrev pub Rtu : Type 0
Rtu = List ℕ

pub record RtuHeader : Type 0 where
  pub slave_id : ℕ
  pub pdu : Pdu

abbrev pub smallest_rtu_size : ℕ
smallest_rtu_size = 5

-- `MakeRTU`
unfoldable pub make_rtu : ℕ → Pdu → Rtu
make_rtu slave_id p = Crc.sum (slave_id ∷ p)

-- `GetSlaveID`
unfoldable pub get_slave_id : Rtu → ℕ
get_slave_id [] = 255
get_slave_id (s ∷ r) = s

-- `IsMulticast`
unfoldable pub is_multicast : Rtu → Bool
is_multicast [] = false
is_multicast (s ∷ r) = s == 0

-- `fastGetPDU`: the slice `r[1 : len(r)-2]`, which panics below three bytes.
unfoldable pub fast_get_pdu : Rtu → Result Pdu
fast_get_pdu r = if ltb (length r) 3 then panic else ok (take (length r - 3) (drop 1 r))

-- `GetPDU`
unfoldable pub get_pdu : Rtu → Result Pdu
unfolding fast_get_pdu
get_pdu r =
    if ltb (length r) smallest_rtu_size
    then err message
    else if not (Crc.validate r)
    then err crc_invalid
    else fast_get_pdu r
