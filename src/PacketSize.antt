-- ===== src/PacketSize.antt =====
-- The sizes that packet_reader.go infers from the first bytes of a packet. The indices are in
-- range, since the length is tested before, so that the default of `get_or` is never taken.
pub mod Framing
pub mod Prefix
use modbusone.Base.{
  ℕ, ◌+◌, ◌-◌, ◌*◌, ◌/◌, Bool, true, false, not, ◌&&◌, ◌||◌, ltb, leb, ◌==◌, List, [], ◌∷◌, length,
  take, drop, get_or, if◌then◌else◌,
}
use modbusone.Crc
use modbusone.FunctionCode.{valid, is_single, is_uint16, is_write_to_server, separate_error}
use modbusone.Minmax
use modbusone.Minmax.{nat_ordered}
use modbusone.OverSize.{OverSize, get_max_pdu_size}
use modbusone.Rtu.{Rtu}

abbrev pub same : Bool → Bool → Bool
same true b = b
same false b = not b

-- The size that over-sized write requests are taken to have. `(n-1)/8` is 0 in Go too where `n` is 0.
unfoldable pub over_size : OverSize → ℕ → List ℕ → ℕ
over_size o f header =
    let n = get_or header 3 0 * 256 + get_or header 4 0 in
    let size = if is_uint16 f then 6 + n * 2 else 6 + (n - 1) / 8 + 1 in
    Minmax.min (get_max_pdu_size o) (size ∷ [])

-- `GetPDUSizeFromHeader`
unfoldable pub get_pdu_size_from_header : OverSize → List ℕ → Bool → ℕ
get_pdu_size_from_header o header is_client =
    let (ec, f) = separate_error (get_or header 0 0) in
    if ltb (length header) 2
    then 2
    else if ec || not (valid f)
    then 2
    else if same is_client (is_write_to_server f)
    then 5
    else if is_client
    then 2 + get_or header 1 0
    else if is_single f
    then 5
    else if ltb (length header) 6
    then 6
    else if o.support
    then over_size o f header
    else 6 + get_or header 5 0

-- `GetRTUSizeFromHeader`
unfoldable pub get_rtu_size_from_header : OverSize → List ℕ → Bool → ℕ
get_rtu_size_from_header o header is_client =
    if ltb (length header) 3
    then 3
    else if get_or header 0 0 == 0
    then get_pdu_size_from_header o (drop 1 header) false + 3
    else get_pdu_size_from_header o (drop 1 header) is_client + 3

-- The end of `GetRTUBidirectionalSizeFromHeader`, for sizes in order. `header[:s]` is in range.
unfoldable pub shorter_or_longer : List ℕ → ℕ → ℕ → ℕ
shorter_or_longer header s l =
    if ltb (length header) s
    then s
    else if leb l (length header) && Crc.validate (take l header)
    then l
    else if Crc.validate (take s header)
    then s
    else l

-- `GetRTUBidirectionalSizeFromHeader`
unfoldable pub get_rtu_bidirectional_size_from_header : OverSize → List ℕ → ℕ
unfolding shorter_or_longer
get_rtu_bidirectional_size_from_header o header =
    let s = get_rtu_size_from_header o header false in
    let l = get_rtu_size_from_header o header true in
    if s == l
    then s
    else if ltb l s
    then shorter_or_longer header l s
    else shorter_or_longer header s l

-- `getRTUBidirectionalSizeFromHeaderWithPrefer`
unfoldable pub get_rtu_bidirectional_size_from_header_with_prefer : OverSize → List ℕ → Bool → ℕ
get_rtu_bidirectional_size_from_header_with_prefer o header is_client =
    let size = get_rtu_size_from_header o header is_client in
    let size2 = get_rtu_size_from_header o header (not is_client) in
    if ltb (length header) size
    then size
    else if Crc.validate (take size header)
    then size
    else if ltb (length header) size2
    then size2
    else if Crc.validate (take size2 header)
    then size2
    else Minmax.min size (size2 ∷ [])

-- `GetRTUBidirectionalSizeFromHeader2`
unfoldable pub get_rtu_bidirectional_size_from_header2 : OverSize → List ℕ → Rtu → ℕ
unfolding get_rtu_bidirectional_size_from_header_with_prefer
get_rtu_bidirectional_size_from_header2 o header last_packet =
    if length last_packet == 0
    then get_rtu_bidirectional_size_from_header_with_prefer o header false
    else if length last_packet == get_rtu_size_from_header o last_packet false
    then get_rtu_bidirectional_size_from_header_with_prefer o header false
    else get_rtu_bidirectional_size_from_header_with_prefer o header true

-- `GetRTUSizeFromHeader2`
unfoldable pub get_rtu_size_from_header2 : OverSize → List ℕ → Bool → ℕ → Rtu → ℕ
unfolding get_rtu_bidirectional_size_from_header2
get_rtu_size_from_header2 o header is_client slave_id last_packet =
    if ltb (length header) 3
    then 3
    else if is_client || get_or header 0 0 == slave_id
    then get_rtu_size_from_header o header is_client
    else get_rtu_bidirectional_size_from_header2 o header last_packet
