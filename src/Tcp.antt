-- ===== src/Tcp.antt =====
-- `readTCP` and `writeTCP` of tcp_server.go. A stream is the list of the bytes that can be read.
pub mod Framing
pub mod Server
pub mod Client
use modbusone.Base.{
  ℕ, ◌+◌, ◌*◌, ◌/◌, ◌||◌, ltb, leb, ◌==◌, not, List, [], ◌∷◌, ◌++◌, length, set, get_or, take, drop,
  if◌then◌else◌, u8, Result, fail_if, ok, err, panic, ◌>>=◌, ◌>>◌, io_failure, message,
}
use modbusone.Pdu.{Pdu, slice_to}

abbrev pub tcp_header_length : ℕ
tcp_header_length = 6

abbrev pub mbap_header_length : ℕ
mbap_header_length = 7

-- `io.ReadFull` of `n` bytes: the bytes, and the stream behind them.
unfoldable pub read_full : List ℕ → ℕ → Result (List ℕ × List ℕ)
read_full stream n =
    if leb n (length stream) then ok (take n stream, drop n stream) else err io_failure

-- The rest of `readTCP`, for the length `l` in the header.
unfoldable pub read_body : List ℕ → List ℕ → ℕ → ℕ → Result (List ℕ × List ℕ)
unfolding read_full
read_body header stream size l =
    if leb l 2
    then err message
    else if ltb size (l + tcp_header_length)
    then err message
    else (do body ← read_full stream l; ok (header ++ body.0, body.1))

-- `readTCP` into a buffer of `size` bytes, six at least. The results are the bytes that were read
-- and the stream behind them.
unfoldable pub read_tcp : List ℕ → ℕ → Result (List ℕ × List ℕ)
unfolding read_full
read_tcp stream size = do
  header ← read_full stream tcp_header_length
  fail_if (not (get_or header.0 2 0 == 0) || not (get_or header.0 3 0 == 0)) message
  read_body header.0 header.1 size (get_or header.0 4 0 * 256 + get_or header.0 5 0)

-- `writeTCP` with the buffer `bs`, six bytes at least: the bytes that are written. `copy` fills the
-- buffer from the header on, and stops at its end; the slice then panics.
unfoldable pub write_tcp : List ℕ → Pdu → Result (List ℕ)
write_tcp bs pdu =
    let l = length pdu + 1 in
    let head = take mbap_header_length (set (set bs 4 (u8 (l / 256))) 5 (u8 l)) in
    let room = drop mbap_header_length bs in
    let filled = head ++ (take (length room) pdu ++ drop (length pdu) room) in
    slice_to filled [] (length pdu + mbap_header_length)
