-- ===== src/Examples/Packets.antt =====
-- Checksums, frames, requests and replies, on concrete bytes.
use modbusone.Base.{
  ◌≡◌, ◌↔◌, ◌≤◌, inl, refl, true, false, List, [], ◌∷◌, ◌++◌, some, ok, err, crc_invalid, arith,
}
use modbusone.Crc
use modbusone.Crc.Reference.{write-eq-crc16, crc16, register}
use modbusone.Crc.Table.{crc_low_bytes, crc_high_bytes}
use modbusone.FunctionCode.{
  is_write_to_server, is_single, is_uint16, max_per_packet, max_per_packet_sized,
  make_request_header,
}
use modbusone.FunctionCode.Limits.{data_bytes, packet_bytes, number, read_coils, sized-fits}
use modbusone.Base.Int.{pos}
use modbusone.Minmax.{nat_ordered}
use modbusone.OverSize
use modbusone.OverSize.{max_pdu_size}
use modbusone.Pdu.{
  Pdu, big_endian, get_function_code, get_address, get_request_count, get_request_values,
  validate_request, make_write_request,
}
use modbusone.Pdu.Header.{IsRequestable, make_request_header_iff}
use modbusone.Pdu.Sent.{Sent, read, write}
use modbusone.Pdu.Values.{request_bytes}
use modbusone.Requests.{make_pdu_request_headers_sized}
use modbusone.Requests.Cover.{Covers, make_pdu_request_headers_sized-Covers}
use modbusone.Rtu.{Rtu, make_rtu, get_pdu, get_slave_id}
use modbusone.Rtu.Frame.{get_pdu-make_rtu_iff, get_pdu_burst}

-- Two coils from address 19 on, as a request and as a write.
abbrev coils_request : Pdu
coils_request = 1 ∷ 0 ∷ 19 ∷ 0 ∷ 2 ∷ []

abbrev coils_header : Pdu
coils_header = 15 ∷ 0 ∷ 19 ∷ 0 ∷ 2 ∷ 1 ∷ []

abbrev coils_write : Pdu
coils_write = 15 ∷ 0 ∷ 19 ∷ 0 ∷ 2 ∷ 1 ∷ 3 ∷ []

request_made : make_request_header 1 19 2 ≡ ok coils_request
unfolding make_request_header
request_made = refl

header_made : make_request_header 15 19 2 ≡ ok coils_header
unfolding make_request_header
header_made = refl

write_filled : make_write_request coils_header [] (3 ∷ []) ≡ ok coils_write
unfolding make_write_request get_function_code
write_filled = refl

one_reads : is_write_to_server 1 ≡ false
unfolding is_write_to_server
one_reads = refl

fifteen_writes : is_write_to_server 15 ≡ true
unfolding is_write_to_server
fifteen_writes = refl

two_coils : 1 ≡ request_bytes 15 2
unfolding is_single is_uint16
two_coils = refl

two_coils_read : 1 ≡ data_bytes 1 2
unfolding is_uint16
two_coils_read = refl

sent_read : Sent 1 19 2 [] coils_request
sent_read = read one_reads refl request_made

sent_write : Sent 15 19 2 (3 ∷ []) coils_write
sent_write = write coils_header [] fifteen_writes two_coils header_made write_filled

write_valid : validate_request coils_write ≡ ok tt
unfolding validate_request
write_valid = refl

request_valid : validate_request coils_request ≡ ok tt
unfolding validate_request
request_valid = refl

-- The frame of the specification's example, a read of ten registers of slave 1.
abbrev frame : Rtu
frame = 1 ∷ 4 ∷ 0 ∷ 0 ∷ 0 ∷ 10 ∷ 0x70 ∷ 0x0D ∷ []

frame_read : get_pdu frame ≡ ok (4 ∷ 0 ∷ 0 ∷ 0 ∷ 10 ∷ [])
unfolding get_pdu Crc.validate Crc.write Crc.write_byte crc_low_bytes crc_high_bytes
frame_read = refl

write-eq-crc16_example : register (Crc.write Crc.reset (1 ∷ 4 ∷ [])) ≡ crc16 0xFFFF (1 ∷ 4 ∷ [])
write-eq-crc16_example = write-eq-crc16 (1 ∷ 4 ∷ []) (omega arith, (omega arith, tt))

get_pdu-make_rtu_iff_example :
    (get_pdu frame ≡ ok (4 ∷ 0 ∷ 0 ∷ 0 ∷ 10 ∷ []))
    ↔ ((2 ≤ 5) × (frame ≡ make_rtu (get_slave_id frame) (4 ∷ 0 ∷ 0 ∷ 0 ∷ 10 ∷ [])))
get_pdu-make_rtu_iff_example = get_pdu-make_rtu_iff frame (4 ∷ 0 ∷ 0 ∷ 0 ∷ 10 ∷ [])

get_pdu_burst_example : get_pdu (1 ∷ 4 ∷ 0 ∷ 8 ∷ 9 ∷ 10 ∷ 0x70 ∷ 0x0D ∷ []) ≡ err crc_invalid
get_pdu_burst_example =
    get_pdu_burst (1 ∷ 4 ∷ 0 ∷ []) (10 ∷ 0x70 ∷ 0x0D ∷ []) 0 0 8 9 (4 ∷ 0 ∷ 0 ∷ 0 ∷ 10 ∷ [])
      (omega arith, (omega arith, (omega arith, tt)))
      (omega arith, (omega arith, (omega arith, tt)))
      (omega arith, omega arith, omega arith, omega arith) (inl (omega arith)) frame_read

make_request_header_iff_example :
    ((p : Pdu) × (make_request_header 1 19 2 ≡ ok p)) ↔ IsRequestable 1 19 2
make_request_header_iff_example = make_request_header_iff 1 19 2

write_address : get_address coils_write ≡ ok 19
unfolding get_address big_endian
write_address = refl

write_count : get_request_count coils_write ≡ ok 2
unfolding get_request_count is_single get_function_code big_endian
write_count = refl

write_values_read : get_request_values OverSize.default coils_write ≡ ok (3 ∷ [])
unfolding get_request_values is_single is_uint16 big_endian
write_values_read = refl

registers_limit : 3 ≤ max_per_packet 3
unfolding max_per_packet
registers_limit = omega arith

make_pdu_request_headers_sized-Covers_example :
    (ps : List Pdu) × (make_pdu_request_headers_sized 3 7 10 3 [] ≡ some (ok ([] ++ ps)))
    × Covers 3 3 7 10 ps
make_pdu_request_headers_sized-Covers_example =
    make_pdu_request_headers_sized-Covers 3 7 10 3 [] (omega arith) registers_limit (omega arith)

sized-fits_example :
    let q = max_per_packet_sized (number read_coils) (pos 20) in
    (1 ≤ q)
    × (q ≤ max_per_packet (number read_coils))
    × (packet_bytes (number read_coils) q ≤ 20)
    × (packet_bytes (number read_coils) q ≤ max_pdu_size)
sized-fits_example = sized-fits read_coils 20 (omega arith)
