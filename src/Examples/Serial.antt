-- ===== src/Examples/Serial.antt =====
-- The server and the client of a serial line, on concrete packets.
use modbusone.Base.{
  ℕ, ◌+◌, ◌≡◌, refl, true, false, List, [], ◌∷◌, length, none, some, ok, Error, Bool, arith,
}
use modbusone.FunctionCode.{is_write_to_server, is_single, is_uint16, make_request_header}
use modbusone.FunctionCode.Limits.{data_bytes}
use modbusone.Handler.{RtuProtocolHandler, ProtocolHandler}
use modbusone.OverSize
use modbusone.Pdu.{Pdu, get_function_code, make_write_request}
use modbusone.Pdu.Sent.{Sent, read, write}
use modbusone.Pdu.Values.{request_bytes}
use modbusone.Rtu.{Rtu, make_rtu}
use modbusone.RtuClient.{Client, client_read, reported, transaction}
use modbusone.RtuClient.Exchange.{Answers, transaction-read, transaction-write, sent_state}
use modbusone.Stats.{Stats}
use modbusone.RtuServer.{Server, serve}
use modbusone.RtuServer.Packet.{IsSafe}
use modbusone.RtuServer.Run.{Ran, serve-Ran}

-- A device that counts the bytes it is given.
abbrev pub device : ProtocolHandler ℕ
device = record {
  on_read = λ p s. (ok (0xAB ∷ 0xCD ∷ []), s);
  on_write = λ p values s. (ok tt, s + length values);
  on_error = λ req reply s. s;
}

abbrev pub master : RtuProtocolHandler ℕ
master = record {
  on_read = λ header s. (ok (0x12 ∷ 0x34 ∷ []), s + 1);
  on_write = λ header values s. (ok tt, s + length values);
  on_error = λ req reply s. ok s;
}

abbrev pub takes : List Rtu → Rtu → Bool
takes sent frame = true

abbrev pub no_stats : Stats
no_stats = record {
  read_packets = 0;
  crc_errors = 0;
  remote_errors = 0;
  other_errors = 0;
  long_read_warnings = 0;
  formate_warnings = 0;
  id_drops = 0;
  other_drops = 0;
}

abbrev pub server : Server ℕ
server = record { stats = no_stats; written = []; io_err = none; handled = 0 }

abbrev pub client : Client ℕ
client = record { stats = no_stats; written = []; handled = 0 }

-- One register at address 1, read and written.
abbrev pub read_request : Pdu
read_request = 3 ∷ 0 ∷ 1 ∷ 0 ∷ 1 ∷ []

abbrev pub write_header : Pdu
write_header = 6 ∷ 0 ∷ 1 ∷ []

abbrev pub write_request : Pdu
write_request = 6 ∷ 0 ∷ 1 ∷ 0x12 ∷ 0x34 ∷ []

pub read_made : make_request_header 3 1 1 ≡ ok read_request
unfolding make_request_header
read_made = refl

pub write_made : make_request_header 6 1 1 ≡ ok write_header
unfolding make_request_header
write_made = refl

pub write_filled : make_write_request write_header [] (0x12 ∷ 0x34 ∷ []) ≡ ok write_request
unfolding make_write_request get_function_code
write_filled = refl

pub three_reads : is_write_to_server 3 ≡ false
unfolding is_write_to_server
three_reads = refl

pub six_writes : is_write_to_server 6 ≡ true
unfolding is_write_to_server
six_writes = refl

device-IsSafe : IsSafe device
device-IsSafe = record { read_safe = λ p s e. cc; write_safe = λ p values s e. cc }

pub two_bytes : 2 ≡ request_bytes 6 1
unfolding is_single
two_bytes = refl

pub sent_read : Sent 3 1 1 [] read_request
sent_read = read three_reads refl read_made

pub sent_write : Sent 6 1 1 (0x12 ∷ 0x34 ∷ []) write_request
sent_write = write write_header [] six_writes two_bytes write_made write_filled

pub one_register : 2 ≡ data_bytes 3 1
unfolding is_uint16
one_register = refl

transaction-read_example :
    (reply : Rtu) × Answers OverSize.default takes device 17 server
      (make_rtu 17 read_request)
      reply
      0
    × (transaction OverSize.default master takes
          (make_rtu 17 read_request)
          []
          (client_read reply ∷ [])
          client
        ≡ ok (reported none, sent_state client (make_rtu 17 read_request) 2))
transaction-read_example =
    transaction-read OverSize.default master device takes takes 17 (omega arith) [] [] client server
      3 1 1 read_request (0xAB ∷ 0xCD ∷ []) 0 2 read_made three_reads refl refl one_register refl

transaction-write_example :
    (reply : Rtu) × Answers OverSize.default takes device 17 server
      (make_rtu 17 write_request)
      reply
      2
    × (transaction OverSize.default master takes
          (make_rtu 17 write_header)
          []
          (client_read reply ∷ [])
          client
        ≡ ok (reported none, sent_state client (make_rtu 17 write_request) 1))
transaction-write_example =
    transaction-write OverSize.default master device takes takes 17 (omega arith) [] [] client
      server 6 1 1 write_header write_request (0x12 ∷ 0x34 ∷ []) 2 1 write_made six_writes refl
      two_bytes write_filled refl refl

serve-Ran_example :
    (s' : Server ℕ) × (serve OverSize.default takes device 17
        ((1 ∷ []) ∷ make_rtu 17 write_request ∷ [])
        server
      ≡ ok s')
    × ((e : Error) × (s'.io_err ≡ some e))
    × Ran ((1 ∷ []) ∷ make_rtu 17 write_request ∷ []) server s'
serve-Ran_example =
    serve-Ran OverSize.default takes device device-IsSafe 17
      ((1 ∷ []) ∷ make_rtu 17 write_request ∷ []) server
