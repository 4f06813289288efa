-- ===== src/Examples/Servers.antt =====
-- The servers beside their contract, and TCP, on concrete packets.
use modbusone.Base.{
  ℕ, ◌+◌, ◌≡◌, ◌≢◌, inr, refl, true, false, List, [], ◌∷◌, ◌++◌, length, none, ok, arith, Bool,
}
use modbusone.Device.{respond, answered, reply_of}
use modbusone.Examples.Serial.{device, server, read_request, three_reads, sent_read}
use modbusone.Handler.{ProtocolHandler}
use modbusone.OverSize
use modbusone.Pdu.{Pdu, get_function_code, make_read_reply, validate_request}
use modbusone.Pdu.Sent.{Sent-Reads}
use modbusone.Rtu.{make_rtu, get_slave_id}
use modbusone.Rtu.Frame.{make_rtu_roundtrip}
use modbusone.RtuServer.{serve_packet}
use modbusone.RtuServer.Refines.{observe, on_line, serve_packet-refines}
use modbusone.Tcp.Client
use modbusone.Tcp.Client.{do_transaction2}
use modbusone.Tcp.Framing.{frame_of}
use modbusone.Tcp.Server.{Session, next, round, serve, buffer_size}
use modbusone.Tcp.Server.Ends.{serve-ends}
use modbusone.Tcp.Server.Refines.{round-refines}

abbrev pub master : ProtocolHandler ℕ
master = record {
  on_read = λ p s. (ok [], s);
  on_write = λ p values s. (ok tt, s + length values);
  on_error = λ req reply s. s;
}

abbrev pub reply : Pdu
reply = make_read_reply read_request (0xAB ∷ 0xCD ∷ [])

pub valid : validate_request read_request ≡ ok tt
valid = (Sent-Reads OverSize.default sent_read).reads_valid

pub length-reply : length reply ≡ 4
unfolding make_read_reply
length-reply = refl

pub responds : respond OverSize.default device read_request 0 ≡ ok (reply, 0)
unfolding respond reply_of answered get_function_code
responds = rw three_reads refl

abbrev pub takes : List (List ℕ) → List ℕ → Bool
takes sent packet = true

-- The bytes of a request, and one byte behind it.
abbrev pub session : Session ℕ
session = record { stream = frame_of 0 0 0 read_request ++ (9 ∷ []); written = []; handled = 0 }

abbrev pub client : Client.Client ℕ
client = record { stream = []; written = []; exit_error = none; cancelled = false; handled = 0 }

pub buffer_260 : buffer_size OverSize.default ≡ 260
unfolding buffer_size
buffer_260 = refl

serve_packet-refines_example :
    observe
      (serve_packet OverSize.default (λ sent f. true) device 17 (make_rtu 17 read_request) server)
    ≡ on_line []
        (get_slave_id (make_rtu 17 read_request))
        (respond OverSize.default device read_request 0)
serve_packet-refines_example =
    let (pdu, slave, _) = make_rtu_roundtrip 17 read_request (omega arith) in
    serve_packet-refines OverSize.default (λ sent f. true) device 17 (make_rtu 17 read_request)
      read_request server pdu valid (inr slave)

round-refines_example :
    round OverSize.default device session
    ≡ ok (next (record { stream = 9 ∷ []; written = frame_of 0 0 0 reply ∷ []; handled = 0 }))
round-refines_example =
    round-refines OverSize.default device 0 0 0 read_request reply (9 ∷ []) session 0 valid
      (omega arith) (omega (arith, buffer_260)) refl responds
      (omega (arith, buffer_260, length-reply))

serve-ends_example : serve OverSize.default device 14 session ≢ ok none
serve-ends_example = serve-ends OverSize.default device 14 session (omega arith)
