-- ===== src/Examples/Sessions.antt =====
-- Whole sessions of servers and clients, on concrete packets.
use modbusone.Base.{ℕ, ◌+◌, ◌≡◌, refl, List, [], ◌∷◌, ◌++◌, none, some, ok, Error, arith, Bool}
use modbusone.Device.Session.{Answered, none_left, one_more}
use modbusone.Examples.Lines.{setup, reader, bursts, bursts-Frames}
use modbusone.Examples.Serial
use modbusone.Examples.Serial.{
  device, server, read_request, read_made, write_header, write_request, write_made, write_filled,
  six_writes, two_bytes, sent_write,
}
use modbusone.Examples.Servers.{reply, valid, length-reply, responds, buffer_260, session}
use modbusone.Examples.Servers
use modbusone.Handler.{ProtocolHandler}
use modbusone.OverSize
use modbusone.OverSize.{get_max_rtu_size}
use modbusone.PacketReader.Frames.{packets}
use modbusone.FunctionCode.{is_write_to_server}
use modbusone.Pdu.{Pdu, get_function_code}
use modbusone.Rtu.{make_rtu}
use modbusone.RequestReply.{is_request_reply}
use modbusone.RequestReply.Total.{is_request_reply-total}
use modbusone.RtuClient.{time_out, client_read, transaction}
use modbusone.RtuClient.Loop
use modbusone.RtuClient.Loop.{
  heard, failed, serve_rtu, start_transaction_to_server, reader_loop, packet,
}
use modbusone.RtuClient.Loop.Ends.{
  Ends, Feeds, nothing, one_read, ends, reads, begins, serve_rtu-Ends,
}
use modbusone.RtuClient.Reports.{IsSafe, Reported, expires, hears, transaction-Reported}
use modbusone.RtuServer.{Server, serve}
use modbusone.RtuServer.Session.{serve_line}
use modbusone.Base.{io_failure, true}
use modbusone.Tcp.Client
use modbusone.Tcp.{read_tcp, write_tcp}
use modbusone.Tcp.Client.{do_transaction2, close, send, new_buffer, after_tcp, exit}
use modbusone.Tcp.Client.Exchange.{do_transaction2-write}
use modbusone.Tcp.Client.Exits.{
  Deed, ran, shut, Causes, Reach, new, transacted, closed, serve-explained,
}
use modbusone.Tcp.Framing.{frame_of}
use modbusone.Tcp.Server
use modbusone.Tcp.Server.{next, round}
use modbusone.Tcp.Server.Whole.{Tag, stream_of, FitsBuffer, serve_stream}

-- Two reads of a device.
abbrev two_reads : List Pdu
two_reads = read_request ∷ read_request ∷ []

two-Answered : Answered OverSize.default device two_reads 0 (reply ∷ reply ∷ []) 0
two-Answered = one_more valid responds (one_more valid responds none_left)

serve_line_example :
    (s' : Server ℕ) × (serve OverSize.default Serial.takes device 17
        (packets setup 2 bursts reader)
        server
      ≡ ok s')
    × (s'.written ≡ make_rtu 17 reply ∷ make_rtu 17 reply ∷ [])
    × (s'.handled ≡ 0)
serve_line_example =
    serve_line OverSize.default Serial.takes device (λ l r. refl) setup bursts reader 17 two_reads
      (reply ∷ reply ∷ []) server 0 (omega arith) refl bursts-Frames refl two-Answered

-- Two packets of different transactions and units.
abbrev two_tags : List Tag
two_tags = (1, 2, 3) ∷ (4, 5, 6) ∷ []

serve_stream_example :
    Server.serve OverSize.default device 3 (record {
      stream = stream_of (frame_of 1 2 3 read_request ∷ frame_of 4 5 6 read_request ∷ []);
      written = [];
      handled = 0;
    })
    ≡ ok (
        some (record {
          stream = [];
          written = frame_of 1 2 3 reply ∷ frame_of 4 5 6 reply ∷ [];
          handled = 0;
        }))
serve_stream_example =
    let fits : FitsBuffer OverSize.default device read_request =
      (omega arith, omega (arith, buffer_260)) in
    let fits' : FitsBuffer OverSize.default device reply =
      (omega (arith, length-reply), omega (arith, buffer_260, length-reply)) in
    serve_stream OverSize.default device two_tags two_reads (reply ∷ reply ∷ []) [] 0 0 refl
      two-Answered (fits, (fits, tt)) (fits', (fits', tt))

is_request_reply-total_example :
    (b : Bool) × (is_request_reply OverSize.default read_request [] ≡ ok b)
is_request_reply-total_example = is_request_reply-total OverSize.default read_request []

serial_master-IsSafe : IsSafe Serial.master
serial_master-IsSafe = record {
  read_safe = λ p s e. cc;
  write_safe = λ p values s e. cc;
  error_safe = λ p q s. (s, refl);
}

transaction-Reported_example : Reported (
    transaction OverSize.default Serial.master Serial.takes
      (make_rtu 17 read_request)
      []
      (client_read (1 ∷ 2 ∷ []) ∷ time_out ∷ [])
      Serial.client)
transaction-Reported_example =
    transaction-Reported OverSize.default Serial.master Serial.takes 17 3 1 1 read_request []
      (client_read (1 ∷ 2 ∷ []) ∷ time_out ∷ []) Serial.client serial_master-IsSafe read_made
      (hears expires)

-- A packet, a transaction during which another packet is read, and the end of the connection.
abbrev run : List Loop.Act
run =
    heard (9 ∷ [])
    ∷ start_transaction_to_server 17 read_request []
        (reader_loop (packet (1 ∷ 2 ∷ []) ∷ []) ++ (time_out ∷ []))
    ∷ failed io_failure
    ∷ []

run-Feeds : Feeds run 1
run-Feeds = reads (
    begins 17 3 1 1 read_request [] (packet (1 ∷ 2 ∷ []) ∷ []) [] read_made (one_read nothing) ends)

serve_rtu-Ends_example :
    Ends 1 (serve_rtu OverSize.default Serial.master Serial.takes run Serial.client)
serve_rtu-Ends_example =
    serve_rtu-Ends OverSize.default Serial.master Serial.takes run 1 Serial.client
      serial_master-IsSafe run-Feeds

-- A TCP client whose connection gives no reply, and which its user then closes.
abbrev failed_client : Client.Client ℕ
failed_client = record {
  stream = [];
  written = frame_of 0 0 0 read_request ∷ [];
  exit_error = some io_failure;
  cancelled = true;
  handled = 0;
}

failed_client_lem :
    do_transaction2 OverSize.default Servers.master Servers.takes [] 0 read_request Servers.client
    ≡ ok (some io_failure, failed_client)
unfolding do_transaction2 send new_buffer get_max_rtu_size write_tcp after_tcp exit read_tcp
    is_write_to_server get_function_code
failed_client_lem = refl

abbrev deeds : List Deed
deeds = shut ∷ ran (some io_failure) ∷ []

gone-Reach : Reach OverSize.default Servers.master Servers.takes deeds (close failed_client)
gone-Reach = closed (transacted [] 0 read_request (new refl refl) failed_client_lem)

serve-explained_example :
    (e : Error) × ((close failed_client).exit_error ≡ some e)
    × Causes deeds e
    × (Client.serve (close failed_client) ≡ some (e, close (close failed_client)))
    × ((close (close failed_client)).exit_error ≡ some e)
serve-explained_example =
    serve-explained OverSize.default Servers.master Servers.takes deeds (close failed_client)
      gone-Reach (unfold close in refl)

abbrev write_session : Server.Session ℕ
write_session = record {
  stream = frame_of 0 0 0 write_request ++ (9 ∷ []);
  written = [];
  handled = 0;
}

abbrev writer : ProtocolHandler ℕ
writer = record {
  on_read = λ p s. (ok (0x12 ∷ 0x34 ∷ []), s + 1);
  on_write = λ p values s. (ok tt, s);
  on_error = λ req reply s. s;
}

do_transaction2-write_example :
    (packet : List ℕ) × (round OverSize.default device write_session
      ≡ ok (next (record { stream = 9 ∷ []; written = packet ∷ []; handled = 2 })))
    × (do_transaction2 OverSize.default writer Servers.takes [] 17 write_header
          (record Servers.client { stream = packet ++ (7 ∷ []) })
        ≡ ok (
          none,
          record Servers.client {
            stream = 7 ∷ [];
            written = frame_of 0 0 0 write_request ∷ [];
            handled = 1;
          },
        ))
do_transaction2-write_example =
    do_transaction2-write OverSize.default OverSize.default writer device Servers.takes [] 17 6 1 1
      write_header write_request (0x12 ∷ 0x34 ∷ []) (7 ∷ []) (9 ∷ []) Servers.client write_session 1
      2 write_made six_writes refl two_bytes write_filled (omega (arith, buffer_260)) refl refl refl
