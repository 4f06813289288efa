-- ===== src/Serial/Context/Reads.antt =====
-- What the packet readers that the constructors make can read.
use modbusone.Base.{
  ℕ, ◌≤◌, ◌≡◌, refl, ap, Bool, false, List, [], length, Option, none, some, Result, arith,
  if◌then◌else◌,
}
use modbusone.OverSize.{OverSize, max_rtu_size}
use modbusone.PacketReader.{Setup}
use modbusone.PacketReader.Frames.{Sent-Fits}
use modbusone.PacketReader.Whole.{Fits}
use modbusone.PacketSize.Framing.{Sent-size}
use modbusone.Pdu.{Pdu}
use modbusone.Pdu.Sent.{Sent}
use modbusone.Rtu.{make_rtu}
use modbusone.Rtu.Frame.{length-make_rtu}
use modbusone.Serial.Context.{
  Context, SerialOption, option_of, read_room, server_reader, new_rtu_server, new_rtu_packet_reader,
  new_rtu_packet_reader2,
}

frame_length :
    (o : OverSize) (id : ℕ) {f a q : ℕ} {values : List ℕ} {w : Pdu}
    → Sent f a q values w
    → length (make_rtu id w) ≤ 256
frame_length o id {w = w} sent = omega (arith, length-make_rtu id w, (Sent-size o [] sent).1)

server_reader-Fits :
    (o : OverSize) (cutoff : ℕ → ℕ) (c : Context) (slave_id id : ℕ) {f a q : ℕ} {values : List ℕ}
    {w : Pdu} (m : Option (ℕ → Result ℕ)) (option : Option SerialOption)
    → (option_of option).two_wire ≡ false
    → (option_of c.get_option).two_wire ≡ false
    → max_rtu_size ≤ read_room o
    → Sent f a q values w
    → Fits (server_reader o cutoff m option c slave_id) (make_rtu id w)
unfolding option_of new_rtu_packet_reader new_rtu_packet_reader2
server_reader-Fits o cutoff c slave_id id (some d) (some option) plain' plain room sent =
    Sent-Fits (server_reader o cutoff (some d) (some option) c slave_id) id sent refl refl plain'
      (omega (arith, frame_length o id sent))
server_reader-Fits o cutoff c slave_id id (some d) none plain' plain room sent =
    Sent-Fits (server_reader o cutoff (some d) none c slave_id) id sent refl refl plain
      (omega (arith, frame_length o id sent))
server_reader-Fits o cutoff c slave_id id none option plain' plain room sent =
    Sent-Fits (server_reader o cutoff none option c slave_id) id sent refl refl plain
      (omega (arith, frame_length o id sent))

-- A server on a context that is no packet reader itself, and whose option, where it has one, is not
-- `TwoWire`. Whatever else the context has, `NewRTUServer` makes a reader that reads whole every frame
-- of a request that a client sends, to whatever slave id, if the buffer has 256 bytes at least.
pub new_rtu_server-Fits :
    (o : OverSize) (cutoff : ℕ → ℕ) (c : Context) (slave_id id f a q : ℕ) (values : List ℕ)
    (w : Pdu)
    → c.reads_packets ≡ false
    → (option_of c.get_option).two_wire ≡ false
    → max_rtu_size ≤ read_room o
    → Sent f a q values w
    → (reader : Setup) × (new_rtu_server o cutoff c slave_id ≡ some reader)
      × Fits reader (make_rtu id w)
unfolding new_rtu_server
new_rtu_server-Fits o cutoff c slave_id id f a q values w below plain room sent = (
  server_reader o cutoff c.cutoff c.get_option c slave_id,
  ap
      (λ (b : Bool).
        if b then none else some (server_reader o cutoff c.cutoff c.get_option c slave_id))
      below,
  server_reader-Fits o cutoff c slave_id id c.cutoff c.get_option plain plain room sent,
)
