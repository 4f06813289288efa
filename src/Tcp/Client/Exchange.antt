-- ===== src/Tcp/Client/Exchange.antt =====
-- A transaction over TCP, from the client to the server and back.
use modbusone.Base.{
  ℕ, suc, ◌+◌, ◌≤◌, ◌≡◌, ◌∙◌, refl, ap, sym, ltb, bit_and, Bool, true, false, not, List, [], ◌∷◌,
  ◌++◌, length, replicate, length-replicate, length-take, none, ok, arith,
}
use modbusone.Device.{respond, answered, reply_of, written_values}
use modbusone.FunctionCode.{
  is_read_to_server, is_write_to_server, separate_error, make_request_header,
}
use modbusone.FunctionCode.Limits.{Code, number, read_coils, data_bytes}
use modbusone.Handler.{ProtocolHandler}
use modbusone.OverSize.{OverSize, get_max_rtu_size, get_max_pdu_size}
use modbusone.Minmax
use modbusone.Pdu.{Pdu, get_function_code, make_read_reply, make_write_reply, make_write_request}
use modbusone.Pdu.Sent.{Sent, read, write, Sent-Reads, Sent-HasForm}
use modbusone.Pdu.Header.{make_request_header_roundtrip}
use modbusone.Pdu.Values.{request_bytes}
use modbusone.PacketSize.Framing.{Sent-size}
use modbusone.RequestReply.Sound.{is_request_reply-read, is_request_reply-write, read_bytes}
use modbusone.RtuClient.Transaction.{data_read_back, read_reply_code, write_reply_code}
use modbusone.Tcp.Client.{
  Client, do_transaction2, send, after_tcp, after_reply, after_reply_values, after_on_write,
  after_on_read, new_buffer,
}
use modbusone.Tcp.Framing.{frame_of, written, read_frame}
use modbusone.Tcp.Server.{Session, next, round, buffer_size}
use modbusone.Tcp.Server.Refines.{round-refines}

new_room : (o : OverSize) → 262 ≤ get_max_rtu_size o + 6
unfolding get_max_rtu_size get_max_pdu_size Minmax.max
new_room o = ground arith

-- The client's buffer: six bytes and a unit that are 0, and room for a PDU.
roomy :
    (n : ℕ)
    → 7 ≤ n
    → (room : List ℕ) × (replicate n 0 ≡ 0 ∷ 0 ∷ 0 ∷ 0 ∷ 0 ∷ 0 ∷ 0 ∷ room) × (length room + 7 ≡ n)
roomy (suc (suc (suc (suc (suc (suc (suc n))))))) seven =
    (replicate n 0, refl, omega (arith, length-replicate {A = ℕ} n 0))
roomy _ seven = absurd (omega arith)

code_flag : (c : Code) → ltb 127 (number c) ≡ false
code_flag read_coils = refl
code_flag _ = refl

code_back : (c : Code) → bit_and (number c) 127 ≡ number c
code_back read_coils = refl
code_back _ = refl

module _ {ℓ} {S : Type ℓ} (o : OverSize) (h : ProtocolHandler S)
    (accepts : List (List ℕ) → List ℕ → Bool) where
  -- What the client sends and, over a connection that takes it, what it makes of the reply `q`.
  send-reply :
      (w q : Pdu) (rest : List ℕ) (c : Client S)
      → 2 ≤ length q
      → length w ≤ 253
      → length q ≤ 253
      → accepts c.written (frame_of 0 0 0 w) ≡ true
      → send o h accepts w (record c { stream = frame_of 0 0 0 q ++ rest })
        ≡ after_reply o h w q
            (record c { stream = rest; written = c.written ++ (frame_of 0 0 0 w ∷ []) })
  unfolding send new_buffer after_tcp
  send-reply w q rest c two small small' taken =
      let n = get_max_rtu_size o + 6 in
      let (room, zeros, long) = roomy n (omega (arith, new_room o)) in
      rw (
        zeros,
        written 0 0 0 0 0 room w (omega (arith, new_room o, long)),
        taken,
        read_frame 0 0 0 n q rest two (omega arith) (omega (arith, new_room o)),
      )

  -- The data reply to a read that was sent.
  read-done :
      {f a q : ℕ} {values : List ℕ} {w : Pdu} (bytes : List ℕ) (t : S) (c : Client S)
      → Sent f a q values w
      → is_write_to_server f ≡ false
      → length bytes ≡ data_bytes f q
      → h.on_write w bytes c.handled ≡ (ok tt, t)
      → after_reply o h w (make_read_reply w bytes) c ≡ ok (none, record c { handled = t })
  unfolding after_reply after_reply_values after_on_write separate_error
  read-done {f} {w = w} bytes t c sent reads n ran =
      let k = Sent-Reads o sent in
      let (some_bytes, few) = read_bytes (Sent-HasForm sent) reads in
      let form = Sent-HasForm sent in
      let code : get_function_code (make_read_reply w bytes) ≡ number form.code =
        read_reply_code w bytes ∙ k.reads_code ∙ form.is_code in
      let kind : is_read_to_server (number form.code) ≡ true =
        ap is_read_to_server (sym form.is_code) ∙ k.reads_kind ∙ ap not reads in
      rw (
        code,
        code_flag form.code,
        code_back form.code,
        is_request_reply-read o bytes sent reads n,
        kind,
        data_read_back w bytes (omega arith) (omega arith),
        ran,
      )

  -- The acknowledgement of a write that was sent.
  write-done :
      {f a q : ℕ} {values : List ℕ} {w : Pdu} (c : Client S)
      → Sent f a q values w
      → is_write_to_server f ≡ true
      → after_reply o h w (make_write_reply w) c ≡ ok (none, c)
  unfolding after_reply separate_error
  write-done {f} {w = w} c sent writes =
      let k = Sent-Reads o sent in
      let form = Sent-HasForm sent in
      let code : get_function_code (make_write_reply w) ≡ number form.code =
        write_reply_code w ∙ k.reads_code ∙ form.is_code in
      let kind : is_read_to_server (number form.code) ≡ false =
        ap is_read_to_server (sym form.is_code) ∙ k.reads_kind ∙ ap not writes in
      rw
        (code, code_flag form.code, code_back form.code, is_request_reply-write o sent writes, kind)

ack_length :
    (w : Pdu) → 3 ≤ length w → (2 ≤ length (make_write_reply w)) × (length (make_write_reply w) ≤ 5)
unfolding make_write_reply
ack_length w n = ground (arith, length-take 5 w)

reply_length : (w bytes : List ℕ) → length (make_read_reply w bytes) ≡ 2 + length bytes
unfolding make_read_reply
reply_length w bytes = omega arith

-- A transaction over TCP that reads, over a connection that takes the packet, with a server whose
-- buffer has 260 bytes at least. The packet of the client has the transaction and the unit 0,
-- whatever the slave id. If the server's `OnRead` gives as many bytes as the requested values take,
-- and the client's `OnWrite` succeeds on exactly those bytes, then the server, whose connection gives
-- that packet, writes one packet, and the client, whose connection gives this one, calls `OnWrite`
-- with the bytes and returns no error. Each leaves what its connection gives behind the packet.
pub do_transaction2-read {ℓ κ} :
    {S : Type ℓ} {T : Type κ} (oc os : OverSize) (hc : ProtocolHandler S) (hs : ProtocolHandler T)
    (accepts : List (List ℕ) → List ℕ → Bool) (spare : List ℕ) (slave_id f a q : ℕ) (w : Pdu)
    (bytes rest more : List ℕ) (c : Client S) (s : Session T) (t : S) (u : T)
    → make_request_header f a q ≡ ok w
    → is_write_to_server f ≡ false
    → 260 ≤ buffer_size os
    → accepts c.written (frame_of 0 0 0 w) ≡ true
    → s.stream ≡ frame_of 0 0 0 w ++ more
    → hs.on_read w s.handled ≡ (ok bytes, u)
    → length bytes ≡ data_bytes f q
    → hc.on_write w bytes c.handled ≡ (ok tt, t)
    → (reply : List ℕ) × (round os hs s
        ≡ ok (next (record { stream = more; written = s.written ++ (reply ∷ []); handled = u })))
      × (do_transaction2 oc hc accepts spare slave_id w (record c { stream = reply ++ rest })
          ≡ ok (
            none,
            record c { stream = rest; written = c.written ++ (frame_of 0 0 0 w ∷ []); handled = t },
          ))
unfolding do_transaction2 respond answered reply_of
do_transaction2-read oc os hc hs accepts spare slave_id f a q w bytes rest more c s t u made reads
      room taken comes ran n got =
    let sent : Sent f a q [] w = read reads refl made in
    let k = Sent-Reads os sent in
    let small : length w ≤ 253 = (Sent-size os [] sent).1 in
    let size = reply_length w bytes in
    let bound = (read_bytes (Sent-HasForm sent) reads).1 in
    (
      frame_of 0 0 0 (make_read_reply w bytes),
      round-refines os hs 0 0 0 w (make_read_reply w bytes) more s u k.reads_valid (omega arith)
          (omega arith) comes (rw (k.reads_code, reads, ran) refl) (omega arith),
      rw (k.reads_code, reads)
          (send-reply oc hc accepts w (make_read_reply w bytes) rest c (omega arith) small
              (omega arith) taken
            ∙ read-done oc hc accepts bytes t
                (record c { stream = rest; written = c.written ++ (frame_of 0 0 0 w ∷ []) }) sent
                reads n got),
    )

-- A transaction over TCP that writes, over a connection that takes the packet, with a server whose
-- buffer has 260 bytes at least. The client's `OnRead` gives the data for the header `p`, as long as
-- the values of the header take it, and `w` is what `MakeWriteRequest` makes of the two. If the
-- server's `OnWrite` succeeds on `w` and exactly that data, then the server, whose connection gives
-- the packet of the client, writes one packet, and the client, whose connection gives this one,
-- returns no error. Each leaves what its connection gives behind the packet.
pub do_transaction2-write {ℓ κ} :
    {S : Type ℓ} {T : Type κ} (oc os : OverSize) (hc : ProtocolHandler S) (hs : ProtocolHandler T)
    (accepts : List (List ℕ) → List ℕ → Bool) (spare : List ℕ) (slave_id f a q : ℕ) (p w : Pdu)
    (bytes rest more : List ℕ) (c : Client S) (s : Session T) (t : S) (u : T)
    → make_request_header f a q ≡ ok p
    → is_write_to_server f ≡ true
    → hc.on_read p c.handled ≡ (ok bytes, t)
    → length bytes ≡ request_bytes f q
    → make_write_request p spare bytes ≡ ok w
    → 260 ≤ buffer_size os
    → accepts c.written (frame_of 0 0 0 w) ≡ true
    → s.stream ≡ frame_of 0 0 0 w ++ more
    → hs.on_write w bytes s.handled ≡ (ok tt, u)
    → (reply : List ℕ) × (round os hs s
        ≡ ok (next (record { stream = more; written = s.written ++ (reply ∷ []); handled = u })))
      × (do_transaction2 oc hc accepts spare slave_id p (record c { stream = reply ++ rest })
          ≡ ok (
            none,
            record c { stream = rest; written = c.written ++ (frame_of 0 0 0 w ∷ []); handled = t },
          ))
unfolding do_transaction2 after_on_read respond answered reply_of written_values
do_transaction2-write oc os hc hs accepts spare slave_id f a q p w bytes rest more c s t u made
      writes read_ok enough filled room taken comes ran =
    let sent : Sent f a q bytes w = write p spare writes enough made filled in
    let k = Sent-Reads os sent in
    let small : length w ≤ 253 = (Sent-size os [] sent).1 in
    let (two, five) = ack_length w k.reads_length in
    let code = (make_request_header_roundtrip f a q p made).0 in
    (
      frame_of 0 0 0 (make_write_reply w),
      round-refines os hs 0 0 0 w (make_write_reply w) more s u k.reads_valid (omega arith)
          (omega arith) comes (rw (k.reads_code, writes, k.reads_values writes, ran) refl)
          (omega arith),
      rw (code, writes, read_ok, filled)
          (send-reply oc hc accepts w (make_write_reply w) rest (record c { handled = t }) two small
              (omega arith) taken
            ∙ write-done oc hc accepts
                (record c {
                  stream = rest;
                  written = c.written ++ (frame_of 0 0 0 w ∷ []);
                  handled = t;
                })
                sent writes),
    )
