-- ===== src/FailoverRtuClient/Listening.antt =====
-- What a failover client makes of the packets that it reads between its transactions, and what a
-- transaction leaves of them.
use modbusone.Base.{
  ℕ, ◌≤◌, ◌≡◌, ◌∙◌, refl, ap, Bool, true, false, List, [], ◌∷◌, length, ok, ◌>>=◌, arith,
}
use modbusone.Crc
use modbusone.FailoverRtuClient.{
  Client, count, read_unexpected, after_unexpected_pdu, after_match, after_unexpected_values,
  after_unexpected,
}
use modbusone.FailoverRtuClient.Loop.{Act, heard, serve}
use modbusone.FunctionCode.{is_write_to_server, valid}
use modbusone.FunctionCode.Limits.{data_bytes}
use modbusone.Handler.{ProtocolHandler}
use modbusone.OverSize.{OverSize}
use modbusone.Pdu.{Pdu, get_function_code, make_read_reply}
use modbusone.Pdu.Sent.{Sent, Sent-Reads, Sent-HasForm}
use modbusone.RequestReply.{is_request_reply}
use modbusone.RequestReply.Sound.{is_request_reply-read, read_bytes}
use modbusone.Rtu.{Rtu, make_rtu}
use modbusone.Rtu.Frame.{make_rtu_roundtrip}
use modbusone.RtuClient.{client_read}
use modbusone.Stats.{other_drop}
use modbusone.RtuClient.Transaction.{data_read_back, read_length, read_reply_code, valid_code}

-- No request makes no pair.
nothing_asked :
    (o : OverSize) (w : Pdu)
    → valid (get_function_code w) ≡ true
    → is_request_reply o [] w ≡ ok false
unfolding is_request_reply get_function_code valid
nothing_asked o [] v = absurd cc
nothing_asked o (f ∷ w) v = ground arith

module _ {ℓ} {S : Type ℓ} (o : OverSize) (h : ProtocolHandler S)
    (otherwise : Client S → Client S) where
  frame_read :
      (id : ℕ) (p : Pdu) (c : Client S)
      → 2 ≤ length p
      → read_unexpected o h otherwise (client_read (make_rtu id p)) c
        ≡ (is_request_reply o c.last p >>= after_match o h otherwise p c)
  unfolding read_unexpected after_unexpected_pdu make_rtu Crc.sum Crc.sum_from
  frame_read id p c long =
      ap (after_unexpected_pdu o h otherwise c) (make_rtu_roundtrip id p long).0

  request_read :
      (id : ℕ) (w : Pdu) (c : Client S)
      → 2 ≤ length w
      → valid (get_function_code w) ≡ true
      → c.last ≡ []
      → read_unexpected o h otherwise (client_read (make_rtu id w)) c ≡ ok (record c { last = w })
  unfolding after_match
  request_read id w c long v idle =
      frame_read id w c long
      ∙ ap (λ (l : Pdu). is_request_reply o l w >>= after_match o h otherwise w c) idle
      ∙ rw (nothing_asked o w v, idle) refl

  reply_read :
      {f a q : ℕ} {values : List ℕ} {w : Pdu} (id : ℕ) (bytes : List ℕ) (t : S) (c : Client S)
      → Sent f a q values w
      → is_write_to_server f ≡ false
      → length bytes ≡ data_bytes f q
      → h.on_write w bytes c.handled ≡ (ok tt, t)
      → read_unexpected o h otherwise
          (client_read (make_rtu id (make_read_reply w bytes)))
          (record c { last = w })
        ≡ ok (record c { last = []; handled = t })
  unfolding after_match after_unexpected_values after_unexpected
  reply_read {f} {w = w} id bytes t c sent reads n ran =
      let k = Sent-Reads o sent in
      let (some_bytes, few) = read_bytes (Sent-HasForm sent) reads in
      let kind : is_write_to_server (get_function_code (make_read_reply w bytes)) ≡ false =
        ap is_write_to_server (read_reply_code w bytes ∙ k.reads_code) ∙ reads in
      frame_read id (make_read_reply w bytes) (record c { last = w }) (read_length w bytes)
      ∙ rw
          (
            is_request_reply-read o bytes sent reads n,
            kind,
            data_read_back w bytes (omega arith) (omega arith),
            ran,
          )
          refl

-- Between its transactions, a client that remembers no request hears a read request of another
-- client, and then the data reply to it, of any slave, with as many bytes as the requested values
-- take. It calls `OnWrite` with that request and exactly the data of the reply; where that succeeds,
-- it counts no drop and remembers no request, and goes on.
pub serve-listens {ℓ} :
    {S : Type ℓ} (o : OverSize) (h : ProtocolHandler S) (accepts : List Rtu → Rtu → Bool)
    {f a q : ℕ} {values : List ℕ} {w : Pdu} (id id' : ℕ) (bytes : List ℕ) (t : S) (acts : List Act)
    (c : Client S)
    → Sent f a q values w
    → is_write_to_server f ≡ false
    → length bytes ≡ data_bytes f q
    → h.on_write w bytes c.handled ≡ (ok tt, t)
    → c.last ≡ []
    → serve o h accepts
        (heard (make_rtu id w) ∷ heard (make_rtu id' (make_read_reply w bytes)) ∷ acts)
        c
      ≡ serve o h accepts acts (record c { last = []; handled = t })
unfolding serve
serve-listens o h accepts {w = w} id id' bytes t acts c sent reads n ran idle =
    let k = Sent-Reads o sent in
    rw (
      request_read o h (count other_drop) id w c (omega (arith, k.reads_length))
          (valid_code w k.reads_valid) idle,
      reply_read o h (count other_drop) id' bytes t c sent reads n ran,
    )
