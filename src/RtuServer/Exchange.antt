-- ===== src/RtuServer/Exchange.antt =====
-- What the server does with the frame of a request that a client sends.
use modbusone.Base.{
  ℕ, ◌≡◌, ◌⊎◌, inl, inr, refl, ap, ◌∙◌, Bool, true, false, not, ◌&&◌, ◌==◌, List, some, ok, err,
  Error, arith,
}
use modbusone.FunctionCode.{is_read_to_server, is_write_to_server}
use modbusone.Handler.{ProtocolHandler}
use modbusone.OverSize.{OverSize}
use modbusone.Pdu.{
  Pdu, make_read_reply, make_write_reply, exception_reply_packet, to_exception_code,
}
use modbusone.Pdu.Sent.{Sent, Sent-Reads}
use modbusone.Rtu.{Rtu, make_rtu}
use modbusone.Rtu.Frame.{make_rtu_roundtrip}
use modbusone.RtuServer.{
  Server, wp, wec, count_other, answer_error, after_read, after_write, after_values, after_call,
  answer, answer_valid, serve_pdu, serve_packet,
}

-- The id is the server's, or the broadcast id.
pub addressed :
    (id slave_id : ℕ) → (id ≡ 0) ⊎ (id ≡ slave_id) → (not (id == 0) && not (id == slave_id)) ≡ false
addressed id slave_id (inl e) = rw e refl
addressed id slave_id (inr e) = ground arith

module _ {ℓ} {S : Type ℓ} (o : OverSize) (accepts : List Rtu → Rtu → Bool)
    (h : ProtocolHandler S) where
  reaches :
      (id slave_id : ℕ) (s : Server S) {f a q : ℕ} {values : List ℕ} {w : Pdu}
      → (id ≡ 0) ⊎ (id ≡ slave_id)
      → Sent f a q values w
      → serve_packet o accepts h slave_id (make_rtu id w) s ≡ answer o accepts h w id s
  unfolding serve_packet serve_pdu answer_valid
  reaches id slave_id s {w = w} ours sent =
      let k = Sent-Reads o sent in
      let (x, y, _) = make_rtu_roundtrip id w (omega (arith, k.reads_length)) in
      rw (x, y, addressed id slave_id ours, k.reads_valid) refl

  answers_read :
      (id : ℕ) (s : Server S) {f a q : ℕ} {values : List ℕ} {w : Pdu}
      → is_write_to_server f ≡ false
      → Sent f a q values w
      → answer o accepts h w id s ≡ (
          let (result, t) = h.on_read w s.handled in
          after_read o accepts h w id (after_call s t) result)
  unfolding answer
  answers_read id s e sent =
      let k = Sent-Reads o sent in
      let r : is_read_to_server _ ≡ true = k.reads_kind ∙ ap not e in rw (k.reads_code, r) refl

  answers_write :
      (id : ℕ) (s : Server S) {f a q : ℕ} {values : List ℕ} {w : Pdu}
      → is_write_to_server f ≡ true
      → Sent f a q values w
      → answer o accepts h w id s ≡ (
          let (result, t) = h.on_write w values s.handled in
          after_write o accepts h w id (after_call s t) result)
  unfolding answer after_values
  answers_write id s e sent =
      let k = Sent-Reads o sent in
      let r : is_read_to_server _ ≡ false = k.reads_kind ∙ ap not e in
      rw (k.reads_code, r, e, k.reads_values e) refl

  module _ (id slave_id : ℕ) (s : Server S) {f a q : ℕ} {values : List ℕ} {w : Pdu}
      (ours : (id ≡ 0) ⊎ (id ≡ slave_id)) (sent : Sent f a q values w) where
    -- The frame of a read that a client sends, to the server's slave id or the broadcast id, calls
    -- `OnRead` with the request, and what that returns is replied, by `wp`, which does not reply to
    -- the broadcast id. Nothing is counted.
    pub serve_packet-read :
        (bytes : List ℕ) (t : S)
        → is_write_to_server f ≡ false
        → h.on_read w s.handled ≡ (ok bytes, t)
        → serve_packet o accepts h slave_id (make_rtu id w) s
          ≡ ok (wp accepts (make_read_reply w bytes) id (after_call s t))
    unfolding after_read
    serve_packet-read bytes t r ran =
        reaches id slave_id s ours sent ∙ answers_read id s r sent ∙ rw ran refl

    -- The frame of a write that a client sends, to the server's slave id or the broadcast id, calls
    -- `OnWrite` with the request and exactly the data that was sent, and is acknowledged once that
    -- has succeeded, by `wp`, which does not reply to the broadcast id. Nothing is counted.
    pub serve_packet-write :
        (t : S)
        → is_write_to_server f ≡ true
        → h.on_write w values s.handled ≡ (ok tt, t)
        → serve_packet o accepts h slave_id (make_rtu id w) s
          ≡ ok (wp accepts (make_write_reply w) id (after_call s t))
    unfolding after_write
    serve_packet-write t r ran =
        reaches id slave_id s ours sent ∙ answers_write id s r sent ∙ rw ran refl

    -- Where `OnRead` fails on a read that a client sends, or `OnWrite` on a write, the error is
    -- counted under OtherErrors and replied as an exception with its `ToExceptionCode`, by `wp`,
    -- which does not reply to the broadcast id.
    pub serve_packet-failed :
        (e : Error) (t : S)
        → ((is_write_to_server f ≡ false) × (h.on_read w s.handled ≡ (err e, t)))
          ⊎ ((is_write_to_server f ≡ true) × (h.on_write w values s.handled ≡ (err e, t)))
        → serve_packet o accepts h slave_id (make_rtu id w) s
          ≡ ok (
              wp accepts
                (exception_reply_packet w (to_exception_code (some e)))
                id
                (count_other (after_call s t)))
    unfolding after_read after_write answer_error wec
    serve_packet-failed e t (inl (r, ran)) =
        reaches id slave_id s ours sent ∙ answers_read id s r sent ∙ rw ran refl
    serve_packet-failed e t (inr (r, ran)) =
        reaches id slave_id s ours sent ∙ answers_write id s r sent ∙ rw ran refl
