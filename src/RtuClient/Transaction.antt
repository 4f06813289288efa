-- ===== src/RtuClient/Transaction.antt =====
-- What the client makes of the replies to its requests.
use modbusone.Base.{
  ℕ, ◌≤◌, ◌<◌, ◌≡◌, refl, ap, ◌∙◌, true, false, not, ==_refl, List, [], ◌∷◌, length, length-take,
  le→leb, lt→ltb, none, ok, arith,
}
use modbusone.Crc
use modbusone.FunctionCode.{is_read_to_server, is_write_to_server, separate_error, valid}
use modbusone.FunctionCode.Limits.{data_bytes}
use modbusone.OverSize.{OverSize}
use modbusone.Pdu.{
  Pdu, get_function_code, validate_request, get_reply_values, make_read_reply, make_write_reply,
}
use modbusone.Pdu.Reply.{read_reply_roundtrip}
use modbusone.Pdu.Sent.{Sent, Sent-Reads, Sent-HasForm}
use modbusone.RequestReply.Sound.{is_request_reply-read, is_request_reply-write, read_bytes}
use modbusone.Rtu.{RtuHeader, make_rtu}
use modbusone.Rtu.Frame.{make_rtu_roundtrip}
use modbusone.Handler.{RtuProtocolHandler}
use modbusone.RtuClient.{
  Client, Event, client_read, reported, read_loop, after_get_pdu, accept_reply, after_reply_values,
  after_on_write, with_handled,
}

module _ {ℓ} {S : Type ℓ} (o : OverSize) (h : RtuProtocolHandler S) (afc : ℕ) where
  received :
      (header : RtuHeader) (p : Pdu) (events : List Event) (c : Client S)
      → 2 ≤ length p
      → read_loop o h afc header (client_read (make_rtu header.slave_id p) ∷ events) c
        ≡ after_get_pdu o h afc header (make_rtu header.slave_id p) c (ok p)
  unfolding read_loop make_rtu Crc.sum Crc.sum_from
  received header p events c n = rw (==_refl header.slave_id) (
      ap (after_get_pdu o h afc header (make_rtu header.slave_id p) c)
        (make_rtu_roundtrip header.slave_id p n).0)

pub small_code : (f : ℕ) → valid f ≡ true → (separate_error f).0 ≡ false
unfolding valid separate_error
small_code f h = ground arith

pub read_reply_code :
    (w bytes : List ℕ) → get_function_code (make_read_reply w bytes) ≡ get_function_code w
unfolding make_read_reply get_function_code
read_reply_code w bytes = refl

pub valid_code : (w : Pdu) → validate_request w ≡ ok tt → valid (get_function_code w) ≡ true
unfolding validate_request
valid_code w h = ground arith

pub read_length : (w bytes : List ℕ) → 2 ≤ length (make_read_reply w bytes)
unfolding make_read_reply
read_length w bytes = omega arith

write_length : (w : Pdu) → 2 ≤ length w → 2 ≤ length (make_write_reply w)
unfolding make_write_reply
write_length w n = ground (arith, length-take 5 w)

pub write_reply_code : (w : Pdu) → get_function_code (make_write_reply w) ≡ get_function_code w
unfolding make_write_reply get_function_code
write_reply_code [] = refl
write_reply_code (f ∷ p) = ground arith

pub data_read_back :
    (w bytes : List ℕ)
    → 1 ≤ length bytes
    → length bytes < 256
    → get_reply_values (make_read_reply w bytes) ≡ ok bytes
data_read_back w bytes n m =
    read_reply_roundtrip w bytes ∙ rw (le→leb 1 (length bytes) n, lt→ltb (length bytes) 256 m) refl

module _ {ℓ} {S : Type ℓ} (o : OverSize) (h : RtuProtocolHandler S) {f a q : ℕ} {values : List ℕ}
    {w : Pdu} (sent : Sent f a q values w) (id : ℕ) (events : List Event) (c : Client S) where
  -- A reply that is no exception is one to the request if `IsRequestReply` says so.
  matched :
      (p : Pdu)
      → 2 ≤ length p
      → get_function_code p ≡ get_function_code w
      → read_loop o h f (record { slave_id = id; pdu = w }) (client_read (make_rtu id p) ∷ events) c
        ≡ accept_reply o h f (record { slave_id = id; pdu = w }) p c
  unfolding after_get_pdu
  matched p n e =
      let k = Sent-Reads o sent in
      let flag : (separate_error (get_function_code p)).0 ≡ false =
        ap (λ (x : ℕ). (separate_error x).0) e
        ∙ small_code (get_function_code w) (valid_code w k.reads_valid) in
      received o h f (record { slave_id = id; pdu = w }) p events c n ∙ rw flag refl

  -- The data reply to a read that was sent makes the client call `OnWrite` with the request's header
  -- and exactly the replied data, if that is as long as the requested values take, and report
  -- success once that has succeeded.
  pub read_loop-read :
      (bytes : List ℕ) (t : S)
      → is_write_to_server f ≡ false
      → length bytes ≡ data_bytes f q
      → h.on_write (record { slave_id = id; pdu = w }) bytes c.handled ≡ (ok tt, t)
      → read_loop o h f
          (record { slave_id = id; pdu = w })
          (client_read (make_rtu id (make_read_reply w bytes)) ∷ events)
          c
        ≡ ok (reported none, with_handled c t)
  unfolding accept_reply after_reply_values after_on_write
  read_loop-read bytes t r n ran =
      let k = Sent-Reads o sent in
      let kind : is_read_to_server f ≡ true = k.reads_kind ∙ ap not r in
      let (some_bytes, few) = read_bytes (Sent-HasForm sent) r in
      matched (make_read_reply w bytes) (read_length w bytes) (read_reply_code w bytes)
      ∙ rw
          (
            is_request_reply-read o bytes sent r n,
            kind,
            data_read_back w bytes (omega arith) (omega arith),
            ran,
          )
          refl

  -- The acknowledgement of a write that was sent makes the client report success, with the state as
  -- it was.
  pub read_loop-write :
      is_write_to_server f ≡ true
      → read_loop o h f
          (record { slave_id = id; pdu = w })
          (client_read (make_rtu id (make_write_reply w)) ∷ events)
          c
        ≡ ok (reported none, c)
  unfolding accept_reply
  read_loop-write r =
      let k = Sent-Reads o sent in
      let kind : is_read_to_server f ≡ false = k.reads_kind ∙ ap not r in
      matched (make_write_reply w) (write_length w (omega (arith, k.reads_length)))
        (write_reply_code w)
      ∙ rw (is_request_reply-write o sent r, kind) refl
