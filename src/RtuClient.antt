-- ===== src/RtuClient.antt =====
-- `RTUClient.ServeRTU` of rtu_client.go. What the channel `actions` and the timer give, while a
-- transaction is under way, is a list of events. The reader goroutine, which fills the channel, and
-- delays and debug messages are not modelled.
pub mod Transaction
pub mod Loop
pub mod Exchange
pub mod Reports
use modbusone.Base.{
  ℕ, ◌+◌, Bool, true, false, not, ◌&&◌, ltb, ◌==◌, List, [], ◌∷◌, ◌++◌, Option, none, some,
  if◌then◌else◌, Result, ok, err, panic, ◌>>=◌, Error, exception, crc_invalid, io_failure, message,
  wrap,
}
use modbusone.FunctionCode.{is_read_to_server, is_write_to_server, separate_error}
use modbusone.Handler.{RtuProtocolHandler, Action, ProtocolHandler}
use modbusone.OverSize.{OverSize}
use modbusone.Pdu.{Pdu, at, get_function_code, get_reply_values, make_write_request}
use modbusone.RequestReply.{is_request_reply}
use modbusone.Rtu.{Rtu, RtuHeader, make_rtu, get_pdu, fast_get_pdu, get_slave_id, is_multicast}
use modbusone.RtuServer.{is_crc}
use modbusone.Stats.{Stats, add, crc_error, other_error, id_drop}

-- What outlives a transaction of `ServeRTU`: counters, the frames given to the connection, be they
-- taken or not, and the state behind the handler.
pub record Client {ℓ} (S : Type ℓ) : Type ℓ where
  pub stats : Stats
  pub written : List Rtu
  pub handled : S

-- What comes while the client waits for a reply.
pub data Event : Type 0 where
  time_out : Event
  -- an action that asks for another transaction
  client_start : Event
  client_error : Error → Event
  client_read : Rtu → Event

-- How a transaction ends: with what is sent on its channel, nil being `none`, and then the next
-- transaction; or with what `ServeRTU` returns, after what was sent on the channel, if anything.
pub data Outcome : Type 0 where
  reported : Option Error → Outcome
  returned : Option Error → Error → Outcome
  -- no more events, and no end
  waiting : Outcome

unfoldable pub drop_id {ℓ} : {S : Type ℓ} → Client S → Client S
drop_id c = record c { stats = add id_drop c.stats }

unfoldable pub count_bad {ℓ} : {S : Type ℓ} → Error → Client S → Client S
count_bad e c = record c { stats = add (if is_crc e then crc_error else other_error) c.stats }

unfoldable pub count_error {ℓ} : {S : Type ℓ} → Client S → Client S
count_error c = record c { stats = add other_error c.stats }

abbrev pub with_handled {ℓ} : {S : Type ℓ} → Client S → S → Client S
with_handled c t = record { stats = c.stats; written = c.written; handled = t }

-- `fastGetHeader`
unfoldable pub fast_get_header : Rtu → Result RtuHeader
fast_get_header r = do p ← fast_get_pdu r; ok (record { slave_id = get_slave_id r; pdu = p })

-- The function code `afc` is that of the transaction's action.
module _ {ℓ} {S : Type ℓ} (o : OverSize) (h : RtuProtocolHandler S) (afc : ℕ) where
  -- After `OnWrite`.
  unfoldable pub after_on_write : Client S → Result (Unit {0}) → Result (Outcome × Client S)
  unfolding count_error
  after_on_write c (ok _) = ok (reported none, c)
  after_on_write c (err e) = ok (reported (some e), count_error c)
  after_on_write c panic = panic

  -- After `GetReplyValues`.
  unfoldable pub after_reply_values :
      RtuHeader → Client S → Result (List ℕ) → Result (Outcome × Client S)
  unfolding after_on_write count_error
  after_reply_values header c (ok values) =
      let (result, t) = h.on_write header values c.handled in
      after_on_write (with_handled c t) result
  after_reply_values header c (err e) = ok (reported (some e), count_error c)
  after_reply_values header c panic = panic

  -- From the test `IsRequestReply` on.
  unfoldable pub accept_reply : RtuHeader → Pdu → Client S → Result (Outcome × Client S)
  unfolding after_reply_values count_error
  accept_reply header rp c = is_request_reply o header.pdu rp >>= λ matches.
      if not matches
      then ok (reported (some message), count_error c)
      else if is_read_to_server afc
      then after_reply_values header c (get_reply_values rp)
      else ok (reported none, c)

  -- An exception reply: `OnError`, and the exception code as an error.
  unfoldable pub refused : RtuHeader → RtuHeader → Pdu → Client S → Result (Outcome × Client S)
  unfolding count_error
  refused header reply rp c = do
    t ← h.on_error header reply c.handled
    ec ← at rp 1
    ok (reported (some (wrap (exception ec))), count_error (with_handled c t))

  -- After `GetPDU`, for the frame `r` of the slave.
  unfoldable pub after_get_pdu :
      RtuHeader → Rtu → Client S → Result Pdu → Result (Outcome × Client S)
  unfolding accept_reply refused count_bad fast_get_header
  after_get_pdu header r c (ok rp) =
      let (has_err, fc) = separate_error (get_function_code rp) in
      if has_err && fc == afc
      then (do reply ← fast_get_header r; refused header reply rp c)
      else accept_reply header rp c
  after_get_pdu header r c (err e) = ok (reported (some e), count_bad e c)
  after_get_pdu header r c panic = panic

  -- `READ_LOOP`, for the request that was sent. A frame of another slave is dropped.
  unfoldable pub read_loop : RtuHeader → List Event → Client S → Result (Outcome × Client S)
  unfolding drop_id after_get_pdu
  read_loop header [] c = ok (waiting, c)
  read_loop header (time_out ∷ events) c = ok (reported (some message), c)
  read_loop header (client_start ∷ events) c = ok (returned (some message) message, c)
  read_loop header (client_error e ∷ events) c = ok (returned none e, c)
  read_loop header (client_read [] ∷ events) c = panic
  read_loop header (client_read (id ∷ r) ∷ events) c =
      let rest = read_loop header events (drop_id c) in
      if not (id == header.slave_id)
      then rest
      else after_get_pdu header (id ∷ r) c (get_pdu (id ∷ r))

  -- The frame is written, and then its reply awaited, but for a multicast.
  unfoldable pub send :
      (List Rtu → Rtu → Bool) → Rtu → List Event → Client S → Result (Outcome × Client S)
  unfolding read_loop fast_get_header
  send accepts frame events c =
      let c' : Client S = record {
        stats = c.stats;
        written = c.written ++ (frame ∷ []);
        handled = c.handled;
      } in
      if not (accepts c.written frame)
      then ok (returned (some io_failure) io_failure, c')
      else if is_multicast frame
      then ok (reported none, c')
      else (do header ← fast_get_header frame; read_loop header events c')

  -- After `OnRead`, for a write. `spare` is what lies behind the PDU in the array of the action.
  unfoldable pub after_on_read :
      (List Rtu → Rtu → Bool)
      → RtuHeader
      → List ℕ
      → List Event
      → Client S
      → Result (List ℕ)
      → Result (Outcome × Client S)
  unfolding send
  after_on_read accepts header spare events c (ok values) = do
    w ← make_write_request header.pdu spare values
    send accepts (make_rtu header.slave_id w) events c
  after_on_read accepts header spare events c (err e) = ok (reported (some e), c)
  after_on_read accepts header spare events c panic = panic

-- A transaction, from the action `act` that starts it.
unfoldable pub transaction {ℓ} :
    {S : Type ℓ}
    → OverSize
    → RtuProtocolHandler S
    → (List Rtu → Rtu → Bool)
    → Rtu
    → List ℕ
    → List Event
    → Client S
    → Result (Outcome × Client S)
unfolding after_on_read send fast_get_header
transaction o h accepts act spare events c = fast_get_header act >>= λ header.
    let afc = get_function_code header.pdu in
    if is_write_to_server afc
    then (let (result, t) = h.on_read header c.handled in
        after_on_read o h afc accepts header spare events (with_handled c t) result)
    else send o h afc accepts act events c
