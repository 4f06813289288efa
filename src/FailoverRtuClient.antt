-- ===== src/FailoverRtuClient.antt =====
-- `FailoverRTUClient.Serve` of failover_rtu_client.go. Events, outcomes and reports are those of the
-- RTU client. The reader goroutine, which fills the channel and reads the connection meanwhile, is
-- a function of the connection; delays and debug messages are not modelled.
pub mod Listening
pub mod Loop
pub mod Made
pub mod Transaction
pub mod Reports
pub mod Exchange
use modbusone.Base.{
  ℕ, Bool, true, false, not, ◌&&◌, ◌==◌, List, [], ◌∷◌, ◌++◌, length, Option, none, some,
  if◌then◌else◌, Result, ok, err, panic, ◌>>=◌, Error, io_failure, message,
}
use modbusone.Failover.{Conn}
use modbusone.Failover.Client.{client_write}
use modbusone.FunctionCode.{is_read_to_server, is_write_to_server, separate_error}
use modbusone.Handler.{ProtocolHandler}
use modbusone.OverSize.{OverSize}
use modbusone.Pdu.{Pdu, get_function_code, get_reply_values, make_write_request}
use modbusone.RequestReply.{is_request_reply}
use modbusone.Rtu.{Rtu, make_rtu, get_pdu, fast_get_pdu, get_slave_id, is_multicast}
use modbusone.RtuClient.{
  Event, time_out, client_start, client_error, client_read, Outcome, reported, returned, waiting,
}
use modbusone.RtuServer.{is_crc}
use modbusone.Stats.{Stats, Counter, add, crc_error, remote_error, other_error, id_drop, other_drop}

-- What outlives a transaction: counters, the frames given to the serial context, be they taken or
-- not, the connection, the variable `last`, and the state behind the handler.
pub record Client {ℓ} (S : Type ℓ) : Type ℓ where
  pub stats : Stats
  pub written : List Rtu
  pub conn : Conn
  pub last : Pdu
  pub handled : S

unfoldable pub count {ℓ} : {S : Type ℓ} → Counter → Client S → Client S
count k c = record c { stats = add k c.stats }

abbrev pub with_handled {ℓ} : {S : Type ℓ} → Client S → S → Client S
with_handled c t = record {
  stats = c.stats;
  written = c.written;
  conn = c.conn;
  last = c.last;
  handled = t;
}

-- `last.Reset()`
abbrev pub forget {ℓ} : {S : Type ℓ} → Client S → Client S
forget c = record c { last = [] }

module _ {ℓ} {S : Type ℓ} (o : OverSize) (h : ProtocolHandler S) where
  -- `readUnexpected`, after `OnWrite`, and the deferred reset.
  unfoldable pub after_unexpected :
      (Client S → Client S) → Client S → Result (Unit {0}) → Result (Client S)
  after_unexpected otherwise c (ok _) = ok (forget c)
  after_unexpected otherwise c (err e) = ok (forget (otherwise c))
  after_unexpected otherwise c panic = panic

  -- `readUnexpected`, after `GetReplyValues`, and the deferred reset.
  unfoldable pub after_unexpected_values :
      (Client S → Client S) → Client S → Result (List ℕ) → Result (Client S)
  unfolding after_unexpected
  after_unexpected_values otherwise c (ok values) =
      let (result, t) = h.on_write c.last values c.handled in
      after_unexpected otherwise (with_handled c t) result
  after_unexpected_values otherwise c (err e) = ok (forget (otherwise c))
  after_unexpected_values otherwise c panic = panic

  -- `readUnexpected`, after `IsRequestReply`.
  unfoldable pub after_match : (Client S → Client S) → Pdu → Client S → Bool → Result (Client S)
  unfolding after_unexpected_values count
  after_match otherwise pdu c false =
      ok (record (if length c.last == 0 then c else count other_drop c) { last = pdu })
  after_match otherwise pdu c true =
      if is_write_to_server (get_function_code pdu)
      then ok (forget c)
      else after_unexpected_values otherwise c (get_reply_values pdu)

  -- `readUnexpected`, after `GetPDU`.
  unfoldable pub after_unexpected_pdu :
      (Client S → Client S) → Client S → Result Pdu → Result (Client S)
  unfolding after_match
  after_unexpected_pdu otherwise c (ok pdu) =
      is_request_reply o c.last pdu >>= after_match otherwise pdu c
  after_unexpected_pdu otherwise c (err e) = ok (otherwise c)
  after_unexpected_pdu otherwise c panic = panic

  -- `readUnexpected`, for an action.
  unfoldable pub read_unexpected : (Client S → Client S) → Event → Client S → Result (Client S)
  unfolding after_unexpected_pdu
  read_unexpected otherwise (client_read []) c = ok (otherwise c)
  read_unexpected otherwise (client_read (id ∷ r)) c =
      after_unexpected_pdu otherwise c (get_pdu (id ∷ r))
  read_unexpected otherwise _ c = ok (otherwise c)

  -- `READ_LOOP`: the end of a transaction for the function code `afc` and the request `ap`.
  module _ (afc : ℕ) (ap : Pdu) where
    -- After `OnWrite`.
    unfoldable pub after_on_write : Client S → Result (Unit {0}) → Result (Outcome × Client S)
    unfolding count
    after_on_write c (ok _) = ok (reported none, c)
    after_on_write c (err e) = ok (reported (some e), count other_error c)
    after_on_write c panic = panic

    -- After `GetReplyValues`.
    unfoldable pub after_reply_values : Client S → Result (List ℕ) → Result (Outcome × Client S)
    unfolding after_on_write count
    after_reply_values c (ok values) =
        let (result, t) = h.on_write ap values c.handled in after_on_write (with_handled c t) result
    after_reply_values c (err e) = ok (reported (some e), count other_error c)
    after_reply_values c panic = panic

    -- From the test `IsRequestReply` on. `readUnexpected` is given the action that started the
    -- transaction, not the one that was read.
    unfoldable pub accept_reply : Pdu → Client S → Result (Outcome × Client S)
    unfolding after_reply_values read_unexpected count
    accept_reply rp c = is_request_reply o ap rp >>= λ matches.
        if not matches
        then (read_unexpected (count other_error) client_start c >>= λ c'.
            ok (reported (some message), c'))
        else if is_read_to_server afc
        then after_reply_values c (get_reply_values rp)
        else ok (reported none, c)

    -- After `GetPDU`, for a frame of the slave.
    unfoldable pub after_get_pdu : Client S → Result Pdu → Result (Outcome × Client S)
    unfolding accept_reply count
    after_get_pdu c (ok rp) =
        let (has_err, fc) = separate_error (get_function_code rp) in
        if has_err && fc == afc
        then ok (
          reported (some message),
          with_handled (count remote_error c) (h.on_error ap rp c.handled),
        )
        else accept_reply rp c
    after_get_pdu c (err e) =
        ok (reported (some e), count (if is_crc e then crc_error else other_error) c)
    after_get_pdu c panic = panic

    -- `READ_LOOP`, for the slave id of the request. A frame of another slave is dropped.
    unfoldable pub read_loop : ℕ → List Event → Client S → Result (Outcome × Client S)
    unfolding after_get_pdu count
    read_loop slave [] c = ok (waiting, c)
    read_loop slave (time_out ∷ events) c = ok (reported (some message), c)
    read_loop slave (client_start ∷ events) c = ok (returned (some message) message, c)
    read_loop slave (client_error e ∷ events) c = ok (returned none e, c)
    read_loop slave (client_read [] ∷ events) c = panic
    read_loop slave (client_read (id ∷ r) ∷ events) c =
        let rest = read_loop slave events (count id_drop c) in
        if not (id == slave) then rest else after_get_pdu c (get_pdu (id ∷ r))
