-- ===== src/FailoverRtuClient/Reports.antt =====
-- Every transaction of `FailoverRTUClient.Serve` whose timer expires is answered.
use modbusone.Base.{
  ℕ, ◌≤◌, ◌≡◌, ◌≢◌, ◌∙◌, refl, ap, inl, inr, Bool-cases, Bool, true, false, not, ◌&&◌, ◌||◌, ◌==◌,
  List, ◌∷◌, length, some, if-holds, Result, ok, err, panic, message,
}
use modbusone.Failover.Client.{client_write, decided}
use modbusone.Failover.{Conn, set_last_req_time}
use modbusone.FailoverRtuClient.{
  Client, count, with_handled, read_loop, after_get_pdu, accept_reply, after_reply_values,
  after_on_write, read_unexpected,
}
use modbusone.FailoverRtuClient.Loop.{Job, send, after_write, handed_on, after_on_read, transaction}
use modbusone.FunctionCode.{
  is_write_to_server, is_read_to_server, separate_error, make_request_header,
}
use modbusone.Handler.{ProtocolHandler}
use modbusone.OverSize.{OverSize}
use modbusone.Pdu.{Pdu, get_function_code, get_reply_values, make_write_request}
use modbusone.RequestReply.Total.{is_request_reply-total}
use modbusone.Rtu.{Rtu, make_rtu, fast_get_pdu, get_slave_id, is_multicast, get_pdu}
use modbusone.Rtu.Frame.{get_pdu-no_panic, fast_get_pdu-make_rtu}
use modbusone.RtuClient.{Event, reported}
use modbusone.RtuClient.Reports.{
  Timed, expires, starts, hears, Reported, bind-Reported, fast_ok, reply_values-ne-panic, fills,
}
use modbusone.RtuServer.Packet.{IsSafe}
use modbusone.Stats.{id_drop, remote_error}

client_write_ok :
    (id : ℕ) (w : Pdu) (now : ℕ) (conn : Conn)
    → (x : Bool × Conn) × (client_write (make_rtu id w) now conn ≡ ok x)
unfolding client_write
client_write_ok id w now conn = elim (Bool-cases (decided now conn).is_active) [
  | inl active ↦ (
    (true, set_last_req_time w now (decided now conn)),
    rw (active, fast_get_pdu-make_rtu id w) refl,
  )
  | inr passive ↦ ((false, decided now conn), rw passive refl)
]

module _ {ℓ} {S : Type ℓ} (o : OverSize) (h : ProtocolHandler S) (safe : IsSafe h) where
  module _ (afc : ℕ) (ap : Pdu) where
    write-Reported :
        (c : Client S) (m : Result (Unit {0}))
        → m ≢ panic
        → Reported (after_on_write o h afc ap c m)
    unfolding after_on_write
    write-Reported c (ok _) ne = tt
    write-Reported c (err e) ne = tt
    write-Reported c panic ne = absurd (ne refl)

    values-Reported :
        (c : Client S) (m : Result (List ℕ))
        → m ≢ panic
        → Reported (after_reply_values o h afc ap c m)
    unfolding after_reply_values
    values-Reported c (ok values) ne =
        write-Reported (with_handled c (h.on_write ap values c.handled).1)
          (h.on_write ap values c.handled).0 (safe.write_safe ap values c.handled)
    values-Reported c (err e) ne = tt
    values-Reported c panic ne = absurd (ne refl)

    accept-Reported :
        (rp : Pdu) (c : Client S) → 2 ≤ length rp → Reported (accept_reply o h afc ap rp c)
    unfolding accept_reply read_unexpected
    accept-Reported rp c two =
        let (b, answer) = is_request_reply-total o ap rp in
        bind-Reported b _ answer (
          if-holds Reported (not b) _ _ (λ other. tt)
            λ ours.
              if-holds Reported (is_read_to_server afc) _ _
                (λ reads. values-Reported c (get_reply_values rp) (reply_values-ne-panic rp two))
                (λ writes. tt))

    pdu-Reported :
        (r : Rtu) (c : Client S) (m : Result Pdu)
        → get_pdu r ≡ m
        → Reported (after_get_pdu o h afc ap c m)
    unfolding after_get_pdu
    pdu-Reported r c (ok rp) e =
        let (flag, fc) = separate_error (get_function_code rp) in
        if-holds Reported (flag && fc == afc)
          (ok (
            reported (some message),
            with_handled (count remote_error c) (h.on_error ap rp c.handled),
          ))
          (accept_reply o h afc ap rp c) (λ excepted. tt)
          (λ fine. accept-Reported rp c (fast_ok r rp e).1)
    pdu-Reported r c (err x) e = tt
    pdu-Reported r c panic e = absurd (get_pdu-no_panic r e)

    read_loop-Reported :
        {events : List Event} (slave : ℕ) (c : Client S)
        → Timed events
        → Reported (read_loop o h afc ap slave events c)
    unfolding read_loop
    read_loop-Reported slave c expires = tt
    read_loop-Reported slave c starts = tt
    read_loop-Reported slave c (hears {id = id} {r = r} {events = events} later) =
        let rest = read_loop-Reported slave (count id_drop c) later in
        if-holds Reported (not (id == slave)) _ _ (λ other. rest)
          (λ ours. pdu-Reported (id ∷ r) c (get_pdu (id ∷ r)) refl)

  module _ (accepts : List Rtu → Rtu → Bool) (job : Job) (timed : Timed job.events) where
    after_write-Reported :
        (afc : ℕ) (frame : Rtu) (ap : Pdu) (fails : Bool) (c : Client S)
        → Reported (after_write o h accepts job afc frame ap fails c)
    unfolding after_write
    after_write-Reported afc frame ap true c = tt
    after_write-Reported afc frame ap false c =
        if-holds Reported (is_multicast frame || not c.conn.is_active) _ _ (λ silent. tt)
          (λ awaited. read_loop-Reported afc ap (get_slave_id frame) c timed)

    send-Reported :
        (afc id : ℕ) (w : Pdu) (c : Client S)
        → Reported (send o h accepts job afc (make_rtu id w) c)
    unfolding send
    send-Reported afc id w c =
        let ((handed, conn), written) = client_write_ok id w job.now (job.before c.conn) in
        bind-Reported (handed, conn) _ written
          (bind-Reported w _ (fast_get_pdu-make_rtu id w) (
            after_write-Reported afc (make_rtu id w) w
              (handed && not (accepts c.written (make_rtu id w)))
              (handed_on handed (make_rtu id w) (job.meanwhile conn) c)))

    read-Reported :
        (ap : Pdu) (c : Client S) (m : Result (List ℕ))
        → ((values : List ℕ) → (w : Pdu) × (make_write_request ap job.spare values ≡ ok w))
        → m ≢ panic
        → Reported (after_on_read o h accepts job ap c m)
    unfolding after_on_read
    read-Reported ap c (ok values) written ne =
        let (w, fill) = written values in
        bind-Reported w _ fill (send-Reported (get_function_code ap) (get_slave_id job.frame) w c)
    read-Reported ap c (err e) written ne = tt
    read-Reported ap c panic written ne = absurd (ne refl)

    -- A transaction of a failover client for a request header, with functions of the user that do not
    -- panic. Whether the connection is active or passive when it writes, whether or not it then takes
    -- the frame, whatever the reader goroutine does to the connection meanwhile, and whatever is heard:
    -- if the timer expires before the connection fails, then something is sent on the channel of the
    -- transaction, an error or nil.
    pub job-Reported :
        (id f a q : ℕ) (p : Pdu) (c : Client S)
        → make_request_header f a q ≡ ok p
        → job.frame ≡ make_rtu id p
        → Reported (transaction o h accepts job c)
    unfolding transaction
    job-Reported id f a q p c made framed =
        bind-Reported p _ (ap fast_get_pdu framed ∙ fast_get_pdu-make_rtu id p) (
          if-holds Reported (is_write_to_server (get_function_code p)) _ _
            (λ writes.
              read-Reported p (with_handled c (h.on_read p c.handled).1) (h.on_read p c.handled).0
                (λ values. fills f a q p job.spare values made writes) (safe.read_safe p c.handled))
            (λ reads. rw framed (send-Reported (get_function_code p) id p c)))
