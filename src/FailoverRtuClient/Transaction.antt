-- ===== src/FailoverRtuClient/Transaction.antt =====
-- The transactions of a failover client.
use modbusone.Base.{
  ℕ, ◌≡◌, refl, ap, not, ◌&&◌, ◌||◌, ◌==◌, message, Bool, true, false, if-holds, List, [], ◌∷◌,
  none, some, Result, ok, err, panic, ◌>>=◌,
}
use modbusone.Failover.Client.{client_write}
use modbusone.FailoverRtuClient.{
  Client, count, with_handled, read_loop, after_get_pdu, accept_reply, after_reply_values,
  after_on_write, read_unexpected,
}
use modbusone.FailoverRtuClient.Loop.{Job, send, after_write, handed_on, after_on_read, transaction}
use modbusone.FunctionCode.{is_write_to_server, is_read_to_server, separate_error}
use modbusone.Handler.{ProtocolHandler}
use modbusone.OverSize.{OverSize}
use modbusone.Pdu.{Pdu, get_function_code, get_reply_values, make_write_request}
use modbusone.RequestReply.{is_request_reply}
use modbusone.Rtu.{Rtu, make_rtu, fast_get_pdu, get_slave_id, is_multicast, get_pdu}
use modbusone.Stats.{id_drop, remote_error}
use modbusone.RtuClient.{
  Event, time_out, client_start, client_error, client_read, Outcome, reported,
}

-- A result behind which the client remembers `l`.
abbrev pub Recalls {ℓ} : {S : Type ℓ} → Pdu → Result (Outcome × Client S) → Type 0
Recalls l (ok (outcome, c)) = c.last ≡ l
Recalls l (err e) = Unit
Recalls l panic = Unit

bind-Recalls {ℓ} :
    {S : Type ℓ} {A : Type 0} (l : Pdu) (m : Result A) (k : A → Result (Outcome × Client S))
    → ((a : A) → Recalls l (k a))
    → Recalls l (m >>= k)
bind-Recalls l (ok a) k each = each a
bind-Recalls l (err e) k each = tt
bind-Recalls l panic k each = tt

module _ {ℓ} {S : Type ℓ} (o : OverSize) (h : ProtocolHandler S) where
  module _ (afc : ℕ) (ap : Pdu) where
    written-Recalls :
        (c : Client S) (m : Result (Unit {0})) → Recalls c.last (after_on_write o h afc ap c m)
    unfolding after_on_write count
    written-Recalls c (ok _) = refl
    written-Recalls c (err e) = refl
    written-Recalls c panic = tt

    values-Recalls :
        (c : Client S) (m : Result (List ℕ)) → Recalls c.last (after_reply_values o h afc ap c m)
    unfolding after_reply_values count
    values-Recalls c (ok values) =
        written-Recalls (with_handled c (h.on_write ap values c.handled).1)
          (h.on_write ap values c.handled).0
    values-Recalls c (err e) = refl
    values-Recalls c panic = tt

    accept-Recalls : (rp : Pdu) (c : Client S) → Recalls c.last (accept_reply o h afc ap rp c)
    unfolding accept_reply read_unexpected count
    accept-Recalls rp c = bind-Recalls c.last (is_request_reply o ap rp) _ (λ matches.
        if-holds (Recalls c.last) (not matches) _ _ (λ unmatched. refl)
          (λ matched.
            if-holds (Recalls c.last) (is_read_to_server afc) _ _
              (λ reads. values-Recalls c (get_reply_values rp)) (λ writes. refl)))

    pdu-Recalls : (c : Client S) (m : Result Pdu) → Recalls c.last (after_get_pdu o h afc ap c m)
    unfolding after_get_pdu count
    pdu-Recalls c (ok rp) =
        if-holds (Recalls c.last)
          ((separate_error (get_function_code rp)).0
            && (separate_error (get_function_code rp)).1 == afc)
          (ok (
            reported (some message),
            with_handled (count remote_error c) (h.on_error ap rp c.handled),
          ))
          (accept_reply o h afc ap rp c) (λ refused. refl) (λ good. accept-Recalls rp c)
    pdu-Recalls c (err e) = refl
    pdu-Recalls c panic = tt

    loop-Recalls :
        (slave : ℕ) (events : List Event) (c : Client S)
        → Recalls c.last (read_loop o h afc ap slave events c)
    unfolding read_loop count
    loop-Recalls slave [] c = refl
    loop-Recalls slave (time_out ∷ events) c = refl
    loop-Recalls slave (client_start ∷ events) c = refl
    loop-Recalls slave (client_error e ∷ events) c = refl
    loop-Recalls slave (client_read [] ∷ events) c = tt
    loop-Recalls slave (client_read (id ∷ r) ∷ events) c =
        if-holds (Recalls c.last) (not (id == slave)) _ _
          (λ other. loop-Recalls slave events (count id_drop c))
          (λ own. pdu-Recalls c (get_pdu (id ∷ r)))

  module _ (accepts : List Rtu → Rtu → Bool) where
    after_write-Recalls :
        (job : Job) (afc : ℕ) (frame : Rtu) (ap : Pdu) (fails : Bool) (c : Client S)
        → Recalls c.last (after_write o h accepts job afc frame ap fails c)
    unfolding after_write
    after_write-Recalls job afc frame ap true c = refl
    after_write-Recalls job afc frame ap false c =
        if-holds (Recalls c.last) (is_multicast frame || not c.conn.is_active)
          (ok (reported none, c)) (read_loop o h afc ap (get_slave_id frame) job.events c)
          (λ silent. refl) (λ awaited. loop-Recalls afc ap (get_slave_id frame) job.events c)

    send-Recalls :
        (job : Job) (afc : ℕ) (frame : Rtu) (c : Client S)
        → Recalls c.last (send o h accepts job afc frame c)
    unfolding send
    send-Recalls job afc frame c =
        bind-Recalls c.last (client_write frame job.now (job.before c.conn)) _ (λ (handed, conn).
          bind-Recalls c.last (fast_get_pdu frame) _ (λ ap.
            after_write-Recalls job afc frame ap (handed && not (accepts c.written frame))
              (handed_on handed frame (job.meanwhile conn) c)))

    read-Recalls :
        (job : Job) (ap : Pdu) (c : Client S) (m : Result (List ℕ))
        → Recalls c.last (after_on_read o h accepts job ap c m)
    unfolding after_on_read
    read-Recalls job ap c (ok values) =
        bind-Recalls c.last (make_write_request ap job.spare values) _
          (λ w. send-Recalls job (get_function_code ap) (make_rtu (get_slave_id job.frame) w) c)
    read-Recalls job ap c (err e) = refl
    read-Recalls job ap c panic = tt

    -- Whatever is read while a transaction is under way, the request that the client remembers behind
    -- it, if it ends without a panic, is the one from before: the call of `readUnexpected` for a packet
    -- that is no reply does nothing with the packet.
    pub transaction-Recalls :
        (job : Job) (c : Client S) → Recalls c.last (transaction o h accepts job c)
    unfolding transaction
    transaction-Recalls job c = bind-Recalls c.last (fast_get_pdu job.frame) _ (λ ap.
        if-holds (Recalls c.last) (is_write_to_server (get_function_code ap))
          (after_on_read o h accepts job ap (with_handled c (h.on_read ap c.handled).1)
            (h.on_read ap c.handled).0)
          (send o h accepts job (get_function_code ap) job.frame c)
          (λ writes.
            read-Recalls job ap (with_handled c (h.on_read ap c.handled).1)
              (h.on_read ap c.handled).0)
          (λ reads. send-Recalls job (get_function_code ap) job.frame c))
