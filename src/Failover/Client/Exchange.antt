-- ===== src/Failover/Client/Exchange.antt =====
-- What a client's reads do to it.
use modbusone.Base.{
  ℕ, ◌+◌, ◌<◌, ◌≤◌, ◌≡◌, ◌≢◌, ◌⊎◌, refl, Bool, true, false, not, ◌&&◌, length, lt→ltb, if-holds,
  if◌then◌else◌, [], Option, none, some, Result, ok, err, panic, Error, inl, inr, arith,
}
use modbusone.Failover.{Conn, reset_request_time, set_last_req_time}
use modbusone.Failover.Client.{
  client_read, client_write, after_pdu, is_reply, other_request, decided, missed, forced_back,
  disconnected,
}
use modbusone.OverSize.{OverSize}
use modbusone.Pdu.{Pdu}
use modbusone.RequestReply.{is_request_reply}
use modbusone.RequestReply.Sound.{is_request_reply-answers}
use modbusone.Rtu.{Rtu, get_pdu, make_rtu}
use modbusone.Rtu.Frame.{get_pdu-no_panic, fast_get_pdu-make_rtu, make_rtu_roundtrip}

-- The connection waits for no reply, or for the one to `p`; and a failover that is active behind a
-- request was not active before, or is none.
abbrev Noted : Pdu → Conn → Conn → Type 0
Noted p s s' =
    ((s'.request_time ≡ 0) × (s'.req_packet ≡ []) × (s'.is_active ≡ s.is_active))
    ⊎ ((s'.req_packet ≡ p) × (s'.is_active ≡ (s.is_active && not s.is_failover)))

-- The result of a read, for what `GetPDU` gives.
abbrev AfterPdu : Conn → Result Pdu → Option Error × Conn → Type 0
AfterPdu s (ok p) (e, s') = (e ≡ none) × (s'.misses ≡ 0) × Noted p s s'
AfterPdu s (err q) (e, s') = (e ≡ some q) × (s' ≡ record s { misses = 0 })
AfterPdu s panic (e, s') = ⊥

-- The result of a read, for the packet and the error of the packet reader.
abbrev pub AfterRead : Rtu → Option Error → Conn → Option Error × Conn → Type 0
AfterRead r (some q) s (e, s') = (e ≡ some q) × (s' ≡ s)
AfterRead r none s result = AfterPdu s (get_pdu r) result

module _ (o : OverSize) (bytes_delay : ℕ → ℕ) where
  is_reply-answers :
      (n now : ℕ) (p : Pdu) (s : Conn) → (b : Bool) × (is_reply o bytes_delay n now p s ≡ ok b)
  unfolding is_reply
  is_reply-answers n now p s =
      if-holds (λ (m : Result Bool). (b : Bool) × (m ≡ ok b)) _ _ _
        (λ soon. is_request_reply-answers o s.req_packet p) (λ late. (false, refl))

  other_request-Noted :
      (p : Pdu) (now : ℕ) (s : Conn) → Noted p s (record (other_request p now s) { misses = 0 })
  unfolding other_request
  other_request-Noted p now s =
      if-holds (λ (s' : Conn). Noted p s (record s' { misses = 0 })) (s.is_failover && s.is_active)
        _ _ (λ both. inr (refl, ground arith)) (λ other. inr (refl, ground arith))

  after_pdu-AfterPdu :
      (n now : ℕ) (s : Conn) (m : Result Pdu)
      → m ≢ panic
      → (r : Option Error × Conn) × (after_pdu o bytes_delay n now s m ≡ ok r) × AfterPdu s m r
  unfolding after_pdu
  after_pdu-AfterPdu n now s (err e) safe = ((some e, record s { misses = 0 }), refl, (refl, refl))
  after_pdu-AfterPdu n now s panic safe = absurd (safe refl)
  after_pdu-AfterPdu n now s (ok p) safe =
      let (b, answer) = is_reply-answers n now p s in rw answer (told b)
    where
      told :
          (b : Bool)
          → (r : Option Error × Conn) × (ok (
            none,
            record (if b then reset_request_time s else other_request p now s) { misses = 0 },
          )
              ≡ ok r)
            × AfterPdu s (ok p) r
      told true = (
        (none, record (reset_request_time s) { misses = 0 }),
        refl,
        (refl, refl, inl (refl, refl, refl)),
      )
      told false = (
        (none, record (other_request p now s) { misses = 0 }),
        refl,
        (refl, refl, other_request-Noted p now s),
      )

  -- `clientRead` never panics. It passes on the packet reader's error, with no change; any other
  -- read counts no misses any more, and has the error of `GetPDU`, if there is one. Behind a good
  -- PDU it either waits for no reply and is as active as before, or remembers the PDU as a request
  -- and an active failover is passive.
  pub client_read-AfterRead :
      (r : Rtu) (fails : Option Error) (now : ℕ) (s : Conn)
      → (result : Option Error × Conn) × (client_read o bytes_delay r fails now s ≡ ok result)
        × AfterRead r fails s result
  unfolding client_read
  client_read-AfterRead r (some e) now s = ((some e, s), refl, (refl, refl))
  client_read-AfterRead r none now s =
      after_pdu-AfterPdu (length r) now s (get_pdu r) (get_pdu-no_panic r)

decided-active :
    (now : ℕ) (s : Conn) → s.is_failover ≡ true → s.is_active ≡ true → decided now s ≡ s
unfolding decided disconnected forced_back missed
decided-active now s failover active = rw (failover, active) refl

pub write-active :
    (id now : ℕ) (w : Pdu) (s : Conn)
    → s.is_failover ≡ true
    → s.is_active ≡ true
    → client_write (make_rtu id w) now s ≡ ok (true, set_last_req_time w now s)
unfolding client_write
write-active id now w s failover active =
    rw (decided-active now s failover active, active, fast_get_pdu-make_rtu id w)

-- An active failover client hands a request to the serial context, and then reads a reply to it
-- within `MissDelay` and the time of its bytes: it is active behind that, waits for no reply, and
-- counts no misses.
pub write-read :
    (o : OverSize) (bytes_delay : ℕ → ℕ) (id id' at then_at : ℕ) (w p : Pdu) (s : Conn)
    → s.is_failover ≡ true
    → s.is_active ≡ true
    → 2 ≤ length p
    → then_at < at + (s.miss_delay + bytes_delay (length (make_rtu id' p)))
    → is_request_reply o w p ≡ ok true
    → (s' : Conn) × (client_write (make_rtu id w) at s ≡ ok (true, s'))
      × (client_read o bytes_delay (make_rtu id' p) none then_at s'
          ≡ ok (none, record s { request_time = 0; req_packet = []; misses = 0 }))
unfolding client_read after_pdu is_reply
write-read o bytes_delay id id' at then_at w p s failover active long soon pair = (
  set_last_req_time w at s,
  write-active id at w s failover active,
  rw (
    (make_rtu_roundtrip id' p long).0,
    lt→ltb then_at (at + (s.miss_delay + bytes_delay (length (make_rtu id' p)))) soon,
    pair,
  ),
)
