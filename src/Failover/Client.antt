-- ===== src/Failover/Client.antt =====
-- `clientRead` of failover.go, and `Write` of a client.
pub mod Takeover
pub mod Exchange
use modbusone.Base.{
  ℕ, ◌+◌, Bool, true, false, not, ◌&&◌, ltb, leb, ◌==◌, List, [], ◌∷◌, length, Option, none, some,
  if◌then◌else◌, Result, ok, err, panic, ◌>>=◌, Error,
}
use modbusone.Failover.{Conn, reset_request_time, set_last_req_time}
use modbusone.OverSize.{OverSize}
use modbusone.Pdu.{Pdu}
use modbusone.RequestReply.{is_request_reply}
use modbusone.Rtu.{Rtu, get_pdu, fast_get_pdu}

-- The deferred reset.
abbrev reset_misses : Conn → Conn
reset_misses s = record s { misses = 0 }

-- A packet that is no reply to the request before it is another client's request, which takes the
-- line from an active failover.
unfoldable pub other_request : Pdu → ℕ → Conn → Conn
other_request pdu now s =
    if s.is_failover && s.is_active
    then record (set_last_req_time pdu now s) { is_active = false }
    else set_last_req_time pdu now s

-- The results of a read are its error and the connection behind it; the bytes are always passed on.
-- `o` and `bytes_delay` are the settings and `BytesDelay` of the serial context.
module _ (o : OverSize) (bytes_delay : ℕ → ℕ) where
  -- The condition `isReply`. The right side of Go's `&&` runs only behind a true left side.
  unfoldable pub is_reply : ℕ → ℕ → Pdu → Conn → Result Bool
  is_reply n now pdu s =
      if ltb now (s.request_time + (s.miss_delay + bytes_delay n))
      then is_request_reply o s.req_packet pdu
      else ok false

  -- Behind `GetPDU`.
  unfoldable pub after_pdu : ℕ → ℕ → Conn → Result Pdu → Result (Option Error × Conn)
  unfolding is_reply other_request
  after_pdu n now s (err e) = ok (some e, reset_misses s)
  after_pdu n now s panic = panic
  after_pdu n now s (ok pdu) = is_reply n now pdu s >>= λ reply.
      ok (none, reset_misses (if reply then reset_request_time s else other_request pdu now s))

  -- `clientRead` of a packet, or of the packet reader's error.
  unfoldable pub client_read : Rtu → Option Error → ℕ → Conn → Result (Option Error × Conn)
  unfolding after_pdu
  client_read r (some e) now s = ok (some e, s)
  client_read r none now s = after_pdu (length r) now s (get_pdu r)

-- `Read` of a client notes the time at its end.
unfoldable pub read :
    OverSize → (ℕ → ℕ) → Rtu → Option Error → ℕ → ℕ → Conn → Result (Option Error × Conn)
unfolding client_read
read o bytes_delay r fails now done_at s =
    client_read o bytes_delay r fails now s >>= λ (e, s'). ok (e, record s' { last_read = done_at })

-- What a write does first: a primary that has heard nothing for long goes passive.
unfoldable pub disconnected : ℕ → Conn → Conn
disconnected now s =
    if not s.is_failover && s.is_active && ltb (s.last_read + s.primary_disconnect_delay) now
    then record s { is_active = false }
    else s

-- A passive primary is forced back.
unfoldable pub forced_back : ℕ → Conn → Conn
forced_back now s =
    if not s.is_failover && not s.is_active && ltb (s.start_time + s.primary_force_back_delay) now
    then record s { is_active = true; start_time = now }
    else s

-- A passive client counts a miss, or goes active.
unfoldable pub missed : Conn → Conn
missed s =
    if s.is_active
    then s
    else if leb s.misses_max s.misses
    then record s { is_active = true }
    else record s { misses = s.misses + 1 }

-- The connection when it is decided whether the bytes are passed on.
unfoldable pub decided : ℕ → Conn → Conn
unfolding disconnected forced_back missed
decided now s = missed (forced_back now (disconnected now s))

-- `Write` of a client: whether the serial context gets the bytes.
unfoldable pub client_write : Rtu → ℕ → Conn → Result (Bool × Conn)
unfolding decided
client_write b now s =
    if (decided now s).is_active
    then (do pdu ← fast_get_pdu b; ok (true, set_last_req_time pdu now (decided now s)))
    else ok (false, decided now s)
