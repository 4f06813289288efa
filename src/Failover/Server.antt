-- ===== src/Failover/Server.antt =====
-- `serverRead` of failover.go, and `Write` of a server.
pub mod Passive
pub mod Steps
pub mod Rounds
pub mod Takeover
pub mod Active
use modbusone.Base.{
  ℕ, ◌+◌, Bool, true, false, not, ◌&&◌, ltb, ◌==◌, List, [], ◌∷◌, length, Option, none, some,
  if◌then◌else◌, Result, ok, err, panic, ◌>>=◌, Error, message,
}
use modbusone.Failover.{Conn, reset_request_time, set_last_req_time}
use modbusone.OverSize.{OverSize}
use modbusone.Pdu.{Pdu}
use modbusone.RequestReply.{is_request_reply}
use modbusone.Rtu.{Rtu, get_pdu, get_slave_id}

-- What a call of the packet reader gives, and what the clock then shows at each of the places that
-- read it: the test for the force back, the test for a silent line, the restart behind it, the time
-- of the packet, and the end of `Read`.
pub record Heard : Type 0 where
  pub rtu : Rtu
  pub fails : Option Error
  pub force_at : ℕ
  pub silent_at : ℕ
  pub restart_at : ℕ
  pub now : ℕ
  pub done_at : ℕ

-- The loop goes on, or `serverRead` returns a number of bytes and an error.
pub data Step : Type 0 where
  again : Conn → Step
  returns : ℕ → Option Error → Conn → Step

-- A primary that is passive goes active when it is time to be forced back.
unfoldable pub forced : Heard → Conn → Conn
forced x s =
    if not s.is_failover
      && not s.is_active
      && ltb (s.start_time + s.primary_force_back_delay) x.force_at
    then record s { is_active = true }
    else s

-- The closure `incMisses`.
unfoldable pub inc_misses : Pdu → ℕ → Conn → Conn
inc_misses pdu now s =
    if ltb s.misses_max (s.misses + 1)
    then record s { misses = s.misses + 1; is_active = true }
    else set_last_req_time pdu now (record s { misses = s.misses + 1 })

-- Behind `IsRequestReply`.
unfoldable pub paired : Heard → Pdu → Conn → Bool → Step
unfolding inc_misses
paired x pdu s true = again (record (reset_request_time s) { misses = 0 })
paired x pdu s false =
    returns (length x.rtu) none (inc_misses pdu x.now (set_last_req_time pdu x.now s))

-- `BytesDelay` of the serial context, and the settings.
module _ (o : OverSize) (bytes_delay : ℕ → ℕ) where
  -- A packet for a passive connection.
  unfoldable pub heard_passive : Heard → Pdu → Conn → Result Step
  unfolding inc_misses paired
  heard_passive x pdu s =
      if s.request_time == 0
      then ok (returns (length x.rtu) none (set_last_req_time pdu x.now s))
      else if ltb (s.request_time + (s.miss_delay + bytes_delay (length x.rtu))) x.now
      then ok (returns (length x.rtu) none (inc_misses pdu x.now s))
      else is_request_reply o s.req_packet pdu >>= λ pair. ok (paired x pdu s pair)

  -- A packet for an active connection.
  unfoldable pub heard_active : Heard → Pdu → Conn → Step
  heard_active x pdu s =
      if not s.is_failover
      then returns 0 (some message) s
      else if s.request_time == 0
      then returns (length x.rtu) none (set_last_req_time pdu x.now s)
      else again (reset_request_time (record s { is_active = false; misses = 0 }))

  -- From `pdu, err := rtu.GetPDU()` on.
  unfoldable pub after_pdu : Heard → Conn → Result Pdu → Result Step
  unfolding heard_passive heard_active
  after_pdu x s (err e) = ok (again (record s { misses = 0 }))
  after_pdu x s panic = panic
  after_pdu x s (ok pdu) =
      if get_slave_id x.rtu == 0
      then ok (returns (length x.rtu) none (reset_request_time s))
      else if s.is_active
      then ok (heard_active x pdu s)
      else heard_passive x pdu s

  -- From the test whether a primary is active on.
  unfoldable pub after_force : Heard → Conn → Result Step
  unfolding after_pdu
  after_force x s =
      if not s.is_failover && s.is_active
      then (if ltb (s.last_read + s.primary_disconnect_delay) x.silent_at
          then after_pdu x (record s { is_active = false; start_time = x.restart_at })
              (get_pdu x.rtu)
          else ok (returns (length x.rtu) none s))
      else after_pdu x s (get_pdu x.rtu)

  -- A round of the loop, from what the packet reader gives.
  unfoldable pub round : Heard → Option Error → Conn → Result Step
  unfolding forced after_force
  round x (some e) s = ok (returns (length x.rtu) (some e) s)
  round x none s = after_force x (forced x s)

-- `serverRead` gives the packet it returns, the number of its bytes, the error, and what is left to
-- be heard; or nothing more is heard.
pub data Reading : Type 0 where
  got : Heard → ℕ → Option Error → Conn → List Heard → Reading
  listening : Conn → Reading

module _ (o : OverSize) (bytes_delay : ℕ → ℕ) where
  -- The loop, from a step for the packet `x`.
  unfoldable pub go_on : Heard → List Heard → (Conn → Result Reading) → Step → Result Reading
  go_on x rest next (again s) = next s
  go_on x rest next (returns n e s) = ok (got x n e s rest)

  -- `serverRead`
  unfoldable pub server_read : List Heard → Conn → Result Reading
  unfolding round go_on
  server_read [] s = ok (listening s)
  server_read (x ∷ rest) s = round o bytes_delay x x.fails s >>= go_on x rest (server_read rest)

-- `Read` of a server notes the time at its end.
unfoldable pub note_read : Reading → Reading
note_read (got x n e s rest) = got x n e (record s { last_read = x.done_at }) rest
note_read (listening s) = listening s

unfoldable pub read : OverSize → (ℕ → ℕ) → List Heard → Conn → Result Reading
unfolding server_read note_read
read o bytes_delay heard s = server_read o bytes_delay heard s >>= λ reading. ok (note_read reading)

-- `Write` of a server: whether the serial context gets the bytes. Behind the delay of a failover,
-- the connection is as `meanwhile` leaves it.
unfoldable pub server_write : (Conn → Conn) → Conn → Bool × Conn
server_write meanwhile s =
    if s.is_active
    then (if s.is_failover
        then (if (meanwhile s).is_active
            then (true, reset_request_time (meanwhile s))
            else (false, meanwhile s))
        else (true, reset_request_time s))
    else (false, s)
