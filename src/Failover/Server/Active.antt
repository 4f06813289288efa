-- ===== src/Failover/Server/Active.antt =====
-- A failover server in charge of the line, and a primary that is forced back.
use modbusone.Base.{
  ℕ, ◌+◌, ◌≤◌, ◌<◌, ◌≡◌, refl, true, false, not-ltb, lt→ltb, List, ◌∷◌, length, none, ok,
}
use modbusone.Failover.{Conn}
use modbusone.Failover.Server.{
  Heard, got, round, forced, after_force, server_read, go_on, read, note_read, server_write,
}
use modbusone.OverSize.{OverSize}
use modbusone.Pdu.{Pdu}

-- A failover that is in charge.
pub record IsInCharge (s : Conn) : Type 0 where
  pub failover : s.is_failover ≡ true
  pub active : s.is_active ≡ true

-- A passive primary is forced back on the first packet that it reads without an error later than
-- `PrimaryForceBackDelay` after its start, if it has read within `PrimaryDisconnectDelay`: the read
-- returns the packet, whatever it is, the primary is active, and what it writes next is handed on.
pub read-forced :
    (o : OverSize) (bytes_delay : ℕ → ℕ) (x : Heard) (rest : List Heard) (s : Conn)
    → s.is_failover ≡ false
    → s.is_active ≡ false
    → x.fails ≡ none
    → s.start_time + s.primary_force_back_delay < x.force_at
    → x.silent_at ≤ s.last_read + s.primary_disconnect_delay
    → (s' : Conn) × (read o bytes_delay (x ∷ rest) s ≡ ok (got x (length x.rtu) none s' rest))
      × (s' ≡ record s { is_active = true; last_read = x.done_at })
      × ((server_write (λ c. c) s').0 ≡ true)
unfolding read server_read go_on note_read round forced after_force server_write
read-forced o bytes_delay x rest s primary passive fine late heard = (
  record s { is_active = true; last_read = x.done_at },
  rw (
    fine,
    primary,
    passive,
    lt→ltb (s.start_time + s.primary_force_back_delay) x.force_at late,
    not-ltb (s.last_read + s.primary_disconnect_delay) x.silent_at heard,
  ),
  refl,
  rw primary refl,
)
