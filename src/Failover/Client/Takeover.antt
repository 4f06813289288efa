-- ===== src/Failover/Client/Takeover.antt =====
-- When a client's writes reach the line.
use modbusone.Base.{
  ℕ, ◌+◌, ◌<◌, ◌≤◌, ◌≡◌, refl, ap, true, false, le→leb, lt→not-leb, List, [], ◌∷◌, ◌++◌, length,
  if◌then◌else◌, Result, ok, ◌>>=◌, arith,
}
use modbusone.Failover.{Conn, set_last_req_time}
use modbusone.Failover.Client.{client_write, decided, missed, forced_back, disconnected}
use modbusone.Pdu.{Pdu}
use modbusone.Rtu.{Rtu, fast_get_pdu}

-- Writes one behind the other, each with its time: the frames that the serial context gets.
unfoldable pub writes : List (Rtu × ℕ) → Conn → Result (List Rtu × Conn)
unfolding client_write
writes [] s = ok ([], s)
writes ((b, now) ∷ bs) s = client_write b now s >>= λ (handed, s').
    writes bs s' >>= λ (frames, s''). ok (if handed then b ∷ frames else frames, s'')

missed-failover : (now : ℕ) (s : Conn) → s.is_failover ≡ true → decided now s ≡ missed s
unfolding decided disconnected forced_back
missed-failover now s failover = rw failover refl

missed_few :
    (s : Conn)
    → s.is_active ≡ false
    → s.misses < s.misses_max
    → missed s ≡ record s { misses = s.misses + 1 }
unfolding missed
missed_few s passive few = rw (passive, lt→not-leb s.misses_max s.misses few)

missed_many :
    (s : Conn)
    → s.is_active ≡ false
    → s.misses_max ≤ s.misses
    → missed s ≡ record s { is_active = true }
unfolding missed
missed_many s passive many = rw (passive, le→leb s.misses_max s.misses many)

waits :
    (b : Rtu) (now : ℕ) (s : Conn)
    → s.is_failover ≡ true
    → s.is_active ≡ false
    → s.misses < s.misses_max
    → client_write b now s ≡ ok (false, record s { misses = s.misses + 1 })
unfolding client_write
waits b now s failover passive few =
    rw (missed-failover now s failover, missed_few s passive few, passive)

takes_over :
    (b : Rtu) (p : Pdu) (now : ℕ) (s : Conn)
    → s.is_failover ≡ true
    → s.is_active ≡ false
    → s.misses_max ≤ s.misses
    → fast_get_pdu b ≡ ok p
    → client_write b now s ≡ ok (true, set_last_req_time p now (record s { is_active = true }))
unfolding client_write
takes_over b p now s failover passive many framed =
    rw (missed-failover now s failover, missed_many s passive many, framed)

-- A passive failover client with no reads in between ignores one write for each miss that is still
-- to be counted up to `MissesMax`, and hands the next write, of three bytes at least, to the serial
-- context: it is active then, and remembers the PDU of that write as the request it made.
pub writes-takeover :
    (bs : List (Rtu × ℕ)) (b : Rtu) (p : Pdu) (now : ℕ) (s : Conn)
    → s.is_failover ≡ true
    → s.is_active ≡ false
    → s.misses + length bs ≡ s.misses_max
    → fast_get_pdu b ≡ ok p
    → writes (bs ++ ((b, now) ∷ [])) s
      ≡ ok (
        b ∷ [],
        record s { is_active = true; misses = s.misses_max; request_time = now; req_packet = p },
      )
unfolding writes
writes-takeover [] b p now s failover passive counted framed =
    rw (takes_over b p now s failover passive (omega arith) framed) (
      ap
        (λ (m : ℕ).
          ok (b ∷ [], record (set_last_req_time p now s) { is_active = true; misses = m }))
        (omega arith))
writes-takeover ((b0, now0) ∷ bs) b p now s failover passive counted framed =
    rw
      (
        waits b0 now0 s failover passive (omega arith),
        writes-takeover bs b p now (record s { misses = s.misses + 1 }) failover passive
            (omega arith) framed,
      )
      refl

-- On a primary client that was made, or forced back, longer than `PrimaryForceBackDelay` ago, a
-- write never finds the connection passive, however long nothing was read: what the test for a
-- silent line does is undone by the next one.
pub decided-forced :
    (now : ℕ) (s : Conn)
    → s.is_failover ≡ false
    → s.start_time + s.primary_force_back_delay < now
    → (decided now s).is_active ≡ true
unfolding decided disconnected forced_back missed
decided-forced now s primary late = ground arith
