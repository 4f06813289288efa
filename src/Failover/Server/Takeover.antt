-- ===== src/Failover/Server/Takeover.antt =====
-- When a standby takes over.
use modbusone.Base.{
  ℕ, ◌+◌, ◌≤◌, ◌<◌, ◌≡◌, ◌≢◌, ◌∙◌, refl, ap, sym, ltb, le_or_lt, inl, inr, true, lt→ltb, not-ltb,
  ne→==-false, List, [], ◌∷◌, length, none, Result, ok, ◌>>=◌, arith,
}
use modbusone.Failover.{Conn}
use modbusone.Failover.Server.{
  Heard, returns, heard_passive, inc_misses, server_read, go_on, read, note_read,
}
use modbusone.Failover.Server.Passive.{IsStandby, IsFrame, round-standby}
use modbusone.Failover.Server.Rounds.{behind}
use modbusone.OverSize.{OverSize}
use modbusone.Pdu.{Pdu}

module _ (o : OverSize) (bytes_delay : ℕ → ℕ) where
  -- The connection behind a call of `Read` for each packet.
  unfoldable pub hear_each : List Heard → Conn → Result Conn
  unfolding read
  hear_each [] s = ok s
  hear_each (x ∷ heard) s = read o bytes_delay (x ∷ []) s >>= λ r. hear_each heard (behind r)

  -- Frames behind one at the time `t`, each later than a reply to the one before it may be: by more
  -- than `MissDelay` and the delay of its bytes.
  abbrev pub Unanswered : ℕ → ℕ → List Heard → Type 0
  Unanswered miss_delay t [] = Unit
  Unanswered miss_delay t (x ∷ heard) =
      ((id : ℕ) × (p : Pdu) × IsFrame x id p)
      × (t + (miss_delay + bytes_delay (length x.rtu)) < x.now)
      × Unanswered miss_delay x.now heard

  passive_late :
      (x : Heard) (p : Pdu) (s : Conn)
      → s.request_time ≢ 0
      → s.request_time + (s.miss_delay + bytes_delay (length x.rtu)) < x.now
      → heard_passive o bytes_delay x p s ≡ ok (returns (length x.rtu) none (inc_misses p x.now s))
  unfolding heard_passive
  passive_late x p s set late = rw (
    ne→==-false s.request_time 0 set,
    lt→ltb (s.request_time + (s.miss_delay + bytes_delay (length x.rtu))) x.now late,
  )

  hear_late :
      (x : Heard) (id : ℕ) (p : Pdu) (heard : List Heard) (s : Conn)
      → IsStandby s
      → IsFrame x id p
      → s.request_time ≢ 0
      → s.request_time + (s.miss_delay + bytes_delay (length x.rtu)) < x.now
      → hear_each (x ∷ heard) s
        ≡ hear_each heard (record (inc_misses p x.now s) { last_read = x.done_at })
  unfolding hear_each read server_read go_on note_read
  hear_late x id p heard s b f set late =
      rw (round-standby o bytes_delay x id p s f b, passive_late x p s set late)

  hear_late_few :
      (x : Heard) (id : ℕ) (p : Pdu) (heard : List Heard) (s : Conn)
      → IsStandby s
      → IsFrame x id p
      → s.request_time ≢ 0
      → s.request_time + (s.miss_delay + bytes_delay (length x.rtu)) < x.now
      → s.misses < s.misses_max
      → hear_each (x ∷ heard) s
        ≡ hear_each heard (record s {
          request_time = x.now;
          req_packet = p;
          misses = s.misses + 1;
          last_read = x.done_at;
        })
  unfolding inc_misses
  hear_late_few x id p heard s b f set late few =
      hear_late x id p heard s b f set late
      ∙ rw (not-ltb s.misses_max (s.misses + 1) (omega arith)) refl

  hear_late_many :
      (x : Heard) (id : ℕ) (p : Pdu) (heard : List Heard) (s : Conn)
      → IsStandby s
      → IsFrame x id p
      → s.request_time ≢ 0
      → s.request_time + (s.miss_delay + bytes_delay (length x.rtu)) < x.now
      → s.misses_max ≤ s.misses
      → hear_each (x ∷ heard) s
        ≡ hear_each heard
            (record s { is_active = true; misses = s.misses + 1; last_read = x.done_at })
  unfolding inc_misses
  hear_late_many x id p heard s b f set late many =
      hear_late x id p heard s b f set late
      ∙ rw (lt→ltb s.misses_max (s.misses + 1) (omega arith)) refl

  -- A standby is a passive server with `isFailover`. It waits for the reply to a request, and has
  -- counted at most `MissesMax` misses. It hears, without read errors, frames of PDUs of two bytes
  -- or more, of slave ids other than 0, each too late for the reply to the one before it, and no
  -- more of them than bring the misses to `MissesMax` + 1. It counts each as a miss, and behind all
  -- of them it is active exactly if the misses are `MissesMax` + 1 then: with fewer frames it is
  -- still passive.
  pub hear_each-takeover :
      (heard : List Heard) (s : Conn)
      → IsStandby s
      → s.request_time ≢ 0
      → Unanswered s.miss_delay s.request_time heard
      → s.misses ≤ s.misses_max
      → s.misses + length heard ≤ s.misses_max + 1
      → (s' : Conn) × (hear_each heard s ≡ ok s')
        × (s'.misses ≡ s.misses + length heard)
        × (s'.is_active ≡ ltb s.misses_max (s.misses + length heard))
  unfolding hear_each
  hear_each-takeover [] s b set late counted bound =
      (s, refl, omega arith, b.passive ∙ sym (not-ltb s.misses_max (s.misses + 0) (omega arith)))
  hear_each-takeover (x ∷ heard) s b set ((id, p, f), late, later) counted bound =
      elim (le_or_lt s.misses_max s.misses) [
        | inl many ↦ (
          record s { is_active = true; misses = s.misses + 1; last_read = x.done_at },
          hear_late_many x id p heard s b f set late many ∙ alone heard (omega arith),
          omega arith,
          sym (lt→ltb s.misses_max (s.misses + length (x ∷ heard)) (omega arith)),
        )
        | inr few ↦
            let (s', eq, count, active) =
              hear_each-takeover heard
                (record s {
                  request_time = x.now;
                  req_packet = p;
                  misses = s.misses + 1;
                  last_read = x.done_at;
                })
                (record { failover = b.failover; passive = b.passive }) (λ zero_time. omega arith)
                later (omega arith) (omega arith) in
            (
              s',
              hear_late_few x id p heard s b f set late few ∙ eq,
              omega arith,
              active ∙ ap (ltb s.misses_max) (omega arith),
            )
      ]
    where
      alone :
          (rest : List Heard)
          → length rest ≡ 0
          → hear_each rest
              (record s { is_active = true; misses = s.misses + 1; last_read = x.done_at })
            ≡ ok (record s { is_active = true; misses = s.misses + 1; last_read = x.done_at })
      alone [] none_left = refl
      alone (y ∷ rest) none_left = absurd (omega arith)
