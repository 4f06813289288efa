-- ===== src/Failover/Server/Steps.antt =====
-- What the steps of a server's round may return, and what they keep.
use modbusone.Base.{
  ℕ, ◌+◌, ◌≤◌, ◌≡◌, ◌≢◌, ◌⊎◌, inl, inr, refl, ◌∙◌, Bool, true, false, Bool-cases, if-holds, ltb,
  not, ◌&&◌, ◌==◌, length, Option, none, Result, ok, err, panic, Error, arith,
}
use modbusone.Failover.{Conn, reset_request_time, set_last_req_time}
use modbusone.Failover.Server.{
  Heard, Step, again, returns, forced, after_force, after_pdu, heard_passive, heard_active, paired,
  inc_misses,
}
use modbusone.OverSize.{OverSize}
use modbusone.Pdu.{Pdu}
use modbusone.RequestReply.Sound.{is_request_reply-answers}
use modbusone.Rtu.{get_pdu, get_slave_id}
use modbusone.Rtu.Frame.{get_pdu-no_panic}

-- A passive failover has counted `MissesMax` misses at most.
abbrev pub IsCounted : Conn → Type 0
IsCounted s = ((s.is_failover && not s.is_active) ≡ false) ⊎ (s.misses ≤ s.misses_max)

-- The settings are those of `s`.
abbrev pub SameSettings : Conn → Conn → Type 0
SameSettings s s' =
    (s'.is_client ≡ s.is_client)
    × (s'.is_failover ≡ s.is_failover)
    × (s'.misses_max ≡ s.misses_max)
    × (s'.miss_delay ≡ s.miss_delay)

abbrev pub Kept : Conn → Conn → Type 0
Kept s s' = SameSettings s s' × IsCounted s'

abbrev pub Good : Heard → Option Error → Conn → Step → Type 0
Good x e s (again s') = Kept s s'
Good x e s (returns n e' s') = (n ≡ length x.rtu) × (e' ≡ e) × Kept s s'

abbrev pub GoodResult : Heard → Option Error → Conn → Result Step → Type 0
GoodResult x e s r = (step : Step) × (r ≡ ok step) × Good x e s step

pub Same_trans : (a b c : Conn) → SameSettings a b → SameSettings b c → SameSettings a c
Same_trans a b c (i, j, k, l) (i', j', k', l') = (i' ∙ i, j' ∙ j, k' ∙ k, l' ∙ l)

pub Good-SameSettings :
    (x : Heard) (e : Option Error) (a b : Conn) (step : Step)
    → SameSettings a b
    → Good x e b step
    → Good x e a step
Good-SameSettings x e a b (again s) same (kept, counted) = (Same_trans a b s same kept, counted)
Good-SameSettings x e a b (returns n e' s) same (count, error, (kept, counted)) =
    (count, error, (Same_trans a b s same kept, counted))

inc-Kept : (p : Pdu) (now : ℕ) (s : Conn) → Kept s (inc_misses p now s)
unfolding inc_misses
inc-Kept p now s = elim (Bool-cases (ltb s.misses_max (s.misses + 1))) [
  | inl many ↦ rw many ((refl, refl, refl, refl), inl (ground arith))
  | inr few ↦ rw few ((refl, refl, refl, refl), inr (ground arith))
]

module _ (o : OverSize) (bytes_delay : ℕ → ℕ) where
  paired-Good : (x : Heard) (p : Pdu) (s : Conn) (pair : Bool) → Good x none s (paired x p s pair)
  unfolding paired
  paired-Good x p s true = ((refl, refl, refl, refl), inr (omega arith))
  paired-Good x p s false = (refl, refl, inc-Kept p x.now (set_last_req_time p x.now s))

  passive-Good :
      (x : Heard) (p : Pdu) (s : Conn)
      → IsCounted s
      → GoodResult x none s (heard_passive o bytes_delay x p s)
  unfolding heard_passive
  passive-Good x p s counted = elim (Bool-cases (s.request_time == 0)) [
    | inl idle ↦ rw idle (
      returns (length x.rtu) none (set_last_req_time p x.now s),
      refl,
      (refl, refl, ((refl, refl, refl, refl), counted)),
    )
    | inr waiting ↦
        elim (Bool-cases
          (ltb (s.request_time + (s.miss_delay + bytes_delay (length x.rtu))) x.now)) [
            | inl late ↦
                rw (waiting, late)
                  (
                    returns (length x.rtu) none (inc_misses p x.now s),
                    refl,
                    (refl, refl, inc-Kept p x.now s),
                  )
            | inr timely ↦
                let (pair, answer) = is_request_reply-answers o s.req_packet p in
                rw (waiting, timely, answer) (paired x p s pair, refl, paired-Good x p s pair)
          ]
  ]

  pub active_idle :
      (x : Heard) (p : Pdu) (s : Conn)
      → s.is_failover ≡ true
      → (s.request_time == 0) ≡ true
      → heard_active o bytes_delay x p s ≡ returns (length x.rtu) none (set_last_req_time p x.now s)
  unfolding heard_active
  active_idle x p s failover idle = rw (failover, idle) refl

  pub active_interrupted :
      (x : Heard) (p : Pdu) (s : Conn)
      → s.is_failover ≡ true
      → (s.request_time == 0) ≡ false
      → heard_active o bytes_delay x p s
        ≡ again (reset_request_time (record s { is_active = false; misses = 0 }))
  unfolding heard_active
  active_interrupted x p s failover waiting = rw (failover, waiting) refl

  active-Good :
      (x : Heard) (p : Pdu) (s : Conn)
      → IsCounted s
      → s.is_failover ≡ true
      → Good x none s (heard_active o bytes_delay x p s)
  active-Good x p s counted failover = elim (Bool-cases (s.request_time == 0)) [
    | inl idle ↦
        rw (active_idle x p s failover idle) (refl, refl, ((refl, refl, refl, refl), counted))
    | inr waiting ↦
        rw (active_interrupted x p s failover waiting) ((refl, refl, refl, refl), inr (omega arith))
  ]

  pdu-Good :
      (x : Heard) (s : Conn) (m : Result Pdu)
      → IsCounted s
      → m ≢ panic
      → (s.is_active ≡ true → s.is_failover ≡ true)
      → GoodResult x none s (after_pdu o bytes_delay x s m)
  unfolding after_pdu
  pdu-Good x s (err e) counted safe active =
      (again (record s { misses = 0 }), refl, ((refl, refl, refl, refl), inr (omega arith)))
  pdu-Good x s panic counted safe active = absurd (safe refl)
  pdu-Good x s (ok p) counted safe active = elim (Bool-cases (get_slave_id x.rtu == 0)) [
    | inl all ↦ rw all (
      returns (length x.rtu) none (reset_request_time s),
      refl,
      (refl, refl, ((refl, refl, refl, refl), counted)),
    )
    | inr one ↦ rw one (
        if-holds (GoodResult x none s) s.is_active _ _
          (λ on. (heard_active o bytes_delay x p s, refl, active-Good x p s counted (active on)))
          (λ off. passive-Good x p s counted))
  ]

  pub force-Good :
      (x : Heard) (s : Conn) → IsCounted s → GoodResult x none s (after_force o bytes_delay x s)
  unfolding after_force
  force-Good x s counted =
      if-holds (GoodResult x none s) (not s.is_failover && s.is_active) _ _
        (λ primary.
          if-holds (GoodResult x none s)
            (ltb (s.last_read + s.primary_disconnect_delay) x.silent_at) _ _
            (λ silent.
              pdu-Good x (record s { is_active = false; start_time = x.restart_at }) (get_pdu x.rtu)
                (inl (ground arith)) (get_pdu-no_panic x.rtu) (λ on. absurd cc))
            (λ heard. (
              returns (length x.rtu) none s,
              refl,
              (refl, refl, ((refl, refl, refl, refl), counted)),
            )))
        (λ other.
          pdu-Good x s (get_pdu x.rtu) counted (get_pdu-no_panic x.rtu) (λ on. ground arith))

  pub forced-Kept : (x : Heard) (s : Conn) → IsCounted s → Kept s (forced x s)
  unfolding forced
  forced-Kept x s counted =
      if-holds (Kept s) _ _ _ (λ forced. ((refl, refl, refl, refl), inl (ground arith)))
        (λ left. ((refl, refl, refl, refl), counted))
