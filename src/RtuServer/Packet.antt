-- ===== src/RtuServer/Packet.antt =====
-- What the server does with one packet.
use modbusone.Base.{
  ℕ, ◌+◌, ◌≤◌, ◌<◌, ◌≡◌, ◌≢◌, ◌⊎◌, inl, inr, refl, ap, Bool, true, false, not, List, [], ◌∷◌, ◌++◌,
  length, Result, ok, err, panic, Error, arith, if◌then◌else◌, ◌==◌, ltb, le_or_lt, lt→ltb, not-ltb,
  ne→==-false, message, crc_invalid, ◌&&◌, Bool-cases,
}
use modbusone.Crc
use modbusone.FunctionCode.{is_read_to_server, is_write_to_server}
use modbusone.Handler.{ProtocolHandler}
use modbusone.OverSize.{OverSize}
use modbusone.Pdu.{Pdu, get_function_code, validate_request}
use modbusone.Pdu.Values.{valid_request_is_safe}
use modbusone.Rtu.{Rtu, make_rtu, get_pdu, get_slave_id}
use modbusone.Rtu.Frame.{get_pdu_safe}
use modbusone.RtuServer.{
  Server, wp, wec, count_other, count_crc, count_id_drop, answer_error, after_read, after_write,
  after_values, after_call, answer, answer_valid, serve_pdu, serve_packet, is_crc,
}

-- All that the counters count.
abbrev pub total {ℓ} : {S : Type ℓ} → Server S → ℕ
total s = s.stats.crc_errors + s.stats.other_errors + s.stats.id_drops

-- What the rounds of the loop keep to. A frame that was written answers the slave id `id`, which is
-- not 0, and at most one error is counted.
pub record Round {ℓ} {S : Type ℓ} (id : ℕ) (s s' : Server S) : Type ℓ where
  pub replied :
      (s'.written ≡ s.written)
      ⊎ ((reply : Pdu) × (id ≢ 0) × (s'.written ≡ s.written ++ (make_rtu id reply ∷ [])))
  pub counted : (total s' ≡ total s) ⊎ (total s' ≡ total s + 1)

-- The user's functions do not panic.
pub record IsSafe {ℓ} {S : Type ℓ} (h : ProtocolHandler S) : Type ℓ where
  pub read_safe : (p : Pdu) (s : S) → (h.on_read p s).0 ≢ panic
  pub write_safe : (p : Pdu) (values : List ℕ) (s : S) → (h.on_write p values s).0 ≢ panic

abbrev pub Served {ℓ} : {S : Type ℓ} → ℕ → Server S → Result (Server S) → Type ℓ
Served {S = S} id s r = (s' : Server S) × (r ≡ ok s') × Round id s s'

short_frame : (r : Rtu) → length r < 5 → get_pdu r ≡ err message
short_frame r n = ground (arith, get_pdu_safe r)

wrong_frame : (r : Rtu) → 5 ≤ length r → Crc.validate r ≡ false → get_pdu r ≡ err crc_invalid
wrong_frame r n v = ground (arith, get_pdu_safe r)

good_frame : (r : Rtu) → 5 ≤ length r → Crc.validate r ≡ true → (p : Pdu) × (get_pdu r ≡ ok p)
good_frame r n v = elim (get_pdu_safe r) [
  | inl (short, e) ↦ absurd (omega arith)
  | inr (inl (_, w, e)) ↦ cc
  | inr (inr (_, _, found)) ↦ found
]

foreign :
    (slave_id : ℕ) (r : Rtu)
    → 5 ≤ length r
    → Crc.validate r ≡ true
    → (length r < 5)
      ⊎ ((Crc.validate r ≡ false) ⊎ ((get_slave_id r ≢ 0) × (get_slave_id r ≢ slave_id)))
    → (get_slave_id r ≢ 0) × (get_slave_id r ≢ slave_id)
foreign slave_id r n v (inl short) = absurd (omega arith)
foreign slave_id r n v (inr (inl w)) = cc
foreign slave_id r n v (inr (inr ids)) = ids

module _ {ℓ} {S : Type ℓ} (o : OverSize) (accepts : List Rtu → Rtu → Bool)
    (h : ProtocolHandler S) where
  -- A state that differs from `s₀` in the counters, by one at most, and behind the handler.
  wp-Round :
      (p : Pdu) (id : ℕ) (s s₀ : Server S)
      → s.written ≡ s₀.written
      → (total s ≡ total s₀) ⊎ (total s ≡ total s₀ + 1)
      → Round id s₀ (wp accepts p id s)
  unfolding wp
  wp-Round p id s s₀ e n = elim (Bool-cases (id == 0)) [
    | inl z ↦ rw z (record { replied = inl e; counted = n })
    | inr z ↦ rw z (record {
      replied = inr (p, ground arith, ap (λ (t : List Rtu). t ++ (make_rtu id p ∷ [])) e);
      counted = n;
    })
  ]

  answer_error-Round :
      (p : Pdu) (error : Error) (id : ℕ) (s s₀ : Server S)
      → s.written ≡ s₀.written
      → total s ≡ total s₀
      → Round id s₀ (answer_error o accepts h p error id s)
  unfolding answer_error wec count_other
  answer_error-Round p error id s s₀ e n = wp-Round _ id _ s₀ e (inr (omega arith))

  after_read-Served :
      (p : Pdu) (id : ℕ) (s : Server S) (t : S) (r : Result (List ℕ))
      → r ≢ panic
      → Served id s (after_read o accepts h p id (after_call s t) r)
  unfolding after_read
  after_read-Served p id s t (ok values) n = (_, refl, wp-Round _ id _ s refl (inl refl))
  after_read-Served p id s t (err e) n = (_, refl, answer_error-Round p e id _ s refl refl)
  after_read-Served p id s t panic n = absurd (n refl)

  after_write-Served :
      (p : Pdu) (id : ℕ) (s : Server S) (t : S) (r : Result (Unit {0}))
      → r ≢ panic
      → Served id s (after_write o accepts h p id (after_call s t) r)
  unfolding after_write
  after_write-Served p id s t (ok _) n = (_, refl, wp-Round _ id _ s refl (inl refl))
  after_write-Served p id s t (err e) n = (_, refl, answer_error-Round p e id _ s refl refl)
  after_write-Served p id s t panic n = absurd (n refl)

  module _ (safe : IsSafe h) where
    after_values-Served :
        (p : Pdu) (id : ℕ) (s : Server S) (r : Result (List ℕ))
        → r ≢ panic
        → Served id s (after_values o accepts h p id s r)
    unfolding after_values
    after_values-Served p id s (ok values) n =
        after_write-Served p id s _ _ (safe.write_safe p values s.handled)
    after_values-Served p id s (err e) n = (_, refl, answer_error-Round p e id _ s refl refl)
    after_values-Served p id s panic n = absurd (n refl)

    answer-Served :
        (p : Pdu) (id : ℕ) (s : Server S)
        → validate_request p ≡ ok tt
        → Served id s (answer o accepts h p id s)
    unfolding answer
    answer-Served p id s v = elim (Bool-cases (is_read_to_server (get_function_code p))) [
      | inl r ↦ rw r (after_read-Served p id s _ _ (safe.read_safe p s.handled))
      | inr r ↦ elim (Bool-cases (is_write_to_server (get_function_code p))) [
        | inl w ↦ rw (r, w) (after_values-Served p id s _ (valid_request_is_safe o p v).2)
        | inr w ↦ rw (r, w) (s, refl, record { replied = inl refl; counted = inl refl })
      ]
    ]

    answer_valid-Served :
        (p : Pdu) (id : ℕ) (s : Server S) (r : Result (Unit {0}))
        → validate_request p ≡ r
        → Served id s (answer_valid o accepts h p id s r)
    unfolding answer_valid validate_request
    answer_valid-Served p id s (ok _) v = answer-Served p id s v
    answer_valid-Served p id s (err e) v = (_, refl, answer_error-Round p e id _ s refl refl)
    answer_valid-Served p id s panic v = absurd (ground arith)

    counted-Round :
        (id : ℕ) (s s' : Server S) → s'.written ≡ s.written → total s' ≡ total s + 1 → Round id s s'
    counted-Round id s s' e n = record { replied = inl e; counted = inr n }

    serve_pdu-Served :
        (slave_id : ℕ) (r : Rtu) (s : Server S) (x : Result Pdu)
        → x ≢ panic
        → Served (get_slave_id r) s (serve_pdu o accepts h slave_id r s x)
    unfolding serve_pdu count_crc count_other count_id_drop
    serve_pdu-Served slave_id r s (ok p) n =
        elim (Bool-cases (not (get_slave_id r == 0) && not (get_slave_id r == slave_id))) [
          | inl d ↦ rw d (_, refl, counted-Round _ s _ refl (omega arith))
          | inr d ↦ rw d (answer_valid-Served p (get_slave_id r) s _ refl)
        ]
    serve_pdu-Served slave_id r s (err e) n = elim (Bool-cases (is_crc e)) [
      | inl c ↦ rw c (_, refl, counted-Round _ s _ refl (omega arith))
      | inr c ↦ rw c (_, refl, counted-Round _ s _ refl (omega arith))
    ]
    serve_pdu-Served slave_id r s panic n = absurd (n refl)

    -- If the user's functions do not panic, the server goes on after every packet, whatever its
    -- bytes. It has then written at most one frame, to the slave id of the packet, which is not the
    -- broadcast id 0, and has counted at most one error or drop.
    pub serve_packet-Round :
        (slave_id : ℕ) (r : Rtu) (s : Server S)
        → Served (get_slave_id r) s (serve_packet o accepts h slave_id r s)
    unfolding serve_packet
    serve_packet-Round slave_id r s =
        serve_pdu-Served slave_id r s (get_pdu r) (λ e. ground (arith, get_pdu_safe r))

  -- A packet that is shorter than a frame, or has a wrong checksum, or is for the slave id of
  -- another, is not answered and does not reach the handler: it is only counted, under OtherErrors,
  -- CrcErrors or IDDrops, by the first of the three that it is.
  pub serve_packet-dropped :
      (slave_id : ℕ) (r : Rtu) (s : Server S)
      → (length r < 5)
        ⊎ ((Crc.validate r ≡ false) ⊎ ((get_slave_id r ≢ 0) × (get_slave_id r ≢ slave_id)))
      → serve_packet o accepts h slave_id r s
        ≡ ok (
            if ltb (length r) 5
            then count_other s
            else if not (Crc.validate r)
            then count_crc s
            else count_id_drop s)
  unfolding serve_packet serve_pdu is_crc
  serve_packet-dropped slave_id r s why = elim (le_or_lt 5 (length r)) [
    | inr n ↦ rw (short_frame r n, lt→ltb (length r) 5 n) refl
    | inl n ↦ elim (Bool-cases (Crc.validate r)) [
      | inr v ↦ rw (wrong_frame r n v, not-ltb (length r) 5 n, v) refl
      | inl v ↦
          let (a, b) = foreign slave_id r n v why in
          rw
            (
              (good_frame r n v).1,
              not-ltb (length r) 5 n,
              v,
              ne→==-false (get_slave_id r) 0 a,
              ne→==-false (get_slave_id r) slave_id b,
            )
            refl
    ]
  ]
