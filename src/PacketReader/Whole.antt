-- ===== src/PacketReader/Whole.antt =====
-- A frame that arrives in any number of bursts is read whole.
use modbusone.Base.{
  ℕ, ◌-◌, ◌≤◌, ◌<◌, ◌≡◌, refl, sym, ap, subst, ◌∙◌, ◌⊎◌, inl, inr, true, false, ◌&&◌, ltb, lt→ltb,
  not-ltb, ◌==◌, ==_refl, ne→==-false, Bool-cases, List, [], ◌∷◌, ◌++◌, append-nil, append_assoc,
  length, take, length-append, take-append, none, arith,
}
use modbusone.Crc
use modbusone.PacketReader.{
  Setup, Arrival, Reader, returned, Next, more, done, finish, grown, refill, received, arrive,
  read_on, read, begin, expected_size,
}
use modbusone.PacketSize.{get_rtu_size_from_header}
use modbusone.PacketSize.Prefix.{rtu_size-take, rtu_size-settled, five-le-rtu_size}
use modbusone.Rtu.{Rtu, smallest_rtu_size}

-- The bytes of the arrivals, in order.
abbrev pub bytes_of : List Arrival → List ℕ
bytes_of [] = []
bytes_of (x ∷ arrivals) = x.bytes ++ bytes_of arrivals

-- Arrivals behind bytes that came at `t`: none is empty or fails, and none comes too late.
abbrev pub InTime : Setup → ℕ → List Arrival → Type 0
InTime c t [] = Unit
InTime c t (x ∷ arrivals) =
    (1 ≤ length x.bytes)
    × (x.fails ≡ none)
    × (x.now - t ≤ c.cutoff (length x.bytes))
    × InTime c x.now arrivals

-- Arrivals that follow each other in time.
abbrev pub Together : Setup → List Arrival → Type 0
Together c [] = Unit
Together c (x ∷ arrivals) = (1 ≤ length x.bytes) × (x.fails ≡ none) × InTime c x.now arrivals

-- A frame for a reader of requests, or of replies, that is not bidirectional.
pub record Fits (c : Setup) (f : Rtu) : Type 0 where
  pub one_way : c.bidirectional ≡ false
  pub plain : c.two_wire ≡ false
  pub sized : get_rtu_size_from_header c.over_size f c.is_client ≡ length f
  pub checked : Crc.validate f ≡ true
  pub fitting : length f ≤ c.room

module _ (c : Setup) (f : Rtu) (h : Fits c f) where
  size :
      (s : Reader) (got : List ℕ)
      → expected_size c s got ≡ get_rtu_size_from_header c.over_size got c.is_client
  unfolding expected_size
  size s got = rw (h.one_way, h.plain) refl

  abbrev Asks : List ℕ → Reader → Next → Type 0
  Asks got s next = (e : ℕ) × (5 ≤ e) × (e ≤ length f) × (next ≡ more got e s)

  abbrev Reads : Reader → Next → Type 0
  Reads s next = (s' : Reader) × (next ≡ done f none s') × (s'.last ≡ s.last)

  grown-Asks :
      (s : Reader) (got rest : List ℕ) (e : ℕ)
      → got ++ rest ≡ f
      → length got < length f
      → 5 ≤ e
      → e ≤ length f
      → Asks got s (grown c s got e)
  unfolding grown
  grown-Asks s got rest e whole part low high =
      let prefix : take (length got) f ≡ got =
        subst (λ (t : List ℕ). take (length got) t ≡ got) whole
          (take-append got rest (length got) refl) in
      let n = get_rtu_size_from_header c.over_size got c.is_client in
      let bounded : n ≤ length f =
        subst (λ (t : List ℕ). get_rtu_size_from_header c.over_size t c.is_client ≤ length f) prefix
          (omega (arith, rtu_size-take c.over_size f (length got) c.is_client, h.sized)) in
      elim (Bool-cases (ltb (length got) e)) [
        | inl below ↦ rw below (e, low, high, refl)
        | inr enough ↦
            let far : 5 ≤ length got = ground arith in
            let beyond : length got < n =
              subst
                (λ (t : List ℕ). length got < get_rtu_size_from_header c.over_size t c.is_client)
                prefix
                (omega
                  (arith, rtu_size-settled c.over_size f (length got) c.is_client far, h.sized)) in
            rw (enough, size s got, lt→ltb (length got) n beyond) (n, omega arith, bounded, refl)
      ]

  grown-Reads : (s : Reader) (e : ℕ) → e ≤ length f → Reads s (grown c s f e)
  unfolding grown finish
  grown-Reads s e high =
      rw
        (
          not-ltb (length f) e high,
          size s f,
          h.sized,
          not-ltb (length f) (length f) (omega arith),
          h.checked,
          ==_refl (length f),
        )
        (record s { last_rtu = f }, refl, refl)

  received-Asks :
      (s : Reader) (got rest : List ℕ) (e : ℕ)
      → got ++ rest ≡ f
      → length got < length f
      → 5 ≤ e
      → e ≤ length f
      → Asks got s (received c s got e none)
  unfolding received
  received-Asks s got rest e whole part low high =
      rw (ne→==-false (length got) c.room (λ q. omega (arith, q, h.fitting)))
        (grown-Asks s got rest e whole part low high)

  received-Reads : (s : Reader) (e : ℕ) → e ≤ length f → Reads s (received c s f e none)
  unfolding received
  received-Reads s e high = elim (Bool-cases (length f == c.room)) [
    | inl full ↦ rw full (s, refl, refl)
    | inr free ↦ rw free (grown-Reads s e high)
  ]

  arrive-timely :
      (s : Reader) (got : List ℕ) (e : ℕ) (x : Arrival)
      → 1 ≤ length x.bytes
      → x.fails ≡ none
      → (length got ≡ 0) ⊎ (x.now - s.last_read_at ≤ c.cutoff (length x.bytes))
      → arrive c s got e x ≡ received c (record s { last_read_at = x.now }) (got ++ x.bytes) e none
  unfolding arrive
  arrive-timely s got e x some_bytes fine timely =
      rw (timely_test timely, fine, lt→ltb 0 (length x.bytes) some_bytes) refl
    where
      timely_test :
          (length got ≡ 0) ⊎ (x.now - s.last_read_at ≤ c.cutoff (length x.bytes))
          → (ltb 0 (length got) && ltb (c.cutoff (length x.bytes)) (x.now - s.last_read_at)) ≡ false
      timely_test q = ground arith

  read_on-Whole :
      (x : Arrival) (arrivals later : List Arrival) (s : Reader) (got : List ℕ) (e : ℕ)
      → got ++ bytes_of (x ∷ arrivals) ≡ f
      → 1 ≤ length x.bytes
      → x.fails ≡ none
      → (length got ≡ 0) ⊎ (x.now - s.last_read_at ≤ c.cutoff (length x.bytes))
      → InTime c x.now arrivals
      → 5 ≤ e
      → e ≤ length f
      → (s' : Reader) × (read_on c ((x ∷ arrivals) ++ later) (more got e s)
          ≡ returned f none s' later)
        × (s'.last ≡ s.last)
  unfolding read_on
  read_on-Whole x [] later s got e whole some_bytes fine timely rest low high =
      let all : got ++ x.bytes ≡ f = ap (◌++◌ got) (sym (append-nil x.bytes)) ∙ whole in
      let (s', eq, kept) = received-Reads (record s { last_read_at = x.now }) e high in
      (
        s',
        ap (λ (n : Next). read_on c later n)
            (arrive-timely s got e x some_bytes fine timely
              ∙ ap (λ (t : List ℕ). received c (record s { last_read_at = x.now }) t e none) all
              ∙ eq),
        kept,
      )
  read_on-Whole x (y ∷ arrivals) later s got e whole some_bytes fine timely
        (more_bytes, fine2, timely2, rest) low high =
      let all : (got ++ x.bytes) ++ bytes_of (y ∷ arrivals) ≡ f =
        append_assoc got x.bytes (bytes_of (y ∷ arrivals)) ∙ whole in
      let part : length (got ++ x.bytes) < length f = omega (
        arith,
        length-append (got ++ x.bytes) (y.bytes ++ bytes_of arrivals),
        length-append y.bytes (bytes_of arrivals),
        more_bytes,
        ap (λ (t : List ℕ). length t) all,
      ) in
      let (e', low', high', eq) =
        received-Asks (record s { last_read_at = x.now }) (got ++ x.bytes) (bytes_of (y ∷ arrivals))
          e all part low high in
      let (s', eq', kept) =
        read_on-Whole y arrivals later (record s { last_read_at = x.now }) (got ++ x.bytes) e' all
          more_bytes fine2 (inr timely2) rest low' high' in
      (
        s',
        ap (λ (n : Next). read_on c ((y ∷ arrivals) ++ later) n)
              (arrive-timely s got e x some_bytes fine timely ∙ eq)
            ∙ eq',
        kept,
      )

  -- What `Read` does of arrivals that together are a frame.
  pub read-Whole :
      (arrivals later : List Arrival) (s : Reader)
      → s.last ≡ []
      → Together c arrivals
      → bytes_of arrivals ≡ f
      → (s' : Reader) × (read c (arrivals ++ later) s ≡ returned f none s' later) × (s'.last ≡ [])
  unfolding read refill
  read-Whole [] later s clear ok whole = absurd (
      omega (
        arith,
        five-le-rtu_size c.over_size f c.is_client h.sized,
        ap (λ (t : List ℕ). length t) whole,
      ))
  read-Whole (x ∷ arrivals) later s clear (some_bytes, fine, rest) whole =
      let (s', eq, kept) =
        read_on-Whole x arrivals later (begin s) [] smallest_rtu_size whole some_bytes fine
          (inl refl) rest (omega arith) (five-le-rtu_size c.over_size f c.is_client h.sized) in
      (
        s',
        ap (λ (l : List ℕ). read_on c ((x ∷ arrivals) ++ later) (refill c (begin s) l)) clear ∙ eq,
        kept ∙ clear,
      )
