-- ===== src/PacketReader/Valid.antt =====
-- Which packets `Read` returns.
use modbusone.Base.{
  ℕ, ◌-◌, ◌≡◌, ◌⊎◌, inl, inr, true, ◌&&◌, ltb, ◌==◌, ==_iff, &&→both, Bool-cases, List, [], ◌∷◌,
  ◌++◌, length, take, Option, none, some, Error,
}
use modbusone.Crc
use modbusone.PacketReader.{
  Setup, Arrival, Reader, Outcome, returned, blocked, Next, more, done, finish, grown, refill,
  arrive, read_on, read, begin, expected_size, received, dropped, stamped,
}
use modbusone.Rtu.{Rtu, smallest_rtu_size}

-- A packet that is returned without an error has a good checksum, or fills the buffer.
abbrev IsSound : Setup → Rtu → Option Error → Type 0
IsSound c p none = (Crc.validate p ≡ true) ⊎ (length p ≡ c.room)
IsSound c p (some e) = Unit

abbrev Sound : Setup → Next → Type 0
Sound c (more got n s) = Unit
Sound c (done p e s) = IsSound c p e

-- So has what `Read` returns.
abbrev pub SoundOutcome : Setup → Outcome → Type 0
SoundOutcome c (returned p e s rest) = IsSound c p e
SoundOutcome c (blocked got n s) = Unit

finish-Sound : (c : Setup) (s : Reader) (got : List ℕ) (n : ℕ) → Sound c (finish s got n)
unfolding finish
finish-Sound c s got n = elim (Bool-cases (ltb n (length got) && Crc.validate (take n got))) [
  | inl long ↦ rw long (inl (&&→both _ _ long).1)
  | inr short ↦ elim (Bool-cases (Crc.validate got)) [
    | inl v ↦ rw (short, v) (inl v)
    | inr w ↦ rw (short, w) tt
  ]
]

grown-Sound : (c : Setup) (s : Reader) (got : List ℕ) (n : ℕ) → Sound c (grown c s got n)
unfolding grown
grown-Sound c s got n = elim (Bool-cases (ltb (length got) n)) [
  | inl below ↦ rw below tt
  | inr enough ↦ elim (Bool-cases (ltb (length got) (expected_size c s got))) [
    | inl below ↦ rw (enough, below) tt
    | inr whole ↦ rw (enough, whole) (finish-Sound c s got (expected_size c s got))
  ]
]

refill-Sound : (c : Setup) (s : Reader) (left : List ℕ) → Sound c (refill c s left)
unfolding refill
refill-Sound c s [] = tt
refill-Sound c s (b ∷ left) =
    grown-Sound c (record s { last = [] }) (take c.room (b ∷ left)) smallest_rtu_size

received-Sound :
    (c : Setup) (s : Reader) (all : List ℕ) (n : ℕ) (e : Option Error)
    → Sound c (received c s all n e)
unfolding received
received-Sound c s all n (some e) = tt
received-Sound c s all n none = elim (Bool-cases (length all == c.room)) [
  | inl full ↦ rw full (inr ((==_iff (length all) c.room).0 full))
  | inr free ↦ rw free (grown-Sound c s all n)
]

arrive-Sound :
    (c : Setup) (s : Reader) (got : List ℕ) (n : ℕ) (x : Arrival) → Sound c (arrive c s got n x)
unfolding arrive
arrive-Sound c s got n x =
    elim (Bool-cases
      (ltb 0 (length got) && ltb (c.cutoff (length x.bytes)) (x.now - s.last_read_at))) [
        | inl late ↦ rw late (refill-Sound c (dropped s x) x.bytes)
        | inr timely ↦ rw timely (received-Sound c (stamped s x) (got ++ x.bytes) n x.fails)
      ]

read_on-Sound :
    (c : Setup) (arrivals : List Arrival) (next : Next)
    → Sound c next
    → SoundOutcome c (read_on c arrivals next)
unfolding read_on
read_on-Sound c arrivals (done p e s) h = h
read_on-Sound c [] (more got n s) h = tt
read_on-Sound c (x ∷ arrivals) (more got n s) h =
    read_on-Sound c arrivals (arrive c s got n x) (arrive-Sound c s got n x)

-- Whatever arrives, and whatever the reader's state, a packet that `Read` returns without an error has
-- a good checksum or is as long as the buffer.
pub read-SoundOutcome :
    (c : Setup) (arrivals : List Arrival) (s : Reader) → SoundOutcome c (read c arrivals s)
unfolding read
read-SoundOutcome c arrivals s =
    read_on-Sound c arrivals (refill c (begin s) s.last) (refill-Sound c (begin s) s.last)
