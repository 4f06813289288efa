-- ===== src/PacketReader.antt =====
-- `rtuPacketReader.Read` of packet_reader.go. What a read of the connection gives is an arrival: its
-- bytes, its error, and the clock. Delays between reads are not modelled.
pub mod Valid
pub mod Whole
pub mod Frames
use modbusone.Base.{
  ℕ, ◌+◌, ◌-◌, Bool, true, false, not, ◌&&◌, ltb, leb, ◌==◌, List, [], ◌∷◌, ◌++◌, length, take,
  drop, Option, none, some, if◌then◌else◌, Error,
}
use modbusone.Crc
use modbusone.OverSize.{OverSize}
use modbusone.PacketSize.{
  get_rtu_size_from_header, get_rtu_size_from_header2, get_rtu_bidirectional_size_from_header,
}
use modbusone.Rtu.{Rtu, smallest_rtu_size}
use modbusone.Stats.{Stats, add, packet, crc_error, long_read, formate, other_drop}

-- What does not change during reads: the reader's role, its options, the size of the buffer `p`, and
-- `GetPacketCutoffDurationFromSerialContext` of its connection.
pub record Setup : Type 0 where
  pub over_size : OverSize
  pub is_client : Bool
  pub slave_id : ℕ
  pub bidirectional : Bool
  pub two_wire : Bool
  pub room : ℕ
  pub cutoff : ℕ → ℕ

-- A read of the connection: at most as many bytes as there is room for. A count below 0 is no bytes.
-- `again` is the second reading of the clock, where there is one.
pub record Arrival : Type 0 where
  pub bytes : List ℕ
  pub fails : Option Error
  pub now : ℕ
  pub again : ℕ

-- The fields of `rtuPacketReader` that change, and the counters of its connection.
pub record Reader : Type 0 where
  pub last : List ℕ
  pub last_rtu : Rtu
  pub last_read_at : ℕ
  pub stats : Stats

-- `Read` returns a packet and maybe an error; or no more arrivals come, with the bytes read and the
-- number expected.
pub data Outcome : Type 0 where
  returned : Rtu → Option Error → Reader → List Arrival → Outcome
  blocked : List ℕ → ℕ → Reader → Outcome

-- The size that is expected for the bytes read.
unfoldable pub expected_size : Setup → Reader → List ℕ → ℕ
expected_size c s got =
    if c.bidirectional
    then get_rtu_bidirectional_size_from_header c.over_size got
    else if c.two_wire
    then get_rtu_size_from_header2 c.over_size got c.is_client c.slave_id s.last_rtu
    else get_rtu_size_from_header c.over_size got c.is_client

-- A round of the outer loop begins.
abbrev pub begin : Reader → Reader
begin s = record s { stats = add packet s.stats }

-- What the code does next: another read, with the bytes so far and the number expected, or a return.
pub data Next : Type 0 where
  more : List ℕ → ℕ → Reader → Next
  done : Rtu → Option Error → Reader → Next

-- Behind the inner loop. `p[:expected]` is `take expected got`, since `expected` is below there.
unfoldable pub finish : Reader → List ℕ → ℕ → Next
finish s got expected =
    if ltb expected (length got) && Crc.validate (take expected got)
    then done (take expected got) none (record s {
      stats = add long_read s.stats;
      last = drop expected got;
      last_rtu = take expected got;
    })
    else if Crc.validate got
    then done got none (record s {
      stats = if not (length got == expected) then add formate s.stats else s.stats;
      last_rtu = got;
    })
    else more [] smallest_rtu_size (begin (record s { stats = add crc_error s.stats }))

-- The inner loop, once `got` has grown: it reads on below the number expected, and then once more
-- if the bytes tell that more are to be expected.
unfoldable pub grown : Setup → Reader → List ℕ → ℕ → Next
unfolding finish expected_size
grown c s got expected =
    let size = expected_size c s got in
    if ltb (length got) expected
    then more got expected s
    else if ltb (length got) size
    then more got size s
    else finish s got size

-- The bytes left over in `last` are copied to an empty buffer. There are some only when nothing has
-- been read yet.
unfoldable pub refill : Setup → Reader → List ℕ → Next
unfolding grown
refill c s left = elim left [
  | [] ↦ more [] smallest_rtu_size s
  | b ∷ bs ↦ grown c (record s { last = [] }) (take c.room (b ∷ bs)) smallest_rtu_size
]

-- Behind a read in time, for all the bytes so far.
unfoldable pub received : Setup → Reader → List ℕ → ℕ → Option Error → Next
unfolding grown
received c s all expected (some e) = done all (some e) s
received c s all expected none =
    if length all == c.room then done all none s else grown c s all expected

-- The fields behind a read in time, and behind one that came too late for the bytes before it.
abbrev pub stamped : Reader → Arrival → Reader
stamped s x = record s { last_read_at = if ltb 0 (length x.bytes) then x.now else s.last_read_at }

abbrev pub dropped : Reader → Arrival → Reader
dropped s x = record s { last_read_at = x.again; stats = add other_drop s.stats }

-- An arrival, behind `got`. One that comes too late takes the place of `got`, by way of `last`, and
-- its error is passed over.
unfoldable pub arrive : Setup → Reader → List ℕ → ℕ → Arrival → Next
unfolding refill received
arrive c s got expected x =
    if ltb 0 (length got) && ltb (c.cutoff (length x.bytes)) (x.now - s.last_read_at)
    then refill c (dropped s x) x.bytes
    else received c (stamped s x) (got ++ x.bytes) expected x.fails

-- The loops, from what comes next, over the arrivals.
unfoldable pub read_on : Setup → List Arrival → Next → Outcome
unfolding arrive
read_on c arrivals (done p e s) = returned p e s arrivals
read_on c [] (more got expected s) = blocked got expected s
read_on c (x ∷ arrivals) (more got expected s) = read_on c arrivals (arrive c s got expected x)

-- `Read`
unfoldable pub read : Setup → List Arrival → Reader → Outcome
unfolding read_on refill
read c arrivals s = read_on c arrivals (refill c (begin s) s.last)
