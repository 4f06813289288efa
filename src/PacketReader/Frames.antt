-- ===== src/PacketReader/Frames.antt =====
-- A line of frames, one behind the other, and what the calls of `Read` give of it.
use modbusone.Base.{
  ℕ, suc, zero, ◌≤◌, ◌≡◌, ◌∙◌, refl, ap, List, [], ◌∷◌, ◌++◌, length, none, some, false, arith,
}
use modbusone.Crc.Frame.{validate-sum}
use modbusone.PacketReader.{Setup, Arrival, Reader, Outcome, returned, blocked, read}
use modbusone.PacketReader.Whole.{Together, Fits, bytes_of, read-Whole}
use modbusone.PacketSize.Framing.{rtu_request_size}
use modbusone.Pdu.{Pdu}
use modbusone.Pdu.Sent.{Sent}
use modbusone.Rtu.{Rtu, make_rtu}

-- The packet of a read, if it has no error, and then what follows.
unfoldable pub keep : Outcome → (List Arrival → Reader → List Rtu) → List Rtu
keep (returned p none s rest) next = p ∷ next rest s
keep (returned p (some e) s rest) next = []
keep (blocked got n s) next = []

-- The packets that `n` calls of `Read`, one behind the other, return, up to the first error.
unfoldable pub packets : Setup → ℕ → List Arrival → Reader → List Rtu
unfolding keep read
packets c zero arrivals s = []
packets c (suc n) arrivals s = keep (read c arrivals s) (packets c n)

-- Arrivals that are frames one behind the other, each one that the reader can read whole: each comes in
-- bursts that follow each other in time, and no burst has bytes of two frames. Frames may be any time
-- apart.
pub data Frames (c : Setup) : List Rtu → List Arrival → Type 0 where
  silence : Frames c [] []
  frame :
      {f : Rtu} {fs : List Rtu} {later : List Arrival} (arrivals : List Arrival)
      → Fits c f
      → Together c arrivals
      → bytes_of arrivals ≡ f
      → Frames c fs later
      → Frames c (f ∷ fs) (arrivals ++ later)

-- A reader with nothing left over, which is neither bidirectional nor of a two-wire line, reads a line
-- of frames as those frames, in order and each whole, with one call of `Read` for each. Each frame has
-- a good checksum, fits the buffer, and is as long as the size that the reader infers from its header.
-- It may be cut into any bursts that are not empty and of which each follows the one before it within
-- the cutoff of the reader for its bytes; no burst has bytes of two frames, and no read fails.
pub packets-Frames :
    (c : Setup) (fs : List Rtu) (arrivals : List Arrival) (s : Reader)
    → s.last ≡ []
    → Frames c fs arrivals
    → packets c (length fs) arrivals s ≡ fs
unfolding packets keep
packets-Frames c [] arrivals s clear silence = refl
packets-Frames c (f ∷ fs) _ s clear (frame {later = later} arrivals fits ok whole rest) =
    let (s', eq, clear') = read-Whole c f fits arrivals later s clear ok whole in
    ap (λ (o : Outcome). keep o (packets c (length fs))) eq
    ∙ ap (◌∷◌ f) (packets-Frames c fs later s' clear' rest)

-- The frame of a request that a client sends is one that a server's reader reads whole, if the
-- buffer is large enough.
pub Sent-Fits :
    (c : Setup) (id : ℕ) {f a q : ℕ} {values : List ℕ} {w : Pdu}
    → Sent f a q values w
    → c.is_client ≡ false
    → c.bidirectional ≡ false
    → c.two_wire ≡ false
    → length (make_rtu id w) ≤ c.room
    → Fits c (make_rtu id w)
Sent-Fits c id {w = w} s server one_way plain fitting = record {
  one_way = one_way;
  plain = plain;
  sized = rw server (rtu_request_size c.over_size id s);
  checked = unfold make_rtu in validate-sum (id ∷ w) (omega arith);
  fitting = fitting;
}
