-- ===== src/Tcp/Framing.antt =====
-- What `writeTCP` writes, `readTCP` reads.
use modbusone.Base.{
  ℕ, ◌+◌, ◌*◌, ◌/◌, ◌≤◌, ◌<◌, ◌≡◌, refl, ap, ◌∙◌, List, [], ◌∷◌, ◌++◌, append-nil, length,
  length-append, drop, take-append, drop-append, take-length, u8, ok, arith, le→leb,
}
use modbusone.Pdu.{Pdu}
use modbusone.Tcp.{read_tcp, write_tcp, read_body}

abbrev pub frame_of : ℕ → ℕ → ℕ → Pdu → List ℕ
frame_of a b unit pdu =
    a ∷ b ∷ 0 ∷ 0 ∷ u8 ((length pdu + 1) / 256) ∷ u8 (length pdu + 1) ∷ unit ∷ pdu

pub written :
    (a b x y unit : ℕ) (room : List ℕ) (pdu : Pdu)
    → length pdu ≤ length room
    → write_tcp (a ∷ b ∷ 0 ∷ 0 ∷ x ∷ y ∷ unit ∷ room) pdu ≡ ok (frame_of a b unit pdu)
unfolding write_tcp
written a b x y unit room pdu h =
    let spare = drop (length pdu) room in
    rw (take-length (length room) pdu h) (
      ground (
        arith,
        append-nil (pdu ++ spare),
        length-append pdu spare,
        take-append pdu spare (length pdu) refl,
      ))

read_body_lem :
    (header : List ℕ) (unit size : ℕ) (pdu : Pdu) (rest : List ℕ)
    → 2 ≤ length pdu
    → length pdu + 7 ≤ size
    → read_body header (unit ∷ (pdu ++ rest)) size (length (unit ∷ pdu))
      ≡ ok (header ++ (unit ∷ pdu), rest)
unfolding read_body
read_body_lem header unit size pdu rest two fits = ground (
  arith,
  length-append pdu rest,
  take-append pdu rest (length pdu) refl,
  drop-append pdu rest (length pdu) refl,
)

pub read_frame :
    (a b unit size : ℕ) (pdu : Pdu) (rest : List ℕ)
    → 2 ≤ length pdu
    → length pdu < 65535
    → length pdu + 7 ≤ size
    → read_tcp (frame_of a b unit pdu ++ rest) size ≡ ok (frame_of a b unit pdu, rest)
unfolding read_tcp
read_frame a b unit size pdu rest two small fits =
    let hi = u8 ((length pdu + 1) / 256) in
    let lo = u8 (length pdu + 1) in
    let l : hi * 256 + lo ≡ length (unit ∷ pdu) = omega arith in
    let head = a ∷ b ∷ 0 ∷ 0 ∷ hi ∷ lo ∷ [] in
    rw (le→leb 6 (length (frame_of a b unit pdu ++ rest)) (omega arith)) (
      ap (read_body head (unit ∷ (pdu ++ rest)) size) l
      ∙ read_body_lem head unit size pdu rest two fits)

-- What `writeTCP` writes for a PDU of two bytes or more that fits its buffer, whose bytes of the
-- protocol are 0, is read back by `readTCP`, with anything behind it, which stays in the stream:
-- with the two bytes of the transaction and the unit of the writer's buffer, and the PDU. The
-- reader's buffer has to hold the packet, and the packet's length to fit 16 bits.
pub read_tcp-write_tcp :
    (a b x y unit size : ℕ) (room : List ℕ) (pdu : Pdu) (rest : List ℕ)
    → 2 ≤ length pdu
    → length pdu < 65535
    → length pdu ≤ length room
    → length pdu + 7 ≤ size
    → (frame : List ℕ) × (write_tcp (a ∷ b ∷ 0 ∷ 0 ∷ x ∷ y ∷ unit ∷ room) pdu ≡ ok frame)
      × (read_tcp (frame ++ rest) size ≡ ok (frame, rest))
      × (drop 7 frame ≡ pdu)
read_tcp-write_tcp a b x y unit size room pdu rest two small holds fits = (
  frame_of a b unit pdu,
  written a b x y unit room pdu holds,
  read_frame a b unit size pdu rest two small fits,
  refl,
)
