-- ===== src/Rtu/Frame.antt =====
-- Frames on the serial line: what `MakeRTU` makes, `GetPDU` takes apart, and nothing else.
use modbusone.Base.{
  panic, ◌≢◌, ℕ, ◌+◌, ◌-◌, ◌≤◌, ◌<◌, ◌≡◌, ◌≢◌, ◌↔◌, ◌⊎◌, inl, inr, refl, ap, sym, ◌∙◌, true, false,
  List, [], ◌∷◌, ◌++◌, length, length-append, take-append, ok, err, message, crc_invalid, not-ltb,
  Bool-cases, ok-injective, arith, ==_iff, All, IsByte,
}
use modbusone.Crc.{sum, sum_from, validate}
use modbusone.Crc.Frame.{length-sum, validate-sum, validate→sum}
use modbusone.Crc.Detect.{validate_burst}
use modbusone.Pdu.{Pdu}
use modbusone.Rtu.{Rtu, make_rtu, get_slave_id, get_pdu, fast_get_pdu, is_multicast}

pub length-make_rtu : (id : ℕ) (p : Pdu) → length (make_rtu id p) ≡ length p + 3
unfolding make_rtu
length-make_rtu id p = omega (arith, length-sum (id ∷ p))

pub fast_get_pdu-make_rtu : (id : ℕ) (p : Pdu) → fast_get_pdu (make_rtu id p) ≡ ok p
unfolding fast_get_pdu make_rtu sum
fast_get_pdu-make_rtu id p =
    let n = length-make_rtu id p in
    rw (
      not-ltb (length (make_rtu id p)) 3 (omega arith),
      take-append p _ (length (make_rtu id p) - 3) (omega arith),
    )

made_by :
    (r : Rtu) (bs : List ℕ)
    → 1 ≤ length bs
    → r ≡ sum bs
    → (id : ℕ) × (p : Pdu) × (r ≡ make_rtu id p)
unfolding make_rtu
made_by r [] n e = absurd (omega arith)
made_by r (id ∷ p) n e = (id, p, e)

-- Every frame that `Validate` accepts is made by `MakeRTU`.
accepted : (r : Rtu) → validate r ≡ true → (id : ℕ) × (p : Pdu) × (r ≡ make_rtu id p)
accepted r v = let (bs, n, e) = validate→sum r v in made_by r bs n e

get_pdu-make_rtu : (id : ℕ) (p : Pdu) → 2 ≤ length p → get_pdu (make_rtu id p) ≡ ok p
unfolding get_pdu make_rtu
get_pdu-make_rtu id p h =
    rw
      (
        not-ltb (length (make_rtu id p)) 5 (omega (arith, length-make_rtu id p)),
        validate-sum (id ∷ p) (omega arith),
      )
      (fast_get_pdu-make_rtu id p)

get_slave_id-make_rtu : (id : ℕ) (p : Pdu) → get_slave_id (make_rtu id p) ≡ id
unfolding get_slave_id make_rtu sum sum_from
get_slave_id-make_rtu id p = refl

-- What `GetPDU` gives on a frame that passes its tests.
accepted_pdu :
    (r : Rtu) (id : ℕ) (p q : Pdu)
    → r ≡ make_rtu id q
    → 5 ≤ length r
    → fast_get_pdu r ≡ ok p
    → (2 ≤ length p) × (r ≡ make_rtu (get_slave_id r) p)
accepted_pdu r id p q e n h =
    let same : q ≡ p =
      ok-injective (sym (fast_get_pdu-make_rtu id q) ∙ ap fast_get_pdu (sym e) ∙ h) in
    let m = length-make_rtu id q in
    rw (e, same, get_slave_id-make_rtu id p) (omega (arith, ap length e, ap length same), refl)

get_pdu→make_rtu :
    (r : Rtu) (p : Pdu) → get_pdu r ≡ ok p → (2 ≤ length p) × (r ≡ make_rtu (get_slave_id r) p)
unfolding get_pdu
get_pdu→make_rtu r p h = elim (Bool-cases (validate r)) [
  | inl v ↦
      let (id, q, e) = accepted r v in
      let n : 5 ≤ length r = ground arith in accepted_pdu r id p q e n (ground arith)
  | inr v ↦ ground arith
]

-- `GetPDU` gives a PDU exactly for the frames that `MakeRTU` makes, from that PDU, of two bytes or
-- more, and the slave id that `GetSlaveID` reads.
pub get_pdu-make_rtu_iff :
    (r : Rtu) (p : Pdu) → (get_pdu r ≡ ok p) ↔ ((2 ≤ length p) × (r ≡ make_rtu (get_slave_id r) p))
get_pdu-make_rtu_iff r p =
    (get_pdu→make_rtu r p, λ (n, e). ap get_pdu e ∙ get_pdu-make_rtu (get_slave_id r) p n)

-- `GetPDU` and `GetSlaveID` give back the PDU, of two bytes or more, and the slave id that
-- `MakeRTU` was given, and the frame is a multicast exactly for the id 0.
pub make_rtu_roundtrip :
    (id : ℕ) (p : Pdu)
    → 2 ≤ length p
    → (get_pdu (make_rtu id p) ≡ ok p)
      × (get_slave_id (make_rtu id p) ≡ id)
      × ((is_multicast (make_rtu id p) ≡ true) ↔ (id ≡ 0))
unfolding make_rtu sum sum_from is_multicast get_slave_id
make_rtu_roundtrip id p h = (get_pdu-make_rtu id p h, refl, ==_iff id 0)

-- No frame makes `GetPDU` panic: a frame below five bytes gives an error, as does one with a wrong
-- checksum, which is ErrorCrc, and the other frames give a PDU.
pub get_pdu_safe :
    (r : Rtu)
    → ((length r < 5) × (get_pdu r ≡ err message))
      ⊎ ((5 ≤ length r) × (validate r ≡ false) × (get_pdu r ≡ err crc_invalid))
      ⊎ ((5 ≤ length r) × (validate r ≡ true) × ((p : Pdu) × (get_pdu r ≡ ok p)))
unfolding get_pdu fast_get_pdu
get_pdu_safe r = ground arith

pub get_pdu-no_panic : (r : Rtu) → get_pdu r ≢ panic
get_pdu-no_panic r e = elim (get_pdu_safe r) [
  | inl (_, q) ↦ cc
  | inr (inl (_, _, q)) ↦ cc
  | inr (inr (_, _, (p, q))) ↦ cc
]

-- A frame of bytes that `GetPDU` accepts is refused with ErrorCrc after any change of one byte or of
-- two adjacent ones to other bytes, wherever they stand.
pub get_pdu_burst :
    (pre post : List ℕ) (x₁ x₂ y₁ y₂ : ℕ) (p : Pdu)
    → All IsByte pre
    → All IsByte post
    → IsByte x₁ × IsByte x₂ × IsByte y₁ × IsByte y₂
    → (x₁ ≢ y₁) ⊎ (x₂ ≢ y₂)
    → get_pdu (pre ++ (x₁ ∷ x₂ ∷ post)) ≡ ok p
    → get_pdu (pre ++ (y₁ ∷ y₂ ∷ post)) ≡ err crc_invalid
unfolding get_pdu
get_pdu_burst pre post x₁ x₂ y₁ y₂ p hpre hpost bytes change h =
    let v : validate (pre ++ (x₁ ∷ x₂ ∷ post)) ≡ true = ground arith in
    let w = validate_burst pre post x₁ x₂ y₁ y₂ hpre hpost bytes change v in
    let n = length-append pre (x₁ ∷ x₂ ∷ post) in
    let m = length-append pre (y₁ ∷ y₂ ∷ post) in ground arith
