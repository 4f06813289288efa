-- ===== src/Crc/Detect.antt =====
-- What the checksum detects: a change confined to two adjacent bytes of a frame.
use modbusone.Base.{
  subst, ℕ, ◌+◌, ◌<◌, ◌≡◌, ◌≢◌, ◌⊎◌, refl, sym, ap, ◌∙◌, inl, inr, true, false, List, [], ◌∷◌, ◌++◌,
  get_or, bit_xor, append_assoc, Bool-cases, All, All-append_left, IsByte, ◌==◌, if◌then◌else◌,
  arith,
}
use modbusone.Base.Bits.{bit_xor_cancel, bit_xor_comm, bit_xor-lt, agree_below, holds_below}
use modbusone.Crc.Frame.{checksum, split_frame}
use modbusone.Crc.{Crc, reset, write_byte, write, validate}
use modbusone.Crc.Reference.{IsReg, write_byte-IsReg, write-IsReg, IsReg-reset}
use modbusone.Crc.Table.{crc_high_bytes, crc_low_bytes}

-- Where a value stands in a list.
position : ℕ → List ℕ → ℕ
position v [] = 0
position v (x ∷ xs) = let rest = position v xs in if x == v then 0 else rest + 1

position_lem : (i : ℕ) → i < 256 → position (get_or crc_low_bytes i 0) crc_low_bytes ≡ i
unfolding position crc_low_bytes holds_below
position_lem =
    agree_below 256 (λ i. position (get_or crc_low_bytes i 0) crc_low_bytes) (λ i. i) refl

-- No entry of the table of low-order bytes stands there twice.
low_bytes_injective :
    (i j : ℕ) → i < 256 → j < 256 → get_or crc_low_bytes i 0 ≡ get_or crc_low_bytes j 0 → i ≡ j
low_bytes_injective i j hi hj e =
    sym (position_lem i hi) ∙ ap (λ (v : ℕ). position v crc_low_bytes) e ∙ position_lem j hj

xor_cancel_left : (a b c : ℕ) → bit_xor a b ≡ bit_xor a c → b ≡ c
xor_cancel_left a b c e = sym (bit_xor_cancel a b) ∙ ap (bit_xor a) e ∙ bit_xor_cancel a c

xor_cancel_right : (a b c : ℕ) → bit_xor b a ≡ bit_xor c a → b ≡ c
xor_cancel_right a b c e = xor_cancel_left a b c (bit_xor_comm a b ∙ e ∙ bit_xor_comm c a)

module _ (c d : Crc) (x y : ℕ) (hc : IsReg c) (hd : IsReg d) (hx : IsByte x) (hy : IsByte y) where
  -- Equal high bytes after a round mean that the round had one index.
  same_index : (write_byte c x).high ≡ (write_byte d y).high → bit_xor c.low x ≡ bit_xor d.low y
  unfolding write_byte
  same_index e =
      low_bytes_injective _ _ (bit_xor-lt 8 c.low x hc.low hx) (bit_xor-lt 8 d.low y hd.low hy) e

  -- Equal states after a round mean that the round had one high byte too.
  same_high : write_byte c x ≡ write_byte d y → c.high ≡ d.high
  unfolding write_byte
  same_high e =
      let i = same_index (ap (λ (s : Crc). s.high) e) in
      xor_cancel_right (get_or crc_high_bytes (bit_xor d.low y) 0) c.high d.high
        (rw i at (ap (λ (s : Crc). s.low) e))

Crc_ext : (c d : Crc) → c.high ≡ d.high → c.low ≡ d.low → c ≡ d
Crc_ext c d h l = λ i. record { high = h i; low = l i }

-- Different states stay different, whatever bytes follow.
write_injective :
    (c d : Crc) (bs : List ℕ) → IsReg c → IsReg d → All IsByte bs → write c bs ≡ write d bs → c ≡ d
unfolding write
write_injective c d [] hc hd hs e = e
write_injective c d (b ∷ bs) hc hd (hb, hs) e =
    let c' = write_byte-IsReg c b hc hb in
    let d' = write_byte-IsReg d b hd hb in
    let e' = write_injective (write_byte c b) (write_byte d b) bs c' d' hs e in
    Crc_ext c d (same_high c d b b hc hd hb hb e') (
      xor_cancel_right b c.low d.low (same_index c d b b hc hd hb hb (ap (λ (s : Crc). s.high) e')))

-- From one state, one byte is told from any other by the high byte of the next state.
write_byte_tells :
    (c : Crc) (x y : ℕ)
    → IsReg c
    → IsByte x
    → IsByte y
    → (write_byte c x).high ≡ (write_byte c y).high
    → x ≡ y
write_byte_tells c x y hc hx hy e = xor_cancel_left c.low x y (same_index c c x y hc hc hx hy e)

-- So are two bytes, by the state.
write_two_tells :
    (c : Crc) (x₁ x₂ y₁ y₂ : ℕ)
    → IsReg c
    → IsByte x₁ × IsByte x₂ × IsByte y₁ × IsByte y₂
    → write_byte (write_byte c x₁) x₂ ≡ write_byte (write_byte c y₁) y₂
    → (x₁ ≡ y₁) × (x₂ ≡ y₂)
write_two_tells c x₁ x₂ y₁ y₂ hc (p₁, p₂, q₁, q₂) e =
    let c' = write_byte-IsReg c x₁ hc p₁ in
    let d' = write_byte-IsReg c y₁ hc q₁ in
    let first : x₁ ≡ y₁ = write_byte_tells c x₁ y₁ hc p₁ q₁ (same_high _ _ x₂ y₂ c' d' p₂ q₂ e) in
    let e' : write_byte (write_byte c x₁) x₂ ≡ write_byte (write_byte c x₁) y₂ =
      e ∙ ap (λ (t : ℕ). write_byte (write_byte c t) y₂) (sym first) in
    (first, write_byte_tells (write_byte c x₁) x₂ y₂ c' p₂ q₂ (ap (λ (s : Crc). s.high) e'))

write-append : (c : Crc) (xs ys : List ℕ) → write c (xs ++ ys) ≡ write (write c xs) ys
unfolding write
write-append c [] ys = refl
write-append c (x ∷ xs) ys = write-append (write_byte c x) xs ys

module _ (pre : List ℕ) (x₁ x₂ y₁ y₂ : ℕ) (hpre : All IsByte pre)
    (bytes : IsByte x₁ × IsByte x₂ × IsByte y₁ × IsByte y₂) where
  before : IsReg (write reset pre)
  before = write-IsReg reset pre IsReg-reset hpre

  -- The states after two messages that differ in two adjacent bytes at most are equal only if the
  -- messages are.
  same_state :
      (q : List ℕ)
      → All IsByte q
      → write reset (pre ++ (x₁ ∷ x₂ ∷ q)) ≡ write reset (pre ++ (y₁ ∷ y₂ ∷ q))
      → (x₁ ≡ y₁) × (x₂ ≡ y₂)
  unfolding write
  same_state q hq e =
      let c = write reset pre in
      let first = write_byte-IsReg c in
      write_two_tells c x₁ x₂ y₁ y₂ before bytes (
        write_injective (write_byte (write_byte c x₁) x₂) (write_byte (write_byte c y₁) y₂) q
          (write_byte-IsReg _ x₂ (write_byte-IsReg c x₁ before bytes.0) bytes.1)
          (write_byte-IsReg _ y₂ (write_byte-IsReg c y₁ before bytes.2) bytes.3) hq
          (sym (write-append reset pre _) ∙ e ∙ write-append reset pre _))

  -- The change lies in the message.
  inside :
      (q : List ℕ) (a b : ℕ)
      → All IsByte q
      → validate (pre ++ (x₁ ∷ x₂ ∷ (q ++ (a ∷ b ∷ [])))) ≡ true
      → validate (pre ++ (y₁ ∷ y₂ ∷ (q ++ (a ∷ b ∷ [])))) ≡ true
      → (x₁ ≡ y₁) × (x₂ ≡ y₂)
  inside q a b hq v w =
      let (_, lx, hx) = checksum (pre ++ (x₁ ∷ x₂ ∷ q)) a b (rw (append_assoc pre _ _) v) in
      let (_, ly, hy) = checksum (pre ++ (y₁ ∷ y₂ ∷ q)) a b (rw (append_assoc pre _ _) w) in
      same_state q hq (Crc_ext _ _ (sym hx ∙ hy) (sym lx ∙ ly))

  -- It covers the message's last byte and the checksum's first.
  across :
      (a : ℕ)
      → validate (pre ++ (x₁ ∷ x₂ ∷ a ∷ [])) ≡ true
      → validate (pre ++ (y₁ ∷ y₂ ∷ a ∷ [])) ≡ true
      → (x₁ ≡ y₁) × (x₂ ≡ y₂)
  unfolding write
  across a v w =
      let (_, lx, hx) = checksum (pre ++ (x₁ ∷ [])) x₂ a (rw (append_assoc pre _ _) v) in
      let (_, ly, hy) = checksum (pre ++ (y₁ ∷ [])) y₂ a (rw (append_assoc pre _ _) w) in
      let high = λ (t : ℕ). ap (λ (s : Crc). s.high) (write-append reset pre (t ∷ [])) in
      let e : x₁ ≡ y₁ =
        write_byte_tells (write reset pre) x₁ y₁ before bytes.0 bytes.2
          (sym (high x₁) ∙ sym hx ∙ hy ∙ high y₁) in
      (e, lx ∙ ap (λ (t : ℕ). (write reset (pre ++ (t ∷ []))).low) e ∙ sym ly)

  -- It covers the checksum.
  behind :
      validate (pre ++ (x₁ ∷ x₂ ∷ [])) ≡ true
      → validate (pre ++ (y₁ ∷ y₂ ∷ [])) ≡ true
      → (x₁ ≡ y₁) × (x₂ ≡ y₂)
  behind v w =
      let (_, lx, hx) = checksum pre x₁ x₂ v in
      let (_, ly, hy) = checksum pre y₁ y₂ w in (lx ∙ sym ly, hx ∙ sym hy)

  wherever :
      (post : List ℕ)
      → All IsByte post
      → validate (pre ++ (x₁ ∷ x₂ ∷ post)) ≡ true
      → validate (pre ++ (y₁ ∷ y₂ ∷ post)) ≡ true
      → (x₁ ≡ y₁) × (x₂ ≡ y₂)
  wherever [] h v w = behind v w
  wherever (a ∷ []) h v w = across a v w
  wherever (a ∷ b ∷ post) h v w =
      let (q, s, t, e, _) = split_frame (a ∷ b ∷ post) (omega arith) in
      inside q s t (All-append_left IsByte q _ (subst (All IsByte) e h)) (rw e at v) (rw e at w)

-- A frame of bytes that `Validate` accepts is rejected after any change of two adjacent bytes, or
-- of one, wherever they stand, in the message or in the checksum.
pub validate_burst :
    (pre post : List ℕ) (x₁ x₂ y₁ y₂ : ℕ)
    → All IsByte pre
    → All IsByte post
    → IsByte x₁ × IsByte x₂ × IsByte y₁ × IsByte y₂
    → (x₁ ≢ y₁) ⊎ (x₂ ≢ y₂)
    → validate (pre ++ (x₁ ∷ x₂ ∷ post)) ≡ true
    → validate (pre ++ (y₁ ∷ y₂ ∷ post)) ≡ false
validate_burst pre post x₁ x₂ y₁ y₂ hpre hpost bytes change v =
    elim (Bool-cases (validate (pre ++ (y₁ ∷ y₂ ∷ post)))) [
      | inl w ↦ ground (arith, wherever pre x₁ x₂ y₁ y₂ hpre bytes post hpost v w)
      | inr w ↦ w
    ]
