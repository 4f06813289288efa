-- ===== src/Data/Bits.antt =====
-- The bits of a byte as a list of bools, lowest first.
use modbusone.Base.{
  ℕ, zero, suc, ◌+◌, ◌-◌, ◌*◌, ◌/◌, ◌%◌, ◌^◌, ◌≤◌, ◌<◌, ◌≡◌, refl, ap, ap₂, ◌∙◌, sym, Bool, true,
  false, ◌==◌, ltb, List, [], ◌∷◌, ◌++◌, length, replicate, bit_and, arith,
}
use modbusone.Base.Bits.{holds_below, holds_at}
use modbusone.Data.{byte_bools}
use native.Mathlib.Nat.{one-le-pow, pow-suc, sub-zero, div-div-eq-div-mul, div-one}

-- The number whose binary digits are the bools.
abbrev pub bit : Bool → ℕ
bit true = 1
bit false = 0

unfoldable pub number : List Bool → ℕ
number [] = 0
number (v ∷ vs) = bit v + 2 * number vs

pub number-lt : (k : ℕ) (vs : List Bool) → length vs ≤ k → number vs < 2 ^ k
unfolding number
number-lt k [] h = one-le-pow k 2 (omega arith)
number-lt zero (v ∷ vs) h = absurd (omega arith)
number-lt (suc k) (true ∷ vs) h = omega (arith, number-lt k vs (omega arith), pow-suc 2 k)
number-lt (suc k) (false ∷ vs) h = omega (arith, number-lt k vs (omega arith), pow-suc 2 k)

pub number-snoc :
    (vs : List Bool) (v : Bool) → number (vs ++ (v ∷ [])) ≡ number vs + bit v * 2 ^ length vs
unfolding number
number-snoc [] v = omega arith
number-snoc (w ∷ vs) v = omega (
  arith,
  number-snoc vs v,
  pow-suc 2 (length vs),
  ap (λ (t : ℕ). bit v * t) (pow-suc 2 (length vs)),
)

-- The `k` lowest bits of a number.
low_bits : ℕ → ℕ → List Bool
low_bits zero x = []
low_bits (suc k) x = (x % 2 == 1) ∷ low_bits k (x / 2)

low_bits-zero : (k : ℕ) → low_bits k 0 ≡ replicate k false
unfolding low_bits
low_bits-zero zero = refl
low_bits-zero (suc k) = ap (◌∷◌ false) (low_bits-zero k)

lowest : (v : Bool) (n : ℕ) → ((bit v + 2 * n) % 2 == 1) ≡ v
lowest true n = ground arith
lowest false n = ground arith

higher : (v : Bool) (n : ℕ) → (bit v + 2 * n) / 2 ≡ n
higher true n = omega arith
higher false n = omega arith

low_bits-number :
    (k : ℕ) (vs : List Bool)
    → length vs ≤ k
    → low_bits k (number vs) ≡ vs ++ replicate (k - length vs) false
unfolding low_bits number
low_bits-number k [] h = rw sub-zero (low_bits-zero k)
low_bits-number zero (v ∷ vs) h = absurd (omega arith)
low_bits-number (suc k) (v ∷ vs) h = ap₂ ◌∷◌ (lowest v (number vs)) (
    ap (low_bits k) (higher v (number vs))
    ∙ low_bits-number k vs (omega arith)
    ∙ ap (λ (t : ℕ). vs ++ replicate t false) (omega arith))

same : Bool → Bool → Bool
same true b = b
same false true = false
same false false = true

same_lem : (a b : Bool) → same a b ≡ true → a ≡ b
unfolding same
same_lem a b h = ground arith

-- The mask test of the source reads the bit, on every byte.
mask_table :
    holds_below
      (λ j. holds_below (λ b. same (ltb 0 (bit_and b (2 ^ j))) (b / 2 ^ j % 2 == 1)) 256)
      8
    ≡ true
unfolding holds_below same
mask_table = refl

mask_lem : (j b : ℕ) → j < 8 → b < 256 → ltb 0 (bit_and b (2 ^ j)) ≡ (b / 2 ^ j % 2 == 1)
mask_lem j b hj hb =
    let at_bit = λ (i c : ℕ). same (ltb 0 (bit_and c (2 ^ i))) (c / 2 ^ i % 2 == 1) in
    same_lem _ _
      (holds_at (at_bit j) 256 (holds_at (λ i. holds_below (at_bit i) 256) 8 mask_table j hj) b hb)

byte_bools_low : (k j b : ℕ) → k + j ≡ 8 → b < 256 → byte_bools k b ≡ low_bits k (b / 2 ^ j)
unfolding byte_bools low_bits
byte_bools_low zero j b e h = refl
byte_bools_low (suc k) j b e h =
    let from : 8 - suc k ≡ j = omega arith in
    rw from (
      ap₂ ◌∷◌ (mask_lem j b (omega arith) h) (
        byte_bools_low k (suc j) b (omega arith) h
        ∙ ap (low_bits k) (rw pow-suc (sym (div-div-eq-div-mul b (2 ^ j) 2)))))

-- The eight tests of the source on the byte of at most eight bools give these bools back, and
-- false for the rest.
pub byte_bools-number :
    (vs : List Bool)
    → length vs ≤ 8
    → byte_bools 8 (number vs) ≡ vs ++ replicate (8 - length vs) false
byte_bools-number vs h =
    byte_bools_low 8 0 (number vs) refl (number-lt 8 vs h) ∙ rw div-one (low_bits-number 8 vs h)
