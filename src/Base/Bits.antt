-- ===== src/Base/Bits.antt =====
-- The bit operations as arithmetic. Each stands for a recursion on binary digits with fuel; these
-- lemmas drop the fuel and give one equation for the lowest digit, and the laws that follow.
use Prim.Native.Nat.{digits, differ, bit_xor-bitwise, bit_or-bitwise}
use modbusone.Base.{
  ℕ, zero, suc, ◌+◌, ◌*◌, ◌/◌, ◌%◌, ◌^◌, ◌≤◌, ◌<◌, bit_and, bit_or, bit_xor, max, ◌≡◌, refl, sym,
  ap, Bool, true, ◌&&◌, ◌==◌, ==_iff, &&→both, le_or_lt, inl, inr, ◌∙◌, arith,
}
use native.Mathlib.Nat.{pow-suc}

-- Any fuel that is at least the first number gives the same digits.
enough_fuel :
    (z : ℕ → ℕ) (f : ℕ → ℕ → ℕ) (n m a b : ℕ) → a ≤ n → a ≤ m → digits z f n a b ≡ digits z f m a b
enough_fuel z f zero zero zero b p q = refl
enough_fuel z f zero zero (suc a) b p q = absurd (omega arith)
enough_fuel z f zero (suc m) zero b p q = refl
enough_fuel z f zero (suc m) (suc a) b p q = absurd (omega arith)
enough_fuel z f (suc n) zero zero b p q = refl
enough_fuel z f (suc n) zero (suc a) b p q = absurd (omega arith)
enough_fuel z f (suc n) (suc m) zero b p q = refl
enough_fuel z f (suc n) (suc m) (suc a) b p q =
    omega (arith, enough_fuel z f n m (suc a / 2) (b / 2) (omega arith) (omega arith))

-- On single digits `differ` is addition without the carry.
differ_digits : (x y : ℕ) → x < 2 → y < 2 → differ x y ≡ (x + y) % 2
differ_digits zero y p q = omega arith
differ_digits (suc zero) zero p q = refl
differ_digits (suc zero) (suc zero) p q = refl
differ_digits (suc zero) (suc (suc y)) p q = absurd (omega arith)
differ_digits (suc (suc x)) y p q = absurd (omega arith)

pub bit_xor_digit : (a b : ℕ) → bit_xor a b ≡ bit_xor (a / 2) (b / 2) * 2 + (a % 2 + b % 2) % 2
bit_xor_digit zero b = omega (arith, bit_xor-bitwise 0 b, bit_xor-bitwise 0 (b / 2))
bit_xor_digit (suc a) b = omega (
  arith,
  bit_xor-bitwise (suc a) b,
  bit_xor-bitwise (suc a / 2) (b / 2),
  enough_fuel (λ x. x) differ a (suc a / 2) (suc a / 2) (b / 2) (omega arith) (omega arith),
  differ_digits (suc a % 2) (b % 2) (omega arith) (omega arith),
)

pub bit_or_digit : (a b : ℕ) → bit_or a b ≡ bit_or (a / 2) (b / 2) * 2 + max (a % 2) (b % 2)
bit_or_digit zero b = omega (arith, bit_or-bitwise 0 b, bit_or-bitwise 0 (b / 2))
bit_or_digit (suc a) b = omega (
  arith,
  bit_or-bitwise (suc a) b,
  bit_or-bitwise (suc a / 2) (b / 2),
  enough_fuel (λ x. x) max a (suc a / 2) (suc a / 2) (b / 2) (omega arith) (omega arith),
)

pub zero-bit_xor : (b : ℕ) → bit_xor 0 b ≡ b
zero-bit_xor b = bit_xor-bitwise 0 b

pub bit_xor-half : (a b : ℕ) → bit_xor a b / 2 ≡ bit_xor (a / 2) (b / 2)
bit_xor-half a b = omega (arith, bit_xor_digit a b)

pub bit_xor-parity : (a b : ℕ) → bit_xor a b % 2 ≡ (a % 2 + b % 2) % 2
bit_xor-parity a b = omega (arith, bit_xor_digit a b)

-- Both sides have the same lowest digit, and the same rest by induction on the size of `a`.
xor_assoc_below : (n a b c : ℕ) → a ≤ n → bit_xor (bit_xor a b) c ≡ bit_xor a (bit_xor b c)
xor_assoc_below n zero b c h = rw (zero-bit_xor b) (sym (zero-bit_xor (bit_xor b c)))
xor_assoc_below zero (suc a) b c h = absurd (omega arith)
xor_assoc_below (suc n) (suc a) b c h = omega (
  arith,
  bit_xor_digit (bit_xor (suc a) b) c,
  bit_xor_digit (suc a) (bit_xor b c),
  ap (λ (t : ℕ). bit_xor t (c / 2)) (bit_xor-half (suc a) b),
  ap (λ (t : ℕ). bit_xor (suc a / 2) t) (bit_xor-half b c),
  bit_xor-parity (suc a) b,
  bit_xor-parity b c,
  xor_assoc_below n (suc a / 2) (b / 2) (c / 2) (omega arith),
)

pub bit_xor_assoc : (a b c : ℕ) → bit_xor (bit_xor a b) c ≡ bit_xor a (bit_xor b c)
bit_xor_assoc a b c = xor_assoc_below a a b c (omega arith)

xor_self_below : (n a : ℕ) → a ≤ n → bit_xor a a ≡ 0
xor_self_below n zero h = refl
xor_self_below zero (suc a) h = absurd (omega arith)
xor_self_below (suc n) (suc a) h =
    omega (arith, bit_xor_digit (suc a) (suc a), xor_self_below n (suc a / 2) (omega arith))

pub bit_xor_self : (a : ℕ) → bit_xor a a ≡ 0
bit_xor_self a = xor_self_below a a (omega arith)

xor_comm_below : (n a b : ℕ) → a ≤ n → b ≤ n → bit_xor a b ≡ bit_xor b a
xor_comm_below zero zero zero p q = refl
xor_comm_below zero (suc a) b p q = absurd (omega arith)
xor_comm_below zero zero (suc b) p q = absurd (omega arith)
xor_comm_below (suc n) a b p q = omega (
  arith,
  bit_xor_digit a b,
  bit_xor_digit b a,
  xor_comm_below n (a / 2) (b / 2) (omega arith) (omega arith),
)

pub bit_xor_comm : (a b : ℕ) → bit_xor a b ≡ bit_xor b a
bit_xor_comm a b = xor_comm_below (a + b) a b (omega arith) (omega arith)

-- A second exclusive or with the same number takes the first one back.
pub bit_xor_cancel : (a b : ℕ) → bit_xor a (bit_xor a b) ≡ b
bit_xor_cancel a b = rw (← bit_xor_assoc a a b, bit_xor_self, zero-bit_xor)

-- Exclusive or stays within a width.
pub bit_xor-lt : (k a b : ℕ) → a < 2 ^ k → b < 2 ^ k → bit_xor a b < 2 ^ k
bit_xor-lt zero zero zero p q = omega arith
bit_xor-lt zero zero (suc b) p q = absurd (omega arith)
bit_xor-lt zero (suc a) b p q = absurd (omega arith)
bit_xor-lt (suc k) a b p q = omega (
  arith,
  pow-suc 2 k,
  bit_xor_digit a b,
  bit_xor-lt k (a / 2) (b / 2) (omega (arith, pow-suc 2 k)) (omega (arith, pow-suc 2 k)),
)

or_zero_below : (n a : ℕ) → a ≤ n → bit_or a 0 ≡ a
or_zero_below n zero h = refl
or_zero_below zero (suc a) h = absurd (omega arith)
or_zero_below (suc n) (suc a) h =
    omega (arith, bit_or_digit (suc a) 0, or_zero_below n (suc a / 2) (omega arith))

or_comm_below : (n a b : ℕ) → a ≤ n → b ≤ n → bit_or a b ≡ bit_or b a
or_comm_below zero zero zero p q = refl
or_comm_below zero (suc a) b p q = absurd (omega arith)
or_comm_below zero zero (suc b) p q = absurd (omega arith)
or_comm_below (suc n) a b p q = omega (
  arith,
  bit_or_digit a b,
  bit_or_digit b a,
  or_comm_below n (a / 2) (b / 2) (omega arith) (omega arith),
)

twice_shifted : (k hi : ℕ) → hi * 2 ^ suc k ≡ 2 * (hi * 2 ^ k)
twice_shifted k hi = omega (arith, ap (λ (t : ℕ). hi * t) (pow-suc 2 k))

half_shifted : (k hi : ℕ) → hi * 2 ^ suc k / 2 ≡ hi * 2 ^ k
half_shifted k hi = omega (arith, twice_shifted k hi)

-- `hi << k | lo` is a sum where `lo` fits `k` bits.
pub bit_or_shifted : (k hi lo : ℕ) → lo < 2 ^ k → bit_or (hi * 2 ^ k) lo ≡ hi * 2 ^ k + lo
bit_or_shifted zero hi zero h = omega (arith, or_zero_below (hi * 2 ^ 0) (hi * 2 ^ 0) (omega arith))
bit_or_shifted zero hi (suc lo) h = absurd (omega arith)
bit_or_shifted (suc k) hi lo h = omega (
  arith,
  bit_or_digit (hi * 2 ^ suc k) lo,
  twice_shifted k hi,
  ap (λ (t : ℕ). bit_or t (lo / 2)) (half_shifted k hi),
  bit_or_shifted k hi (lo / 2) (omega (arith, pow-suc 2 k)),
)

-- `hi << k ^ lo` is a sum where `lo` fits `k` bits.
pub bit_xor_shifted : (k hi lo : ℕ) → lo < 2 ^ k → bit_xor (hi * 2 ^ k) lo ≡ hi * 2 ^ k + lo
bit_xor_shifted zero hi zero h =
    omega (arith, bit_xor_comm (hi * 2 ^ 0) 0, zero-bit_xor (hi * 2 ^ 0))
bit_xor_shifted zero hi (suc lo) h = absurd (omega arith)
bit_xor_shifted (suc k) hi lo h = omega (
  arith,
  bit_xor_digit (hi * 2 ^ suc k) lo,
  twice_shifted k hi,
  ap (λ (t : ℕ). bit_xor t (lo / 2)) (half_shifted k hi),
  bit_xor_shifted k hi (lo / 2) (omega (arith, pow-suc 2 k)),
)

-- `lo | 1 << k` sets a bit that was clear.
pub bit_or_set : (k lo : ℕ) → lo < 2 ^ k → bit_or lo (2 ^ k) ≡ lo + 2 ^ k
bit_or_set k lo h = omega (
  arith,
  or_comm_below (lo + 2 ^ k) lo (2 ^ k) (omega arith) (omega arith),
  bit_or_shifted k 1 lo h,
  ap (λ (t : ℕ). bit_or t lo) one_times,
)
  where
    one_times : 1 * 2 ^ k ≡ 2 ^ k
    one_times = omega arith

-- A test of every number below a bound, by evaluation.
unfoldable pub holds_below : (ℕ → Bool) → ℕ → Bool
holds_below p zero = true
holds_below p (suc top) = holds_below p top && p top

pub holds_at : (p : ℕ → Bool) (n : ℕ) → holds_below p n ≡ true → (x : ℕ) → x < n → p x ≡ true
unfolding holds_below
holds_at p (suc top) h x below =
    let (before, last) = &&→both (holds_below p top) (p top) h in
    elim (le_or_lt top x) [
      | inl here ↦ ap p (omega arith) ∙ last
      | inr under ↦ holds_at p top before x under
    ]
holds_at p zero h x below = absurd (omega arith)

pub agree_below :
    (n : ℕ) (f g : ℕ → ℕ) → holds_below (λ x. f x == g x) n ≡ true → (x : ℕ) → x < n → f x ≡ g x
agree_below n f g h x below = (==_iff (f x) (g x)).0 (holds_at (λ y. f y == g y) n h x below)

-- `b & 0x7f` and `b | 0x80` on a byte.
pub low_seven : (b : ℕ) → b < 256 → bit_and b 0x7f ≡ b % 128
unfolding holds_below
low_seven = agree_below 256 _ _ refl

pub set_top : (b : ℕ) → b < 128 → bit_or b 0x80 ≡ b + 128
unfolding holds_below
set_top = agree_below 128 _ _ refl
