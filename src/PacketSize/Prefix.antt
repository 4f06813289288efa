-- ===== src/PacketSize/Prefix.antt =====
-- More bytes of a packet never lower the size that is inferred from them.
use modbusone.Base.{
  ℕ, zero, suc, ◌≤◌, ◌<◌, ◌≡◌, ◌⊎◌, refl, Bool, false, List, [], ◌∷◌, take, drop, get_or, length,
  length-take, arith, le_or_lt, inl, inr,
}
use modbusone.Minmax
use modbusone.FunctionCode.{separate_error}
use modbusone.OverSize.{OverSize, get_max_pdu_size}
use modbusone.PacketSize.{over_size, get_pdu_size_from_header, get_rtu_size_from_header}

pub get_or-take : (h : List ℕ) (k i : ℕ) → i < k → get_or (take k h) i 0 ≡ get_or h i 0
get_or-take h zero i lt = absurd (omega arith)
get_or-take [] (suc k) i lt = refl
get_or-take (x ∷ h) (suc k) zero lt = refl
get_or-take (x ∷ h) (suc k) (suc i) lt = get_or-take h k i (omega arith)

drop-take : (h : List ℕ) (k : ℕ) → drop 1 (take (suc k) h) ≡ take k (drop 1 h)
drop-take [] zero = refl
drop-take [] (suc k) = refl
drop-take (x ∷ h) k = refl

pub six-le-over_size : (o : OverSize) (f : ℕ) (h : List ℕ) → 6 ≤ over_size o f h
unfolding over_size get_max_pdu_size Minmax.min Minmax.max
six-le-over_size o f h = ground arith

over_size-take :
    (o : OverSize) (f : ℕ) (h : List ℕ) (k : ℕ) → 5 ≤ k → over_size o f (take k h) ≡ over_size o f h
unfolding over_size
over_size-take o f h k le = rw (get_or-take h k 3 (omega arith), get_or-take h k 4 (omega arith))

-- The size that `GetPDUSizeFromHeader` infers from the first bytes of a packet is at most the one
-- that it infers from the whole, on either side and whatever the settings.
pub pdu_size-take :
    (o : OverSize) (h : List ℕ) (k : ℕ) (b : Bool)
    → get_pdu_size_from_header o (take k h) b ≤ get_pdu_size_from_header o h b
unfolding get_pdu_size_from_header
pdu_size-take o h k b = elim (le_or_lt 2 k) [
  | inl long ↦ ground (
    arith,
    length-take k h,
    get_or-take h k 0 (omega arith),
    get_or-take h k 1 (omega arith),
    get_or-take h k 5,
    over_size-take o (separate_error (get_or h 0 0)).1 h k,
    six-le-over_size o (separate_error (get_or h 0 0)).1 h,
  )
  | inr short ↦
      ground (arith, length-take k h, six-le-over_size o (separate_error (get_or h 0 0)).1 h)
]

-- The size that `GetRTUSizeFromHeader` infers from the first bytes of a frame is at most the one that
-- it infers from the whole, on either side and whatever the settings.
pub rtu_size-take :
    (o : OverSize) (h : List ℕ) (k : ℕ) (b : Bool)
    → get_rtu_size_from_header o (take k h) b ≤ get_rtu_size_from_header o h b
unfolding get_rtu_size_from_header
rtu_size-take o h zero b = ground arith
rtu_size-take o h (suc k) b = ground (
  arith,
  length-take (suc k) h,
  get_or-take h (suc k) 0 (omega arith),
  drop-take h k,
  pdu_size-take o (drop 1 h) k false,
  pdu_size-take o (drop 1 h) k b,
)

-- From the first two bytes of a packet on, `GetPDUSizeFromHeader` infers the final size, or one that
-- asks for more than the bytes that are there.
pdu_size-settled :
    (o : OverSize) (h : List ℕ) (k : ℕ) (b : Bool)
    → 2 ≤ k
    → (get_pdu_size_from_header o (take k h) b ≡ get_pdu_size_from_header o h b)
      ⊎ (k < get_pdu_size_from_header o (take k h) b)
unfolding get_pdu_size_from_header
pdu_size-settled o h k b long = ground (
  arith,
  length-take k h,
  get_or-take h k 0 (omega arith),
  get_or-take h k 1 (omega arith),
  get_or-take h k 5,
  over_size-take o (separate_error (get_or h 0 0)).1 h k,
)

-- From the first five bytes of a frame on, `GetRTUSizeFromHeader` infers the final size, or one that
-- asks for more than the bytes that are there.
pub rtu_size-settled :
    (o : OverSize) (h : List ℕ) (k : ℕ) (b : Bool)
    → 5 ≤ k
    → (get_rtu_size_from_header o (take k h) b ≡ get_rtu_size_from_header o h b)
      ⊎ (k < get_rtu_size_from_header o (take k h) b)
unfolding get_rtu_size_from_header
rtu_size-settled o h zero b long = absurd (omega arith)
rtu_size-settled o h (suc k) b long = ground (
  arith,
  length-take (suc k) h,
  get_or-take h (suc k) 0 (omega arith),
  drop-take h k,
  pdu_size-settled o (drop 1 h) k false (omega arith),
  pdu_size-settled o (drop 1 h) k b (omega arith),
)

-- A frame that has the size that `GetRTUSizeFromHeader` infers has five bytes at least.
pub five-le-rtu_size :
    (o : OverSize) (h : List ℕ) (b : Bool)
    → get_rtu_size_from_header o h b ≡ length h
    → 5 ≤ length h
unfolding get_rtu_size_from_header get_pdu_size_from_header
five-le-rtu_size o h b e =
    ground (arith, six-le-over_size o (separate_error (get_or (drop 1 h) 0 0)).1 (drop 1 h))
