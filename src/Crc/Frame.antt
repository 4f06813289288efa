-- ===== src/Crc/Frame.antt =====
-- `Sum` and `Validate` on whole frames.
use modbusone.Base.{
  ℕ, zero, suc, ◌+◌, ◌-◌, ◌≤◌, ◌≡◌, refl, ap, ap₂, ◌∙◌, inl, inr, true, false, ◌&&◌, ◌==◌, ==_iff,
  List, [], ◌∷◌, ◌++◌, length, get_or, length-append, take-append, ==_refl, le→leb, lt→not-leb,
  &&→both, le_or_lt, arith,
}
use modbusone.Crc.{reset, write, sum, validate}

get_or-append :
    (xs ys : List ℕ) (i n : ℕ) → n ≡ length xs + i → get_or (xs ++ ys) n 0 ≡ get_or ys i 0
get_or-append [] ys i n h = ap (λ (t : ℕ). get_or ys t 0) (omega arith)
get_or-append (x ∷ xs) ys i zero h = absurd (omega arith)
get_or-append (x ∷ xs) ys i (suc n) h = get_or-append xs ys i n (omega arith)

-- `Validate` on a frame that is split into message and checksum.
pub validate-append :
    (m : List ℕ) (x y : ℕ)
    → 1 ≤ length m
    → validate (m ++ (x ∷ y ∷ [])) ≡ (x == (write reset m).low && y == (write reset m).high)
unfolding validate
validate-append m x y h =
    let n = length (m ++ (x ∷ y ∷ [])) in
    let e : n ≡ length m + 2 = length-append m (x ∷ y ∷ []) in
    rw (
      take-append m (x ∷ y ∷ []) (n - 2) (omega arith),
      get_or-append m (x ∷ y ∷ []) 0 (n - 2) (omega arith),
      get_or-append m (x ∷ y ∷ []) 1 (n - 1) (omega arith),
      lt→not-leb n 2 (omega arith),
    )

pub length-sum : (bs : List ℕ) → length (sum bs) ≡ length bs + 2
unfolding sum
length-sum bs = length-append bs _

-- A frame of at least two bytes is a message and its last two bytes.
pub split_frame :
    (f : List ℕ)
    → 2 ≤ length f
    → (m : List ℕ) × (x : ℕ) × (y : ℕ) × (f ≡ m ++ (x ∷ y ∷ [])) × (length f ≡ length m + 2)
split_frame [] h = absurd (omega arith)
split_frame (x ∷ []) h = absurd (omega arith)
split_frame (x ∷ y ∷ []) h = ([], x, y, refl, omega arith)
split_frame (x ∷ y ∷ z ∷ f) h =
    let (m, a, b, e, n) = split_frame (y ∷ z ∷ f) (omega arith) in
    (x ∷ m, a, b, ap (◌∷◌ x) e, omega arith)

-- `Validate` accepts what `Sum` made of any message that is not empty.
pub validate-sum : (bs : List ℕ) → 1 ≤ length bs → validate (sum bs) ≡ true
unfolding sum
validate-sum bs h =
    rw (validate-append bs _ _ h, ==_refl (write reset bs).low, ==_refl (write reset bs).high)

validate_short : (f : List ℕ) → length f ≤ 2 → validate f ≡ false
unfolding validate
validate_short f h = rw (le→leb (length f) 2 h)

pub checksum :
    (m : List ℕ) (x y : ℕ)
    → validate (m ++ (x ∷ y ∷ [])) ≡ true
    → (1 ≤ length m) × (x ≡ (write reset m).low) × (y ≡ (write reset m).high)
checksum [] x y v = cc (validate_short (x ∷ y ∷ []) (omega arith))
checksum (z ∷ m) x y v =
    let (lo, hi) = &&→both _ _ (rw (validate-append (z ∷ m) x y (omega arith)) at v) in
    (omega arith, (==_iff x _).0 lo, (==_iff y _).0 hi)

-- What `Validate` accepts is the `Sum` of a message that is not empty.
pub validate→sum : (f : List ℕ) → validate f ≡ true → (bs : List ℕ) × (1 ≤ length bs) × (f ≡ sum bs)
unfolding sum
validate→sum f h = elim (le_or_lt (length f) 2) [
  | inl short ↦ cc (validate_short f short)
  | inr long ↦
      let (m, x, y, e, n) = split_frame f (omega arith) in
      let (nonempty, lo, hi) = checksum m x y (rw e at h) in
      (m, nonempty, e ∙ ap (◌++◌ m) (ap₂ (λ (s t : ℕ). s ∷ t ∷ []) lo hi))
]
