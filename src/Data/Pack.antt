-- ===== src/Data/Pack.antt =====
-- The loop of `BoolsToData`: bools are packed into bytes, the lowest bit first.
use modbusone.Base.{
  ℕ, zero, suc, ◌+◌, ◌/◌, ◌^◌, ◌≤◌, ◌<◌, ◌≡◌, ◌⊎◌, inl, inr, refl, ap, ◌∙◌, sym, subst, Bool, true,
  false, ◌==◌, List, [], ◌∷◌, ◌++◌, append-nil, append_assoc, length, set, replicate, bit_or, arith,
  if◌then◌else◌, length-append, u8, Bool-cases, ==_iff, ne→==-false,
}
use native.Mathlib.Nat.{mod-eq_of_lt, pow-le-pow_right}
use modbusone.Base.Bits.{bit_or_set}
use modbusone.Data.{pack_loop}
use modbusone.Data.Bits.{number, number-lt, number-snoc}

-- Setting the next bit of the byte of the bools so far.
next_bit_lem :
    (front : List Bool) (v : Bool) (b : ℕ)
    → b ≡ length front
    → b ≤ 7
    → (if v then bit_or (number front) (u8 (2 ^ b)) else number front) ≡ number (front ++ (v ∷ []))
next_bit_lem front true b e h =
    let small : 2 ^ b < 256 = omega (arith, pow-le-pow_right {n = 2} (omega arith) {j = 7} h) in
    let clear : number front < 2 ^ b = number-lt b front (omega arith) in
    rw (mod-eq_of_lt small, number-snoc, ← e) (omega (arith, bit_or_set b (number front) clear))
next_bit_lem front false b e h = rw number-snoc (omega arith)

-- A write at the end of what is done, into the zeros that are left.
set_next :
    (done : List ℕ) (k v : ℕ)
    → set (done ++ replicate (suc k) 0) (length done) v ≡ (done ++ (v ∷ [])) ++ replicate k 0
set_next [] k v = refl
set_next (x ∷ done) k v = ap (◌∷◌ x) (set_next done k v)

-- The bytes of the bools, eight to a byte, with the bools of the byte begun in front.
unfoldable pub chunk : List Bool → List Bool → List ℕ
chunk front [] = []
chunk front (v ∷ rest) =
    let all = number (front ++ (v ∷ [])) in
    let next_byte = all ∷ chunk [] rest in
    let next_bit = chunk (front ++ (v ∷ [])) rest in
    if length front == 7 then next_byte else if length rest == 0 then all ∷ [] else next_bit

-- One round on each of the three ways, in the loop and in the chunks.
full_byte :
    (v : Bool) (rest : List Bool) (bytes : List ℕ) (nr val : ℕ)
    → pack_loop (v ∷ rest) bytes nr 7 val
      ≡ pack_loop rest (set bytes nr (if v then bit_or val (u8 (2 ^ 7)) else val)) (nr + 1) 0 0
unfolding pack_loop
full_byte v rest bytes nr val = refl

last_bit :
    (v : Bool) (bytes : List ℕ) (nr b val : ℕ)
    → pack_loop (v ∷ []) bytes nr b val ≡ set bytes nr (if v then bit_or val (u8 (2 ^ b)) else val)
unfolding pack_loop
last_bit v bytes nr b val = ground arith

next_bit :
    (v w : Bool) (rest : List Bool) (bytes : List ℕ) (nr b val : ℕ)
    → b < 7
    → pack_loop (v ∷ w ∷ rest) bytes nr b val
      ≡ pack_loop (w ∷ rest) bytes nr (b + 1) (if v then bit_or val (u8 (2 ^ b)) else val)
next_bit v w rest bytes nr b val h =
    unfold pack_loop in
    rw (
      ne→==-false b 7 (omega arith),
      ne→==-false (suc (length rest)) 0 (omega arith),
      mod-eq_of_lt {n = b + 1} {m = 256} (omega arith),
    )

pub chunk_full :
    (front : List Bool) (v : Bool) (rest : List Bool)
    → length front ≡ 7
    → chunk front (v ∷ rest) ≡ number (front ++ (v ∷ [])) ∷ chunk [] rest
unfolding chunk
chunk_full front v rest h = ground arith

pub chunk_last :
    (front : List Bool) (v : Bool) → chunk front (v ∷ []) ≡ number (front ++ (v ∷ [])) ∷ []
unfolding chunk
chunk_last front v = ground arith

pub chunk_next :
    (front : List Bool) (v w : Bool) (rest : List Bool)
    → length front < 7
    → chunk front (v ∷ w ∷ rest) ≡ chunk (front ++ (v ∷ [])) (w ∷ rest)
chunk_next front v w rest h =
    unfold chunk in
    rw (ne→==-false (length front) 7 (omega arith), ne→==-false (suc (length rest)) 0 (omega arith))

pub number-nil : number [] ≡ 0
unfolding number
number-nil = refl

pub pack_loop_lem :
    (rest front : List Bool) (done : List ℕ) (k : ℕ)
    → length front ≤ 7
    → (length front ≡ 0) ⊎ (0 < length rest)
    → k ≡ (length front + length rest + 7) / 8
    → pack_loop rest (done ++ replicate k 0) (length done) (length front) (number front)
      ≡ done ++ chunk front rest
pack_loop_lem [] front done zero h e hk = unfold pack_loop chunk in rw append-nil
pack_loop_lem [] front done (suc k) h (inl e) hk = absurd (omega arith)
pack_loop_lem [] front done (suc k) h (inr e) hk = absurd (omega arith)
pack_loop_lem (v ∷ rest) front done zero h e hk = absurd (omega arith)
pack_loop_lem (v ∷ []) front done (suc (suc k)) h e hk = absurd (omega arith)
pack_loop_lem (v ∷ []) front done (suc zero) h e hk = rw (
  last_bit,
  next_bit_lem front v (length front) refl h,
  set_next done zero,
  chunk_last,
  append-nil,
)
pack_loop_lem (v ∷ w ∷ rest) front done (suc k) h e hk =
    let all = number (front ++ (v ∷ [])) in
    let more : length (front ++ (v ∷ [])) ≡ length front + 1 = length-append front (v ∷ []) in
    elim (Bool-cases (length front == 7)) [
      | inl full ↦
          let seven = (==_iff (length front) 7).0 full in
          let byte = done ++ (all ∷ []) in
          let ih = pack_loop_lem (w ∷ rest) [] byte k (omega arith) (inl refl) (omega arith) in
          let at = λ (n : ℕ).
            pack_loop (w ∷ rest) (byte ++ replicate k 0) n 0 0 ≡ byte ++ chunk [] (w ∷ rest) in
          rw
            (
              seven,
              full_byte,
              next_bit_lem front v 7 (sym seven) (omega arith),
              set_next done k,
              chunk_full front v (w ∷ rest) seven,
            )
            (subst at (length-append done (all ∷ [])) (rw number-nil at ih)
              ∙ append_assoc done (all ∷ []) (chunk [] (w ∷ rest)))
      | inr part ↦
          let next = front ++ (v ∷ []) in
          let at = λ (n : ℕ).
            pack_loop (w ∷ rest) (done ++ replicate (suc k) 0) (length done) n all
            ≡ done ++ chunk next (w ∷ rest) in
          let ih =
            pack_loop_lem (w ∷ rest) next done (suc k) (ground arith) (inr (omega arith))
              (ground arith) in
          rw
            (
              next_bit v w rest _ (length done) (length front) (number front) (ground arith),
              next_bit_lem front v (length front) refl h,
              chunk_next front v w rest (ground arith),
            )
            (subst at more ih)
    ]
