-- ===== src/Data/Bools.antt =====
-- `BoolsToData` and `DataToBools` are inverse.
use modbusone.Base.{
  ℕ, ◌+◌, ◌-◌, ◌/◌, ◌≤◌, ◌<◌, ◌≡◌, ◌≢◌, ◌⊎◌, inl, inr, refl, ap, ◌∙◌, Bool, true, false, ◌==◌, List,
  [], ◌∷◌, ◌++◌, append-nil, append_assoc, length, replicate, arith, length-append, take-append, ok,
  Bool-cases, ==_iff, ne→==-false, le→leb,
}
use modbusone.FunctionCode.{fc_write_single_coil}
use modbusone.Data.{all_bools, bools_to_data, data_to_bools, first_bools}
use modbusone.Data.Bits.{number, byte_bools-number}
use modbusone.Data.Pack.{chunk, chunk_full, chunk_last, chunk_next, number-nil, pack_loop_lem}

all_bools_full :
    (vs : List Bool) (bytes : List ℕ)
    → length vs ≡ 8
    → all_bools (number vs ∷ bytes) ≡ vs ++ all_bools bytes
unfolding all_bools
all_bools_full vs bytes h =
    let none_left : 8 - length vs ≡ 0 = omega arith in
    ap (λ (t : List Bool). t ++ all_bools bytes)
      (byte_bools-number vs (omega arith) ∙ rw (none_left, append-nil))

all_bools_last :
    (vs : List Bool)
    → length vs ≤ 8
    → all_bools (number vs ∷ []) ≡ vs ++ replicate (8 - length vs) false
unfolding all_bools
all_bools_last vs h = append-nil _ ∙ byte_bools-number vs h

-- The bools of the chunks: those given, and then false up to a whole number of bytes.
all_bools-chunk :
    (rest front : List Bool)
    → length front ≤ 7
    → (length front ≡ 0) ⊎ (0 < length rest)
    → (p : ℕ) × (all_bools (chunk front rest) ≡ (front ++ rest) ++ replicate p false)
      × (length (chunk front rest) ≡ (length front + length rest + 7) / 8)
all_bools-chunk [] [] h e = (0, unfold all_bools chunk in refl, unfold chunk in omega arith)
all_bools-chunk [] (x ∷ front) h (inl e) = absurd (omega arith)
all_bools-chunk [] (x ∷ front) h (inr e) = absurd (omega arith)
all_bools-chunk (v ∷ []) front h e =
    let next = front ++ (v ∷ []) in
    let more : length next ≡ length front + 1 = length-append front (v ∷ []) in
    (
      8 - length next,
      ap all_bools (chunk_last front v) ∙ all_bools_last next (omega arith),
      rw chunk_last (omega arith),
    )
all_bools-chunk (v ∷ w ∷ rest) front h e =
    let next = front ++ (v ∷ []) in
    let more : length next ≡ length front + 1 = length-append front (v ∷ []) in
    elim (Bool-cases (length front == 7)) [
      | inl full ↦
          let seven = (==_iff (length front) 7).0 full in
          let (p, b, n) = all_bools-chunk (w ∷ rest) [] (omega arith) (inl refl) in
          (
            p,
            rw (chunk_full front v (w ∷ rest) seven, all_bools_full next _ (omega arith), b)
                (simp append_assoc),
            rw (chunk_full front v (w ∷ rest) seven) (omega arith),
          )
      | inr part ↦
          let (p, b, n) = all_bools-chunk (w ∷ rest) next (ground arith) (inr (omega arith)) in
          (
            p,
            rw (chunk_next front v w rest (ground arith), b) (simp append_assoc),
            rw (chunk_next front v w rest (ground arith)) (omega arith),
          )
    ]

packed : (values : List Bool) (fc : ℕ) → fc ≢ 5 → bools_to_data values fc ≡ ok (chunk [] values)
packed values fc h =
    let k = (length values + 7) / 8 in
    let loop =
      rw number-nil at (pack_loop_lem values [] [] k (omega arith) (inl refl) (omega arith)) in
    unfold bools_to_data in rw (ne→==-false fc 5 h) (ap ok loop)

cut : (values pad : List Bool) → first_bools (values ++ pad) (length values) ≡ ok values
cut values pad =
    unfold first_bools in
    rw (
      le→leb (length values) (length (values ++ pad)) (omega (arith, length-append values pad)),
      take-append values pad (length values) refl,
    )

counted :
    (bytes : List ℕ) (count fc : ℕ)
    → fc ≢ 5
    → count ≤ 65528
    → length bytes ≡ (count + 7) / 8
    → data_to_bools bytes count fc ≡ first_bools (all_bools bytes) count
unfolding data_to_bools
counted bytes count fc h fits n = ground arith

-- Any bools, up to 65528 of them, come back from `DataToBools` on what `BoolsToData` made of them,
-- for every function code but FcWriteSingleCoil; the data is as long as that many bools need.
pub bools_roundtrip :
    (values : List Bool) (fc : ℕ)
    → fc ≢ fc_write_single_coil
    → length values ≤ 65528
    → (bytes : List ℕ) × (bools_to_data values fc ≡ ok bytes)
      × (length bytes ≡ (length values + 7) / 8)
      × (data_to_bools bytes (length values) fc ≡ ok values)
bools_roundtrip values fc h fits =
    let (p, b, n) = all_bools-chunk values [] (omega arith) (inl refl) in
    let size : length (chunk [] values) ≡ (length values + 7) / 8 = omega arith in
    (
      chunk [] values,
      packed values fc h,
      size,
      counted (chunk [] values) (length values) fc h fits size
          ∙ ap (λ (t : List Bool). first_bools t (length values)) b
          ∙ cut values _,
    )

-- A single coil comes back from `DataToBools` on what `BoolsToData` made of it, whatever the count.
pub single_coil_roundtrip :
    (v : Bool) (count : ℕ)
    → (bytes : List ℕ) × (bools_to_data (v ∷ []) fc_write_single_coil ≡ ok bytes)
      × (data_to_bools bytes count fc_write_single_coil ≡ ok (v ∷ []))
unfolding bools_to_data data_to_bools
single_coil_roundtrip true count = (_, refl, refl)
single_coil_roundtrip false count = (_, refl, refl)
