-- ===== src/Requests/Cover.antt =====
-- The headers of a split request cover its range.
use modbusone.Base.{
  ℕ, zero, suc, ◌+◌, ◌-◌, ◌≤◌, ◌<◌, ◌≡◌, ◌≢◌, ◌⊎◌, ◌∙◌, refl, ap, sym, inl, inr, min, List, [], ◌∷◌,
  ◌++◌, append-nil, append_assoc, Result, ok, err, panic, none, some, u16, arith, Bool-cases, ltb,
  if◌then◌else◌, not-ltb, Error,
}
use modbusone.FunctionCode.{max_per_packet, make_request_header}
use modbusone.Pdu.{Pdu, get_function_code, get_address, get_request_count}
use modbusone.Pdu.Header.{IsRequestable, make_request_header_roundtrip, make_request_header_iff}
use modbusone.Requests.{split_loop, make_pdu_request_headers_sized, make_pdu_request_headers}

-- The headers ask, one after the other and without a gap, for `q` values from the address `a`:
-- each for `m` of them, or for all that are left if these are fewer, as `MakeRequestHeader` makes it.
abbrev pub Covers : ℕ → ℕ → ℕ → ℕ → List Pdu → Type 0
Covers f m a q [] = q ≡ 0
Covers f m a q (p ∷ ps) =
    (1 ≤ q)
    × ((get_function_code p ≡ f) × (get_address p ≡ ok a) × (get_request_count p ≡ ok (min m q)))
    × (make_request_header f a (min m q) ≡ ok p)
    × Covers f m (a + min m q) (q - m) ps

-- The number of values of a round.
round_values : (q m : ℕ) → (if ltb (suc q) m then suc q else m) ≡ min m (suc q)
round_values q m = ground arith

-- One round of the loop, for a header that was made.
one_round :
    (fuel f a q m : ℕ) (acc : List Pdu) (p : Pdu)
    → suc q < 65536
    → make_request_header f a (min m (suc q)) ≡ ok p
    → split_loop (suc fuel) f a (suc q) m m acc
      ≡ split_loop fuel f (u16 (a + min m (suc q))) (suc q - m) (min m (suc q)) m (acc ++ (p ∷ []))
unfolding split_loop
one_round fuel f a q m acc p w made =
    let left : u16 (suc q + 65536 - min m (suc q)) ≡ suc q - m = omega arith in
    rw (round_values q m, made, left)

-- In range, the header is made, and the loop goes on behind its values.
round_lem :
    (fuel f a q m : ℕ) (acc : List Pdu)
    → 1 ≤ m
    → m ≤ max_per_packet f
    → a + suc q ≤ 65535
    → (p : Pdu) × ((get_function_code p ≡ f)
        × (get_address p ≡ ok a)
        × (get_request_count p ≡ ok (min m (suc q))))
      × (make_request_header f a (min m (suc q)) ≡ ok p)
      × (split_loop (suc fuel) f a (suc q) m m acc
          ≡ split_loop fuel f (a + min m (suc q)) (suc q - m) (min m (suc q)) m (acc ++ (p ∷ [])))
round_lem fuel f a q m acc pos fits range =
    let n = min m (suc q) in
    let r : IsRequestable f a n = omega arith in
    let (p, made) = (make_request_header_iff f a n).1 r in
    let (x, y, z, _) = make_request_header_roundtrip f a n p made in
    let next : u16 (a + n) ≡ a + n = omega arith in
    let on = λ (b : ℕ). split_loop fuel f b (suc q - m) n m (acc ++ (p ∷ [])) in
    (p, (x, y, z), made, one_round fuel f a q m acc p (omega arith) made ∙ ap on next)

-- When nothing is left the last `q` is not looked at.
q_unused :
    (fuel f a q m n : ℕ) (acc : List Pdu)
    → (q ≡ 0) ⊎ (n ≡ m)
    → split_loop fuel f a q n m acc ≡ split_loop fuel f a q m m acc
q_unused fuel f a q m n acc (inl e) = unfold split_loop in rw e
q_unused fuel f a q m n acc (inr e) = rw e

split_loop_lem :
    (fuel f a q m : ℕ) (acc : List Pdu)
    → q ≤ fuel
    → 1 ≤ m
    → m ≤ max_per_packet f
    → a + q ≤ 65535
    → (ps : List Pdu) × (split_loop fuel f a q m m acc ≡ some (ok (acc ++ ps))) × Covers f m a q ps
split_loop_lem fuel f a zero m acc h pos fits range = ([], unfold split_loop in rw append-nil, refl)
split_loop_lem zero f a (suc q) m acc h pos fits range = absurd (omega arith)
split_loop_lem (suc fuel) f a (suc q) m acc h pos fits range =
    let (p, fields, made, step) = round_lem fuel f a q m acc pos fits range in
    let n = min m (suc q) in
    let (ps, rest, covers) =
      split_loop_lem fuel f (a + n) (suc q - m) m (acc ++ (p ∷ [])) (omega arith) pos fits
        (omega arith) in
    (
      p ∷ ps,
      step
          ∙ q_unused fuel f (a + n) (suc q - m) m n _ (omega arith)
          ∙ rest
          ∙ ap (λ (t : List Pdu). some (ok t)) (append_assoc acc (p ∷ []) ps),
      (omega arith, fields, made, covers),
    )

-- With `maxPerPacket` between 1 and `MaxPerPacket`, and an address and a quantity that add up to
-- 0xFFFF at most, so that the range does not reach the address 0xFFFF, `MakePDURequestHeadersSized`
-- returns the headers it was given and then headers of `maxPerPacket` values each, the last of what
-- is left, that cover the range in order and without a gap.
pub make_pdu_request_headers_sized-Covers :
    (f a q m : ℕ) (acc : List Pdu)
    → 1 ≤ m
    → m ≤ max_per_packet f
    → a + q ≤ 65535
    → (ps : List Pdu) × (make_pdu_request_headers_sized f a q m acc ≡ some (ok (acc ++ ps)))
      × Covers f m a q ps
make_pdu_request_headers_sized-Covers f a q m acc pos fits range =
    let (ps, e, covers) = split_loop_lem q f a q m acc (omega arith) pos fits range in
    (ps, unfold make_pdu_request_headers_sized in rw (not-ltb 65535 (a + q) range) e, covers)

-- For a supported function code, and an address and a quantity that add up to 0xFFFF at most, so
-- that the range does not reach the address 0xFFFF, `MakePDURequestHeaders` returns the headers it
-- was given and then headers of `MaxPerPacket` values each, the last of what is left, that cover
-- the range in order and without a gap.
pub make_pdu_request_headers-Covers :
    (f a q : ℕ) (acc : List Pdu)
    → max_per_packet f ≢ 0
    → a + q ≤ 65535
    → (ps : List Pdu) × (make_pdu_request_headers f a q acc ≡ some (ok (acc ++ ps)))
      × Covers f (max_per_packet f) a q ps
unfolding make_pdu_request_headers
make_pdu_request_headers-Covers f a q acc supported range =
    make_pdu_request_headers_sized-Covers f a q (max_per_packet f) acc (omega arith) (omega arith)
      range

Result-cases {ℓ} :
    {A : Type ℓ} (r : Result A)
    → ((a : A) × (r ≡ ok a)) ⊎ (((e : Error) × (r ≡ err e)) ⊎ (r ≡ panic))
Result-cases (ok a) = inl (a, refl)
Result-cases (err e) = inr (inl (e, refl))
Result-cases panic = inr (inr refl)

stops :
    (fuel f a q m : ℕ) (acc : List Pdu)
    → ((e : Error) × (make_request_header f a (min m (suc q)) ≡ err e))
      ⊎ (make_request_header f a (min m (suc q)) ≡ panic)
    → split_loop (suc fuel) f a (suc q) m m acc ≢ none
unfolding split_loop
stops fuel f a q m acc (inl (e, failed)) = rw (round_values q m, failed) (λ x. cc)
stops fuel f a q m acc (inr failed) = rw (round_values q m, failed) (λ x. cc)

split_loop-ne-none :
    (fuel f a q m : ℕ) (acc : List Pdu)
    → q ≤ fuel
    → q < 65536
    → split_loop fuel f a q m m acc ≢ none
split_loop-ne-none fuel f a zero m acc h w = unfold split_loop in λ e. cc
split_loop-ne-none zero f a (suc q) m acc h w = absurd (omega arith)
split_loop-ne-none (suc fuel) f a (suc q) m acc h w =
    let n = min m (suc q) in
    elim (Result-cases (make_request_header f a n)) [
      | inl (p, made) ↦
          let some_values = ((make_request_header_iff f a n).0 (p, made)).some_values in
          let b = u16 (a + n) in
          let acc' = acc ++ (p ∷ []) in
          let ih = split_loop-ne-none fuel f b (suc q - m) m acc' (omega arith) (omega arith) in
          let same = q_unused fuel f b (suc q - m) m n acc' (omega arith) in
          λ e. ih (sym same ∙ sym (one_round fuel f a q m acc p w made) ∙ e)
      | inr failed ↦ stops fuel f a q m acc failed
    ]

-- The loop of `MakePDURequestHeadersSized` ends within its rounds for every 16-bit quantity: one
-- round for each value is enough.
pub make_pdu_request_headers_sized-ne-none :
    (f a q m : ℕ) (acc : List Pdu) → q < 65536 → make_pdu_request_headers_sized f a q m acc ≢ none
make_pdu_request_headers_sized-ne-none f a q m acc w =
    let loop = split_loop-ne-none q f a q m acc (omega arith) w in
    unfold make_pdu_request_headers_sized in
    elim (Bool-cases (ltb 65535 (a + q))) [ inl out ↦ rw out (λ e. cc) | inr fits ↦ rw fits loop ]
