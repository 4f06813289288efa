-- ===== src/Data/Safe.antt =====
-- When `DataToBools` panics, and how much it returns.
use modbusone.Base.{
  ℕ, zero, suc, ◌+◌, ◌*◌, ◌/◌, ◌≤◌, ◌<◌, ◌≡◌, ◌≢◌, inl, inr, refl, ap, Bool, ◌==◌, List, [], ◌∷◌,
  length, arith, if◌then◌else◌, length-append, u16, ok, panic, Bool-cases, length-take,
}
use modbusone.FunctionCode.{fc_write_single_coil}
use modbusone.Data.{byte_bools, all_bools, data_to_bools, first_bools, single_coil}

length-byte_bools : (k b : ℕ) → length (byte_bools k b) ≡ k
unfolding byte_bools
length-byte_bools zero b = refl
length-byte_bools (suc k) b = ap suc (length-byte_bools k b)

length-all_bools : (bytes : List ℕ) → length (all_bools bytes) ≡ 8 * length bytes
unfolding all_bools
length-all_bools [] = omega arith
length-all_bools (b ∷ bytes) = omega (
  arith,
  length-append (byte_bools 8 b) (all_bools bytes),
  length-byte_bools 8 b,
  length-all_bools bytes,
)

first_bools_lem :
    (r s : List Bool) (count : ℕ)
    → count ≤ length r
    → (first_bools r count ≢ panic) × (first_bools r count ≡ ok s → length s ≡ count)
unfolding first_bools
first_bools_lem r s count h = (λ e. ground arith, λ e. ground (arith, length-take count r))

single_coil_lem :
    (bytes : List ℕ) (s : List Bool)
    → (single_coil bytes ≢ panic) × (single_coil bytes ≡ ok s → length s ≡ 1)
unfolding single_coil
single_coil_lem (a ∷ b ∷ []) s = (λ e. ground arith, λ e. ground arith)
single_coil_lem _ s = (λ e. cc, λ e. cc)

counted_or_safe :
    (bytes : List ℕ) (r : List Bool) (count fc : ℕ)
    → count ≤ 65528
    → (data_to_bools bytes count fc ≢ panic)
      × (data_to_bools bytes count fc ≡ ok r → length r ≡ (if fc == 5 then 1 else count))
counted_or_safe bytes r count fc h =
    unfold data_to_bools in
    elim (Bool-cases (fc == 5)) [
      | inl single ↦ rw single (single_coil_lem bytes r)
      | inr several ↦ rw several (elim (Bool-cases (u16 (count + 7) / 8 == u16 (length bytes))) [
        | inl fits ↦
            rw fits
              (first_bools_lem (all_bools bytes) r count (ground (arith, length-all_bools bytes)))
        | inr misfit ↦ rw misfit ((λ e. cc), (λ e. cc))
      ])
    ]

-- With a count up to 65528 `DataToBools` does not panic, whatever the bytes and the function code.
pub data_to_bools_safe :
    (bytes : List ℕ) (count fc : ℕ) → count ≤ 65528 → data_to_bools bytes count fc ≢ panic
data_to_bools_safe bytes count fc h = (counted_or_safe bytes [] count fc h).0

-- With a count up to 65528, what `DataToBools` returns is as long as the count, or one bool for
-- FcWriteSingleCoil.
pub length-data_to_bools :
    (bytes : List ℕ) (r : List Bool) (count fc : ℕ)
    → count ≤ 65528
    → data_to_bools bytes count fc ≡ ok r
    → length r ≡ (if fc == 5 then 1 else count)
length-data_to_bools bytes r count fc h e = (counted_or_safe bytes r count fc h).1 e

-- With a count of 65529 to 65535 and no bytes, `DataToBools` panics, for every function code but
-- FcWriteSingleCoil: the sum `count+7` wraps around, so the length test passes.
pub data_to_bools_panics :
    (count fc : ℕ)
    → fc ≢ fc_write_single_coil
    → 65529 ≤ count
    → count < 65536
    → data_to_bools [] count fc ≡ panic
unfolding data_to_bools
data_to_bools_panics count fc h lo hi = ground arith
