-- ===== src/Data/Registers.antt =====
-- `RegistersToData` and `DataToRegisters`.
use modbusone.Base.{
  ℕ, zero, suc, ◌*◌, ◌/◌, ◌≡◌, refl, sym, subst, ap, ap₂, ◌∙◌, List, [], ◌∷◌, length, All, IsByte,
  IsU16, ok, err, exception, arith, ◌==◌, if◌then◌else◌,
}
use modbusone.Data.{registers_loop, data_to_registers, register_bytes, registers_to_data}

pub length-register_bytes : (values : List ℕ) → length (register_bytes values) ≡ 2 * length values
unfolding register_bytes
length-register_bytes [] = omega arith
length-register_bytes (v ∷ values) = omega (arith, length-register_bytes values)

registers_loop-register_bytes :
    (values : List ℕ) → All IsU16 values → registers_loop (register_bytes values) ≡ values
unfolding registers_loop register_bytes
registers_loop-register_bytes [] h = refl
registers_loop-register_bytes (v ∷ values) (hv, h) =
    ap₂ ◌∷◌ (omega arith) (registers_loop-register_bytes values h)

even_bytes :
    (bytes : List ℕ) (n : ℕ)
    → length bytes ≡ 2 * n
    → data_to_registers bytes ≡ (if n == 0 then err (exception 3) else ok (registers_loop bytes))
unfolding data_to_registers
even_bytes bytes n h = ground arith

-- Any non-empty list of uint16 values comes back from `DataToRegisters` on what `RegistersToData`
-- made of it, two bytes for each value; of no values it makes data that `DataToRegisters` rejects.
pub registers_roundtrip :
    (values : List ℕ)
    → All IsU16 values
    → (bytes : List ℕ) × (registers_to_data values ≡ ok bytes)
      × (length bytes ≡ 2 * length values)
      × (data_to_registers bytes ≡ (if length values == 0 then err (exception 3) else ok values))
unfolding registers_to_data data_to_registers
registers_roundtrip values h =
    let n = length-register_bytes values in
    (
      register_bytes values,
      refl,
      n,
      even_bytes (register_bytes values) (length values) n
          ∙ ap (λ (t : List ℕ). if length values == 0 then err (exception 3) else ok t)
              (registers_loop-register_bytes values h),
    )

register_bytes-registers_loop :
    (n : ℕ) (bytes : List ℕ)
    → length bytes ≡ 2 * n
    → All IsByte bytes
    → register_bytes (registers_loop bytes) ≡ bytes
unfolding registers_loop register_bytes
register_bytes-registers_loop n [] e h = refl
register_bytes-registers_loop n (x ∷ []) e h = absurd (omega arith)
register_bytes-registers_loop zero (x ∷ y ∷ bytes) e h = absurd (omega arith)
register_bytes-registers_loop (suc n) (x ∷ y ∷ bytes) e (hx, (hy, h)) =
    ap₂ ◌∷◌ (omega arith)
      (ap₂ ◌∷◌ (omega arith) (register_bytes-registers_loop n bytes (omega arith) h))

registers_loop-IsU16 : (bytes : List ℕ) → All IsByte bytes → All IsU16 (registers_loop bytes)
unfolding registers_loop
registers_loop-IsU16 (x ∷ y ∷ bytes) (hx, (hy, h)) = (omega arith, registers_loop-IsU16 bytes h)
registers_loop-IsU16 _ h = tt

accepted :
    (bytes values : List ℕ)
    → data_to_registers bytes ≡ ok values
    → (length bytes ≡ 2 * (length bytes / 2)) × (registers_loop bytes ≡ values)
unfolding data_to_registers
accepted bytes values e = (ground arith, ground arith)

-- The values that `DataToRegisters` reads from bytes are uint16, and `RegistersToData` writes the
-- bytes back.
pub registers_back :
    (bytes values : List ℕ)
    → All IsByte bytes
    → data_to_registers bytes ≡ ok values
    → (registers_to_data values ≡ ok bytes) × All IsU16 values
unfolding registers_to_data
registers_back bytes values h e =
    let (even, read) = accepted bytes values e in
    (
      ap ok (ap register_bytes (sym read) ∙ register_bytes-registers_loop _ bytes even h),
      subst (All IsU16) read (registers_loop-IsU16 bytes h),
    )
