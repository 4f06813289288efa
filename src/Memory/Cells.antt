-- ===== src/Memory/Cells.antt =====
-- Reading and writing the cells.
use modbusone.Base.{
  ℕ, ◌+◌, ◌-◌, ◌≤◌, ◌<◌, ◌≡◌, ◌≢◌, ◌↔◌, ◌⊎◌, ◌∙◌, inl, refl, ap, ap₂, not-ltb, ne→==-false, ==_refl,
  List, [], ◌∷◌, length, u16, ok, panic, arith,
}
use modbusone.Memory.{Cells, cells, slice, set_cell, fill}

module _ {A : Type 0} where
  -- Cells below and behind those that are written keep their values.
  fill-other :
      (m : Cells A) (a i k : ℕ) (values : List A)
      → a + i + length values ≤ 65536
      → (k < a + i) ⊎ (a + i + length values ≤ k)
      → fill m a i values k ≡ m k
  unfolding fill set_cell
  fill-other m a i k [] fits outside = refl
  fill-other m a i k (v ∷ values) fits outside =
      let here : u16 (a + u16 i) ≡ a + i = omega arith in
      let other : k ≢ u16 (a + u16 i) = λ e. omega arith in
      fill-other (set_cell m (u16 (a + u16 i)) v) a (i + 1) k values (omega arith) (ground arith)
      ∙ rw (ne→==-false k (u16 (a + u16 i)) other) refl

  set_here : (m : Cells A) (b k : ℕ) (v : A) → b ≡ k → set_cell m k v b ≡ v
  unfolding set_cell
  set_here m b k v e = rw (e, ==_refl k) refl

  cells-fill :
      (m : Cells A) (a i b : ℕ) (values : List A)
      → b ≡ a + i
      → a + i + length values ≤ 65536
      → cells (fill m a i values) b (length values) ≡ values
  unfolding fill cells set_cell
  cells-fill m a i b [] at fits = refl
  cells-fill m a i b (v ∷ values) at fits =
      let here : b ≡ u16 (a + u16 i) = omega arith in
      let m' = set_cell m (u16 (a + u16 i)) v in
      let first : fill m' a (i + 1) values b ≡ v =
        fill-other m' a (i + 1) b values (omega arith) (inl (omega arith))
        ∙ set_here m b (u16 (a + u16 i)) v here in
      ap₂ (λ (x : A) (xs : List A). x ∷ xs) first
        (cells-fill m' a (i + 1) (b + 1) values (omega arith) (omega arith))

  -- The functions of the handler: of what is written from an address on, up to 0xFFFF at most, the
  -- slice from that address on with as many values gives back exactly the values, and a cell `k`
  -- in front of them or behind them keeps its value.
  pub slice-fill :
      (m : Cells A) (a k : ℕ) (values : List A)
      → a + length values ≤ 65535
      → (k < a) ⊎ (a + length values ≤ k)
      → (slice (fill m a 0 values) a (length values) ≡ ok values) × (fill m a 0 values k ≡ m k)
  unfolding slice
  slice-fill m a k values fits outside =
      let end : u16 (a + length values) ≡ a + length values = omega arith in
      let count : (a + length values) - a ≡ length values = omega arith in
      (
        rw (end, not-ltb (a + length values) a (omega arith), count)
            (ap (λ (xs : List A). ok xs) (cells-fill m a 0 a values (omega arith) (omega arith))),
        fill-other m a 0 k values (omega arith) (ground arith),
      )

  -- The slice of an address and a quantity, of 16 bits each, panics exactly if the two reach 0x10000
  -- together, as they do for the last cell alone.
  pub slice-panics :
      (m : Cells A) (a q : ℕ) → a < 65536 → q < 65536 → (slice m a q ≡ panic) ↔ (65536 ≤ a + q)
  unfolding slice
  slice-panics m a q low few = (λ e. ground arith, λ high. ground arith)
