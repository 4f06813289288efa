-- ===== src/Memory.antt =====
-- The memory of examples/memory/main.go, and the functions on it that its `SimpleHandler` has. What
-- they print, and `main` apart from them, is not modelled.
pub mod Cells
pub mod Client
pub mod Requests
pub mod Main
pub mod Served
pub mod Reads
pub mod Linked
use modbusone.Base.{
  ℕ, zero, suc, ◌+◌, ◌-◌, ◌*◌, ◌%◌, Bool, not, ltb, ◌==◌, List, [], ◌∷◌, some, if◌then◌else◌, u16,
  Result, ok, panic,
}
use modbusone.Handler.{Action}
use modbusone.Pdu.{Pdu}
use modbusone.SimpleHandler.{SimpleHandler, Reader, Writer}

-- An array of 0x10000 values. All its indices here are 16 bits wide.
abbrev pub Cells : Type 0 → Type 0
Cells A = ℕ → A

-- The variables of the program.
pub record Memory : Type 0 where
  pub discrete_inputs : Cells Bool
  pub coils : Cells Bool
  pub input_registers : Cells ℕ
  pub holding_registers : Cells ℕ

-- The values of `n` cells.
unfoldable pub cells : {A : Type 0} → Cells A → ℕ → ℕ → List A
cells m a zero = []
cells m a (suc n) = m a ∷ cells m (a + 1) n

-- The slice `array[address : address+quantity]`. The end is 16 bits wide too, and the slice panics
-- if it is below the start.
unfoldable pub slice : {A : Type 0} → Cells A → ℕ → ℕ → Result (List A)
unfolding cells
slice m a q = if ltb (u16 (a + q)) a then panic else ok (cells m a (u16 (a + q) - a))

unfoldable pub set_cell : {A : Type 0} → Cells A → ℕ → A → Cells A
set_cell m k v = λ i. if i == k then v else m i

-- The loop `array[address+uint16(i)] = v`, from the index `i` on.
unfoldable pub fill : {A : Type 0} → Cells A → ℕ → ℕ → List A → Cells A
unfolding set_cell
fill m a i [] = m
fill m a i (v ∷ values) = fill (set_cell m (u16 (a + u16 i)) v) a (i + 1) values

-- The fields of the handler in `main`.
abbrev pub reads : {A : Type 0} → (Memory → Cells A) → Reader Memory A
reads field a q s = (slice (field s) a q, s)

abbrev pub writes :
    {A : Type 0} → (Memory → Cells A) → (Memory → Cells A → Memory) → Writer Memory A
writes field change a values s = (ok tt, change s (fill (field s) a 0 values))

unfoldable pub handler : SimpleHandler Memory
unfolding slice fill
handler = record {
  read_discrete_inputs = some (reads (λ s. s.discrete_inputs));
  write_discrete_inputs =
      some (writes (λ s. s.discrete_inputs) (λ s m. record s { discrete_inputs = m }));
  read_coils = some (reads (λ s. s.coils));
  write_coils = some (writes (λ s. s.coils) (λ s m. record s { coils = m }));
  read_input_registers = some (reads (λ s. s.input_registers));
  write_input_registers =
      some (writes (λ s. s.input_registers) (λ s m. record s { input_registers = m }));
  read_holding_registers = some (reads (λ s. s.holding_registers));
  write_holding_registers =
      some (writes (λ s. s.holding_registers) (λ s m. record s { holding_registers = m }));
  on_error_imp = some (λ req reply s. s);
}

-- `fillAm3`
unfoldable pub fill_am3 : Memory
fill_am3 = record {
  discrete_inputs = λ i. i % 3 == 0;
  coils = λ i. not (i % 3 == 0);
  input_registers = λ i. u16 (i * 3);
  holding_registers = λ i. u16 (0xFFFF - i);
}
