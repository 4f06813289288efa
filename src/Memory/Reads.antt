-- ===== src/Memory/Reads.antt =====
-- How the memory of examples/memory/main.go answers the reads of a client.
use modbusone.Base.{
  ℕ, suc, zero, ◌+◌, ◌-◌, ◌*◌, ◌/◌, ◌≤◌, ◌≡◌, ◌≢◌, ◌∙◌, refl, ap, inl, inr, Bool, true, false,
  not-ltb, Bool-cases, List, [], length, take-length, Option, some, Result, ok, arith, if-holds,
  ◌==◌, u16,
}
use modbusone.Data.{bools_to_data, registers_to_data, register_bytes}
use modbusone.Data.Bools.{bools_roundtrip}
use modbusone.Data.Registers.{length-register_bytes}
use modbusone.FunctionCode.{is_bool, is_uint16, is_write_to_server}
use modbusone.FunctionCode.Limits.{data_bytes, Code, number, read_coils, write_single_coil}
use modbusone.Memory.{Memory, Cells, cells, slice, handler, reads}
use modbusone.Memory.Requests.{Sent-Asks, Sent-fits}
use modbusone.Memory.Served.{few}
use modbusone.OverSize.{OverSize}
use modbusone.Pdu.{Pdu}
use modbusone.Pdu.Sent.{Sent, Sent-HasForm}
use modbusone.SimpleHandler.{Reader, on_read, read_bytes}
use modbusone.SimpleHandler.Steps.{
  check_values_lem, on_read_lem, read_by_bools, read_by_registers, read_done, registers_read,
  bools_read,
}

length-cells : {A : Type 0} (m : Cells A) (a n : ℕ) → length (cells m a n) ≡ n
unfolding cells
length-cells m a zero = refl
length-cells m a (suc n) = ap suc (length-cells m (a + 1) n)

-- A range whose address and quantity add up to 0xFFFF at most can be read.
slice-ok :
    {A : Type 0} (m : Cells A) (a q : ℕ)
    → a + q ≤ 65535
    → (values : List A) × (slice m a q ≡ ok values) × (length values ≡ q)
unfolding slice
slice-ok m a q fits =
    let end : u16 (a + q) ≡ a + q = omega arith in
    let count : (a + q) - a ≡ q = omega arith in
    (cells m a q, rw (end, not-ltb (a + q) a (omega arith), count) refl, length-cells m a q)

module _ (o : OverSize) {f a q : ℕ} {p : Pdu} (sent : Sent f a q [] p) (s : Memory) where
  -- A read of one kind: what the function of the handler gives, and its data.
  read_field :
      {A : Type 0} (r : Option (Reader Memory A)) (field : Memory → Cells A)
      (encode : List A → Result (List ℕ))
      → r ≡ some (reads field)
      → ((values : List A)
          → length values ≡ q
          → (bytes : List ℕ) × (encode values ≡ ok bytes) × (length bytes ≡ data_bytes f q))
      → (bytes : List ℕ) × (read_bytes r encode a q s ≡ (ok bytes, s))
        × (length bytes ≡ data_bytes f q)
  read_field r field encode is encodes =
      let (values, sliced, n) = slice-ok (field s) a q (Sent-fits sent) in
      let (bytes, made, m) = encodes values n in
      let (checked, _) = (check_values_lem values q).0 (omega arith) in
      (
        bytes,
        read_done r (reads field) encode a q s s values values bytes is
            (ap (λ (x : Result (List _)). (x, s)) sliced)
            (checked ∙ ap ok (take-length q values (omega arith))) made,
        m,
      )

registers_field :
    (f : ℕ) → (field : Memory → Cells ℕ) × (registers_read handler f ≡ some (reads field))
unfolding handler
registers_field f =
    if-holds
      (λ (r : Option (Reader Memory ℕ)). (field : Memory → Cells ℕ) × (r ≡ some (reads field)))
      (f == 4) _ _ (λ input. ((λ s. s.input_registers), refl))
      (λ holding. ((λ s. s.holding_registers), refl))

bools_field : (f : ℕ) → (field : Memory → Cells Bool) × (bools_read handler f ≡ some (reads field))
unfolding handler
bools_field f =
    if-holds
      (λ (r : Option (Reader Memory Bool)).
        (field : Memory → Cells Bool) × (r ≡ some (reads field)))
      (f == 2) _ _ (λ inputs. ((λ s. s.discrete_inputs), refl)) (λ coils. ((λ s. s.coils), refl))

bool_code : (c : Code) → is_uint16 (number c) ≡ false → is_bool (number c) ≡ true
unfolding is_uint16 is_bool
bool_code read_coils h = refl
bool_code write_single_coil h = refl
bool_code _ h = ground arith

single_writes : {f : ℕ} → f ≡ 5 → is_write_to_server f ≢ false
unfolding is_write_to_server
single_writes h e = ground arith

-- The memory answers every read that a client sends, and stays as it is.
pub memory_read :
    (o : OverSize) {f a q : ℕ} {p : Pdu} (sent : Sent f a q [] p) (s : Memory)
    → is_write_to_server f ≡ false
    → (bytes : List ℕ) × (on_read handler p s ≡ (ok bytes, s)) × (length bytes ≡ data_bytes f q)
memory_read o {f} {a} {q} {p} sent s reads_only = elim (Bool-cases (is_uint16 f)) [
  | inl wide ↦
      let (field, is) = registers_field f in
      let (bytes, run, n) =
        read_field o sent s (registers_read handler f) field registers_to_data is λ values m. (
          register_bytes values,
          unfold registers_to_data in refl,
          rw wide (length-register_bytes values ∙ ap (λ (k : ℕ). 2 * k) m),
        ) in
      (
        bytes,
        on_read_lem handler s (Sent-Asks o sent) ∙ read_by_registers handler f a q s wide ∙ run,
        n,
      )
  | inr narrow ↦
      let form = Sent-HasForm sent in
      let bits : is_bool f ≡ true =
        rw form.is_code (bool_code form.code (rw form.is_code at narrow)) in
      let not_single : f ≢ 5 = λ single. single_writes single reads_only in
      let few_values : q ≤ 65528 =
        omega (arith, form.requestable.not_too_many, few (number form.code)) in
      let (field, is) = bools_field f in
      let (bytes, run, n) =
        read_field o sent s (bools_read handler f) field (λ (v : List Bool). bools_to_data v f) is
          λ values m.
            let (packed, made, k, _) = bools_roundtrip values f not_single (omega arith) in
            (packed, made, rw narrow (k ∙ ap (λ (x : ℕ). (x + 7) / 8) m)) in
      (
        bytes,
        on_read_lem handler s (Sent-Asks o sent) ∙ read_by_bools handler f a q s bits ∙ run,
        n,
      )
]
