-- ===== src/SimpleHandler/Steps.antt =====
-- What `OnRead` and `OnWrite` do for a function code, field by field of a handler.
use modbusone.Base.{
  ℕ, ◌≤◌, ◌<◌, ◌≡◌, ◌≢◌, inl, inr, refl, Bool, true, false, ◌==◌, List, [], ◌∷◌, Option, some,
  length, take, take-length, length-take, Result, ok, err, Bool-cases, exception, All, IsU16, arith,
  if◌then◌else◌,
}
use modbusone.Data.{bools_to_data, data_to_bools, registers_to_data, data_to_registers}
use modbusone.Data.Bools.{bools_roundtrip}
use modbusone.Data.Registers.{registers_roundtrip}
use modbusone.FunctionCode.{
  is_bool, is_uint16, is_single, fc_read_discrete_inputs, fc_read_input_registers,
}
use modbusone.Pdu.{Pdu, get_function_code, get_address, get_request_count}
use modbusone.Pdu.Values.{request_bytes}
use modbusone.SimpleHandler.{
  SimpleHandler, Reader, Writer, check_values, read_bytes, write_values, asked, read_by, on_read,
  write_by, on_write,
}

-- The PDU is for the function code, the address and the quantity.
pub record Asks (p : Pdu) (f a q : ℕ) : Type 0 where
  pub code : get_function_code p ≡ f
  pub address : get_address p ≡ ok a
  pub count : get_request_count p ≡ ok q

-- The fields of a handler that serve a function code.
abbrev pub bools_read {ℓ} : {S : Type ℓ} → SimpleHandler S → ℕ → Option (Reader S Bool)
bools_read h f = if f == fc_read_discrete_inputs then h.read_discrete_inputs else h.read_coils

abbrev pub bools_written {ℓ} : {S : Type ℓ} → SimpleHandler S → ℕ → Option (Writer S Bool)
bools_written h f = if f == fc_read_discrete_inputs then h.write_discrete_inputs else h.write_coils

abbrev pub registers_read {ℓ} : {S : Type ℓ} → SimpleHandler S → ℕ → Option (Reader S ℕ)
registers_read h f =
    if f == fc_read_input_registers then h.read_input_registers else h.read_holding_registers

abbrev pub registers_written {ℓ} : {S : Type ℓ} → SimpleHandler S → ℕ → Option (Writer S ℕ)
registers_written h f =
    if f == fc_read_input_registers then h.write_input_registers else h.write_holding_registers

-- `checkValues` gives as many values as were asked for, the first ones where the function of the
-- user returned more, and EcServerDeviceFailure where it returned fewer.
pub check_values_lem :
    {A : Type 0} (values : List A) (count : ℕ)
    → (count ≤ length values
        → (check_values (ok values) count ≡ ok (take count values))
          × (length (take count values) ≡ count))
      × (length values < count → check_values (ok values) count ≡ err (exception 4))
unfolding check_values
check_values_lem values count = (
  λ h. (ground (arith, take-length count values), ground (arith, length-take count values)),
  λ h. ground arith,
)

asked_lem : {p : Pdu} {f a q : ℕ} → Asks p f a q → asked p ≡ ok (a, q)
unfolding asked
asked_lem h = rw (h.address, h.count) refl

pub on_read_lem {ℓ} :
    {S : Type ℓ} (h : SimpleHandler S) {p : Pdu} {f a q : ℕ} (s : S)
    → Asks p f a q
    → on_read h p s ≡ read_by h f (a, q) s
unfolding on_read
on_read_lem h s e = rw (asked_lem e, e.code) refl

pub on_write_lem {ℓ} :
    {S : Type ℓ} (h : SimpleHandler S) {p : Pdu} {f a q : ℕ} (bytes : List ℕ) (s : S)
    → Asks p f a q
    → on_write h p bytes s ≡ write_by h f bytes (a, q) s
unfolding on_write
on_write_lem h bytes s e = rw (asked_lem e, e.code) refl

pub read_by_bools {ℓ} :
    {S : Type ℓ} (h : SimpleHandler S) (f a q : ℕ) (s : S)
    → is_bool f ≡ true
    → read_by h f (a, q) s
      ≡ read_bytes (bools_read h f) (λ (v : List Bool). bools_to_data v f) a q s
unfolding is_bool read_by
read_by_bools h f a q s b = ground arith

pub write_by_bools {ℓ} :
    {S : Type ℓ} (h : SimpleHandler S) (f a q : ℕ) (bytes : List ℕ) (s : S)
    → is_bool f ≡ true
    → write_by h f bytes (a, q) s ≡ write_values (bools_written h f) (data_to_bools bytes q f) a s
unfolding is_bool write_by
write_by_bools h f a q bytes s b = ground arith

pub read_by_registers {ℓ} :
    {S : Type ℓ} (h : SimpleHandler S) (f a q : ℕ) (s : S)
    → is_uint16 f ≡ true
    → read_by h f (a, q) s ≡ read_bytes (registers_read h f) registers_to_data a q s
unfolding is_uint16 read_by
read_by_registers h f a q s b = ground arith

pub write_by_registers {ℓ} :
    {S : Type ℓ} (h : SimpleHandler S) (f a q : ℕ) (bytes : List ℕ) (s : S)
    → is_uint16 f ≡ true
    → write_by h f bytes (a, q) s
      ≡ write_values (registers_written h f) (data_to_registers bytes) a s
unfolding is_uint16 write_by
write_by_registers h f a q bytes s b = ground arith

pub single_count : {p : Pdu} {f a q : ℕ} → Asks p f a q → is_single f ≡ true → q ≡ 1
unfolding get_request_count
single_count {q = q} h s = let n = h.count in ground (arith, h.code)

coil_data :
    (values : List Bool) (q : ℕ)
    → length values ≡ 1
    → (bytes : List ℕ) × (bools_to_data values 5 ≡ ok bytes)
      × (length bytes ≡ 2)
      × (data_to_bools bytes q 5 ≡ ok values)
unfolding bools_to_data data_to_bools
coil_data (true ∷ []) q h = (_, refl, refl, refl)
coil_data (false ∷ []) q h = (_, refl, refl, refl)
coil_data _ q h = absurd (omega arith)

-- The data of Boolean values, and of registers, as a request or a reply carries it.
pub bools_data :
    (values : List Bool) (f q : ℕ)
    → is_bool f ≡ true
    → length values ≡ q
    → q ≤ 65528
    → (is_single f ≡ true → q ≡ 1)
    → (bytes : List ℕ) × (bools_to_data values f ≡ ok bytes)
      × (length bytes ≡ request_bytes f q)
      × (data_to_bools bytes q f ≡ ok values)
unfolding is_bool is_single is_uint16
bools_data values f q b n fits one = elim (Bool-cases (f == 5)) [
  | inl e ↦
      let five : f ≡ 5 = ground arith in
      let (bytes, x, y, z) = coil_data values q (ground arith) in
      (bytes, rw five x, rw five y, rw five z)
  | inr e ↦
      let (bytes, x, y, z) = bools_roundtrip values f (ground arith) (omega arith) in
      (bytes, x, ground arith, rw n at z)
]

pub registers_data :
    (values : List ℕ) (f q : ℕ)
    → is_uint16 f ≡ true
    → length values ≡ q
    → q ≢ 0
    → All IsU16 values
    → (is_single f ≡ true → q ≡ 1)
    → (bytes : List ℕ) × (registers_to_data values ≡ ok bytes)
      × (length bytes ≡ request_bytes f q)
      × (data_to_registers bytes ≡ ok values)
unfolding is_uint16 is_single
registers_data values f q b n nonempty fits one =
    let (bytes, e, m, d) = registers_roundtrip values fits in (bytes, e, ground arith, ground arith)

pub read_done {ℓ} :
    {S : Type ℓ} {A : Type 0} (r : Option (Reader S A)) (read : Reader S A)
    (encode : List A → Result (List ℕ)) (a q : ℕ) (s s' : S) (values checked : List A)
    (bytes : List ℕ)
    → r ≡ some read
    → read a q s ≡ (ok values, s')
    → check_values (ok values) q ≡ ok checked
    → encode checked ≡ ok bytes
    → read_bytes r encode a q s ≡ (ok bytes, s')
unfolding read_bytes
read_done r read encode a q s s' values checked bytes hr ran c e = rw (hr, ran, c, e) refl

pub write_done {ℓ} :
    {S : Type ℓ} {A : Type 0} (r : Option (Writer S A)) (write : Writer S A)
    (decoded : Result (List A)) (a : ℕ) (t : S) (values : List A)
    → r ≡ some write
    → decoded ≡ ok values
    → write_values r decoded a t ≡ write a values t
unfolding write_values
write_done r write decoded a t values hr e = rw (hr, e) refl
