-- ===== src/SimpleHandler/Transfer.antt =====
-- Values on their way from the handler of one side, through `OnRead`, to that of the other side,
-- through `OnWrite`.
use modbusone.Base.{ℕ, ◌≤◌, ◌≡◌, ◌≢◌, ◌∙◌, Bool, true, List, some, length, take, ok, All, IsU16}
use modbusone.FunctionCode.{is_bool, is_uint16}
use modbusone.Pdu.{Pdu}
use modbusone.Pdu.Values.{request_bytes}
use modbusone.SimpleHandler.{SimpleHandler, Reader, Writer, on_read, on_write}
use modbusone.SimpleHandler.Steps.{
  bools_read, bools_written, registers_read, registers_written, check_values_lem, on_read_lem,
  on_write_lem, read_by_bools, write_by_bools, read_by_registers, write_by_registers, single_count,
  bools_data, registers_data, read_done, write_done, Asks,
}

module _ {ℓ κ} {S : Type ℓ} {T : Type κ} (from : SimpleHandler S) (to : SimpleHandler T) (s s' : S)
    (t : T) {p w : Pdu} {f a q : ℕ} (asks : Asks p f a q) (carries : Asks w f a q) where
  -- The `q` first Boolean values that the sender's function returns for `p`, which asks for `q` of
  -- them, at most 65528, reach the receiver's function for `w`, which has the same function code,
  -- address and quantity, as they were, if both handlers have the function for the code. Their data
  -- is as long as `MakeWriteRequest` takes it.
  pub bools_transfer :
      (read : Reader S Bool) (write : Writer T Bool) (values : List Bool)
      → is_bool f ≡ true
      → q ≤ 65528
      → bools_read from f ≡ some read
      → bools_written to f ≡ some write
      → read a q s ≡ (ok values, s')
      → q ≤ length values
      → (bytes : List ℕ) × (on_read from p s ≡ (ok bytes, s'))
        × (length bytes ≡ request_bytes f q)
        × (on_write to w bytes t ≡ write a (take q values) t)
  bools_transfer read write values b fits hr hw ran enough =
      let (checked, n) = (check_values_lem values q).0 enough in
      let (bytes, x, y, z) = bools_data (take q values) f q b n fits (single_count asks) in
      (
        bytes,
        on_read_lem from s asks
            ∙ read_by_bools from f a q s b
            ∙ read_done _ read _ a q s s' values _ bytes hr ran checked x,
        y,
        on_write_lem to bytes t carries
            ∙ write_by_bools to f a q bytes t b
            ∙ write_done _ write _ a t _ hw z,
      )

  -- The `q` first registers that the sender's function returns for `p`, which asks for `q` of them,
  -- at least one, reach the receiver's function for `w`, which has the same function code, address
  -- and quantity, as they were, if the `q` first are 16-bit numbers and both handlers have the
  -- function for the code. Their data is as long as `MakeWriteRequest` takes it.
  pub registers_transfer :
      (read : Reader S ℕ) (write : Writer T ℕ) (values : List ℕ)
      → is_uint16 f ≡ true
      → q ≢ 0
      → registers_read from f ≡ some read
      → registers_written to f ≡ some write
      → read a q s ≡ (ok values, s')
      → q ≤ length values
      → All IsU16 (take q values)
      → (bytes : List ℕ) × (on_read from p s ≡ (ok bytes, s'))
        × (length bytes ≡ request_bytes f q)
        × (on_write to w bytes t ≡ write a (take q values) t)
  registers_transfer read write values b nonempty hr hw ran enough u =
      let (checked, n) = (check_values_lem values q).0 enough in
      let (bytes, x, y, z) =
        registers_data (take q values) f q b n nonempty u (single_count asks) in
      (
        bytes,
        on_read_lem from s asks
            ∙ read_by_registers from f a q s b
            ∙ read_done _ read _ a q s s' values _ bytes hr ran checked x,
        y,
        on_write_lem to bytes t carries
            ∙ write_by_registers to f a q bytes t b
            ∙ write_done _ write _ a t _ hw z,
      )
