-- ===== src/Memory/Served.antt =====
-- The server of examples/memory/main.go on its memory: what is written over the line is read back.
use modbusone.Base.{
  ℕ, ◌+◌, ◌≤◌, ◌≡◌, ◌≢◌, ◌∙◌, refl, sym, Bool, true, List, [], ◌∷◌, ◌++◌, length, All, IsU16, ok,
  ok-injective, arith,
}
use modbusone.Data.{bools_to_data, data_to_bools, registers_to_data, data_to_registers}
use modbusone.FunctionCode.{
  is_bool, is_uint16, is_write_to_server, max_per_packet, fc_read_coils, fc_read_holding_registers,
}
use modbusone.Memory.{Memory, Cells, slice, fill}
use modbusone.Memory.Cells.{slice-fill}
use modbusone.Memory.Requests.{
  Sent-Asks, Sent-fits, with_registers, with_coils, registers-on_write, coils-on_write,
  registers-on_read, coils-on_read, after_two, two_requests,
}
use modbusone.OverSize.{OverSize}
use modbusone.Pdu.{Pdu, make_read_reply, make_write_reply}
use modbusone.Pdu.Sent.{Sent, Sent-HasForm}
use modbusone.Rtu.{Rtu, make_rtu}
use modbusone.RtuServer.{Server}
use modbusone.SimpleHandler.Steps.{single_count, registers_data, bools_data}

filled :
    {A : Type 0} (m : Cells A) (a q : ℕ) (values : List A)
    → length values ≡ q
    → a + q ≤ 65535
    → slice (fill m a 0 values) a q ≡ ok values
filled m a q values n fits = rw n at ((slice-fill m a 65535 values (omega arith) (omega arith)).0)

pub few : (f : ℕ) → max_per_packet f ≤ 65528
unfolding max_per_packet
few f = ground arith

-- The server of the example, whose slave id is not 0, gets, at that slave id, a request that writes
-- one or more holding registers, of 16 bits each, and in the next round one that reads the same
-- registers. Both are requests that `MakeRequestHeader` makes, the first with the values by
-- `MakeWriteRequest`, so that the address and the quantity add up to 0xFFFF at most, and the
-- register 0xFFFF is not among them. The server writes two frames: it acknowledges the first
-- request, and its reply to the second carries exactly the bytes of the registers that were
-- written, whatever was in the memory.
pub served_registers :
    (o : OverSize) (accepts : List Rtu → Rtu → Bool) (id : ℕ) (s : Server Memory) (f a q : ℕ)
    (values bytes : List ℕ) (w p : Pdu)
    → id ≢ 0
    → is_uint16 f ≡ true
    → is_write_to_server f ≡ true
    → length values ≡ q
    → All IsU16 values
    → registers_to_data values ≡ ok bytes
    → Sent f a q bytes w
    → Sent fc_read_holding_registers a q [] p
    → (s' : Server Memory) × (after_two o accepts id s (make_rtu id w) (make_rtu id p) ≡ ok s')
      × (s'.written
          ≡ s.written
            ++ (make_rtu id (make_write_reply w) ∷ make_rtu id (make_read_reply p bytes) ∷ []))
served_registers o accepts id s f a q values bytes w p one kind writes n u made sent_w sent_p =
    let m = with_registers s.handled a values in
    let asks = Sent-Asks o sent_w in
    let nonempty = (Sent-HasForm sent_w).requestable.some_values in
    let (bytes', made', _, read) =
      registers_data values f q kind n nonempty u (single_count asks) in
    let same : bytes' ≡ bytes = ok-injective (sym made' ∙ made) in
    let read_back : data_to_registers bytes ≡ ok values = rw same at read in
    let (s', run, written, _) =
      two_requests o accepts id s f fc_read_holding_registers a q bytes bytes m one writes
        (unfold is_write_to_server in refl) sent_w sent_p
        (registers-on_write o a q s.handled f bytes values sent_w writes kind read_back)
        (registers-on_read o a q m values bytes sent_p n
          (filled s.handled.holding_registers a q values n (Sent-fits sent_w)) made) in
    (s', run, written)

-- The server of the example gets, at its own slave id, a request that writes coils, also a single one,
-- whose data differs from that of other writes, and in the next round one that reads the same coils.
-- Both are requests that `MakeRequestHeader` and `MakeWriteRequest` make.
-- It writes two frames: it acknowledges the first request, and its reply to the second carries the
-- bytes that `BoolsToData` makes of the written values for the read.
pub served_coils :
    (o : OverSize) (accepts : List Rtu → Rtu → Bool) (id : ℕ) (s : Server Memory) (f a q : ℕ)
    (values : List Bool) (bytes back : List ℕ) (w p : Pdu)
    → id ≢ 0
    → is_bool f ≡ true
    → is_write_to_server f ≡ true
    → length values ≡ q
    → bools_to_data values f ≡ ok bytes
    → bools_to_data values fc_read_coils ≡ ok back
    → Sent f a q bytes w
    → Sent fc_read_coils a q [] p
    → (s' : Server Memory) × (after_two o accepts id s (make_rtu id w) (make_rtu id p) ≡ ok s')
      × (s'.written
          ≡ s.written
            ++ (make_rtu id (make_write_reply w) ∷ make_rtu id (make_read_reply p back) ∷ []))
served_coils o accepts id s f a q values bytes back w p one kind writes n made made_back sent_w
      sent_p =
    let m = with_coils s.handled a values in
    let fits = (Sent-HasForm sent_p).requestable.not_too_many in
    let max_few : q ≤ 65528 = omega (arith, few _, fits) in
    let (bytes', made', _, read) =
      bools_data values f q kind n max_few (single_count (Sent-Asks o sent_w)) in
    let same : bytes' ≡ bytes = ok-injective (sym made' ∙ made) in
    let read_back : data_to_bools bytes q f ≡ ok values = rw same at read in
    let (s', run, written, _) =
      two_requests o accepts id s f fc_read_coils a q bytes back m one writes
        (unfold is_write_to_server in refl) sent_w sent_p
        (coils-on_write o a q s.handled f bytes values sent_w writes kind read_back)
        (coils-on_read o a q m values back sent_p n
          (filled s.handled.coils a q values n (Sent-fits sent_w)) made_back) in
    (s', run, written)
