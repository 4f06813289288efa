-- ===== src/Memory/Requests.antt =====
-- What the handler of examples/memory/main.go does in a server, one request after the other.
use modbusone.Base.{
  ℕ, ◌+◌, ◌≤◌, ◌≡◌, ◌≢◌, ◌∙◌, refl, ap, inr, Bool, true, false, List, [], ◌∷◌, ◌++◌, length,
  take-length, some, Result, ok, ◌>>=◌, arith, append_assoc, ne→==-false, if-holds, ◌==◌,
}
use modbusone.Data.{bools_to_data, data_to_bools, registers_to_data, data_to_registers}
use modbusone.FunctionCode.{
  is_bool, is_uint16, is_write_to_server, fc_read_coils, fc_read_holding_registers,
}
use modbusone.Memory.{Memory, slice, fill, handler, reads, writes}
use modbusone.OverSize.{OverSize}
use modbusone.Pdu.{Pdu, make_read_reply, make_write_reply}
use modbusone.Pdu.Sent.{Sent, Sent-Reads, Sent-HasForm}
use modbusone.Rtu.{Rtu, make_rtu}
use modbusone.RtuServer.{Server, wp, serve_packet, after_call}
use modbusone.RtuServer.Exchange.{serve_packet-read, serve_packet-write}
use modbusone.SimpleHandler.{Writer, on_read, on_write, protocol}
use modbusone.SimpleHandler.Steps.{
  Asks, check_values_lem, on_read_lem, on_write_lem, read_by_bools, write_by_bools,
  read_by_registers, write_by_registers, read_done, write_done, registers_read, registers_written,
  bools_read, bools_written,
}

pub Sent-Asks :
    (o : OverSize) {f a q : ℕ} {values : List ℕ} {w : Pdu} → Sent f a q values w → Asks w f a q
Sent-Asks o sent =
    let k = Sent-Reads o sent in
    record { code = k.reads_code; address = k.reads_address; count = k.reads_count }

abbrev pub with_registers : Memory → ℕ → List ℕ → Memory
with_registers s a values = record s { holding_registers = fill s.holding_registers a 0 values }

abbrev pub with_coils : Memory → ℕ → List Bool → Memory
with_coils s a values = record s { coils = fill s.coils a 0 values }

abbrev write_registers : Writer Memory ℕ
write_registers = writes (λ s. s.holding_registers) (λ s m. record s { holding_registers = m })

abbrev write_coils : Writer Memory Bool
write_coils = writes (λ s. s.coils) (λ s m. record s { coils = m })

-- The fields of the handler that a code that writes leads to.
registers_field :
    (f : ℕ) → is_write_to_server f ≡ true → registers_written handler f ≡ some write_registers
unfolding handler is_write_to_server
registers_field f h = ground arith

coils_field : (f : ℕ) → is_write_to_server f ≡ true → bools_written handler f ≡ some write_coils
unfolding handler is_write_to_server
coils_field f h = ground arith

-- A write with the code `f`, and what the next read finds, with the memory `s` in front.
module _ (o : OverSize) (a q : ℕ) (s : Memory) where
  pub registers-on_write :
      (f : ℕ) (bytes values : List ℕ) {w : Pdu}
      → Sent f a q bytes w
      → is_write_to_server f ≡ true
      → is_uint16 f ≡ true
      → data_to_registers bytes ≡ ok values
      → on_write handler w bytes s ≡ (ok tt, with_registers s a values)
  registers-on_write f bytes values sent wr kind read =
      on_write_lem handler bytes s (Sent-Asks o sent)
      ∙ write_by_registers handler f a q bytes s kind
      ∙ write_done (registers_written handler f) write_registers (data_to_registers bytes) a s
          values (registers_field f wr) read

  pub coils-on_write :
      (f : ℕ) (bytes : List ℕ) (values : List Bool) {w : Pdu}
      → Sent f a q bytes w
      → is_write_to_server f ≡ true
      → is_bool f ≡ true
      → data_to_bools bytes q f ≡ ok values
      → on_write handler w bytes s ≡ (ok tt, with_coils s a values)
  coils-on_write f bytes values sent wr kind read =
      on_write_lem handler bytes s (Sent-Asks o sent)
      ∙ write_by_bools handler f a q bytes s kind
      ∙ write_done (bools_written handler f) write_coils (data_to_bools bytes q f) a s values
          (coils_field f wr) read

  pub registers-on_read :
      (values bytes : List ℕ) {p : Pdu}
      → Sent fc_read_holding_registers a q [] p
      → length values ≡ q
      → slice s.holding_registers a q ≡ ok values
      → registers_to_data values ≡ ok bytes
      → on_read handler p s ≡ (ok bytes, s)
  unfolding handler
  registers-on_read values bytes sent n sliced made =
      let (checked, _) = (check_values_lem values q).0 (omega arith) in
      on_read_lem handler s (Sent-Asks o sent)
      ∙ read_by_registers handler fc_read_holding_registers a q s (unfold is_uint16 in refl)
      ∙ read_done (registers_read handler fc_read_holding_registers)
          (reads (λ (s : Memory). s.holding_registers)) registers_to_data a q s s values values
          bytes refl (ap (λ (r : Result (List ℕ)). (r, s)) sliced)
          (checked ∙ ap ok (take-length q values (omega arith))) made

  pub coils-on_read :
      (values : List Bool) (bytes : List ℕ) {p : Pdu}
      → Sent fc_read_coils a q [] p
      → length values ≡ q
      → slice s.coils a q ≡ ok values
      → bools_to_data values fc_read_coils ≡ ok bytes
      → on_read handler p s ≡ (ok bytes, s)
  unfolding handler
  coils-on_read values bytes sent n sliced made =
      let (checked, _) = (check_values_lem values q).0 (omega arith) in
      on_read_lem handler s (Sent-Asks o sent)
      ∙ read_by_bools handler fc_read_coils a q s (unfold is_bool in refl)
      ∙ read_done (bools_read handler fc_read_coils) (reads (λ (s : Memory). s.coils))
          (λ (v : List Bool). bools_to_data v fc_read_coils) a q s s values values bytes refl
          (ap (λ (r : Result (List Bool)). (r, s)) sliced)
          (checked ∙ ap ok (take-length q values (omega arith))) made

pub Sent-fits : {f a q : ℕ} {values : List ℕ} {w : Pdu} → Sent f a q values w → a + q ≤ 65535
Sent-fits sent = let h = (Sent-HasForm sent).requestable in omega (arith, h.in_range)

-- The two frames, one behind the other, and what is written for them.
module _ (o : OverSize) (accepts : List Rtu → Rtu → Bool) (id : ℕ) (s : Server Memory) where
  abbrev pub after_two : Rtu → Rtu → Result (Server Memory)
  after_two x y =
      serve_packet o accepts (protocol handler) id x s
      >>= serve_packet o accepts (protocol handler) id y

  wp-written :
      (p : Pdu) (t : Server Memory)
      → id ≢ 0
      → (wp accepts p id t).written ≡ t.written ++ (make_rtu id p ∷ [])
  unfolding wp
  wp-written p t one = rw (ne→==-false id 0 one) refl

  wp-handled : (p : Pdu) (t : Server Memory) → (wp accepts p id t).handled ≡ t.handled
  unfolding wp
  wp-handled p t =
      if-holds (λ (u : Server Memory). u.handled ≡ t.handled) (id == 0) t _ (λ all. refl)
        (λ one. refl)

  pub two_requests :
      (f g a q : ℕ) (bytes back : List ℕ) (m : Memory) {w p : Pdu}
      → id ≢ 0
      → is_write_to_server f ≡ true
      → is_write_to_server g ≡ false
      → Sent f a q bytes w
      → Sent g a q [] p
      → on_write handler w bytes s.handled ≡ (ok tt, m)
      → on_read handler p m ≡ (ok back, m)
      → (s' : Server Memory) × (after_two (make_rtu id w) (make_rtu id p) ≡ ok s')
        × (s'.written
            ≡ s.written
              ++ (make_rtu id (make_write_reply w) ∷ make_rtu id (make_read_reply p back) ∷ []))
        × (s'.handled ≡ m)
  two_requests f g a q bytes back m {w} {p} one writes reads_only sent_w sent_p ran_w ran_p =
      let t = wp accepts (make_write_reply w) id (after_call s m) in
      let h = protocol handler in
      let kept : t.handled ≡ m = wp-handled (make_write_reply w) (after_call s m) in
      let first = serve_packet-write o accepts h id id s (inr refl) sent_w m writes ran_w in
      let second =
        serve_packet-read o accepts h id id t (inr refl) sent_p back m reads_only (rw kept ran_p) in
      (
        wp accepts (make_read_reply p back) id (after_call t m),
        ap (λ (r : Result (Server Memory)). r >>= serve_packet o accepts h id (make_rtu id p)) first
            ∙ second,
        wp-written (make_read_reply p back) (after_call t m) one
            ∙ ap (λ (x : List Rtu). x ++ (make_rtu id (make_read_reply p back) ∷ []))
                (wp-written (make_write_reply w) (after_call s m) one)
            ∙ append_assoc s.written (make_rtu id (make_write_reply w) ∷ []) _,
        wp-handled (make_read_reply p back) (after_call t m),
      )
