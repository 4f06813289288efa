-- ===== src/PacketSize/Framing.antt =====
-- The inferred sizes are those of the packets that the package makes.
use modbusone.Base.{
  ℕ, ◌+◌, ◌≤◌, ◌<◌, ◌≡◌, ◌∙◌, ap, sym, true, false, List, [], ◌∷◌, ◌++◌, length, length-append,
  append_assoc, arith,
}
use modbusone.Crc
use modbusone.Crc.Frame.{length-sum}
use modbusone.FunctionCode.{
  is_single, is_write_to_server, is_uint16, max_per_packet, valid, separate_error,
}
use modbusone.FunctionCode.Limits.{Code, number, read_coils}
use modbusone.Minmax
use modbusone.OverSize.{OverSize, get_max_pdu_size, max_pdu_size}
use modbusone.Pdu.{
  Pdu, get_function_code, make_read_reply, make_write_reply, exception_reply_packet,
}
use modbusone.Pdu.Header.{IsRequestable, header_of}
use modbusone.Pdu.Sent.{Sent, Sent-HasForm, sent_bytes}
use modbusone.PacketSize.{over_size, get_pdu_size_from_header, get_rtu_size_from_header}
use modbusone.Rtu.{make_rtu}

request_size :
    (o : OverSize) (c : Code) (a q : ℕ) (values rest : List ℕ)
    → IsRequestable (number c) a q
    → length values ≡ sent_bytes (number c) q
    → (get_pdu_size_from_header o (header_of c a q ++ (values ++ rest)) false
        ≡ length (header_of c a q) + length values)
      × (length (header_of c a q) + length values ≤ max_pdu_size)
unfolding get_pdu_size_from_header over_size get_max_pdu_size Minmax.min Minmax.max
    is_write_to_server is_single is_uint16 max_per_packet valid separate_error
request_size o read_coils a q values rest r n = ground (arith, length-append values rest)
request_size o _ a q values rest r n = ground (arith, length-append values rest)

-- The size that a server infers from a request, with anything behind it, is the request's length,
-- which is at most `MaxPDUSize`. That holds for every request that a client sends, and with any
-- over-size settings.
pub Sent-size :
    (o : OverSize) {f a q : ℕ} {values : List ℕ} {w : Pdu} (rest : List ℕ)
    → Sent f a q values w
    → (get_pdu_size_from_header o (w ++ rest) false ≡ length w) × (length w ≤ max_pdu_size)
Sent-size o {f} {a} {q} {values} {w} rest s =
    let h = Sent-HasForm s in
    let (size, fits) = request_size o h.code a q values rest h.requestable h.carried in
    let n : length w ≡ length (header_of h.code a q) + length values =
      ap length h.form ∙ length-append (header_of h.code a q) values in
    let at = λ (t : Pdu). get_pdu_size_from_header o (t ++ rest) false in
    (
      ap at h.form
          ∙ ap (λ (t : List ℕ). get_pdu_size_from_header o t false)
              (append_assoc (header_of h.code a q) values rest)
          ∙ size
          ∙ sym n,
      omega arith,
    )

framed :
    (o : OverSize) (id : ℕ) (w : Pdu) (x y : ℕ)
    → get_pdu_size_from_header o (w ++ (x ∷ y ∷ [])) false ≡ length w
    → get_rtu_size_from_header o (id ∷ (w ++ (x ∷ y ∷ []))) false ≡ length w + 3
unfolding get_rtu_size_from_header
framed o id w x y h = ground (arith, length-append w (x ∷ y ∷ []))

-- Of the frame that `MakeRTU` makes of a request that a client sends, for any slave id,
-- `GetRTUSizeFromHeader` infers the length on the server's side.
pub rtu_request_size :
    (o : OverSize) (id : ℕ) {f a q : ℕ} {values : List ℕ} {w : Pdu}
    → Sent f a q values w
    → get_rtu_size_from_header o (make_rtu id w) false ≡ length (make_rtu id w)
rtu_request_size o id {w = w} s =
    let n : length (make_rtu id w) ≡ length w + 3 =
      unfold make_rtu in omega (arith, length-sum (id ∷ w)) in
    unfold make_rtu Crc.sum in framed o id w _ _ (Sent-size o _ s).0 ∙ sym n

-- The bytes of the data of a read reply.
read_reply_size :
    (o : OverSize) (c : Code) (p values rest : List ℕ)
    → is_write_to_server (number c) ≡ false
    → length values < 256
    → get_pdu_size_from_header o (make_read_reply (number c ∷ p) values ++ rest) true
      ≡ length (make_read_reply (number c ∷ p) values)
unfolding get_pdu_size_from_header make_read_reply get_function_code is_write_to_server valid
    separate_error
read_reply_size o read_coils p values rest h hi = ground arith
read_reply_size o _ p values rest h hi = ground arith

write_reply_size :
    (o : OverSize) (c : Code) (a q : ℕ) (values rest : List ℕ)
    → is_write_to_server (number c) ≡ true
    → length values ≡ sent_bytes (number c) q
    → (get_pdu_size_from_header o (make_write_reply (header_of c a q ++ values) ++ rest) true ≡ 5)
      × (length (make_write_reply (header_of c a q ++ values)) ≡ 5)
unfolding get_pdu_size_from_header make_write_reply is_write_to_server valid separate_error
    is_single
write_reply_size o read_coils a q values rest h n = cc
write_reply_size o _ a q values rest h n = ground (arith, length-append values rest)

exception_size :
    (o : OverSize) (c : Code) (p rest : List ℕ) (e : ℕ)
    → get_pdu_size_from_header o (exception_reply_packet (number c ∷ p) e ++ rest) true ≡ 2
unfolding get_pdu_size_from_header exception_reply_packet get_function_code separate_error
exception_size o read_coils p rest e = ground arith
exception_size o _ p rest e = ground arith

-- The size that a client infers from the data reply to a read that it sent, with anything behind it,
-- is the reply's length, if there are at most 255 bytes of data.
pub Sent-read_reply_size :
    (o : OverSize) {f a q : ℕ} {values : List ℕ} {w : Pdu} (replied rest : List ℕ)
    → Sent f a q values w
    → is_write_to_server f ≡ false
    → length replied < 256
    → get_pdu_size_from_header o (make_read_reply w replied ++ rest) true
      ≡ length (make_read_reply w replied)
Sent-read_reply_size o replied rest s r n =
    let h = Sent-HasForm s in
    rw h.form (read_reply_size o h.code _ replied rest (rw h.is_code at r) n)

-- The size that a client infers from the acknowledgement of a write that it sent, with anything
-- behind it, is the acknowledgement's length.
pub Sent-write_reply_size :
    (o : OverSize) {f a q : ℕ} {values : List ℕ} {w : Pdu} (rest : List ℕ)
    → Sent f a q values w
    → is_write_to_server f ≡ true
    → get_pdu_size_from_header o (make_write_reply w ++ rest) true ≡ length (make_write_reply w)
Sent-write_reply_size o {f} {a} {q} {values} {w} rest s r =
    let h = Sent-HasForm s in
    let (size, five) = write_reply_size o h.code a q values rest (rw h.is_code at r) h.carried in
    rw h.form (size ∙ sym five)

-- The size that a client infers from an exception reply to a request that it sent, with anything
-- behind it, is the length of that reply.
pub Sent-exception_size :
    (o : OverSize) {f a q : ℕ} {values : List ℕ} {w : Pdu} (rest : List ℕ) (e : ℕ)
    → Sent f a q values w
    → get_pdu_size_from_header o (exception_reply_packet w e ++ rest) true
      ≡ length (exception_reply_packet w e)
unfolding exception_reply_packet
Sent-exception_size o rest e s =
    let h = Sent-HasForm s in rw h.form (exception_size o h.code _ rest e)
