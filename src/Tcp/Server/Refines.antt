-- ===== src/Tcp/Server/Refines.antt =====
-- The server of a TCP connection answers as the contract of `respond` says.
use modbusone.Base.{
  ℕ, ◌+◌, ◌-◌, ◌/◌, ◌≤◌, ◌<◌, ◌≡◌, ◌∙◌, refl, ap, true, Bool-cases, List, [], ◌∷◌, ◌++◌, length,
  length-append, replicate, length-replicate, Result, ok, err, panic, ◌>>=◌, inl, inr, arith, u8,
}
use modbusone.Device.{respond, answered, reply_of, written_values}
use modbusone.FunctionCode.{is_write_to_server, valid}
use modbusone.FunctionCode.Limits.{classified}
use modbusone.Handler.{ProtocolHandler}
use modbusone.OverSize.{OverSize}
use modbusone.Pdu.{
  Pdu, get_function_code, validate_request, get_request_values, make_read_reply, make_write_reply,
}
use modbusone.RtuClient.Transaction.{valid_code}
use modbusone.Tcp.{read_tcp}
use modbusone.Tcp.Framing.{frame_of, written, read_frame}
use modbusone.Tcp.Server.{
  Session, Round, next, buffer, buffer_size, reply, wec, after_read, after_write, after_values,
  answer, after_validate, after_tcp, round,
}

-- A reply of the contract, given to `reply`.
unfoldable pub send {ℓ} :
    {S : Type ℓ}
    → OverSize
    → ProtocolHandler S
    → List ℕ
    → Session S
    → Result (Pdu × S)
    → Result (Round S)
send o h bs s (ok (p, t)) = reply o h bs p (record s { handled = t })
send o h bs s (err e) = err e
send o h bs s panic = panic

module _ {ℓ} {S : Type ℓ} (o : OverSize) (h : ProtocolHandler S) (bs : List ℕ) (p : Pdu)
    (s : Session S) where
  read-send :
      (t : S) (m : Result (List ℕ))
      → after_read o h bs p (record s { handled = t }) m
        ≡ send o h bs s (answered (reply_of p (make_read_reply p) m) t)
  unfolding after_read answered reply_of send wec
  read-send t (ok values) = refl
  read-send t (err e) = refl
  read-send t panic = refl

  write-send :
      (t : S) (m : Result (Unit {0}))
      → after_write o h bs p (record s { handled = t }) m
        ≡ send o h bs s (answered (reply_of p (λ done. make_write_reply p) m) t)
  unfolding after_write answered reply_of send wec
  write-send t (ok _) = refl
  write-send t (err e) = refl
  write-send t panic = refl

  values-send :
      (m : Result (List ℕ))
      → after_values o h bs p s m ≡ send o h bs s (written_values h p s.handled m)
  unfolding after_values written_values send wec
  values-send (ok values) =
      write-send (h.on_write p values s.handled).1 (h.on_write p values s.handled).0
  values-send (err e) = refl
  values-send panic = refl

  answer-send :
      valid (get_function_code p) ≡ true
      → answer o h bs p s ≡ send o h bs s (respond o h p s.handled)
  unfolding answer respond
  answer-send v = elim (Bool-cases (is_write_to_server (get_function_code p))) [
    | inl writes ↦
        rw ((classified (get_function_code p) v).0, writes) (values-send (get_request_values o p))
    | inr reads ↦
        rw ((classified (get_function_code p) v).0, reads)
          (read-send (h.on_read p s.handled).1 (h.on_read p s.handled).0)
  ]

valid_length : (p : Pdu) → validate_request p ≡ ok tt → 2 ≤ length p
unfolding validate_request
valid_length p good = ground arith

-- A reply that fits the buffer is written behind the first four bytes and the unit of the request.
reply-frame {ℓ} :
    {S : Type ℓ} (o : OverSize) (h : ProtocolHandler S) (a b unit : ℕ) (p q : Pdu) (s : Session S)
    → length p + 7 ≤ buffer_size o
    → length q + 7 ≤ buffer_size o
    → reply o h (frame_of a b unit p) q s
      ≡ ok (next (record s { written = s.written ++ (frame_of a b unit q ∷ []) }))
unfolding reply buffer
reply-frame o h a b unit p q s fits fits' =
    let spare = replicate (buffer_size o - length (frame_of a b unit p)) 0 in
    let room : length q ≤ length (p ++ spare) = omega (
      arith,
      length-append p spare,
      length-replicate {A = ℕ} (buffer_size o - length (frame_of a b unit p)) 0,
    ) in
    ap
      (λ (m : Result (List ℕ)).
        m >>= λ frame. ok (next (record s { written = s.written ++ (frame ∷ []) })))
      (written a b (u8 ((length p + 1) / 256)) (u8 (length p + 1)) unit (p ++ spare) q room)

-- A connection whose next bytes are the packet of a valid request that fits the buffer is served as
-- the contract says: where `respond` gives a reply that fits the buffer too, the packet of the reply,
-- with the first two bytes and the unit of the request, is written, the state behind the handler is
-- that of `respond`, and the rest of the stream is left for the next round.
pub round-refines {ℓ} :
    {S : Type ℓ} (o : OverSize) (h : ProtocolHandler S) (a b unit : ℕ) (p q : Pdu) (rest : List ℕ)
    (s : Session S) (t : S)
    → validate_request p ≡ ok tt
    → length p < 65535
    → length p + 7 ≤ buffer_size o
    → s.stream ≡ frame_of a b unit p ++ rest
    → respond o h p s.handled ≡ ok (q, t)
    → length q + 7 ≤ buffer_size o
    → round o h s
      ≡ ok (
          next (record {
            stream = rest;
            written = s.written ++ (frame_of a b unit q ∷ []);
            handled = t;
          }))
unfolding round after_tcp after_validate
round-refines o h a b unit p q rest s t good small fits comes answer fits' =
    let taken : read_tcp s.stream (buffer_size o) ≡ ok (frame_of a b unit p, rest) =
      ap (λ (bytes : List ℕ). read_tcp bytes (buffer_size o)) comes
      ∙ read_frame a b unit (buffer_size o) p rest (valid_length p good) small fits in
    rw (taken, good)
      (answer-send o h (frame_of a b unit p) p (record s { stream = rest }) (valid_code p good)
        ∙ ap (send o h (frame_of a b unit p) (record s { stream = rest })) answer
        ∙ unfold send in
          reply-frame o h a b unit p q (record { stream = rest; written = s.written; handled = t })
            fits fits')
