-- ===== src/RtuServer/Refines.antt =====
-- The server of a serial line answers as the contract of `respond` says.
use modbusone.Base.{
  ℕ, ◌≡◌, ◌⊎◌, refl, Bool, true, ◌==◌, Bool-cases, List, [], ◌∷◌, ◌++◌, append-nil, Result, ok, err,
  panic, Error, some, if◌then◌else◌, inl, inr,
}
use modbusone.Device.{respond, answered, reply_of, written_values}
use modbusone.FunctionCode.{is_write_to_server, valid}
use modbusone.FunctionCode.Limits.{classified}
use modbusone.Handler.{ProtocolHandler}
use modbusone.OverSize.{OverSize}
use modbusone.Pdu.{
  Pdu, get_function_code, validate_request, get_request_values, make_read_reply, make_write_reply,
  exception_reply_packet, to_exception_code,
}
use modbusone.Rtu.{Rtu, make_rtu, get_pdu, get_slave_id}
use modbusone.RtuClient.Transaction.{valid_code}
use modbusone.RtuServer.{
  Server, wp, wec, count_other, answer_error, after_read, after_write, after_values, after_call,
  answer, answer_valid, serve_pdu, serve_packet,
}
use modbusone.RtuServer.Exchange.{addressed}

-- What the line and the handler see of a server: the frames written, and the state.
unfoldable pub observe {ℓ} : {S : Type ℓ} → Result (Server S) → Result (List Rtu × S)
observe (ok s) = ok (s.written, s.handled)
observe (err e) = err e
observe panic = panic

-- The frame of a reply to the slave id `id`. A multicast has none.
unfoldable pub framed : ℕ → Pdu → List Rtu
framed id p = if id == 0 then [] else make_rtu id p ∷ []

-- The contract, on a line where `written` was written before.
unfoldable pub on_line {ℓ} : {S : Type ℓ} → List Rtu → ℕ → Result (Pdu × S) → Result (List Rtu × S)
unfolding framed
on_line written id (ok (p, t)) = ok (written ++ framed id p, t)
on_line written id (err e) = err e
on_line written id panic = panic

module _ {ℓ} {S : Type ℓ} (o : OverSize) (accepts : List Rtu → Rtu → Bool)
    (h : ProtocolHandler S) where
  wp-on_line :
      (p : Pdu) (id : ℕ) (s : Server S)
      → observe (ok (wp accepts p id s)) ≡ on_line s.written id (ok (p, s.handled))
  unfolding observe on_line framed wp
  wp-on_line p id s = elim (Bool-cases (id == 0)) [
    | inl all ↦ rw (all, append-nil s.written) refl
    | inr one ↦ rw one refl
  ]

  error-on_line :
      (p : Pdu) (e : Error) (id : ℕ) (s : Server S)
      → observe (ok (answer_error o accepts h p e id s))
        ≡ on_line s.written id
            (ok (exception_reply_packet p (to_exception_code (some e)), s.handled))
  unfolding answer_error wec count_other
  error-on_line p e id s =
      wp-on_line (exception_reply_packet p (to_exception_code (some e))) id (count_other s)

  read-on_line :
      (p : Pdu) (id : ℕ) (s : Server S) (m : Result (List ℕ))
      → observe (after_read o accepts h p id s m)
        ≡ on_line s.written id (answered (reply_of p (make_read_reply p) m) s.handled)
  unfolding after_read answered reply_of
  read-on_line p id s (ok values) = wp-on_line (make_read_reply p values) id s
  read-on_line p id s (err e) = error-on_line p e id s
  read-on_line p id s panic = unfold observe on_line in refl

  write-on_line :
      (p : Pdu) (id : ℕ) (s : Server S) (m : Result (Unit {0}))
      → observe (after_write o accepts h p id s m)
        ≡ on_line s.written id (answered (reply_of p (λ done. make_write_reply p) m) s.handled)
  unfolding after_write answered reply_of
  write-on_line p id s (ok _) = wp-on_line (make_write_reply p) id s
  write-on_line p id s (err e) = error-on_line p e id s
  write-on_line p id s panic = unfold observe on_line in refl

  values-on_line :
      (p : Pdu) (id : ℕ) (s : Server S) (m : Result (List ℕ))
      → observe (after_values o accepts h p id s m)
        ≡ on_line s.written id (written_values h p s.handled m)
  unfolding after_values written_values
  values-on_line p id s (ok values) =
      write-on_line p id (after_call s (h.on_write p values s.handled).1)
        (h.on_write p values s.handled).0
  values-on_line p id s (err e) = error-on_line p e id s
  values-on_line p id s panic = unfold observe on_line in refl

  answer-on_line :
      (p : Pdu) (id : ℕ) (s : Server S)
      → valid (get_function_code p) ≡ true
      → observe (answer o accepts h p id s) ≡ on_line s.written id (respond o h p s.handled)
  unfolding answer respond
  answer-on_line p id s v = elim (Bool-cases (is_write_to_server (get_function_code p))) [
    | inl writes ↦
        rw ((classified (get_function_code p) v).0, writes)
          (values-on_line p id s (get_request_values o p))
    | inr reads ↦
        rw ((classified (get_function_code p) v).0, reads)
          (read-on_line p id (after_call s (h.on_read p s.handled).1) (h.on_read p s.handled).0)
  ]

-- A frame with the server's slave id, or the broadcast id, whose PDU is a valid request is answered
-- as the contract says: the frames written and the state behind the handler are those of `respond`,
-- the reply framed with the id of the request, or none for a broadcast, also where the connection
-- does not take it. A panic of the handler is one of the server.
pub serve_packet-refines {ℓ} :
    {S : Type ℓ} (o : OverSize) (accepts : List Rtu → Rtu → Bool) (h : ProtocolHandler S)
    (slave_id : ℕ) (r : Rtu) (p : Pdu) (s : Server S)
    → get_pdu r ≡ ok p
    → validate_request p ≡ ok tt
    → (get_slave_id r ≡ 0) ⊎ (get_slave_id r ≡ slave_id)
    → observe (serve_packet o accepts h slave_id r s)
      ≡ on_line s.written (get_slave_id r) (respond o h p s.handled)
unfolding serve_packet serve_pdu answer_valid
serve_packet-refines o accepts h slave_id r p s pdu good ours =
    rw (pdu, addressed (get_slave_id r) slave_id ours, good)
      (answer-on_line o accepts h p (get_slave_id r) s (valid_code p good))
