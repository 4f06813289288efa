-- ===== src/Device.antt =====
-- What a server answers to a request, whatever the line: the contract that the servers of
-- rtu_server.go and tcp_server.go share.
pub mod Session
use modbusone.Base.{ℕ, List, Result, ok, err, panic, some, if◌then◌else◌}
use modbusone.FunctionCode.{is_write_to_server}
use modbusone.Handler.{ProtocolHandler}
use modbusone.OverSize.{OverSize}
use modbusone.Pdu.{
  Pdu, get_function_code, get_request_values, make_read_reply, make_write_reply,
  exception_reply_packet, to_exception_code,
}

-- The reply to `p`, for the result of the handler and the reply that its value makes.
unfoldable pub reply_of : {A : Type 0} → Pdu → (A → Pdu) → Result A → Result Pdu
reply_of p make (ok a) = ok (make a)
reply_of p make (err e) = ok (exception_reply_packet p (to_exception_code (some e)))
reply_of p make panic = panic

-- A reply and the state behind the handler, or a panic.
unfoldable pub answered {ℓ} : {S : Type ℓ} → Result Pdu → S → Result (Pdu × S)
answered (ok p) t = ok (p, t)
answered (err e) t = err e
answered panic t = panic

-- A write, for the values that its request carries.
unfoldable pub written_values {ℓ} :
    {S : Type ℓ} → ProtocolHandler S → Pdu → S → Result (List ℕ) → Result (Pdu × S)
unfolding reply_of answered
written_values h p s (ok values) =
    let (result, t) = h.on_write p values s in
    answered (reply_of p (λ done. make_write_reply p) result) t
written_values h p s (err e) = ok (exception_reply_packet p (to_exception_code (some e)), s)
written_values h p s panic = panic

-- The reply to a valid request, and the state behind it: a read asks the handler for the values, a
-- write gives it the values of the request, and an error is an exception reply.
unfoldable pub respond {ℓ} :
    {S : Type ℓ} → OverSize → ProtocolHandler S → Pdu → S → Result (Pdu × S)
unfolding reply_of answered written_values
respond o h p s =
    if is_write_to_server (get_function_code p)
    then written_values h p s (get_request_values o p)
    else (let (result, t) = h.on_read p s in answered (reply_of p (make_read_reply p) result) t)
