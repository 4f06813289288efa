-- ===== src/Pdu/Reply.antt =====
-- Replies: data, and exceptions.
use modbusone.Base.{
  ℕ, ◌+◌, ◌<◌, ◌≡◌, ◌↔◌, refl, List, [], ◌∷◌, length, Error, ok, err, message, exception, wrap,
  fc_not_supported, crc_invalid, io_failure, zero, suc, arith, true, some, ◌&&◌, ltb, leb,
  if◌then◌else◌,
}
use modbusone.Base.Bits.{set_top, low_seven}
use modbusone.FunctionCode.{valid, separate_error}
use modbusone.Pdu.{
  Pdu, get_function_code, get_reply_values, make_read_reply, exception_reply_packet, match_pdu,
  as_exception, to_exception_code, validate_request, is_fc_not_supported,
}

-- `GetReplyValues` reads back the data that `MakeReadReply` was given exactly when there are 1 to
-- 255 bytes of it, and reports an error on any other amount: the count is one byte.
pub read_reply_roundtrip :
    (p : Pdu) (values : List ℕ)
    → get_reply_values (make_read_reply p values)
      ≡ (if leb 1 (length values) && ltb (length values) 256 then ok values else err message)
unfolding get_reply_values make_read_reply
read_reply_roundtrip p [] = ground arith
read_reply_roundtrip p (v ∷ values) = ground arith

small_code : (p : Pdu) → validate_request p ≡ ok tt → get_function_code p < 128
unfolding validate_request valid
small_code p h = ground arith

-- A valid request is matched by the exception reply to a valid request exactly when the two have
-- one function code. The reply has the error flag set on the function code of its request.
pub match-exception_reply :
    (ask other : Pdu) (e : ℕ)
    → validate_request ask ≡ ok tt
    → validate_request other ≡ ok tt
    → ((match_pdu ask (exception_reply_packet other e) ≡ true)
        ↔ (get_function_code ask ≡ get_function_code other))
      × (separate_error (get_function_code (exception_reply_packet other e))
          ≡ (true, get_function_code other))
unfolding match_pdu exception_reply_packet separate_error get_function_code
match-exception_reply ask other e h k =
    let p = small_code ask h in
    let q = small_code other k in
    let f = get_function_code other in
    rw (set_top f q)
      ((λ m. ground arith, λ m. ground arith), ground (arith, low_seven (f + 128) (omega arith)))

-- An error under `n` more messages by `%w`.
abbrev pub wraps : ℕ → Error → Error
wraps zero e = e
wraps (suc n) e = wrap (wraps n e)

wraps_transparent :
    (n : ℕ) (e : Error)
    → (as_exception (wraps n e) ≡ as_exception e)
      × (is_fc_not_supported (wraps n e) ≡ is_fc_not_supported e)
unfolding as_exception is_fc_not_supported
wraps_transparent zero e = (refl, refl)
wraps_transparent (suc n) e = wraps_transparent n e

-- However often an error is wrapped, `ToExceptionCode` gives the code of the error: an
-- `ExceptionCode` itself, EcIllegalFunction for ErrFcNotSupported, and EcServerDeviceFailure for
-- the other errors.
pub to_exception_code-wraps :
    (n c : ℕ)
    → (to_exception_code (some (wraps n (exception c))) ≡ c)
      × (to_exception_code (some (wraps n fc_not_supported)) ≡ 1)
      × (to_exception_code (some (wraps n crc_invalid)) ≡ 4)
      × (to_exception_code (some (wraps n io_failure)) ≡ 4)
      × (to_exception_code (some (wraps n message)) ≡ 4)
unfolding to_exception_code as_exception is_fc_not_supported
to_exception_code-wraps n c = (
  ground (arith, wraps_transparent n (exception c)),
  ground (arith, wraps_transparent n fc_not_supported),
  ground (arith, wraps_transparent n crc_invalid),
  ground (arith, wraps_transparent n io_failure),
  ground (arith, wraps_transparent n message),
)
