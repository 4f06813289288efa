-- ===== src/Tcp/Server.antt =====
-- A connection of `TCPServer.Serve` of tcp_server.go. The bytes that the connection will give before
-- it ends are a list. The result of `writeTCP` is not used there, so that it is not modelled whether
-- the connection takes the bytes.
pub mod Refines
pub mod Ends
pub mod Whole
use modbusone.Base.{
  ℕ, zero, suc, ◌+◌, ◌-◌, Bool, true, false, List, [], ◌∷◌, ◌++◌, length, drop, replicate, Option,
  none, some, if◌then◌else◌, Result, ok, err, panic, ◌>>=◌, Error,
}
use modbusone.FunctionCode.{is_read_to_server, is_write_to_server}
use modbusone.Handler.{ProtocolHandler}
use modbusone.OverSize.{OverSize, max_pdu_size}
use modbusone.Pdu.{
  Pdu, get_function_code, validate_request, get_request_values, make_read_reply, make_write_reply,
  exception_reply_packet, to_exception_code,
}
use modbusone.Tcp.{read_tcp, write_tcp, mbap_header_length, tcp_header_length}

-- The bytes still to be read, the packets written, and the state behind the handler.
pub record Session {ℓ} (S : Type ℓ) : Type ℓ where
  pub stream : List ℕ
  pub written : List (List ℕ)
  pub handled : S

-- Behind a round, the connection is closed, or the next round follows.
pub data Round {ℓ} (S : Type ℓ) : Type ℓ where
  closed : Session S → Round S
  next : Session S → Round S

-- The size of the buffer `rb`.
unfoldable pub buffer_size : OverSize → ℕ
buffer_size o =
    if o.support
    then mbap_header_length + o.max_rtu + tcp_header_length
    else mbap_header_length + max_pdu_size

-- The buffer `rb` behind a read of the packet `bs`. What lies behind the packet is never read, and
-- stands here as zeros.
unfoldable pub buffer : OverSize → List ℕ → List ℕ
unfolding buffer_size
buffer o bs = bs ++ replicate (buffer_size o - length bs) 0

module _ {ℓ} {S : Type ℓ} (o : OverSize) (h : ProtocolHandler S) where
  -- `writeTCP` of a reply, and the next round.
  unfoldable pub reply : List ℕ → Pdu → Session S → Result (Round S)
  unfolding buffer write_tcp
  reply bs pdu s = do
    frame ← write_tcp (buffer o bs) pdu
    ok (next (record s { written = s.written ++ (frame ∷ []) }))

  -- The closure `wec`.
  unfoldable pub wec : List ℕ → Pdu → Error → Session S → Result (Round S)
  unfolding reply
  wec bs p e s = reply bs (exception_reply_packet p (to_exception_code (some e))) s

  -- After `OnRead`.
  unfoldable pub after_read : List ℕ → Pdu → Session S → Result (List ℕ) → Result (Round S)
  unfolding wec
  after_read bs p s (ok values) = reply bs (make_read_reply p values) s
  after_read bs p s (err e) = wec bs p e s
  after_read bs p s panic = panic

  -- After `OnWrite`.
  unfoldable pub after_write : List ℕ → Pdu → Session S → Result (Unit {0}) → Result (Round S)
  unfolding wec
  after_write bs p s (ok _) = reply bs (make_write_reply p) s
  after_write bs p s (err e) = wec bs p e s
  after_write bs p s panic = panic

  -- After `GetRequestValues`.
  unfoldable pub after_values : List ℕ → Pdu → Session S → Result (List ℕ) → Result (Round S)
  unfolding after_write
  after_values bs p s (ok values) =
      let (result, t) = h.on_write p values s.handled in
      after_write bs p (record s { handled = t }) result
  after_values bs p s (err e) = wec bs p e s
  after_values bs p s panic = panic

  -- From `fc := p.GetFunctionCode()` on.
  unfoldable pub answer : List ℕ → Pdu → Session S → Result (Round S)
  unfolding after_read after_values
  answer bs p s =
      if is_read_to_server (get_function_code p)
      then (let (result, t) = h.on_read p s.handled in
          after_read bs p (record s { handled = t }) result)
      else if is_write_to_server (get_function_code p)
      then after_values bs p s (get_request_values o p)
      else ok (next s)

  -- After `ValidateRequest`.
  unfoldable pub after_validate : List ℕ → Pdu → Session S → Result (Unit {0}) → Result (Round S)
  unfolding answer
  after_validate bs p s (ok _) = answer bs p s
  after_validate bs p s (err e) = ok (closed s)
  after_validate bs p s panic = panic

  -- After `readTCP`: the packet, and the stream behind it.
  unfoldable pub after_tcp : Session S → Result (List ℕ × List ℕ) → Result (Round S)
  unfolding after_validate
  after_tcp s (ok (bs, rest)) =
      let p = drop mbap_header_length bs in
      after_validate bs p (record s { stream = rest }) (validate_request p)
  after_tcp s (err e) = ok (closed s)
  after_tcp s panic = panic

  -- A round of the loop.
  unfoldable pub round : Session S → Result (Round S)
  unfolding after_tcp read_tcp buffer_size
  round s = after_tcp s (read_tcp s.stream (buffer_size o))

  -- The end of a connection is the session behind it.
  unfoldable pub go_on :
      (Session S → Result (Option (Session S))) → Round S → Result (Option (Session S))
  go_on rounds (closed s) = ok (some s)
  go_on rounds (next s) = rounds s

  -- The loop, for as many rounds as `fuel`; `none` where they do not suffice.
  unfoldable pub serve : ℕ → Session S → Result (Option (Session S))
  unfolding round go_on
  serve zero s = ok none
  serve (suc fuel) s = round s >>= go_on (serve fuel)
