-- ===== src/Tcp/Client.antt =====
-- `TCPClient.DoTransaction2` of tcp_client.go. The bytes that the connection has for the client are a
-- list, and whether it takes a packet is a function `accepts` of the packets before it and of the
-- packet. `Serve` is what it does once its context ends. The locks are not modelled.
pub mod Exchange
pub mod Exits
use modbusone.Base.{
  ℕ, ◌+◌, Bool, true, false, not, List, [], ◌∷◌, ◌++◌, drop, replicate, Option, none, some,
  if◌then◌else◌, Result, ok, err, panic, ◌>>=◌, Error, io_failure, message,
}
use modbusone.FunctionCode.{is_read_to_server, is_write_to_server, separate_error}
use modbusone.Handler.{ProtocolHandler}
use modbusone.OverSize.{OverSize, get_max_rtu_size}
use modbusone.Pdu.{Pdu, get_function_code, get_reply_values, make_write_request}
use modbusone.RequestReply.{is_request_reply}
use modbusone.Tcp.{read_tcp, write_tcp, mbap_header_length, tcp_header_length}

-- The bytes still to be read, the packets given to the connection, be they taken or not, the field
-- `exitError`, whether the context is cancelled, and the state behind the handler. Behind a failed
-- read it is not modelled what is left to be read.
pub record Client {ℓ} (S : Type ℓ) : Type ℓ where
  pub stream : List ℕ
  pub written : List (List ℕ)
  pub exit_error : Option Error
  pub cancelled : Bool
  pub handled : S

-- What `DoTransaction2` returns, nil being `none`, and the client behind it.
abbrev pub Done {ℓ} : Type ℓ → Type ℓ
Done S = Option Error × Client S

-- An error that ends the client.
unfoldable pub exit {ℓ} : {S : Type ℓ} → Error → Client S → Result (Done S)
exit e c = ok (some e, record c { exit_error = some e; cancelled = true })

-- The new buffer `bs`.
unfoldable pub new_buffer : OverSize → List ℕ
new_buffer o = replicate (get_max_rtu_size o + tcp_header_length) 0

module _ {ℓ} {S : Type ℓ} (o : OverSize) (h : ProtocolHandler S) where
  -- `OnWrite`, whose result is returned.
  unfoldable pub after_on_write : Client S → Result (Unit {0}) → Result (Done S)
  after_on_write c (ok _) = ok (none, c)
  after_on_write c (err e) = ok (some e, c)
  after_on_write c panic = panic

  -- After `GetReplyValues`.
  unfoldable pub after_reply_values : Pdu → Client S → Result (List ℕ) → Result (Done S)
  unfolding after_on_write exit
  after_reply_values req c (ok values) =
      let (result, t) = h.on_write req values c.handled in
      after_on_write (record c { handled = t }) result
  after_reply_values req c (err e) = exit e c
  after_reply_values req c panic = panic

  -- The reply `rp`.
  unfoldable pub after_reply : Pdu → Pdu → Client S → Result (Done S)
  unfolding after_reply_values exit
  after_reply req rp c =
      let (has_err, fc) = separate_error (get_function_code rp) in
      if has_err
      then ok (some message, record c { handled = h.on_error req rp c.handled })
      else is_request_reply o req rp >>= λ matches.
          if not matches
          then exit message c
          else if is_read_to_server fc
          then after_reply_values req c (get_reply_values rp)
          else ok (none, c)

  -- After `readTCP`.
  unfoldable pub after_tcp : Pdu → Client S → Result (List ℕ × List ℕ) → Result (Done S)
  unfolding after_reply exit
  after_tcp req c (ok (bs, rest)) =
      after_reply req (drop mbap_header_length bs) (record c { stream = rest })
  after_tcp req c (err e) = exit e c
  after_tcp req c panic = panic

  -- From `writeTCP` on, into a buffer with the length of the new one.
  unfoldable pub send : (List (List ℕ) → List ℕ → Bool) → Pdu → Client S → Result (Done S)
  unfolding after_tcp write_tcp read_tcp new_buffer exit
  send accepts req c = write_tcp (new_buffer o) req >>= λ frame.
      let c' : Client S = record c { written = c.written ++ (frame ∷ []) } in
      let taken = after_tcp req c' (read_tcp c.stream (get_max_rtu_size o + tcp_header_length)) in
      if accepts c.written frame then taken else exit io_failure c'

  -- After `OnRead`, for a write. `spare` is what lies behind the PDU in its array.
  unfoldable pub after_on_read :
      (List (List ℕ) → List ℕ → Bool) → List ℕ → Pdu → Client S → Result (List ℕ) → Result (Done S)
  unfolding send
  after_on_read accepts spare req c (ok values) = do
    w ← make_write_request req spare values
    send accepts w c
  after_on_read accepts spare req c (err e) = ok (some e, c)
  after_on_read accepts spare req c panic = panic

  -- `DoTransaction2`. The slave id is not used.
  unfoldable pub do_transaction2 :
      (List (List ℕ) → List ℕ → Bool) → List ℕ → ℕ → Pdu → Client S → Result (Done S)
  unfolding after_on_read send
  do_transaction2 accepts spare slave_id req c =
      if is_write_to_server (get_function_code req)
      then (let (result, t) = h.on_read req c.handled in
          after_on_read accepts spare req (record c { handled = t }) result)
      else send accepts req c

-- `DoTransaction`, with the slave id of the client.
unfoldable pub do_transaction {ℓ} :
    {S : Type ℓ}
    → OverSize
    → ProtocolHandler S
    → (List (List ℕ) → List ℕ → Bool)
    → List ℕ
    → ℕ
    → Pdu
    → Client S
    → Result (Done S)
unfolding do_transaction2
do_transaction o h accepts spare slave_id req c = do_transaction2 o h accepts spare slave_id req c

-- `NewTCPClient`, with the bytes that the connection has for it.
unfoldable pub new_client {ℓ} : {S : Type ℓ} → List ℕ → S → Client S
new_client stream handled = record {
  stream = stream;
  written = [];
  exit_error = none;
  cancelled = false;
  handled = handled;
}

-- The goroutine of `StartTransactionToServer`, which turns a panic of the transaction into an error.
-- It gives the error, or nil, and the client; what a panic leaves behind in the client is an argument.
unfoldable pub recovered {ℓ} : {S : Type ℓ} → Client S → Result (Done S) → Done S
recovered c (ok done) = done
recovered c (err e) = (some e, c)
recovered c panic = (some message, c)

unfoldable pub start_transaction_to_server {ℓ} :
    {S : Type ℓ}
    → OverSize
    → ProtocolHandler S
    → (List (List ℕ) → List ℕ → Bool)
    → List ℕ
    → ℕ
    → Pdu
    → Client S
    → Client S
    → Done S
unfolding recovered do_transaction2
start_transaction_to_server o h accepts spare slave_id req left c =
    recovered left (do_transaction2 o h accepts spare slave_id req c)

-- The first lines of `Close`.
unfoldable pub user_exit : Option Error → Option Error
user_exit none = some message
user_exit (some e) = some e

-- `Close`, but for the connection.
unfoldable pub close {ℓ} : {S : Type ℓ} → Client S → Client S
unfolding user_exit
close c = record c { exit_error = user_exit c.exit_error; cancelled = true }

-- What `Serve` returns behind the end of the context: `exitError`, or the error of the context,
-- which is a message.
unfoldable pub exit_reason : Option Error → Error
exit_reason (some e) = e
exit_reason none = message

-- `Serve`, which waits for the end of the context, `none`, or returns and closes the client.
unfoldable pub serve {ℓ} : {S : Type ℓ} → Client S → Option (Error × Client S)
unfolding exit_reason close
serve c = if c.cancelled then some (exit_reason c.exit_error, close c) else none
