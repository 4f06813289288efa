-- ===== src/RtuServer.antt =====
-- `RTUServer.Serve` of rtu_server.go. A packet of the packet reader is an element of a list, and its
-- end is the reader's error. Whether the connection takes a frame is a function `accepts` of the
-- frames before it and of the frame. Delays and debug messages are not modelled.
pub mod Packet
pub mod Run
pub mod Exchange
pub mod Refines
pub mod Session
pub mod Quiet
use modbusone.Base.{
  ℕ, ◌+◌, Bool, true, false, not, ◌&&◌, ltb, ◌==◌, List, [], ◌∷◌, ◌++◌, Option, none, some,
  if◌then◌else◌, Result, ok, err, panic, ◌>>=◌, Error, exception, crc_invalid, io_failure, message,
  wrap, u8,
}
use modbusone.FunctionCode.{is_read_to_server, is_write_to_server}
use modbusone.Handler.{ProtocolHandler}
use modbusone.OverSize.{OverSize}
use modbusone.Pdu.{
  Pdu, get_function_code, validate_request, get_request_values, make_read_reply, make_write_reply,
  exception_reply_packet, to_exception_code,
}
use modbusone.Stats.{Stats, add, crc_error, other_error, id_drop}
use modbusone.Rtu.{Rtu, make_rtu, get_pdu, get_slave_id}

-- The variables of `Serve`: the counters, the frames given to the connection, be they taken or
-- not, the variable `ioErr`, and the state behind the handler.
pub record Server {ℓ} (S : Type ℓ) : Type ℓ where
  pub stats : Stats
  pub written : List Rtu
  pub io_err : Option Error
  pub handled : S

-- `errors.Is(err, ErrorCrc)`
unfoldable pub is_crc : Error → Bool
is_crc crc_invalid = true
is_crc (wrap e) = is_crc e
is_crc _ = false

-- `atomic.AddInt64(&s.com.Stats().OtherErrors, 1)`, and those of the two other counters.
unfoldable pub count_other {ℓ} : {S : Type ℓ} → Server S → Server S
count_other s = record s { stats = add other_error s.stats }

unfoldable pub count_crc {ℓ} : {S : Type ℓ} → Server S → Server S
count_crc s = record s { stats = add crc_error s.stats }

unfoldable pub count_id_drop {ℓ} : {S : Type ℓ} → Server S → Server S
count_id_drop s = record s { stats = add id_drop s.stats }

-- The state behind the handler after a call.
abbrev pub after_call {ℓ} : {S : Type ℓ} → Server S → S → Server S
after_call s t = record { stats = s.stats; written = s.written; io_err = s.io_err; handled = t }

abbrev pub fail_io {ℓ} : {S : Type ℓ} → Server S → Server S
fail_io s = record {
  stats = s.stats;
  written = s.written;
  io_err = some io_failure;
  handled = s.handled;
}

-- The closure `wp`.
unfoldable pub wp {ℓ} : {S : Type ℓ} → (List Rtu → Rtu → Bool) → Pdu → ℕ → Server S → Server S
wp accepts p slave_id s =
    let frame = make_rtu slave_id p in
    if slave_id == 0 then s else record {
      stats = s.stats;
      written = s.written ++ (frame ∷ []);
      io_err = if accepts s.written frame then none else some io_failure;
      handled = s.handled;
    }

-- The closure `wec`, for the request `p`.
unfoldable pub wec {ℓ} :
    {S : Type ℓ} → (List Rtu → Rtu → Bool) → Pdu → Error → ℕ → Server S → Server S
unfolding wp
wec accepts p error slave_id s =
    wp accepts (exception_reply_packet p (to_exception_code (some error))) slave_id s

module _ {ℓ} {S : Type ℓ} (o : OverSize) (accepts : List Rtu → Rtu → Bool)
    (h : ProtocolHandler S) where
  -- `OtherErrors` is counted, and the error is answered.
  unfoldable pub answer_error : Pdu → Error → ℕ → Server S → Server S
  unfolding wec count_other
  answer_error p error id s = wec accepts p error id (count_other s)

  -- The rest of a read, after `OnRead`.
  unfoldable pub after_read : Pdu → ℕ → Server S → Result (List ℕ) → Result (Server S)
  unfolding answer_error wp
  after_read p id s (ok values) = ok (wp accepts (make_read_reply p values) id s)
  after_read p id s (err error) = ok (answer_error p error id s)
  after_read p id s panic = panic

  -- The rest of a write, after `OnWrite`.
  unfoldable pub after_write : Pdu → ℕ → Server S → Result (Unit {0}) → Result (Server S)
  unfolding answer_error wp
  after_write p id s (ok _) = ok (wp accepts (make_write_reply p) id s)
  after_write p id s (err error) = ok (answer_error p error id s)
  after_write p id s panic = panic

  -- The rest of a write, after `GetRequestValues`.
  unfoldable pub after_values : Pdu → ℕ → Server S → Result (List ℕ) → Result (Server S)
  unfolding answer_error after_write
  after_values p id s (ok values) =
      let (result, t) = h.on_write p values s.handled in after_write p id (after_call s t) result
  after_values p id s (err error) = ok (answer_error p error id s)
  after_values p id s panic = panic

  -- From `fc := p.GetFunctionCode()` on.
  unfoldable pub answer : Pdu → ℕ → Server S → Result (Server S)
  unfolding after_read after_values
  answer p id s =
      if is_read_to_server (get_function_code p)
      then (let (result, t) = h.on_read p s.handled in after_read p id (after_call s t) result)
      else if is_write_to_server (get_function_code p)
      then after_values p id s (get_request_values o p)
      else ok s

  -- From `err = p.ValidateRequest()` on.
  unfoldable pub answer_valid : Pdu → ℕ → Server S → Result (Unit {0}) → Result (Server S)
  unfolding answer answer_error
  answer_valid p id s (ok _) = answer p id s
  answer_valid p id s (err error) = ok (answer_error p error id s)
  answer_valid p id s panic = panic

  -- From `p, err = r.GetPDU()` on, for the server's slave id. `r[0]` is there behind a PDU.
  unfoldable pub serve_pdu : ℕ → Rtu → Server S → Result Pdu → Result (Server S)
  unfolding count_crc count_other count_id_drop answer_valid
  serve_pdu slave_id r s (ok p) =
      if not (get_slave_id r == 0) && not (get_slave_id r == slave_id)
      then ok (count_id_drop s)
      else answer_valid p (get_slave_id r) s (validate_request p)
  serve_pdu slave_id r s (err error) = ok (if is_crc error then count_crc s else count_other s)
  serve_pdu slave_id r s panic = panic

  -- One round of the loop, after a packet was read.
  unfoldable pub serve_packet : ℕ → Rtu → Server S → Result (Server S)
  unfolding serve_pdu
  serve_packet slave_id r s = serve_pdu slave_id r s (get_pdu r)

  -- The loop of `Serve`, over the packets that are read until the reader's error, which is then
  -- `ioErr`. At the end `ioErr` is what `Serve` returns.
  unfoldable pub serve : ℕ → List Rtu → Server S → Result (Server S)
  unfolding serve_packet
  serve slave_id [] s = elim s.io_err [ none ↦ ok (fail_io s) | some e ↦ ok s ]
  serve slave_id (r ∷ packets) s = elim s.io_err [
    | none ↦ serve_packet slave_id r s >>= serve slave_id packets
    | some e ↦ ok s
  ]

-- `Uint64ToSlaveID`
unfoldable pub uint64_to_slave_id : ℕ → Result ℕ
uint64_to_slave_id n = if ltb 247 n then err message else ok (u8 n)
