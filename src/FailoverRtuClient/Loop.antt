-- ===== src/FailoverRtuClient/Loop.antt =====
-- The loop of `FailoverRTUClient.Serve`.
use modbusone.Base.{
  ℕ, Bool, not, ◌&&◌, ◌||◌, List, [], ◌∷◌, ◌++◌, Option, none, some, if◌then◌else◌, Result, ok, err,
  panic, ◌>>=◌, Error, io_failure,
}
use modbusone.Failover.{Conn}
use modbusone.Failover.Client.{client_write}
use modbusone.FailoverRtuClient.{Client, count, with_handled, read_unexpected, read_loop}
use modbusone.FunctionCode.{is_write_to_server}
use modbusone.Handler.{ProtocolHandler}
use modbusone.OverSize.{OverSize}
use modbusone.Pdu.{Pdu, get_function_code, make_write_request}
use modbusone.Rtu.{Rtu, make_rtu, fast_get_pdu, get_slave_id, is_multicast}
use modbusone.RtuClient.{Event, client_read, Outcome, reported, returned, waiting}
use modbusone.RtuClient.Loop.{Read, packet, broken}
use modbusone.Stats.{other_drop}

-- An action that starts a transaction: its frame, and what lies behind the PDU in the frame's array;
-- the time of the write; what the reader goroutine does to the connection before the write, and
-- between it and the reading of `isActive`; and what comes afterwards.
pub record Job : Type 0 where
  pub frame : Rtu
  pub spare : List ℕ
  pub now : ℕ
  pub before : Conn → Conn
  pub meanwhile : Conn → Conn
  pub events : List Event

-- What the outer loop takes from the channel.
pub data Act : Type 0 where
  start : Job → Act
  heard : Rtu → Act
  failed : Error → Act

-- The reader goroutine: what it puts on the channel between two transactions, up to the first error.
unfoldable pub reader_acts : List Read → List Act
reader_acts [] = []
reader_acts (packet r ∷ reads) = heard r ∷ reader_acts reads
reader_acts (broken e ∷ reads) = failed e ∷ []

-- The frames given to the serial context, for a write that the connection hands on.
abbrev pub handed_on {ℓ} : {S : Type ℓ} → Bool → Rtu → Conn → Client S → Client S
handed_on handed frame conn c = record {
  stats = c.stats;
  written = if handed then c.written ++ (frame ∷ []) else c.written;
  conn = conn;
  last = c.last;
  handled = c.handled;
}

module _ {ℓ} {S : Type ℓ} (o : OverSize) (h : ProtocolHandler S)
    (accepts : List Rtu → Rtu → Bool) where
  -- Behind `c.com.Write`, which may have failed, for the PDU of the frame.
  unfoldable pub after_write : Job → ℕ → Rtu → Pdu → Bool → Client S → Result (Outcome × Client S)
  unfolding read_loop
  after_write job afc frame ap fails c =
      if fails
      then ok (returned (some io_failure) io_failure, c)
      else if is_multicast frame || not c.conn.is_active
      then ok (reported none, c)
      else read_loop o h afc ap (get_slave_id frame) job.events c

  -- From `c.com.Write` on, for the function code and the frame of a request.
  unfoldable pub send : Job → ℕ → Rtu → Client S → Result (Outcome × Client S)
  unfolding after_write
  send job afc frame c = do
    (handed, conn) ← client_write frame job.now (job.before c.conn)
    ap ← fast_get_pdu frame
    after_write job afc frame ap (handed && not (accepts c.written frame))
        (handed_on handed frame (job.meanwhile conn) c)

  -- After `OnRead`, for a write.
  unfoldable pub after_on_read :
      Job → Pdu → Client S → Result (List ℕ) → Result (Outcome × Client S)
  unfolding send
  after_on_read job ap c (ok values) = do
    w ← make_write_request ap job.spare values
    send job (get_function_code ap) (make_rtu (get_slave_id job.frame) w) c
  after_on_read job ap c (err e) = ok (reported (some e), c)
  after_on_read job ap c panic = panic

  -- A transaction.
  unfoldable pub transaction : Job → Client S → Result (Outcome × Client S)
  unfolding after_on_read send
  transaction job c = fast_get_pdu job.frame >>= λ ap.
      if is_write_to_server (get_function_code ap)
      then (let (result, t) = h.on_read ap c.handled in
          after_on_read job ap (with_handled c t) result)
      else send job (get_function_code ap) job.frame c

  -- What `Serve` returns, if it does, with what was sent on the channels of the transactions.
  abbrev pub Served : Type ℓ
  Served = List (Option Error) × (Option Error × Client S)

  abbrev report : Option Error → Served → Served
  report e (reports, rest) = (e ∷ reports, rest)

  -- Behind a transaction. A channel gets nothing where `Serve` returns without a report; nor does it
  -- where no more events come, and then `Serve` waits in the transaction.
  unfoldable pub concluded : (Client S → Result Served) → Outcome × Client S → Result Served
  concluded next (reported e, c) = next c >>= λ served. ok (report e served)
  concluded next (returned none e, c) = ok ([], (some e, c))
  concluded next (returned (some r) e, c) = ok (some r ∷ [], (some e, c))
  concluded next (waiting, c) = ok ([], (none, c))

  -- `Serve`
  unfoldable pub serve : List Act → Client S → Result Served
  unfolding transaction concluded read_unexpected count
  serve [] c = ok ([], (none, c))
  serve (start job ∷ acts) c = transaction job c >>= concluded (serve acts)
  serve (heard r ∷ acts) c = read_unexpected o h (count other_drop) (client_read r) c >>= serve acts
  serve (failed e ∷ acts) c = ok ([], (some e, c))
