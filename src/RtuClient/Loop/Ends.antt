-- ===== src/RtuClient/Loop/Ends.antt =====
-- `ServeRTU` returns once the connection fails.
use modbusone.Base.{
  ℕ, suc, ◌≤◌, ◌≡◌, refl, Bool, List, [], ◌∷◌, ◌++◌, length, Option, none, some, Result, ok, err,
  panic, ◌>>=◌, Error, arith,
}
use modbusone.FunctionCode.{make_request_header}
use modbusone.Handler.{RtuProtocolHandler}
use modbusone.OverSize.{OverSize}
use modbusone.Pdu.{Pdu}
use modbusone.Rtu.{Rtu}
use modbusone.RtuClient.{Client, Event, time_out, Outcome, reported, returned, waiting}
use modbusone.RtuClient.Loop.{
  Act, heard, failed, Served, concluded, drop_unexpected, serve_rtu, Read, packet, reader_loop,
  start_transaction_to_server,
}
use modbusone.RtuClient.Reports.{IsSafe, Timed, expires, hears, Reported, transaction-Reported}

-- Packets that the reader goroutine reads, none of them empty.
pub data Packets : List Read → Type 0 where
  nothing : Packets []
  one_read :
      {id : ℕ} {r : Rtu} {reads : List Read} → Packets reads → Packets (packet (id ∷ r) ∷ reads)

-- What the loop takes from the channel while `n` transactions are started: packets that the reader
-- goroutine has read, transactions, each with the packets that are read until its timer expires, and
-- at the end the error of the reader.
pub data Feeds : List Act → ℕ → Type 0 where
  ends : {e : Error} {acts : List Act} → Feeds (failed e ∷ acts) 0
  reads : {n : ℕ} {acts : List Act} {r : Rtu} → Feeds acts n → Feeds (heard r ∷ acts) n
  begins :
      {n : ℕ} {acts : List Act} (id f a q : ℕ) (p : Pdu) (spare : List ℕ) (heard_then : List Read)
      (later : List Event)
      → make_request_header f a q ≡ ok p
      → Packets heard_then
      → Feeds acts n
      → Feeds
          (start_transaction_to_server id p spare (reader_loop heard_then ++ (time_out ∷ later))
            ∷ acts)
          (suc n)

Packets-Timed :
    {reads : List Read} (later : List Event)
    → Packets reads
    → Timed (reader_loop reads ++ (time_out ∷ later))
unfolding reader_loop
Packets-Timed later nothing = expires
Packets-Timed later (one_read more) = hears (Packets-Timed later more)

module _ {ℓ} {S : Type ℓ} where
  -- The loop returns with an error, behind at most `n` reports.
  abbrev pub Ends : ℕ → Result (Served S) → Type ℓ
  Ends n r =
      (reports : List (Option Error)) × (e : Error) × (c : Client S) × (r
        ≡ ok (reports, (some e, c)))
      × (length reports ≤ n)

  concluded-Ends :
      (n : ℕ) (next : Client S → Result (Served S)) (r : Result (Outcome × Client S))
      → Reported r
      → ((c : Client S) → Ends n (next c))
      → Ends (suc n) (r >>= concluded next)
  unfolding concluded
  concluded-Ends n next (ok (reported x, c)) told each =
      let (reports, e, c', run, few) = each c in (x ∷ reports, e, c', rw run refl, omega arith)
  concluded-Ends n next (ok (returned (some x) e, c)) told each =
      (some x ∷ [], e, c, refl, omega arith)
  concluded-Ends n next (ok (returned none e, c)) told each = absurd told
  concluded-Ends n next (ok (waiting, c)) told each = absurd told
  concluded-Ends n next (err e) told each = absurd told
  concluded-Ends n next panic told each = absurd told

  -- With functions of the user that do not panic, `ServeRTU` returns with an error once the reader
  -- goroutine has put its error on the channel, if each transaction that is started until then has a
  -- request header, and its timer expires. It has then sent at most one value for each transaction.
  pub serve_rtu-Ends :
      (o : OverSize) (h : RtuProtocolHandler S) (accepts : List Rtu → Rtu → Bool) (acts : List Act)
      (n : ℕ) (c : Client S)
      → IsSafe h
      → Feeds acts n
      → Ends n (serve_rtu o h accepts acts c)
  unfolding serve_rtu start_transaction_to_server
  serve_rtu-Ends o h accepts _ _ c safe ends = ([], _, c, refl, omega arith)
  serve_rtu-Ends o h accepts _ n c safe (reads {acts = acts} more) =
      serve_rtu-Ends o h accepts acts n (drop_unexpected c) safe more
  serve_rtu-Ends o h accepts _ _ c safe
        (begins {n = n} {acts = acts} id f a q p spare heard_then later made packets more) =
      concluded-Ends n (serve_rtu o h accepts acts) _
        (transaction-Reported o h accepts id f a q p spare _ c safe made
          (Packets-Timed later packets))
        (λ c'. serve_rtu-Ends o h accepts acts n c' safe more)
