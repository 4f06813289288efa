-- ===== src/Memory/Linked.antt =====
-- A client that reads, on one end of a line, and the server of examples/memory/main.go on the other.
use mathlib.Core.List.{map}
use modbusone.Base.{
  ℕ, suc, ◌+◌, ◌-◌, ◌≤◌, ◌≡◌, ◌≢◌, ◌∙◌, refl, ap, Bool, true, false, List, [], ◌∷◌, length,
  length-append, drop, drop-append, min, Option, none, some, Result, ok, Error, message, arith,
}
use modbusone.FunctionCode.{is_write_to_server, max_per_packet, make_request_header}
use modbusone.FunctionCode.Limits.{data_bytes}
use modbusone.Handler.{RtuProtocolHandler}
use modbusone.Memory.{Memory, handler}
use modbusone.Memory.Reads.{memory_read}
use modbusone.OverSize.{OverSize}
use modbusone.Pdu.{Pdu}
use modbusone.Pdu.Sent.{read}
use modbusone.Requests.{make_pdu_request_headers}
use modbusone.Requests.Cover.{Covers, make_pdu_request_headers-Covers}
use modbusone.Rtu.{Rtu, make_rtu}
use modbusone.RtuClient.{Client, client_read, Outcome, reported, transaction}
use modbusone.RtuClient.Exchange.{transaction-read, sent_state}
use modbusone.RtuClient.Loop.{Starter, go_on, do_transactions, do_transactions_from}
use modbusone.RtuServer.{Server, serve_packet}
use modbusone.SimpleHandler.{on_read, protocol}

-- The two ends of the line.
abbrev pub Ends : Type 0 → Type 0
Ends S = Client S × Server Memory

module _ {S : Type 0} (o : OverSize) (hc : RtuProtocolHandler S)
    (line back : List Rtu → Rtu → Bool) where
  -- Behind a transaction.
  unfoldable pub hung_up :
      Ends S → Server Memory → Result (Outcome × Client S) → Option Error × Ends S
  hung_up ends t (ok (reported e, c)) = (e, (c, t))
  hung_up ends t _ = (some message, ends)

  -- The server has had the client's frame, and the frames it wrote behind it come to the client.
  unfoldable pub heard_back : ℕ → Pdu → Ends S → Result (Server Memory) → Option Error × Ends S
  unfolding hung_up
  heard_back id req (c, s) (ok t) =
      hung_up (c, s) t
        (transaction o hc line (make_rtu id req) []
          (map client_read (drop (length s.written) t.written)) c)
  heard_back id req ends _ = (some message, ends)

  -- A transaction that reads, over the line.
  unfoldable pub over_line : Starter (Ends S)
  unfolding heard_back
  over_line id req (c, s) =
      heard_back id req (c, s) (serve_packet o back (protocol handler) id (make_rtu id req) s)

-- The client's handler gets, request by request, the bytes that the memory `m` gives for it.
pub data Got {S : Type 0} (hc : RtuProtocolHandler S) (id : ℕ) (m : Memory)
    : List Pdu → S → S → Type 0 where
  none_got : {t : S} → Got hc id m [] t t
  one_got :
      {p : Pdu} {ps : List Pdu} {t t' u : S} (bytes : List ℕ)
      → on_read handler p m ≡ (ok bytes, m)
      → hc.on_write (record { slave_id = id; pdu = p }) bytes t ≡ (ok tt, t')
      → Got hc id m ps t' u
      → Got hc id m (p ∷ ps) t u

-- The client ends with as many more frames written as it had requests, each request's bytes went to
-- its handler, and the memory is as before.
abbrev pub After : {S : Type 0} → RtuProtocolHandler S → ℕ → List Pdu → Ends S → Ends S → Type 0
After hc id ps (c, s) (c', s') =
    Got hc id s.handled ps c.handled c'.handled
    × (length c'.written ≡ length c.written + length ps)
    × (s'.handled ≡ s.handled)

module _ {S : Type 0} (o : OverSize) (hc : RtuProtocolHandler S) (line back : List Rtu → Rtu → Bool)
    (up : (l : List Rtu) (r : Rtu) → line l r ≡ true) (id : ℕ) (n : id ≢ 0) (f : ℕ)
    (reads_only : is_write_to_server f ≡ false)
    (takes : (a q : ℕ) (p : Pdu) (bytes : List ℕ) (t : S)
      → make_request_header f a q ≡ ok p
      → length bytes ≡ data_bytes f q
      → (t' : S) × (hc.on_write (record { slave_id = id; pdu = p }) bytes t ≡ (ok tt, t'))) where
  one_read :
      (a q : ℕ) (p : Pdu) (ends : Ends S)
      → make_request_header f a q ≡ ok p
      → (ends' : Ends S) × (over_line o hc line back id p ends ≡ (none, ends'))
        × After hc id (p ∷ []) ends ends'
  unfolding over_line heard_back hung_up
  one_read a q p (c, s) made =
      let (bytes, ran, enough) = memory_read o (read reads_only refl made) s.handled reads_only in
      let (t, delivered) = takes a q p bytes c.handled made enough in
      let (reply, answers, done) =
        transaction-read o hc (protocol handler) line back id n [] [] c s f a q p bytes s.handled t
          made reads_only (up c.written (make_rtu id p)) ran enough delivered in
      let came : drop (length s.written) answers.next.written ≡ reply ∷ [] =
        ap (drop (length s.written)) answers.wrote
        ∙ drop-append s.written (reply ∷ []) (length s.written) refl in
      (
        (sent_state c (make_rtu id p) t, answers.next),
        rw (answers.served, came, done) refl,
        (
          one_got bytes ran delivered none_got,
          length-append c.written (make_rtu id p ∷ []),
          answers.behind,
        ),
      )

  one_more :
      (p : Pdu) (ps : List Pdu) (x y z : Ends S)
      → After hc id (p ∷ []) x y
      → After hc id ps y z
      → After hc id (p ∷ ps) x z
  one_more p ps x y z (one_got bytes r d none_got, k, same) (got, j, still) =
      (one_got bytes r d (rw same at got), omega arith, still ∙ same)

  reads_from :
      (m a q i : ℕ) (ps : List Pdu) (x : Ends S)
      → Covers f m a q ps
      → (y : Ends S) × (do_transactions_from (over_line o hc line back) id i ps x
          ≡ ((i + length ps, none), y))
        × After hc id ps x y
  unfolding do_transactions_from go_on
  reads_from m a q i [] x covers =
      (x, ap (λ (k : ℕ). ((k, none), x)) (omega arith), (none_got, omega arith, refl))
  reads_from m a q i (p ∷ ps) x (some_left, fields, made, rest) =
      let (y, one, after) = one_read a (min m q) p x made in
      let (z, run, behind) = reads_from m (a + min m q) (q - m) (suc i) ps y rest in
      let count : suc i + length ps ≡ i + length (p ∷ ps) = omega arith in
      (z, rw one (run ∙ ap (λ (k : ℕ). ((k, none), z)) count), one_more p ps x y z after behind)

  -- A client whose handler takes every reply of the right length, over a line that takes every
  -- frame of the client, reads from the server of the example, whose slave id is not 0, with a
  -- supported function code that does not write. The address and the quantity add up to 0xFFFF at
  -- most, so that the range does not reach the address 0xFFFF. `MakePDURequestHeaders` gives
  -- requests that `DoTransactions` runs to the last one, without an error. Each of them makes the
  -- client write one frame, the client's handler gets, request by request, the bytes that the
  -- memory's `OnRead` gives, and the memory stays as it is.
  pub reads_range :
      (a q : ℕ) (x : Ends S)
      → max_per_packet f ≢ 0
      → a + q ≤ 65535
      → (ps : List Pdu) × (make_pdu_request_headers f a q [] ≡ some (ok ps))
        × ((y : Ends S) × (do_transactions (over_line o hc line back) id ps x
              ≡ ((length ps, none), y))
            × After hc id ps x y)
  unfolding do_transactions
  reads_range a q x supported range =
      let (ps, made, covers) = make_pdu_request_headers-Covers f a q [] supported range in
      let (y, run, after) = reads_from (max_per_packet f) a q 0 ps x covers in
      (ps, made, (y, run ∙ ap (λ (k : ℕ). ((k, none), y)) (omega arith), after))
