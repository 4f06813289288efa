-- ===== src/RtuClient/Loop.antt =====
-- The loop of `RTUClient.ServeRTU`, its reader goroutine, and the functions that start transactions, of
-- rtu_client.go. The reader goroutine also closes the connection behind an error.
pub mod Runs
pub mod Ends
use modbusone.Base.{
  ℕ, suc, zero, ◌+◌, Bool, List, [], ◌∷◌, length, Option, none, some, Result, ok, err, panic, ◌>>=◌,
  Error, ◌==◌, if◌then◌else◌,
}
use modbusone.Handler.{RtuProtocolHandler, ProtocolHandler}
use modbusone.MultiId.{MultiIdHandler, multi_id}
use modbusone.OverSize.{OverSize}
use modbusone.Pdu.{Pdu}
use modbusone.Rtu.{Rtu, RtuHeader, make_rtu}
use modbusone.RtuClient.{
  Client, Event, client_read, client_error, Outcome, reported, returned, waiting, transaction,
}
use modbusone.Stats.{add, other_drop}

-- What the outer loop takes from the channel: an action that starts a transaction, with what lies
-- behind the PDU in its array, and what comes while the transaction is under way; a packet; an error.
pub data Act : Type 0 where
  start : Rtu → List ℕ → List Event → Act
  heard : Rtu → Act
  failed : Error → Act

-- A packet between two transactions is dropped.
unfoldable pub drop_unexpected {ℓ} : {S : Type ℓ} → Client S → Client S
drop_unexpected c = record c { stats = add other_drop c.stats }

-- What was sent on the channels of the transactions, and what `ServeRTU` returns, if it does.
abbrev pub Served {ℓ} : Type ℓ → Type ℓ
Served S = List (Option Error) × (Option Error × Client S)

abbrev report {ℓ} : {S : Type ℓ} → Option Error → Served S → Served S
report e (reports, rest) = (e ∷ reports, rest)

-- Behind a transaction. Where no more events come, the loop waits in it.
unfoldable pub concluded {ℓ} :
    {S : Type ℓ} → (Client S → Result (Served S)) → Outcome × Client S → Result (Served S)
concluded next (reported e, c) = next c >>= λ served. ok (report e served)
concluded next (returned none e, c) = ok ([], (some e, c))
concluded next (returned (some r) e, c) = ok (some r ∷ [], (some e, c))
concluded next (waiting, c) = ok ([], (none, c))

-- `ServeRTU`
unfoldable pub serve_rtu {ℓ} :
    {S : Type ℓ}
    → OverSize
    → RtuProtocolHandler S
    → (List Rtu → Rtu → Bool)
    → List Act
    → Client S
    → Result (Served S)
unfolding transaction concluded drop_unexpected
serve_rtu o h accepts [] c = ok ([], (none, c))
serve_rtu o h accepts (start frame spare events ∷ acts) c =
    transaction o h accepts frame spare events c >>= concluded (serve_rtu o h accepts acts)
serve_rtu o h accepts (heard r ∷ acts) c = serve_rtu o h accepts acts (drop_unexpected c)
serve_rtu o h accepts (failed e ∷ acts) c = ok ([], (some e, c))

-- What `StartTransactionToServer` puts on the channel.
unfoldable pub start_transaction_to_server : ℕ → Pdu → List ℕ → List Event → Act
start_transaction_to_server slave_id req spare events = start (make_rtu slave_id req) spare events

-- A read of the packet reader: a packet, or an error.
pub data Read : Type 0 where
  packet : Rtu → Read
  broken : Error → Read

-- The reader goroutine: what it puts on the channel, up to the first error, for a loop that takes it
-- during a transaction, and between two.
unfoldable pub reader_loop : List Read → List Event
reader_loop [] = []
reader_loop (packet r ∷ reads) = client_read r ∷ reader_loop reads
reader_loop (broken e ∷ reads) = client_error e ∷ []

unfoldable pub reader_acts : List Read → List Act
reader_acts [] = []
reader_acts (packet r ∷ reads) = heard r ∷ reader_acts reads
reader_acts (broken e ∷ reads) = failed e ∷ []

-- `Serve`: one handler, for the slave id of the client.
abbrev only {ℓ} : {S : Type ℓ} → ℕ → ProtocolHandler S → MultiIdHandler S
only slave_id h id = if id == slave_id then some h else none

unfoldable pub serve {ℓ} :
    {S : Type ℓ}
    → OverSize
    → ℕ
    → ProtocolHandler S
    → (List Rtu → Rtu → Bool)
    → List Act
    → Client S
    → Result (Served S)
unfolding serve_rtu multi_id
serve o slave_id h accepts acts c = serve_rtu o (multi_id (only slave_id h)) accepts acts c

-- The interface `RTUTransactionStarter`, with the wait for its channel: a transaction with a slave id
-- and a request gives an error, or nil, and changes what it acts on.
abbrev pub Starter {ℓ} : Type ℓ → Type ℓ
Starter S = ℕ → Pdu → S → Option Error × S

-- What `DoTransactions` returns: an index or the number of the requests, and the error.
abbrev Ended {ℓ} : Type ℓ → Type ℓ
Ended S = (ℕ × Option Error) × S

-- Behind a transaction.
unfoldable pub go_on {ℓ} : {S : Type ℓ} → ℕ → (S → Ended S) → Option Error × S → Ended S
go_on i next (some e, s) = ((i, some e), s)
go_on i next (none, s) = next s

-- The loop of `DoTransactions`, from the index `i` on.
unfoldable pub do_transactions_from {ℓ} : {S : Type ℓ} → Starter S → ℕ → ℕ → List Pdu → S → Ended S
unfolding go_on
do_transactions_from c slave_id i [] s = ((i, none), s)
do_transactions_from c slave_id i (r ∷ reqs) s =
    go_on i (do_transactions_from c slave_id (suc i) reqs) (c slave_id r s)

-- `DoTransactions`
unfoldable pub do_transactions {ℓ} : {S : Type ℓ} → Starter S → ℕ → List Pdu → S → Ended S
unfolding do_transactions_from
do_transactions c slave_id reqs s = do_transactions_from c slave_id 0 reqs s

-- `DoTransaction`, with the slave id of the client, and `DoRTUTransaction`, with that of a header.
unfoldable pub do_transaction {ℓ} : {S : Type ℓ} → Starter S → ℕ → Pdu → S → Option Error × S
do_transaction c slave_id req s = c slave_id req s

unfoldable pub do_rtu_transaction {ℓ} : {S : Type ℓ} → Starter S → RtuHeader → S → Option Error × S
do_rtu_transaction c header s = c header.slave_id header.pdu s
