-- ===== src/FailoverRtuClient/Made.antt =====
-- The constructor of failover_rtu_client.go, its time-out, and its functions that start transactions.
use modbusone.Base.{
  ℕ, ◌+◌, ◌≡◌, ◌↔◌, inl, inr, Bool-cases, refl, Bool, true, List, Option, Error, if◌then◌else◌,
  Result, ok, panic, ◌>>=◌, arith,
}
use modbusone.Failover.{Conn, second, new_failover_conn}
use modbusone.FailoverRtuClient.Loop.{Act, start}
use modbusone.PacketSize.{same}
use modbusone.Pdu.{Pdu}
use modbusone.Rtu.{make_rtu}
use modbusone.RtuClient.{Event}
use modbusone.RtuClient.Loop.{Starter}

-- `FailoverRTUClient`, but for its channel. The packet reader is the connection.
pub record Fields : Type 0 where
  pub conn : Conn
  pub slave_id : ℕ
  pub server_processing_time : ℕ

-- A `SerialContext` that is given, by the type assertion on it.
pub data Given : Type 0 where
  failover_conn : Conn → Given
  plain : Given

-- The variable `pr`, at the time `now`.
abbrev pub connection : Given → Bool → ℕ → Conn
connection (failover_conn c) is_failover now = c
connection plain is_failover now = new_failover_conn is_failover true now

-- `NewFailoverRTUClient`
unfoldable pub new_failover_rtu_client : Given → Bool → ℕ → ℕ → Result Fields
unfolding new_failover_conn
new_failover_rtu_client given is_failover slave_id now =
    let pr = connection given is_failover now in
    if same pr.is_failover is_failover
    then ok (record { conn = pr; slave_id = slave_id; server_processing_time = second })
    else panic

-- `SetServerProcessingTime`
abbrev pub set_server_processing_time : ℕ → Fields → Fields
set_server_processing_time t c = record c { server_processing_time = t }

-- `GetTransactionTimeOut`, for the `BytesDelay` of the connection.
unfoldable pub get_transaction_time_out : (ℕ → Result ℕ) → Fields → ℕ → ℕ → Result ℕ
get_transaction_time_out delay c req_len ans_len = do
  d ← delay (req_len + ans_len)
  ok (d + c.server_processing_time)

-- `StartTransactionToServer`, and `DoTransaction` with the slave id of the client. What goes with the
-- action, as in a `Job`, is given.
unfoldable pub start_transaction_to_server :
    ℕ → Pdu → List ℕ → ℕ → (Conn → Conn) → (Conn → Conn) → List Event → Act
start_transaction_to_server slave_id req spare now before meanwhile events = start (record {
  frame = make_rtu slave_id req;
  spare = spare;
  now = now;
  before = before;
  meanwhile = meanwhile;
  events = events;
})

unfoldable pub do_transaction {ℓ} : {S : Type ℓ} → Fields → Starter S → Pdu → S → Option Error × S
do_transaction fields c req s = c fields.slave_id req s

-- Two Boolean values are the same.
same_iff : (x y : Bool) → (same x y ≡ true) ↔ (x ≡ y)
same_iff x y = ground arith

-- The constructor panics exactly on a failover connection that was made for the other role. Else the
-- client has the connection that was given, or a new one for clients with the role, and gives the
-- server a second.
pub new_failover_rtu_client_iff :
    (given : Given) (is_failover : Bool) (slave_id now : ℕ)
    → (new_failover_rtu_client given is_failover slave_id now
        ≡ ok (record {
          conn = connection given is_failover now;
          slave_id = slave_id;
          server_processing_time = second;
        }))
      ↔ ((connection given is_failover now).is_failover ≡ is_failover)
unfolding new_failover_rtu_client
new_failover_rtu_client_iff given is_failover slave_id now =
    elim (Bool-cases (same (connection given is_failover now).is_failover is_failover)) [
      | inl agree ↦ rw agree (λ e. (same_iff _ _).0 agree, λ e. refl)
      | inr differ ↦ rw differ (λ e. cc, λ e. cc (differ, (same_iff _ _).1 e))
    ]
