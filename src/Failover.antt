-- ===== src/Failover.antt =====
-- The failover connection of failover.go: its fields, and how it is made. A time is a number of
-- nanoseconds since the zero time of Go, which is 0, and a time the code reads from the clock is an
-- argument. The counter `misses` is a number with no upper end. The lock is not modelled: what one
-- goroutine does while it holds the lock is one function.
pub mod Server
pub mod Client
use Prim.Native.String
use Prim.Native.String.{String}
use modbusone.Base.{ℕ, ◌+◌, ◌*◌, ◌/◌, Bool, true, false, List, [], if◌then◌else◌}
use modbusone.Pdu.{Pdu}

-- `FailoverSerialConn`, without the connection and the packet reader below it. `is_client` and
-- `is_failover` do not change.
pub record Conn : Type 0 where
  pub is_client : Bool
  pub is_failover : Bool
  pub is_active : Bool
  pub request_time : ℕ
  pub req_packet : Pdu
  pub last_read : ℕ
  pub primary_disconnect_delay : ℕ
  pub primary_force_back_delay : ℕ
  pub start_time : ℕ
  pub secondary_delay : ℕ
  pub miss_delay : ℕ
  pub misses_max : ℕ
  pub misses : ℕ

-- `time.Second`
abbrev pub second : ℕ
second = 1000000000

-- `NewFailoverConn`, at the time `now`.
unfoldable pub new_failover_conn : Bool → Bool → ℕ → Conn
new_failover_conn is_failover is_client now = record {
  is_client = is_client;
  is_failover = is_failover;
  is_active = false;
  request_time = 0;
  req_packet = [];
  last_read = 0;
  primary_disconnect_delay = 10 * second;
  primary_force_back_delay = 10 * (60 * second);
  start_time = now;
  secondary_delay = second / 10;
  miss_delay = second / 5;
  misses_max = if is_failover then 4 else 2;
  misses = 0;
}

-- `resetRequestTime`
abbrev pub reset_request_time : Conn → Conn
reset_request_time s = record s { request_time = 0; req_packet = [] }

-- `setLastReqTime`
abbrev pub set_last_req_time : Pdu → ℕ → Conn → Conn
set_last_req_time pdu now s = record s { request_time = now; req_packet = pdu }

-- `IsActive`
unfoldable pub is_active : Conn → Bool
is_active s = s.is_active

-- `describe`
unfoldable pub describe : Conn → String
describe s = String.◌++◌ "FailoverSerialConn" (
    String.◌++◌ (if s.is_client then " Client" else " Server") (
      String.◌++◌ (if s.is_failover then " Failover" else " Primary")
        (if s.is_active then " Active" else " Passive")))
