-- ===== src/Examples/Failover.antt =====
-- The failover connection and its client, on concrete packets.
use modbusone.Base.{ℕ, ◌≡◌, ◌≤◌, inr, refl, true, false, [], ◌∷◌, length, none, ok, arith}
use modbusone.Crc.Frame.{length-sum}
use modbusone.Examples.Serial.{
  no_stats, device, read_request, three_reads, one_register, sent_read, read_made,
}
use modbusone.Failover.{Conn}
use modbusone.FailoverRtuClient
use modbusone.FailoverRtuClient.Exchange.{transaction-reply}
use modbusone.FailoverRtuClient.Listening.{serve-listens}
use modbusone.FailoverRtuClient.Loop.{Job, heard, serve, transaction}
use modbusone.FailoverRtuClient.Reports.{job-Reported}
use modbusone.RtuClient.Reports.{Reported, hears, expires}
use modbusone.RtuServer.Packet.{IsSafe}
use modbusone.FailoverRtuClient.Transaction.{Recalls, transaction-Recalls}
use modbusone.RtuClient.{client_read, time_out, reported}
use modbusone.Failover.Client.{decided}
use modbusone.Failover.Client.Takeover.{writes, writes-takeover, decided-forced}
use modbusone.Failover.Server
use modbusone.Failover.Server.{Reading}
use modbusone.Failover.Server.Active.{read-forced}
use modbusone.Failover.Server.Passive.{IsFrame}
use modbusone.Failover.Server.Rounds.{behind, Exposes, read-Exposes}
use modbusone.Failover.Server.Steps.{IsCounted, SameSettings}
use modbusone.Failover.Server.Takeover.{hear_each, hear_each-takeover}
use modbusone.OverSize
use modbusone.Pdu.{Pdu, make_read_reply}
use modbusone.Rtu.{make_rtu}
use modbusone.Rtu.Frame.{fast_get_pdu-make_rtu}

-- A standby that has missed one reply, and waits for another since the time 100.
abbrev standby : Conn
standby = record {
  is_client = false;
  is_failover = true;
  is_active = false;
  request_time = 100;
  req_packet = read_request;
  last_read = 100;
  primary_disconnect_delay = 1000;
  primary_force_back_delay = 5000;
  start_time = 1;
  secondary_delay = 10;
  miss_delay = 20;
  misses_max = 2;
  misses = 1;
}

abbrev idle : Conn
idle = record standby { request_time = 0; req_packet = [] }

abbrev primary : Conn
primary = record standby { is_client = true; is_failover = false; is_active = true }

abbrev delay : ℕ → ℕ
delay n = n

-- A frame of the slave 17, heard at a time.
abbrev heard_at : Pdu → ℕ → Server.Heard
heard_at p t = record {
  rtu = make_rtu 17 p;
  fails = none;
  force_at = t;
  silent_at = t;
  restart_at = t;
  now = t;
  done_at = t;
}

heard-IsFrame : (p : Pdu) (t : ℕ) → 2 ≤ length p → IsFrame (heard_at p t) 17 p
heard-IsFrame p t long = record { one = λ e. omega arith; long = long; framed = refl; fine = refl }

abbrev reply : Pdu
reply = make_read_reply read_request (0xAB ∷ 0xCD ∷ [])

frame_length : length (make_rtu 17 read_request) ≡ 8
unfolding make_rtu
frame_length = omega (arith, length-sum (17 ∷ read_request))

read-Exposes_example :
    (r : Reading) × (Server.read OverSize.default delay (heard_at read_request 200 ∷ []) standby
      ≡ ok r)
    × Exposes r
    × SameSettings standby (behind r)
    × IsCounted (behind r)
read-Exposes_example =
    read-Exposes OverSize.default delay (heard_at read_request 200 ∷ []) standby (inr (omega arith))

-- A failover in charge, and a primary that was started long ago.
abbrev in_charge : Conn
in_charge = record idle { is_active = true }

abbrev old_primary : Conn
old_primary = record idle { is_failover = false }

read-forced_example :
    (s' : Conn) × (Server.read OverSize.default delay
        (heard_at read_request 6000 ∷ [])
        (record old_primary { last_read = 5900 })
      ≡ ok (Server.got (heard_at read_request 6000) (length (make_rtu 17 read_request)) none s' []))
    × (s' ≡ record old_primary { is_active = true; last_read = 6000 })
    × ((Server.server_write (λ c. c) s').0 ≡ true)
read-forced_example =
    read-forced OverSize.default delay (heard_at read_request 6000) []
      (record old_primary { last_read = 5900 }) refl refl refl (omega arith) (omega arith)

hear_each-takeover_example :
    (s' : Conn) × (hear_each OverSize.default delay
        (heard_at read_request 200 ∷ heard_at read_request 300 ∷ [])
        standby
      ≡ ok s')
    × (s'.misses ≡ 3)
    × (s'.is_active ≡ true)
hear_each-takeover_example =
    hear_each-takeover OverSize.default delay
      (heard_at read_request 200 ∷ heard_at read_request 300 ∷ []) standby
      (record { failover = refl; passive = refl }) (λ e. omega arith)
      (
        (17, read_request, heard-IsFrame read_request 200 (omega arith)),
        omega (arith, frame_length),
        (
          (17, read_request, heard-IsFrame read_request 300 (omega arith)),
          omega (arith, frame_length),
          tt,
        ),
      )
      (omega arith) (omega arith)

writes-takeover_example :
    writes ((make_rtu 17 read_request, 200) ∷ (make_rtu 17 read_request, 300) ∷ []) standby
    ≡ ok (
      make_rtu 17 read_request ∷ [],
      record standby {
        is_active = true;
        misses = 2;
        request_time = 300;
        req_packet = read_request;
      },
    )
writes-takeover_example =
    writes-takeover ((make_rtu 17 read_request, 200) ∷ []) (make_rtu 17 read_request) read_request
      300 standby refl refl refl (fast_get_pdu-make_rtu 17 read_request)

decided-forced_example : (decided 9000 primary).is_active ≡ true
decided-forced_example = decided-forced 9000 primary refl (omega arith)

-- A client that waits for nothing.
abbrev listener : FailoverRtuClient.Client ℕ
listener = record { stats = no_stats; written = []; conn = primary; last = []; handled = 0 }

serve-listens_example :
    serve OverSize.default device
      (λ sent frame. true)
      (heard (make_rtu 17 read_request) ∷ heard (make_rtu 17 reply) ∷ [])
      listener
    ≡ serve OverSize.default device
        (λ sent frame. true)
        []
        (record listener { last = []; handled = 2 })
serve-listens_example =
    serve-listens OverSize.default device (λ sent frame. true) 17 17 (0xAB ∷ 0xCD ∷ []) 2 []
      listener sent_read three_reads one_register refl refl

-- An active failover client, which reads a reply to another request.
abbrev active : FailoverRtuClient.Client ℕ
active = record listener { conn = record standby { is_client = true; is_active = true } }

abbrev job : Job
job = record {
  frame = make_rtu 17 read_request;
  spare = [];
  now = 200;
  before = λ conn. conn;
  meanwhile = λ conn. conn;
  events = client_read (make_rtu 17 (3 ∷ 4 ∷ 0 ∷ 0 ∷ 0 ∷ 0 ∷ [])) ∷ time_out ∷ [];
}

transaction-Recalls_example :
    Recalls [] (transaction OverSize.default device (λ sent frame. true) job active)
transaction-Recalls_example =
    transaction-Recalls OverSize.default device (λ sent frame. true) job active

abbrev answered : Job
answered = record job { events = client_read (make_rtu 17 reply) ∷ [] }

transaction-reply_example :
    transaction OverSize.default device (λ sent frame. true) answered active
    ≡ ok (
      reported none,
      record {
        stats = no_stats;
        written = make_rtu 17 read_request ∷ [];
        conn = record standby {
          is_client = true;
          is_active = true;
          request_time = 200;
          req_packet = read_request;
        };
        last = [];
        handled = 2;
      },
    )
transaction-reply_example =
    transaction-reply OverSize.default device (λ sent frame. true) 17 (0xAB ∷ 0xCD ∷ []) 2 []
      answered active sent_read three_reads (λ e. omega arith) refl refl refl refl refl refl
      one_register refl

device-IsSafe : IsSafe device
device-IsSafe = record { read_safe = λ p s e. cc; write_safe = λ p values s e. cc }

-- A frame of another slave, and the timer.
abbrev unanswered : Job
unanswered = record job { events = client_read (1 ∷ 2 ∷ []) ∷ time_out ∷ [] }

job-Reported_example :
    Reported (transaction OverSize.default device (λ sent frame. true) unanswered active)
job-Reported_example =
    job-Reported OverSize.default device device-IsSafe (λ sent frame. true) unanswered
      (hears expires) 17 3 1 1 read_request active read_made refl
