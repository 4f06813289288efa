-- ===== src/Serial.antt =====
-- The delays of serial.go. A duration is a number of nanoseconds, and a baud rate is a number: one
-- below 0 is not modelled. That no `int64` overflows is a theorem, on the numbers for which it holds.
pub mod Delays
pub mod Context
use modbusone.Base.{ℕ, ◌+◌, ◌-◌, ◌*◌, ◌/◌, leb, ◌==◌, if◌then◌else◌, Result, ok, panic, ◌>>=◌}
use modbusone.Failover.{second}

-- `DefaultCPUHiccup`
abbrev pub default_cpu_hiccup : ℕ
default_cpu_hiccup = second / 10

-- `MinDelay`. A division by zero panics.
unfoldable pub min_delay : ℕ → Result ℕ
min_delay baud_rate =
    if leb baud_rate 19200
    then (if baud_rate == 0
        then panic
        else ok ((second * 11 * 7 + baud_rate * 2 - 1) / (baud_rate * 2)))
    else ok (1750 * 1000)

-- `BytesDelay`
unfoldable pub bytes_delay : ℕ → ℕ → Result ℕ
bytes_delay baud_rate n =
    if baud_rate == 0 then panic else ok ((second * 11 * n + baud_rate - 1) / baud_rate)

-- `PacketCutoffDuration`
unfoldable pub packet_cutoff_duration : ℕ → ℕ → ℕ → Result ℕ
unfolding bytes_delay
packet_cutoff_duration baud_rate n cpu_hiccup = do
  delay ← bytes_delay baud_rate n
  ok (delay + cpu_hiccup)

-- `PacketCutoffDuration` of a serial context, for its option `CPUHiccup`.
unfoldable pub serial_packet_cutoff_duration : ℕ → ℕ → ℕ → Result ℕ
unfolding packet_cutoff_duration
serial_packet_cutoff_duration baud_rate cpu_hiccup n =
    if cpu_hiccup == 0
    then packet_cutoff_duration baud_rate n default_cpu_hiccup
    else packet_cutoff_duration baud_rate n cpu_hiccup

-- `GetTransactionTimeOut` of rtu_client.go, over a serial context, for the time that the server may
-- take.
unfoldable pub get_transaction_time_out : ℕ → ℕ → ℕ → ℕ → Result ℕ
unfolding bytes_delay
get_transaction_time_out baud_rate processing req_len ans_len = do
  delay ← bytes_delay baud_rate (req_len + ans_len)
  ok (delay + processing)
