-- ===== src/Serial/Delays.antt =====
-- The delays are those that the line needs.
use modbusone.Base.{ℕ, ◌+◌, ◌-◌, ◌*◌, ◌/◌, ◌%◌, ◌≤◌, ◌<◌, ◌≡◌, ◌≢◌, refl, ne→==-false, ok, arith}
use modbusone.Failover.{second}
use modbusone.Serial.{bytes_delay}
use native.Mathlib.Nat.{div-add-mod', mod-lt}

-- Division that rounds up: the least number that is large enough.
round_up : (x b : ℕ) → 1 ≤ b → (x ≤ (x + b - 1) / b * b) × ((x + b - 1) / b * b < x + b)
round_up x b some =
    let whole = div-add-mod' (x + b - 1) b in
    let rest : (x + b - 1) % b < b = mod-lt (x + b - 1) some in (omega arith, omega arith)

-- For every baud rate that is not 0, `BytesDelay` is the least number of nanoseconds in which the
-- line sends `n` bytes of eleven bits each: at that rate its time covers the bits, and one
-- nanosecond less does not. No intermediate result is as large as 2^63, for up to 800 million bytes
-- and a rate of at most 10^17.
pub bytes_delay_lem :
    (baud_rate n : ℕ)
    → baud_rate ≢ 0
    → n ≤ 800000000
    → baud_rate ≤ 100000000000000000
    → (d : ℕ) × (bytes_delay baud_rate n ≡ ok d)
      × (11 * n * second ≤ d * baud_rate)
      × (d * baud_rate < 11 * n * second + baud_rate)
      × (11 * n * second + baud_rate < 9223372036854775808)
unfolding bytes_delay
bytes_delay_lem baud_rate n set few slow =
    let (enough, least) = round_up (second * 11 * n) baud_rate (omega arith) in
    (
      (second * 11 * n + baud_rate - 1) / baud_rate,
      rw (ne→==-false baud_rate 0 set) refl,
      omega arith,
      omega arith,
      omega arith,
    )
