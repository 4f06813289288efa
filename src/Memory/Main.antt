-- ===== src/Memory/Main.antt =====
-- The part of `main` of examples/memory/main.go behind the flags and the serial port: which device the
-- program becomes, with which memory, and the server that it runs. The signal handler, the port's
-- settings and what is printed are not modelled.
use modbusone.Base.{
  ℕ, ◌≤◌, ◌≡◌, ◌≢◌, ◌↔◌, ◌⊎◌, inl, inr, refl, Bool, true, false, ◌||◌, ltb, ltb→lt, Bool-cases,
  List, [], Option, none, some, if◌then◌else◌, Result, ok, err, panic, arith, u8,
}
use modbusone.Base.Int.{ℤ, pos, negsuc, pos_part, ltb_ℤ}
use modbusone.Memory.{Memory, handler, fill_am3}
use modbusone.OverSize.{OverSize, max_rtu_size}
use modbusone.Rtu.{Rtu}
use modbusone.RtuServer.{Server, serve, uint64_to_slave_id}
use modbusone.SimpleHandler.{protocol}
use modbusone.Stats.{zero_stats}

-- The flags that the program reads here; `fills` is the test `*fillData == "am3"`.
pub record Flags : Type 0 where
  pub slave_id : ℕ
  pub is_client : Bool
  pub fills : Bool
  pub write_size_limit : ℤ
  pub read_size_limit : ℤ

-- The variables of the program as Go makes them.
abbrev pub zeroed : Memory
zeroed = record {
  discrete_inputs = λ i. false;
  coils = λ i. false;
  input_registers = λ i. 0;
  holding_registers = λ i. 0;
}

-- The variable `device`: an `RTUClient` with its slave id, or an `RTUServer`.
pub data Device : Type 0 where
  client : ℕ → Device
  server : ℕ → Device

-- From `Uint64ToSlaveID` to the device; `none` is `os.Exit(1)`.
abbrev with_id : Flags → Result ℕ → Option (Device × Memory)
with_id flags (ok id) =
    let memory = if flags.fills then fill_am3 else zeroed in
    if flags.is_client
    then (if ltb_ℤ (pos max_rtu_size) flags.write_size_limit
          || ltb_ℤ (pos max_rtu_size) flags.read_size_limit
        then none
        else some (client id, memory))
    else some (server id, memory)
with_id flags (err e) = none
with_id flags panic = none

unfoldable pub device : Flags → Option (Device × Memory)
unfolding uint64_to_slave_id fill_am3
device flags = with_id flags (uint64_to_slave_id flags.slave_id)

-- A server of the example as it begins, and its `Serve`.
abbrev pub fresh : Memory → Server Memory
fresh memory = record { stats = zero_stats; written = []; io_err = none; handled = memory }

unfoldable pub run_server :
    OverSize → (List Rtu → Rtu → Bool) → ℕ → Memory → List Rtu → Result (Server Memory)
unfolding serve handler
run_server o accepts id memory packets =
    serve o accepts (protocol handler) id packets (fresh memory)

-- The conditions that the program puts on its flags.
pub record IsAccepted (flags : Flags) : Type 0 where
  pub small_id : flags.slave_id ≤ 247
  pub small_limits :
      (flags.is_client ≡ false)
      ⊎ ((pos_part flags.write_size_limit ≤ 256) × (pos_part flags.read_size_limit ≤ 256))

small_limit : (w : ℤ) → (ltb_ℤ (pos max_rtu_size) w ≡ false) ↔ (pos_part w ≤ 256)
small_limit (pos n) = (λ h. ground arith, λ h. ground arith)
small_limit (negsuc n) = (λ h. omega arith, λ h. ground arith)

too_big : (flags : Flags) → ltb 247 flags.slave_id ≡ true → device flags ≡ none
unfolding device uint64_to_slave_id
too_big flags h = rw h refl

-- What the test of the limits makes of a client.
limited :
    (flags : Flags) (id : ℕ)
    → (with_id flags (ok id) ≢ none) ↔ (
        (flags.is_client ≡ false)
        ⊎ ((pos_part flags.write_size_limit ≤ 256) × (pos_part flags.read_size_limit ≤ 256)))
limited flags id =
    let w = small_limit flags.write_size_limit in
    let r = small_limit flags.read_size_limit in
    (λ h. ground (arith, h, w, r), λ h. ground (arith, h, w, r))

-- The program becomes a device exactly if the slave id is at most 247 and, for a client, both size
-- limits are at most 256; else it exits.
pub device_iff : (flags : Flags) → (device flags ≢ none) ↔ IsAccepted flags
unfolding device uint64_to_slave_id
device_iff flags = elim (Bool-cases (ltb 247 flags.slave_id)) [
  | inl big ↦ (
    λ started. absurd (started (too_big flags big)),
    λ accepted. absurd (omega (arith, accepted.small_id, ltb→lt 247 flags.slave_id big)),
  )
  | inr small ↦
      let n : flags.slave_id ≤ 247 = ground arith in
      let l = limited flags (u8 flags.slave_id) in
      rw small (
        λ started. record { small_id = n; small_limits = l.0 started },
        λ accepted. l.1 accepted.small_limits,
      )
]
