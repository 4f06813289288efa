-- ===== src/Handler.antt =====
-- The interfaces `ProtocolHandler` and `RTUProtocolHandler` of modbus.go. The functions that a user gives act on a state `S`,
-- which is what they share with the rest of the user's program.
use modbusone.Base.{ℕ, List, Result, ok, err, panic}
use modbusone.Pdu.{Pdu}
use modbusone.Rtu.{RtuHeader}

-- A function of the user: what it returns, and the state behind it.
abbrev pub Action {ℓ} : Type ℓ → Type 0 → Type ℓ
Action S A = S → Result A × S

pub record ProtocolHandler {ℓ} (S : Type ℓ) : Type ℓ where
  pub on_read : Pdu → Action S (List ℕ)
  pub on_write : Pdu → List ℕ → Action S (Unit {0})
  -- the request, and the PDU of the reply
  pub on_error : Pdu → Pdu → S → S

-- The interface `RTUProtocolHandler` of modbus.go.
pub record RtuProtocolHandler {ℓ} (S : Type ℓ) : Type ℓ where
  pub on_read : RtuHeader → Action S (List ℕ)
  pub on_write : RtuHeader → List ℕ → Action S (Unit {0})
  -- the error handler may panic
  pub on_error : RtuHeader → RtuHeader → S → Result S

-- What goes on only where a result is good.
abbrev pub and_then {ℓ} : {S : Type ℓ} {A B : Type 0} → Result A → (A → Action S B) → Action S B
and_then (ok a) k s = k a s
and_then (err e) k s = (err e, s)
and_then panic k s = (panic, s)
