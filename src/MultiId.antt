-- ===== src/MultiId.antt =====
-- `MultiIDHandler` of rtu_client.go.
use modbusone.Base.{ℕ, List, Option, none, some, Result, ok, err, panic, message}
use modbusone.Handler.{Action, ProtocolHandler, RtuProtocolHandler}
use modbusone.Pdu.{Pdu}

-- `MultiIDHandler`: the handler of each slave id.
abbrev pub MultiIdHandler {ℓ} : Type ℓ → Type ℓ
MultiIdHandler S = ℕ → Option (ProtocolHandler S)

abbrev pub read_with {ℓ} : {S : Type ℓ} → Option (ProtocolHandler S) → Pdu → Action S (List ℕ)
read_with none p s = (err message, s)
read_with (some h) p s = h.on_read p s

abbrev pub write_with {ℓ} :
    {S : Type ℓ} → Option (ProtocolHandler S) → Pdu → List ℕ → Action S (Unit {0})
write_with none p values s = (err message, s)
write_with (some h) p values s = h.on_write p values s

abbrev pub error_with {ℓ} : {S : Type ℓ} → Option (ProtocolHandler S) → Pdu → Pdu → S → Result S
error_with none req reply s = panic
error_with (some h) req reply s = ok (h.on_error req reply s)

unfoldable pub multi_id {ℓ} : {S : Type ℓ} → MultiIdHandler S → RtuProtocolHandler S
multi_id m = record {
  on_read = λ header s. read_with (m header.slave_id) header.pdu s;
  on_write = λ header values s. write_with (m header.slave_id) header.pdu values s;
  on_error = λ req reply s. error_with (m req.slave_id) req.pdu reply.pdu s;
}
