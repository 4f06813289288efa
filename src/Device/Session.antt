-- ===== src/Device/Session.antt =====
-- Requests that a server answers one after the other, whatever the line: the contract of a session.
use modbusone.Base.{◌≡◌, List, [], ◌∷◌, ok}
use modbusone.Device.{respond}
use modbusone.Handler.{ProtocolHandler}
use modbusone.OverSize.{OverSize}
use modbusone.Pdu.{Pdu, validate_request}

-- Valid requests, the replies to them, and the states in front and behind.
pub data Answered {ℓ} {S : Type ℓ} (o : OverSize) (h : ProtocolHandler S)
    : List Pdu → S → List Pdu → S → Type ℓ where
  none_left : {s : S} → Answered o h [] s [] s
  one_more :
      {p q : Pdu} {ps qs : List Pdu} {s t u : S}
      → validate_request p ≡ ok tt
      → respond o h p s ≡ ok (q, t)
      → Answered o h ps t qs u
      → Answered o h (p ∷ ps) s (q ∷ qs) u
