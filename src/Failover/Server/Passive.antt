-- ===== src/Failover/Server/Passive.antt =====
-- A passive failover server beside the transactions of the other server.
use modbusone.Base.{ℕ, ◌≤◌, ◌≡◌, ◌≢◌, ◌∙◌, ap, true, false, ne→==-false, length, none, ok}
use modbusone.Failover.{Conn}
use modbusone.Failover.Server.{Heard, round, forced, after_force, after_pdu, heard_passive}
use modbusone.OverSize.{OverSize}
use modbusone.Pdu.{Pdu}
use modbusone.Rtu.{make_rtu, get_pdu, get_slave_id}
use modbusone.Rtu.Frame.{make_rtu_roundtrip}

-- A passive failover.
pub record IsStandby (s : Conn) : Type 0 where
  pub failover : s.is_failover ≡ true
  pub passive : s.is_active ≡ false

-- `x` is a frame of a slave, without an error.
pub record IsFrame (x : Heard) (id : ℕ) (p : Pdu) : Type 0 where
  pub one : id ≢ 0
  pub long : 2 ≤ length p
  pub framed : x.rtu ≡ make_rtu id p
  pub fine : x.fails ≡ none

module _ (o : OverSize) (bytes_delay : ℕ → ℕ) where
  -- A round of a standby is that of a passive connection.
  pub round-standby :
      (x : Heard) (id : ℕ) (p : Pdu) (s : Conn)
      → IsFrame x id p
      → IsStandby s
      → round o bytes_delay x x.fails s ≡ heard_passive o bytes_delay x p s
  unfolding round after_force forced after_pdu
  round-standby x id p s f b =
      let (pdu, slave, _) = make_rtu_roundtrip id p f.long in
      let pdu' : get_pdu x.rtu ≡ ok p = ap get_pdu f.framed ∙ pdu in
      let slave' : get_slave_id x.rtu ≡ id = ap get_slave_id f.framed ∙ slave in
      rw (f.fine, b.failover, b.passive, pdu', slave', ne→==-false id 0 f.one)
