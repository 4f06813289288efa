-- ===== src/FailoverRtuClient/Exchange.antt =====
-- A transaction of a failover client that is in charge of the line.
use modbusone.Base.{
  ℕ, ◌≤◌, ◌≡◌, ◌≢◌, ◌∙◌, refl, ap, not, ==_refl, ne→==-false, Bool, true, false, List, [], ◌∷◌,
  ◌++◌, length, none, ok, if◌then◌else◌, arith,
}
use modbusone.Crc
use modbusone.Failover.{Conn, set_last_req_time}
use modbusone.Failover.Client.Exchange.{write-active}
use modbusone.FailoverRtuClient.{
  Client, with_handled, read_loop, after_get_pdu, accept_reply, after_reply_values, after_on_write,
}
use modbusone.FailoverRtuClient.Loop.{Job, transaction, send, after_write}
use modbusone.FunctionCode.{is_read_to_server, is_write_to_server, separate_error}
use modbusone.FunctionCode.Limits.{data_bytes}
use modbusone.Handler.{ProtocolHandler}
use modbusone.OverSize.{OverSize}
use modbusone.Pdu.{Pdu, get_function_code, make_read_reply}
use modbusone.Pdu.Sent.{Sent, Sent-Reads, Sent-HasForm}
use modbusone.RequestReply.Sound.{is_request_reply-read, read_bytes}
use modbusone.Rtu.{Rtu, make_rtu, get_slave_id, is_multicast}
use modbusone.Rtu.Frame.{make_rtu_roundtrip, fast_get_pdu-make_rtu}
use modbusone.RtuClient.{Event, client_read, reported}
use modbusone.RtuClient.Transaction.{
  data_read_back, read_length, read_reply_code, small_code, valid_code,
}

module _ {ℓ} {S : Type ℓ} (o : OverSize) (h : ProtocolHandler S) where
  received :
      (afc id : ℕ) (req p : Pdu) (events : List Event) (c : Client S)
      → 2 ≤ length p
      → read_loop o h afc req id (client_read (make_rtu id p) ∷ events) c
        ≡ after_get_pdu o h afc req c (ok p)
  unfolding read_loop make_rtu Crc.sum Crc.sum_from
  received afc id req p events c n =
      rw (==_refl id) (ap (after_get_pdu o h afc req c) (make_rtu_roundtrip id p n).0)

  reply_read :
      {f a q : ℕ} {values : List ℕ} {w : Pdu} (id : ℕ) (bytes : List ℕ) (t : S)
      (events : List Event) (c : Client S)
      → Sent f a q values w
      → is_write_to_server f ≡ false
      → length bytes ≡ data_bytes f q
      → h.on_write w bytes c.handled ≡ (ok tt, t)
      → read_loop o h f w id (client_read (make_rtu id (make_read_reply w bytes)) ∷ events) c
        ≡ ok (reported none, with_handled c t)
  unfolding after_get_pdu accept_reply after_reply_values after_on_write
  reply_read {f} {w = w} id bytes t events c sent reads n ran =
      let k = Sent-Reads o sent in
      let (some_bytes, few) = read_bytes (Sent-HasForm sent) reads in
      let kind : is_read_to_server f ≡ true = k.reads_kind ∙ ap not reads in
      let flag : (separate_error (get_function_code (make_read_reply w bytes))).0 ≡ false =
        ap (λ (x : ℕ). (separate_error x).0) (read_reply_code w bytes)
        ∙ small_code (get_function_code w) (valid_code w k.reads_valid) in
      received f id w (make_read_reply w bytes) events c (read_length w bytes)
      ∙ rw
          (
            flag,
            is_request_reply-read o bytes sent reads n,
            kind,
            data_read_back w bytes (omega arith) (omega arith),
            ran,
          )
          refl

unicast : (id : ℕ) (p : Pdu) → id ≢ 0 → is_multicast (make_rtu id p) ≡ false
unfolding is_multicast make_rtu Crc.sum Crc.sum_from
unicast id p n = ne→==-false id 0 n

slave_of : (id : ℕ) (p : Pdu) → get_slave_id (make_rtu id p) ≡ id
unfolding get_slave_id make_rtu Crc.sum Crc.sum_from
slave_of id p = refl

awaited {ℓ} :
    {S : Type ℓ} (o : OverSize) (h : ProtocolHandler S) (accepts : List Rtu → Rtu → Bool)
    (job : Job) (f id : ℕ) (w : Pdu) (c : Client S)
    → id ≢ 0
    → c.conn.is_active ≡ true
    → after_write o h accepts job f (make_rtu id w) w false c ≡ read_loop o h f w id job.events c
unfolding after_write
awaited o h accepts job f id w c one active =
    rw (unicast id w one, slave_of id w)
      (ap (λ (b : Bool). if not b then ok (reported none, c) else read_loop o h f w id job.events c)
        active)

-- The connection when it is read whether it is active.
abbrev pub conn_after : Job → Pdu → Conn → Conn
conn_after job w conn = job.meanwhile (set_last_req_time w job.now (job.before conn))

abbrev sent_client {ℓ} : {S : Type ℓ} → Client S → Rtu → Conn → Client S
sent_client c frame conn = record {
  stats = c.stats;
  written = c.written ++ (frame ∷ []);
  conn = conn;
  last = c.last;
  handled = c.handled;
}

-- A failover client whose connection is active when it writes, and still so behind the write, reads
-- values of a slave over a serial context that takes the frame. Where the data reply comes first,
-- with as many bytes as the requested values take, and `OnWrite` succeeds on exactly those bytes, the
-- transaction reports success: the frame is written, and the connection has noted the request.
pub transaction-reply {ℓ} :
    {S : Type ℓ} (o : OverSize) (h : ProtocolHandler S) (accepts : List Rtu → Rtu → Bool)
    {f a q : ℕ} {values : List ℕ} {w : Pdu} (id : ℕ) (bytes : List ℕ) (t : S) (events : List Event)
    (job : Job) (c : Client S)
    → Sent f a q values w
    → is_write_to_server f ≡ false
    → id ≢ 0
    → job.frame ≡ make_rtu id w
    → job.events ≡ client_read (make_rtu id (make_read_reply w bytes)) ∷ events
    → (job.before c.conn).is_failover ≡ true
    → (job.before c.conn).is_active ≡ true
    → (conn_after job w c.conn).is_active ≡ true
    → accepts c.written (make_rtu id w) ≡ true
    → length bytes ≡ data_bytes f q
    → h.on_write w bytes c.handled ≡ (ok tt, t)
    → transaction o h accepts job c
      ≡ ok (
        reported none,
        record {
          stats = c.stats;
          written = c.written ++ (make_rtu id w ∷ []);
          conn = conn_after job w c.conn;
          last = c.last;
          handled = t;
        },
      )
unfolding transaction send
transaction-reply o h accepts {f} {w = w} id bytes t events job c sent reads one framed comes
      failover active still taken n ran =
    let k = Sent-Reads o sent in
    ap (λ (frame : Rtu). transaction o h accepts (record job { frame = frame }) c) framed
    ∙ rw
        (
          fast_get_pdu-make_rtu id w,
          k.reads_code,
          reads,
          write-active id job.now w (job.before c.conn) failover active,
          taken,
        )
        refl
    ∙ awaited o h accepts job f id w (sent_client c (make_rtu id w) (conn_after job w c.conn)) one
        still
    ∙ ap
        (λ (e : List Event).
          read_loop o h f w id e (sent_client c (make_rtu id w) (conn_after job w c.conn)))
        comes
    ∙ reply_read o h id bytes t events (sent_client c (make_rtu id w) (conn_after job w c.conn))
        sent reads n ran
