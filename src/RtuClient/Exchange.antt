-- ===== src/RtuClient/Exchange.antt =====
-- Whole transactions: from the action that starts one, over the server, to the reply.
use modbusone.Base.{
  ℕ, ◌≡◌, ◌≢◌, refl, ◌∙◌, Bool, true, false, ne→==-false, List, [], ◌∷◌, ◌++◌, length, none, ok,
  inr,
}
use modbusone.Crc
use modbusone.FunctionCode.{is_write_to_server, make_request_header}
use modbusone.FunctionCode.Limits.{data_bytes}
use modbusone.Handler.{RtuProtocolHandler, ProtocolHandler}
use modbusone.OverSize.{OverSize}
use modbusone.Pdu.{Pdu, make_read_reply, make_write_reply, make_write_request}
use modbusone.Pdu.Header.{make_request_header_roundtrip}
use modbusone.Pdu.Sent.{Sent, Sent-Reads, read, write}
use modbusone.Pdu.Values.{request_bytes}
use modbusone.Rtu.{Rtu, make_rtu, is_multicast, get_slave_id}
use modbusone.Rtu.Frame.{fast_get_pdu-make_rtu}
use modbusone.RtuClient.{
  Client, Event, client_read, reported, read_loop, transaction, send, after_on_read,
  fast_get_header, with_handled,
}
use modbusone.RtuClient.Transaction.{read_loop-read, read_loop-write}
use modbusone.RtuServer.{Server, serve_packet, wp}
use modbusone.RtuServer.Exchange.{serve_packet-read, serve_packet-write}

pub header_back :
    (id : ℕ) (p : Pdu) → fast_get_header (make_rtu id p) ≡ ok (record { slave_id = id; pdu = p })
unfolding fast_get_header make_rtu get_slave_id Crc.sum Crc.sum_from
header_back id p = rw (fast_get_pdu-make_rtu id p) refl

unicast : (id : ℕ) (p : Pdu) → id ≢ 0 → is_multicast (make_rtu id p) ≡ false
unfolding is_multicast make_rtu Crc.sum Crc.sum_from
unicast id p n = ne→==-false id 0 n

abbrev pub sent_state {ℓ} : {S : Type ℓ} → Client S → Rtu → S → Client S
sent_state c frame t = record { stats = c.stats; written = c.written ++ (frame ∷ []); handled = t }

send_lem {ℓ} :
    {S : Type ℓ} (o : OverSize) (h : RtuProtocolHandler S) (f : ℕ) (accepts : List Rtu → Rtu → Bool)
    (id : ℕ) (w : Pdu) (events : List Event) (c : Client S)
    → id ≢ 0
    → accepts c.written (make_rtu id w) ≡ true
    → send o h f accepts (make_rtu id w) events c
      ≡ read_loop o h f
          (record { slave_id = id; pdu = w })
          events
          (sent_state c (make_rtu id w) c.handled)
unfolding send
send_lem o h f accepts id w events c n taken = rw (taken, unicast id w n, header_back id w) refl

-- What `wp` has written to a slave id that is not 0.
wp_written {ℓ} :
    {S : Type ℓ} (accepts : List Rtu → Rtu → Bool) (p : Pdu) (id : ℕ) (s : Server S)
    → id ≢ 0
    → ((wp accepts p id s).written ≡ s.written ++ (make_rtu id p ∷ []))
      × ((wp accepts p id s).handled ≡ s.handled)
unfolding wp
wp_written accepts p id s n = rw (ne→==-false id 0 n) (refl, refl)

-- The server answers the frame `frame` with the one frame `reply`, and has the state `u` behind its
-- handler.
pub record Answers {ℓ} {T : Type ℓ} (o : OverSize) (accepts : List Rtu → Rtu → Bool)
    (hs : ProtocolHandler T) (id : ℕ) (s : Server T) (frame reply : Rtu) (u : T) : Type ℓ where
  pub next : Server T
  pub served : serve_packet o accepts hs id frame s ≡ ok next
  pub wrote : next.written ≡ s.written ++ (reply ∷ [])
  pub behind : next.handled ≡ u

module _ {ℓ κ} {S : Type ℓ} {T : Type κ} (o : OverSize) (hc : RtuProtocolHandler S)
    (hs : ProtocolHandler T) (line back : List Rtu → Rtu → Bool) (id : ℕ) (n : id ≢ 0)
    (spare : List ℕ) (events : List Event) (c : Client S) (s : Server T) where
  -- A transaction that reads, with a slave id that is not 0, over a connection that takes the frame.
  -- The client's frame makes the server with that slave id call `OnRead`. If this gives as many
  -- bytes as the requested values take, and the client's `OnWrite` succeeds on exactly those bytes,
  -- the server's one reply makes the client call it with them and report success.
  pub transaction-read :
      (f a q : ℕ) (w : Pdu) (bytes : List ℕ) (u : T) (t : S)
      → make_request_header f a q ≡ ok w
      → is_write_to_server f ≡ false
      → line c.written (make_rtu id w) ≡ true
      → hs.on_read w s.handled ≡ (ok bytes, u)
      → length bytes ≡ data_bytes f q
      → hc.on_write (record { slave_id = id; pdu = w }) bytes c.handled ≡ (ok tt, t)
      → (reply : Rtu) × Answers o back hs id s (make_rtu id w) reply u
        × (transaction o hc line (make_rtu id w) spare (client_read reply ∷ events) c
            ≡ ok (reported none, sent_state c (make_rtu id w) t))
  unfolding transaction
  transaction-read f a q w bytes u t made r taken ran enough delivered =
      let sent : Sent f a q [] w = read r refl made in
      let (x, y) = wp_written back (make_read_reply w bytes) id _ n in
      let code = (Sent-Reads o sent).reads_code in
      (
        make_rtu id (make_read_reply w bytes),
        record {
          next = _;
          served = serve_packet-read o back hs id id s (inr refl) sent bytes u r ran;
          wrote = x;
          behind = y;
        },
        rw (header_back id w, code, r, taken, unicast id w n)
            (read_loop-read o hc sent id events (sent_state c (make_rtu id w) c.handled) bytes t r
              enough delivered),
      )

  -- A transaction that writes, with a slave id that is not 0, over a connection that takes the
  -- frame. The client's `OnRead` gives the data for the header `p`, as long as the values of the
  -- header take it, and `w` is what `MakeWriteRequest` makes of the two. If the `OnWrite` of the
  -- server with that slave id succeeds on `w` and exactly that data, the frame makes the server call
  -- it with them, and the server's one reply makes the client report success.
  pub transaction-write :
      (f a q : ℕ) (p w : Pdu) (bytes : List ℕ) (u : T) (t : S)
      → make_request_header f a q ≡ ok p
      → is_write_to_server f ≡ true
      → hc.on_read (record { slave_id = id; pdu = p }) c.handled ≡ (ok bytes, t)
      → length bytes ≡ request_bytes f q
      → make_write_request p spare bytes ≡ ok w
      → line c.written (make_rtu id w) ≡ true
      → hs.on_write w bytes s.handled ≡ (ok tt, u)
      → (reply : Rtu) × Answers o back hs id s (make_rtu id w) reply u
        × (transaction o hc line (make_rtu id p) spare (client_read reply ∷ events) c
            ≡ ok (reported none, sent_state c (make_rtu id w) t))
  unfolding transaction after_on_read
  transaction-write f a q p w bytes u t made r data_read enough filled taken ran =
      let sent : Sent f a q bytes w = write p spare r enough made filled in
      let (x, y) = wp_written back (make_write_reply w) id _ n in
      let code = (make_request_header_roundtrip f a q p made).0 in
      (
        make_rtu id (make_write_reply w),
        record {
          next = _;
          served = serve_packet-write o back hs id id s (inr refl) sent u r ran;
          wrote = x;
          behind = y;
        },
        rw (header_back id p, code, r, data_read, filled)
            (send_lem o hc f line id w (client_read (make_rtu id (make_write_reply w)) ∷ events)
                (with_handled c t) n taken
              ∙ read_loop-write o hc sent id events (sent_state c (make_rtu id w) t) r),
      )
