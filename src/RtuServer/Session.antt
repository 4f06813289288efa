-- ===== src/RtuServer/Session.antt =====
-- A whole session on a serial line: the bytes that arrive, the packets that the reader makes of them,
-- and what the server writes.
use mathlib.Core.List.{map}
use modbusone.Base.{
  ℕ, suc, ◌≤◌, ◌≡◌, ◌≢◌, ◌∙◌, refl, sym, ap, inr, Bool, true, ne→==-false, List, [], ◌∷◌, ◌++◌,
  length, append-nil, append_assoc, none, Result, ok, ok-injective, err, panic, ◌>>=◌, arith,
}
use modbusone.Device.{respond}
use modbusone.Device.Session.{Answered, none_left, one_more}
use modbusone.Handler.{ProtocolHandler}
use modbusone.OverSize.{OverSize}
use modbusone.PacketReader.{Setup, Arrival, Reader}
use modbusone.PacketReader.Frames.{packets, Frames, packets-Frames}
use modbusone.Pdu.{Pdu, validate_request}
use modbusone.Rtu.{Rtu, make_rtu, get_slave_id}
use modbusone.Rtu.Frame.{make_rtu_roundtrip}
use modbusone.RtuServer.{Server, answer, serve_packet, serve, fail_io}
use modbusone.RtuServer.Refines.{observe, framed, on_line, serve_packet-refines}
use modbusone.RtuServer.Quiet.{Quiet, serve_packet-Quiet}
use modbusone.RtuServer.Run.{served-nil, served-cons}

module _ {ℓ} {S : Type ℓ} (o : OverSize) (accepts : List Rtu → Rtu → Bool) (h : ProtocolHandler S)
    (takes : (l : List Rtu) (r : Rtu) → accepts l r ≡ true) where
  observed :
      (r : Result (Server S)) (l : List Rtu) (t : S)
      → observe r ≡ ok (l, t)
      → Quiet o accepts h takes r
      → (s' : Server S) × (r ≡ ok s') × (s'.written ≡ l) × (s'.handled ≡ t) × (s'.io_err ≡ none)
  unfolding observe
  observed (ok s') l t e quiet =
      let same : (s'.written, s'.handled) ≡ (l, t) = ok-injective e in
      (s', refl, ap (λ (x : List Rtu × S). x.0) same, ap (λ (x : List Rtu × S). x.1) same, quiet)
  observed (err e) l t eq quiet = cc
  observed panic l t eq quiet = cc

  valid_length : (p : Pdu) → validate_request p ≡ ok tt → 2 ≤ length p
  unfolding validate_request
  valid_length p good = ground arith

  -- One request, at the server's own slave id.
  served_one :
      (id : ℕ) (p q : Pdu) (s : Server S) (t : S)
      → id ≢ 0
      → s.io_err ≡ none
      → validate_request p ≡ ok tt
      → respond o h p s.handled ≡ ok (q, t)
      → (s' : Server S) × (serve_packet o accepts h id (make_rtu id p) s ≡ ok s')
        × (s'.written ≡ s.written ++ (make_rtu id q ∷ []))
        × (s'.handled ≡ t)
        × (s'.io_err ≡ none)
  unfolding on_line framed
  served_one id p q s t one quiet good answer =
      let r = make_rtu id p in
      let (pdu, slave, _) = make_rtu_roundtrip id p (valid_length p good) in
      let seen = serve_packet-refines o accepts h id r p s pdu good (inr slave) in
      let contract : on_line s.written (get_slave_id r) (respond o h p s.handled)
          ≡ ok (s.written ++ (make_rtu id q ∷ []), t) =
        rw (answer, slave, ne→==-false id 0 one) refl in
      observed (serve_packet o accepts h id r s) _ t (seen ∙ contract)
        (serve_packet-Quiet o accepts h takes id r s quiet)

  served :
      {ps qs : List Pdu} (id : ℕ) (s : Server S) (s0 t : S)
      → id ≢ 0
      → s.io_err ≡ none
      → s.handled ≡ s0
      → Answered o h ps s0 qs t
      → (s' : Server S) × (serve o accepts h id (map (make_rtu id) ps) s ≡ ok s')
        × (s'.written ≡ s.written ++ map (make_rtu id) qs)
        × (s'.handled ≡ t)
  served id s s0 t one quiet at none_left =
      (fail_io s, served-nil o accepts h id s quiet, sym (append-nil s.written), at)
  served id s s0 u one quiet at
        (one_more {p = p} {q = q} {ps = ps} {qs = qs} {t = t} good answer rest) =
      let answer' = ap (respond o h p) at ∙ answer in
      let (s', first, wrote, handled, still) = served_one id p q s t one quiet good answer' in
      let (s'', others, more, left) = served id s' t u one still handled rest in
      let loop = λ (r : Result (Server S)). r >>= serve o accepts h id (map (make_rtu id) ps) in
      (
        s'',
        served-cons o accepts h id (make_rtu id p) (map (make_rtu id) ps) s quiet
            ∙ ap loop first
            ∙ others,
        more
            ∙ ap (λ (x : List Rtu). x ++ map (make_rtu id) qs) wrote
            ∙ append_assoc s.written (make_rtu id q ∷ []) (map (make_rtu id) qs),
        left,
      )

  length-map : (f : Pdu → Rtu) (ps : List Pdu) → length (map f ps) ≡ length ps
  length-map f [] = refl
  length-map f (p ∷ ps) = ap suc (length-map f ps)

  -- A serial line on which valid requests arrive, each framed with the server's slave id, which is
  -- not 0, over a connection that takes every frame, for a server without an I/O error. The packet
  -- reader has nothing left over, and is neither bidirectional nor of a two-wire line. Each frame
  -- fits its buffer, is as long as the size that the reader infers from its header, and comes in
  -- bursts that are not empty and of which each follows the one before it within the cutoff of the
  -- reader for its bytes; no burst has bytes of two frames, and no read fails until all are read.
  -- Then what the packet reader gives makes `Serve` write the replies of the contract, in order,
  -- framed with the same id, and nothing else, and the state behind the handler is that of the
  -- contract, once the connection ends.
  pub serve_line :
      (c : Setup) (arrivals : List Arrival) (r : Reader) (id : ℕ) (ps qs : List Pdu) (s : Server S)
      (t : S)
      → id ≢ 0
      → r.last ≡ []
      → Frames c (map (make_rtu id) ps) arrivals
      → s.io_err ≡ none
      → Answered o h ps s.handled qs t
      → (s' : Server S) × (serve o accepts h id (packets c (length ps) arrivals r) s ≡ ok s')
        × (s'.written ≡ s.written ++ map (make_rtu id) qs)
        × (s'.handled ≡ t)
  serve_line c arrivals r id ps qs s t one clear frames quiet answered =
      let read_all : packets c (length ps) arrivals r ≡ map (make_rtu id) ps =
        rw length-map at (packets-Frames c (map (make_rtu id) ps) arrivals r clear frames) in
      let (s', run, wrote, handled) = served id s s.handled t one quiet refl answered in
      (s', ap (λ (x : List Rtu). serve o accepts h id x s) read_all ∙ run, wrote, handled)
