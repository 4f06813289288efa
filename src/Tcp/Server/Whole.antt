-- ===== src/Tcp/Server/Whole.antt =====
-- A whole session on a connection of the server of tcp_server.go.
use modbusone.Base.{
  ℕ, zero, suc, ◌+◌, ◌≤◌, ◌<◌, ◌≡◌, ◌∙◌, refl, sym, ap, List, [], ◌∷◌, ◌++◌, length, append-nil,
  append_assoc, All, some, Result, ok, err, io_failure, ◌>>=◌, arith,
}
use modbusone.Device.Session.{Answered, none_left, one_more}
use modbusone.Handler.{ProtocolHandler}
use modbusone.OverSize.{OverSize}
use modbusone.Pdu.{Pdu}
use modbusone.Tcp.{read_tcp}
use modbusone.Tcp.Framing.{frame_of}
use modbusone.Tcp.Server.{Session, Round, go_on, after_tcp, round, serve, buffer_size}
use modbusone.Tcp.Server.Refines.{round-refines}

-- The bytes of packets, one behind the other.
abbrev pub stream_of : List (List ℕ) → List ℕ
stream_of [] = []
stream_of (p ∷ ps) = p ++ stream_of ps

-- The two bytes of the transaction, and the unit, of a packet.
abbrev pub Tag : Type 0
Tag = ℕ × ℕ × ℕ

-- The packets of PDUs, each with its own transaction and unit.
abbrev pub wire : List Tag → List Pdu → List (List ℕ)
wire [] ps = []
wire (k ∷ tags) [] = []
wire ((a, b, unit) ∷ tags) (p ∷ ps) = frame_of a b unit p ∷ wire tags ps

module _ {ℓ} {S : Type ℓ} (o : OverSize) (h : ProtocolHandler S) where
  -- A PDU whose packet fits the buffer of the server.
  abbrev pub FitsBuffer : Pdu → Type 0
  FitsBuffer p = (length p < 65535) × (length p + 7 ≤ buffer_size o)

  nothing_left : (size : ℕ) → read_tcp [] size ≡ err io_failure
  unfolding read_tcp
  nothing_left size = refl

  ended : (fuel : ℕ) (s : Session S) → s.stream ≡ [] → serve o h (suc fuel) s ≡ ok (some s)
  unfolding serve round after_tcp go_on
  ended fuel s e =
      let failed : read_tcp s.stream (buffer_size o) ≡ err io_failure =
        ap (λ (x : List ℕ). read_tcp x (buffer_size o)) e ∙ nothing_left (buffer_size o) in
      ap (λ (m : Result (List ℕ × List ℕ)). after_tcp o h s m >>= go_on o h (serve o h fuel)) failed

  abbrev session : List ℕ → List (List ℕ) → S → Session S
  session stream written handled = record { stream = stream; written = written; handled = handled }

  served :
      {ps qs : List Pdu} (tags : List Tag) (fuel : ℕ) (l : List (List ℕ)) (s t : S)
      → length tags ≡ length ps
      → length ps < fuel
      → Answered o h ps s qs t
      → All FitsBuffer ps
      → All FitsBuffer qs
      → serve o h fuel (session (stream_of (wire tags ps)) l s)
        ≡ ok (some (session [] (l ++ wire tags qs) t))
  unfolding serve go_on
  served tags zero l s t tagged enough answered fits fits' = absurd (omega arith)
  served [] (suc fuel) l s t tagged enough none_left fits fits' =
      ended fuel (session [] l s) refl
      ∙ ap (λ (x : List (List ℕ)). ok (some (session [] x s))) (sym (append-nil l))
  served (k ∷ tags) (suc fuel) l s t tagged enough none_left fits fits' = absurd (omega arith)
  served [] (suc fuel) l s u tagged enough (one_more good answer rest) fits fits' =
      absurd (omega arith)
  served ((a, b, unit) ∷ tags) (suc fuel) l s u tagged enough
        (one_more {p = p} {q = q} {ps = ps} {qs = qs} {t = t} good answer rest) (fp, fits)
        (fq, fits') =
      let k : Tag = (a, b, unit) in
      let step =
        round-refines o h a b unit p q (stream_of (wire tags ps))
          (session (stream_of (wire (k ∷ tags) (p ∷ ps))) l s) t good fp.0 fp.1 refl answer fq.1 in
      let others =
        served tags fuel (l ++ (frame_of a b unit q ∷ [])) t u (omega arith) (omega arith) rest fits
          fits' in
      let again = ap (λ (m : Result (Round S)). m >>= go_on o h (serve o h fuel)) step in
      let more = append_assoc l (frame_of a b unit q ∷ []) (wire tags qs) in
      again ∙ others ∙ ap (λ (x : List (List ℕ)). ok (some (session [] x u))) more

  -- A connection that gives the packets of valid requests, each with a transaction and a unit of
  -- its own, and then ends. Each request, and the reply that the contract gives to it, has fewer
  -- than 65535 bytes, and fits the server's buffer with its header. The loop, with one round more
  -- than there are requests, writes the packets of those replies, in order, each with the
  -- transaction and the unit of its own request, and nothing else, and leaves the state of the
  -- contract behind the handler.
  pub serve_stream :
      (tags : List Tag) (ps qs : List Pdu) (l : List (List ℕ)) (s t : S)
      → length tags ≡ length ps
      → Answered o h ps s qs t
      → All FitsBuffer ps
      → All FitsBuffer qs
      → serve o h
          (suc (length ps))
          (record { stream = stream_of (wire tags ps); written = l; handled = s })
        ≡ ok (some (record { stream = []; written = l ++ wire tags qs; handled = t }))
  serve_stream tags ps qs l s t tagged answered fits fits' =
      served tags (suc (length ps)) l s t tagged (omega arith) answered fits fits'
