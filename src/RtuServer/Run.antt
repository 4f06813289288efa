-- ===== src/RtuServer/Run.antt =====
-- The loop of the server, over any packets.
use modbusone.Base.{
  ℕ, ◌+◌, ◌≤◌, ◌≡◌, ◌≢◌, ◌⊎◌, inl, inr, refl, ap, sym, ◌∙◌, List, [], ◌∷◌, ◌++◌, length,
  append_assoc, append-nil, All, Bool, Option, none, some, Result, ok, ◌>>=◌, Error, arith,
}
use modbusone.Handler.{ProtocolHandler}
use modbusone.OverSize.{OverSize}
use modbusone.Pdu.{Pdu}
use modbusone.Rtu.{Rtu, make_rtu}
use modbusone.RtuServer.{Server, serve, serve_packet, fail_io}
use modbusone.RtuServer.Packet.{IsSafe, Round, total, serve_packet-Round}

-- A frame for a slave id that is not the broadcast id.
abbrev pub IsReply : Rtu → Type 0
IsReply r = (id : ℕ) × (p : Pdu) × (id ≢ 0) × (r ≡ make_rtu id p)

-- What holds of the server between two rounds, after `packets`.
pub record Ran {ℓ} {S : Type ℓ} (packets : List Rtu) (s s' : Server S) : Type ℓ where
  pub replies : List Rtu
  pub written_after : s'.written ≡ s.written ++ replies
  pub at_most_one_each : length replies ≤ length packets
  pub are_replies : All IsReply replies
  pub counted_each : total s' ≤ total s + length packets

option_cases {ℓ} : {A : Type ℓ} (x : Option A) → (x ≡ none) ⊎ ((a : A) × (x ≡ some a))
option_cases none = inl refl
option_cases (some a) = inr (a, refl)

stays {ℓ} :
    {S : Type ℓ} (packets : List Rtu) (s s' : Server S)
    → s'.written ≡ s.written
    → total s' ≡ total s
    → Ran packets s s'
stays packets s s' e n = record {
  replies = [];
  written_after = e ∙ sym (append-nil s.written);
  at_most_one_each = omega arith;
  are_replies = tt;
  counted_each = omega arith;
}

joined {ℓ} :
    {S : Type ℓ} (id : ℕ) (r : Rtu) (packets : List Rtu) (s t u : Server S)
    → Round id s t
    → Ran packets t u
    → Ran (r ∷ packets) s u
joined id r packets s t u h k = elim h.replied [
  | inl e ↦ record {
    replies = k.replies;
    written_after = rw e at k.written_after;
    at_most_one_each = omega (arith, k.at_most_one_each);
    are_replies = k.are_replies;
    counted_each = omega (arith, k.counted_each, h.counted);
  }
  | inr (reply, n, e) ↦ record {
    replies = make_rtu id reply ∷ k.replies;
    written_after =
        k.written_after
        ∙ ap (λ (x : List Rtu). x ++ k.replies) e
        ∙ append_assoc s.written (make_rtu id reply ∷ []) k.replies;
    at_most_one_each = omega (arith, k.at_most_one_each);
    are_replies = ((id, reply, n, refl), k.are_replies);
    counted_each = omega (arith, k.counted_each, h.counted);
  }
]

module _ {ℓ} {S : Type ℓ} (o : OverSize) (accepts : List Rtu → Rtu → Bool)
    (h : ProtocolHandler S) where
  pub served-nil :
      (slave_id : ℕ) (s : Server S)
      → s.io_err ≡ none
      → serve o accepts h slave_id [] s ≡ ok (fail_io s)
  unfolding serve
  served-nil slave_id s n =
      ap (λ (x : Option Error). elim x [ none ↦ ok (fail_io s) | some e ↦ ok s ]) n

  pub served-cons :
      (slave_id : ℕ) (r : Rtu) (packets : List Rtu) (s : Server S)
      → s.io_err ≡ none
      → serve o accepts h slave_id (r ∷ packets) s
        ≡ (serve_packet o accepts h slave_id r s >>= serve o accepts h slave_id packets)
  unfolding serve
  served-cons slave_id r packets s n =
      ap
        (λ (x : Option Error). elim x [
          | none ↦ serve_packet o accepts h slave_id r s >>= serve o accepts h slave_id packets
          | some e ↦ ok s
        ])
        n

  served-failed :
      (slave_id : ℕ) (packets : List Rtu) (s : Server S) (e : Error)
      → s.io_err ≡ some e
      → serve o accepts h slave_id packets s ≡ ok s
  unfolding serve
  served-failed slave_id [] s e n =
      ap (λ (x : Option Error). elim x [ none ↦ ok (fail_io s) | some e ↦ ok s ]) n
  served-failed slave_id (r ∷ packets) s e n =
      ap
        (λ (x : Option Error). elim x [
          | none ↦ serve_packet o accepts h slave_id r s >>= serve o accepts h slave_id packets
          | some e ↦ ok s
        ])
        n

module _ {ℓ} {S : Type ℓ} (o : OverSize) (accepts : List Rtu → Rtu → Bool) (h : ProtocolHandler S)
    (safe : IsSafe h) where
  -- If the user's functions do not panic, `Serve` returns on every sequence of packets that ends,
  -- with an error in `ioErr`. It has then added to what was written one frame at most for each
  -- packet, each to a slave id that is not the broadcast id, and counted one error at most for each.
  pub serve-Ran :
      (slave_id : ℕ) (packets : List Rtu) (s : Server S)
      → (s' : Server S) × (serve o accepts h slave_id packets s ≡ ok s')
        × ((e : Error) × (s'.io_err ≡ some e))
        × Ran packets s s'
  serve-Ran slave_id [] s = elim (option_cases s.io_err) [
    | inl n ↦ (
      fail_io s,
      served-nil o accepts h slave_id s n,
      (_, refl),
      stays [] s (fail_io s) refl refl,
    )
    | inr (e, n) ↦ (s, served-failed o accepts h slave_id [] s e n, (e, n), stays [] s s refl refl)
  ]
  serve-Ran slave_id (r ∷ packets) s = elim (option_cases s.io_err) [
    | inl n ↦
        let (t, e, round) = serve_packet-Round o accepts h safe slave_id r s in
        let (u, e', failed, ran) = serve-Ran slave_id packets t in
        let next = ap (λ (x : Result (Server S)). x >>= serve o accepts h slave_id packets) e in
        (
          u,
          served-cons o accepts h slave_id r packets s n ∙ next ∙ e',
          failed,
          joined _ r packets s t u round ran,
        )
    | inr (e, n) ↦ (
      s,
      served-failed o accepts h slave_id (r ∷ packets) s e n,
      (e, n),
      stays (r ∷ packets) s s refl refl,
    )
  ]
