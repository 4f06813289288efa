-- ===== src/Failover/Server/Rounds.antt =====
-- What a server's reads may return, and what they keep.
use modbusone.Base.{ℕ, ◌≡◌, refl, List, [], ◌∷◌, length, Option, none, some, Result, ok, Error}
use modbusone.Failover.{Conn}
use modbusone.Failover.Server.{
  Heard, Step, again, returns, Reading, got, listening, round, forced, server_read, go_on, read,
  note_read,
}
use modbusone.OverSize.{OverSize}
use modbusone.Failover.Server.Steps.{
  IsCounted, SameSettings, Good, GoodResult, Same_trans, Good-SameSettings, force-Good, forced-Kept,
}

-- The connection behind a reading, and what the reading returns: all the bytes of a packet, with
-- the error of the packet reader and no other.
abbrev pub Exposes : Reading → Type 0
Exposes (got x n e s rest) = (n ≡ length x.rtu) × (e ≡ x.fails)
Exposes (listening s) = Unit

abbrev pub behind : Reading → Conn
behind (got x n e s rest) = s
behind (listening s) = s

module _ (o : OverSize) (bytes_delay : ℕ → ℕ) where
  round-Good :
      (x : Heard) (e : Option Error) (s : Conn)
      → IsCounted s
      → GoodResult x e s (round o bytes_delay x e s)
  unfolding round
  round-Good x (some e) s counted =
      (returns (length x.rtu) (some e) s, refl, (refl, refl, ((refl, refl, refl, refl), counted)))
  round-Good x none s counted =
      let (same, still) = forced-Kept o bytes_delay x s counted in
      let (step, eq, good) = force-Good o bytes_delay x (forced x s) still in
      (step, eq, Good-SameSettings x none s (forced x s) step same good)

  abbrev Told : Conn → Result Reading → Type 0
  Told s m =
      (r : Reading) × (m ≡ ok r) × Exposes r × SameSettings s (behind r) × IsCounted (behind r)

  go_on-Told :
      (x : Heard) (rest : List Heard) (s : Conn) (step : Step)
      → Good x x.fails s step
      → ((s' : Conn) → IsCounted s' → Told s' (server_read o bytes_delay rest s'))
      → Told s (go_on o bytes_delay x rest (server_read o bytes_delay rest) step)
  unfolding go_on
  go_on-Told x rest s (again s') (same, still) next =
      let (r, eq, exposed, same', counted') = next s' still in
      (r, eq, exposed, Same_trans s s' (behind r) same same', counted')
  go_on-Told x rest s (returns n e s') (count, error, (same, still)) next =
      (got x n e s' rest, refl, (count, error), same, still)

  server_read-Told :
      (heard : List Heard) (s : Conn) → IsCounted s → Told s (server_read o bytes_delay heard s)
  unfolding server_read
  server_read-Told [] s counted = (listening s, refl, tt, (refl, refl, refl, refl), counted)
  server_read-Told (x ∷ heard) s counted =
      let (step, eq, good) = round-Good x x.fails s counted in
      rw eq (go_on-Told x heard s step good (λ s' counted'. server_read-Told heard s' counted'))

noted :
    (s : Conn) (r : Reading)
    → Exposes r × SameSettings s (behind r) × IsCounted (behind r)
    → Exposes (note_read r)
      × SameSettings s (behind (note_read r))
      × IsCounted (behind (note_read r))
unfolding note_read
noted s (got x n e s' rest) told = told
noted s (listening s') told = told

-- Whatever a server hears, `Read` neither panics nor returns an error of its own, as the failed
-- assertion would be: it returns all the bytes of a packet with the packet reader's error, or has
-- nothing more to hear. The role, `MissesMax` and `MissDelay` stay as they are; and a passive
-- failover that has counted at most `MissesMax` misses has still done so behind the read, if it is
-- passive then.
pub read-Exposes :
    (o : OverSize) (bytes_delay : ℕ → ℕ) (heard : List Heard) (s : Conn)
    → IsCounted s
    → (r : Reading) × (read o bytes_delay heard s ≡ ok r)
      × Exposes r
      × SameSettings s (behind r)
      × IsCounted (behind r)
unfolding read
read-Exposes o bytes_delay heard s counted =
    let (r, eq, exposed, same, still) = server_read-Told o bytes_delay heard s counted in
    let (exposed', same', still') = noted s r (exposed, same, still) in
    (note_read r, rw eq refl, exposed', same', still')
