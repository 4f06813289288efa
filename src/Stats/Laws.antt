-- ===== src/Stats/Laws.antt =====
-- What the counters add up to.
use modbusone.Base.{ℕ, ◌+◌, ◌≡◌, refl, List, [], ◌∷◌, arith}
use modbusone.Stats.{
  Stats, Counter, packet, crc_error, remote_error, other_error, long_read, formate, id_drop,
  other_drop, add, reset, clone, total_drops,
}

abbrev pub run : List Counter → Stats → Stats
run [] s = s
run (c ∷ cs) s = run cs (add c s)

-- How many of the events are no packets.
abbrev pub drops_in : List Counter → ℕ
drops_in [] = 0
drops_in (packet ∷ cs) = drops_in cs
drops_in (_ ∷ cs) = drops_in cs + 1

total_drops-run :
    (cs : List Counter) (s : Stats) → total_drops (run cs s) ≡ total_drops s + drops_in cs
unfolding total_drops
total_drops-run [] s = omega arith
total_drops-run (packet ∷ cs) s = omega (arith, total_drops-run cs (add packet s))
total_drops-run (crc_error ∷ cs) s = omega (arith, total_drops-run cs (add crc_error s))
total_drops-run (remote_error ∷ cs) s = omega (arith, total_drops-run cs (add remote_error s))
total_drops-run (other_error ∷ cs) s = omega (arith, total_drops-run cs (add other_error s))
total_drops-run (long_read ∷ cs) s = omega (arith, total_drops-run cs (add long_read s))
total_drops-run (formate ∷ cs) s = omega (arith, total_drops-run cs (add formate s))
total_drops-run (id_drop ∷ cs) s = omega (arith, total_drops-run cs (add id_drop s))
total_drops-run (other_drop ∷ cs) s = omega (arith, total_drops-run cs (add other_drop s))

total_drops-clone : (s : Stats) → total_drops (clone s) ≡ total_drops s
unfolding total_drops clone
total_drops-clone s = refl

total_drops-fresh : (s : Stats) → total_drops (reset s) ≡ 0
unfolding total_drops reset
total_drops-fresh s = refl

-- After `Reset` and any sequence of counts, `TotalDrops` of a `Clone` of the counters is the number of
-- counts that are not of a read packet.
pub total_drops-reset :
    (cs : List Counter) (s : Stats) → total_drops (clone (run cs (reset s))) ≡ drops_in cs
total_drops-reset cs s =
    omega (
      arith,
      total_drops-clone (run cs (reset s)),
      total_drops-run cs (reset s),
      total_drops-fresh s,
    )
