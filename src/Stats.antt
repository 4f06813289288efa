-- ===== src/Stats.antt =====
-- The type `Stats` of serial.go. The counters are taken not to reach 2 ^ 63, where they would wrap.
pub mod Laws
use modbusone.Base.{ℕ, ◌+◌}

pub record Stats : Type 0 where
  pub read_packets : ℕ
  pub crc_errors : ℕ
  pub remote_errors : ℕ
  pub other_errors : ℕ
  pub long_read_warnings : ℕ
  pub formate_warnings : ℕ
  pub id_drops : ℕ
  pub other_drops : ℕ

-- `Stats{}`
abbrev pub zero_stats : Stats
zero_stats = record {
  read_packets = 0;
  crc_errors = 0;
  remote_errors = 0;
  other_errors = 0;
  long_read_warnings = 0;
  formate_warnings = 0;
  id_drops = 0;
  other_drops = 0;
}

-- The counters by name.
pub data Counter : Type 0 where
  packet crc_error remote_error other_error long_read formate id_drop other_drop : Counter

-- `atomic.AddInt64` of 1 to a counter.
abbrev pub add : Counter → Stats → Stats
add packet s = record s { read_packets = s.read_packets + 1 }
add crc_error s = record s { crc_errors = s.crc_errors + 1 }
add remote_error s = record s { remote_errors = s.remote_errors + 1 }
add other_error s = record s { other_errors = s.other_errors + 1 }
add long_read s = record s { long_read_warnings = s.long_read_warnings + 1 }
add formate s = record s { formate_warnings = s.formate_warnings + 1 }
add id_drop s = record s { id_drops = s.id_drops + 1 }
add other_drop s = record s { other_drops = s.other_drops + 1 }

-- `Reset`: a store of 0 to each counter.
unfoldable pub reset : Stats → Stats
reset s = record {
  read_packets = 0;
  crc_errors = 0;
  remote_errors = 0;
  other_errors = 0;
  long_read_warnings = 0;
  formate_warnings = 0;
  id_drops = 0;
  other_drops = 0;
}

-- `Clone`: a load of each counter.
unfoldable pub clone : Stats → Stats
clone s = record {
  read_packets = s.read_packets;
  crc_errors = s.crc_errors;
  remote_errors = s.remote_errors;
  other_errors = s.other_errors;
  long_read_warnings = s.long_read_warnings;
  formate_warnings = s.formate_warnings;
  id_drops = s.id_drops;
  other_drops = s.other_drops;
}

-- `TotalDrops`
unfoldable pub total_drops : Stats → ℕ
total_drops s =
    s.crc_errors + s.remote_errors + s.other_errors + s.long_read_warnings + s.formate_warnings
    + s.id_drops + s.other_drops
