-- ===== src/OverSize.antt =====
-- The size limits of serial_rtu.go. The package's global variables `OverSizeSupport` and
-- `OverSizeMaxRTU`, which `OverSizeLock` guards, are the argument `o` of what reads them.
use modbusone.Base.{ℕ, ◌+◌, ◌-◌, Bool, false, [], ◌∷◌, if◌then◌else◌}
use modbusone.Minmax.{max, nat_ordered}

pub record OverSize : Type 0 where
  pub support : Bool
  pub max_rtu : ℕ

abbrev pub max_rtu_size : ℕ
max_rtu_size = 256

abbrev pub max_pdu_size : ℕ
max_pdu_size = 253

-- The initial values of the variables.
abbrev pub default : OverSize
default = record { support = false; max_rtu = max_rtu_size }

-- `OverSizeMaxRTU-3` may be negative in the source; `max` with `MaxPDUSize` hides that.
unfoldable pub get_max_pdu_size : OverSize → ℕ
get_max_pdu_size o = if o.support then max max_pdu_size ((o.max_rtu - 3) ∷ []) else max_pdu_size

unfoldable pub get_max_rtu_size : OverSize → ℕ
unfolding get_max_pdu_size
get_max_rtu_size o = get_max_pdu_size o + 3
