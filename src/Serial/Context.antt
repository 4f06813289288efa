-- ===== src/Serial/Context.antt =====
-- The serial contexts of serial.go, and the packet readers of packet_reader.go that are made on them,
-- by themselves and by the constructors of rtu_server.go and rtu_client.go.
pub mod Reads
use modbusone.Base.{
  ℕ, ◌+◌, Bool, true, false, Option, none, some, Result, ok, panic, ◌>>=◌, if◌then◌else◌,
}
use modbusone.Failover.{second}
use modbusone.OverSize.{OverSize, max_rtu_size}
use modbusone.PacketReader.{Setup}
use modbusone.Serial.{
  default_cpu_hiccup, min_delay, bytes_delay, packet_cutoff_duration, serial_packet_cutoff_duration,
}
use modbusone.Stats.{Stats, zero_stats}

-- `Option`
pub record SerialOption : Type 0 where
  pub cpu_hiccup : ℕ
  pub return_short_packets : Bool
  pub two_wire : Bool
  pub sleep_buffer_bytes : ℕ

abbrev pub no_option : SerialOption
no_option = record {
  cpu_hiccup = 0;
  return_short_packets = false;
  two_wire = false;
  sleep_buffer_bytes = 0;
}

-- `serial`, but for its connection.
pub record SerialPort : Type 0 where
  pub s : Stats
  pub baud_rate : ℕ
  pub option : SerialOption

-- `NewSerialContextWithOption`, and `NewSerialContext`, which has no option.
unfoldable pub new_serial_context_with_option : ℕ → SerialOption → SerialPort
new_serial_context_with_option baud_rate option = record {
  s = zero_stats;
  baud_rate = baud_rate;
  option = option;
}

unfoldable pub new_serial_context : ℕ → SerialPort
new_serial_context baud_rate = record { s = zero_stats; baud_rate = baud_rate; option = no_option }

-- A value of the interface `SerialContext`, but for its reads and writes: its delays and counters, and
-- what type assertions find on it: the method of `SerialContextV2`, that of `OptionContext`, and whether
-- it is a `PacketReader`.
pub record Context : Type 0 where
  pub least_delay : Result ℕ
  pub stats : Stats
  pub delay : ℕ → Result ℕ
  pub cutoff : Option (ℕ → Result ℕ)
  pub get_option : Option SerialOption
  pub reads_packets : Bool

-- A `serial` as a context: it has the methods of `SerialContextV3`.
unfoldable pub serial_context : SerialPort → Context
unfolding serial_packet_cutoff_duration bytes_delay min_delay
serial_context p = record {
  least_delay = min_delay p.baud_rate;
  stats = p.s;
  delay = bytes_delay p.baud_rate;
  cutoff = some (serial_packet_cutoff_duration p.baud_rate p.option.cpu_hiccup);
  get_option = some p.option;
  reads_packets = false;
}

-- A `FailoverSerialConn` as a context, on the one below it: `BytesDelay`, `PacketCutoffDuration` and
-- `GetOption`. It is a packet reader, and its other methods are those below.
unfoldable pub option_of : Option SerialOption → SerialOption
option_of (some option) = option
option_of none = no_option

unfoldable pub failover_context : Context → Context
unfolding option_of
failover_context below = record {
  least_delay = below.least_delay;
  stats = below.stats;
  delay = below.delay;
  cutoff = some (λ n. below.delay n >>= λ d. ok (d + default_cpu_hiccup));
  get_option = some (option_of below.get_option);
  reads_packets = true;
}

-- `GetPacketCutoffDurationFromSerialContext`
abbrev cutoff_or : Option (ℕ → Result ℕ) → Context → ℕ → Result ℕ
cutoff_or (some f) c n = f n
cutoff_or none c n = c.delay n >>= λ d. ok (d + default_cpu_hiccup)

unfoldable pub get_packet_cutoff_duration_from_serial_context : Context → ℕ → Result ℕ
get_packet_cutoff_duration_from_serial_context c n = cutoff_or c.cutoff c n

-- The constructors of packet readers. The size of the buffer, the over-size settings and the
-- durations of the context, where they do not panic, are arguments.
module _ (o : OverSize) (room : ℕ) (cutoff : ℕ → ℕ) where
  -- `NewRTUPacketReader`
  unfoldable pub new_rtu_packet_reader : Context → Bool → Setup
  unfolding option_of
  new_rtu_packet_reader c is_client = record {
    over_size = o;
    is_client = is_client;
    slave_id = 0;
    bidirectional = false;
    two_wire = (option_of c.get_option).two_wire;
    room = room;
    cutoff = cutoff;
  }

  -- `NewRTUPacketReader2`, with the option of the context.
  unfoldable pub new_rtu_packet_reader2 : SerialOption → Bool → ℕ → Setup
  new_rtu_packet_reader2 option is_client slave_id = record {
    over_size = o;
    is_client = is_client;
    slave_id = slave_id;
    bidirectional = false;
    two_wire = option.two_wire;
    room = room;
    cutoff = cutoff;
  }

  -- `NewRTUBidirectionalPacketReader`
  unfoldable pub new_rtu_bidirectional_packet_reader : Setup
  new_rtu_bidirectional_packet_reader = record {
    over_size = o;
    is_client = false;
    slave_id = 0;
    bidirectional = true;
    two_wire = false;
    room = room;
    cutoff = cutoff;
  }

-- The buffer that `Serve` of rtu_server.go reads into.
unfoldable pub read_room : OverSize → ℕ
read_room o = if o.support then o.max_rtu else max_rtu_size

-- The packet reader of `NewRTUServer`, and of `NewRTUClient`, with the buffer that they read into:
-- `none` is the context itself. A context is a `SerialContextV3` if it has both methods.
module _ (o : OverSize) (cutoff : ℕ → ℕ) where
  abbrev pub server_reader : Option (ℕ → Result ℕ) → Option SerialOption → Context → ℕ → Setup
  server_reader (some f) (some option) c slave_id =
      new_rtu_packet_reader2 o (read_room o) cutoff option false slave_id
  server_reader _ _ c slave_id = new_rtu_packet_reader o (read_room o) cutoff c false

  unfoldable pub new_rtu_server : Context → ℕ → Option Setup
  unfolding new_rtu_packet_reader new_rtu_packet_reader2 read_room
  new_rtu_server c slave_id =
      if c.reads_packets then none else some (server_reader c.cutoff c.get_option c slave_id)

  unfoldable pub new_rtu_client : Context → Option Setup
  unfolding new_rtu_packet_reader
  new_rtu_client c =
      if c.reads_packets then none else some (new_rtu_packet_reader o max_rtu_size cutoff c true)
