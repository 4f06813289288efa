-- ===== src/Examples/Lines.antt =====
-- Readers and connections, delays and memory, on concrete values.
use modbusone.Base.{
  ℕ, ◌+◌, ◌≤◌, ◌≡◌, ◌∙◌, refl, ap, false, ltb, List, [], ◌∷◌, ◌++◌, append-nil, length, take, drop,
  length-take, length-drop, take-append-drop, none, some, panic, arith, Error, Option, message, ◌↔◌,
  if◌then◌else◌,
}
use modbusone.Crc.Frame.{length-sum}
use modbusone.Examples.Serial.{no_stats, read_request, sent_read}
use modbusone.Memory.{slice, fill_am3}
use modbusone.Memory.Cells.{slice-panics}
use modbusone.OverSize
use modbusone.PacketReader.{Setup, Reader, Arrival, read}
use modbusone.PacketReader.Frames.{Frames, silence, frame, packets, packets-Frames, Sent-Fits}
use modbusone.PacketReader.Valid.{SoundOutcome, read-SoundOutcome}
use modbusone.Pdu.{Pdu}
use modbusone.Rtu.{Rtu, make_rtu}

abbrev pub setup : Setup
setup = record {
  over_size = OverSize.default;
  is_client = false;
  slave_id = 17;
  bidirectional = false;
  two_wire = false;
  room = 256;
  cutoff = λ n. n;
}

abbrev pub reader : Reader
reader = record { last = []; last_rtu = []; last_read_at = 0; stats = no_stats }

abbrev arrival : List ℕ → ℕ → Arrival
arrival bytes t = record { bytes = bytes; fails = none; now = t; again = t }

abbrev request : Rtu
request = make_rtu 17 read_request

length-request : length request ≡ 8
unfolding make_rtu
length-request = omega (arith, length-sum (17 ∷ read_request))

-- The request in two bursts, and once more much later.
abbrev pub bursts : List Arrival
bursts =
    (arrival (take 3 request) 1000 ∷ arrival (drop 3 request) 1002 ∷ [])
    ++ ((arrival request 5000 ∷ []) ++ [])

pub bursts-Frames : Frames setup (request ∷ request ∷ []) bursts
bursts-Frames =
    let fits = Sent-Fits setup 17 sent_read refl refl refl (omega (arith, length-request)) in
    let some_bytes : 1 ≤ length request = omega (arith, length-request) in
    frame (arrival (take 3 request) 1000 ∷ arrival (drop 3 request) 1002 ∷ []) fits
      (
        omega (arith, length-take 3 request, length-request),
        refl,
        (
          omega (arith, length-drop 3 request, length-request),
          refl,
          omega (arith, length-drop 3 request, length-request),
          tt,
        ),
      )
      (ap (◌++◌ (take 3 request)) (append-nil (drop 3 request)) ∙ take-append-drop 3 request)
      (frame (arrival request 5000 ∷ []) fits (some_bytes, refl, tt) (append-nil request) silence)

packets-Frames_example : packets setup 2 bursts reader ≡ request ∷ request ∷ []
packets-Frames_example =
    packets-Frames setup (request ∷ request ∷ []) bursts reader refl bursts-Frames

read-SoundOutcome_example : SoundOutcome setup (read setup bursts reader)
read-SoundOutcome_example = read-SoundOutcome setup bursts reader

-- A transaction that fails behind two others.
abbrev pub starter : ℕ → Pdu → ℕ → Option Error × ℕ
starter slave_id r s = (if ltb 1 s then some message else none, s + 1)

slice-panics_example : (slice fill_am3.coils 65535 1 ≡ panic) ↔ (65536 ≤ 65535 + 1)
slice-panics_example = slice-panics fill_am3.coils 65535 1 (omega arith) (omega arith)
