-- ===== src/Examples/Device.antt =====
-- The device of examples/memory and its interactive client, on a concrete line and memory.
use modbusone.Base.{
  ℕ, ◌≡◌, ◌≢◌, false, none, inl, inr, refl, true, List, [], ◌∷◌, ◌++◌, length, Option, some, ok,
  Error, arith, Settles,
}
use modbusone.Base.Int.{pos, negsuc}
use modbusone.Data.{registers_to_data}
use modbusone.Examples.Lines.{starter}
use modbusone.Examples.Serial.{
  takes, read_request, sent_read, write_request, sent_write, six_writes,
}
use modbusone.FunctionCode.{valid, is_uint16, is_write_to_server, max_per_packet}
use modbusone.Handler.{RtuProtocolHandler}
use modbusone.Memory.{Memory, fill_am3}
use modbusone.Memory.Client.{Printed, limit, doing, request_limit, parse_request, run_line}
use modbusone.Memory.Client.Parsed.{Spells, words}
use modbusone.Memory.Client.Session.{Reports, run_line-Covers}
use modbusone.Memory.Client.Whole.{IsRequest, parse_request-Settles, run_line-returns}
use modbusone.Memory.Linked.{Ends, After, over_line, reads_range}
use modbusone.Memory.Main.{fresh}
use modbusone.Memory.Requests.{after_two}
use modbusone.Memory.Served.{served_registers}
use modbusone.OverSize
use modbusone.Pdu.{Pdu, make_write_reply, make_read_reply}
use modbusone.Requests.{make_pdu_request_headers}
use modbusone.Requests.Cover.{Covers}
use modbusone.RtuClient.Loop.{do_transactions}
use modbusone.Stats.{zero_stats}
use modbusone.Rtu.{make_rtu}
use modbusone.RtuClient.Loop.Runs.{Ran}
use modbusone.RtuServer.{Server}

-- The words 3, 010 and 300.
abbrev three : List ℕ
three = b'3' ∷ []

abbrev ten : List ℕ
ten = b'0' ∷ b'1' ∷ b'0' ∷ []

abbrev three_hundred : List ℕ
three_hundred = b'3' ∷ b'0' ∷ b'0' ∷ []

three-Spells : Spells three 3
three-Spells = (cc, (omega arith, tt), refl)

ten-Spells : Spells ten 10
ten-Spells = (cc, (omega arith, (omega arith, (omega arith, tt))), refl)

three_hundred-Spells : Spells three_hundred 300
three_hundred-Spells = (cc, (omega arith, (omega arith, (omega arith, tt))), refl)

three_valid : valid 3 ≡ true
unfolding valid
three_valid = refl

abbrev line : List ℕ
line = (b' ' ∷ []) ++ (words three ten three_hundred ++ (13 ∷ 10 ∷ []))

run_line-Covers_example :
    (reqs : List Pdu) × (i : ℕ) × (e : Option Error) × (t : ℕ) × (p : Printed) × Covers 3
      (request_limit (pos 256) (pos 100) 3)
      10
      300
      reqs
    × Ran starter 17 reqs 0 i e t
    × Reports reqs i e p
    × (run_line starter 17 (pos 256) (pos 100) 0 (ok line)
        ≡ some (
            ok (
              limit (request_limit (pos 256) (pos 100) 3) ∷ doing 3 10 300 (length reqs) ∷ p ∷ [],
              t,
            )))
run_line-Covers_example =
    run_line-Covers starter 17 0 256 100 (b' ' ∷ []) three ten three_hundred (13 ∷ 10 ∷ []) 3 10 300
      (omega arith) (omega arith) (inl refl, tt) three-Spells ten-Spells three_hundred-Spells
      (inr (inl refl), (inr (inr refl), tt)) three_valid (omega arith)

run_line-returns_example :
    (out : List Printed × ℕ) × (run_line starter 17 (negsuc 4) (pos 0) 0 (ok line) ≡ some (ok out))
run_line-returns_example = run_line-returns starter 17 (negsuc 4) (pos 0) 0 line

parse_request-Settles_example : Settles IsRequest (parse_request (three ∷ line ∷ []))
parse_request-Settles_example = parse_request-Settles (three ∷ line ∷ [])

six_registers : is_uint16 6 ≡ true
unfolding is_uint16
six_registers = refl

register_data : registers_to_data (0x1234 ∷ []) ≡ ok (0x12 ∷ 0x34 ∷ [])
unfolding registers_to_data
register_data = refl

served_registers_example :
    (s' : Server Memory) × (after_two OverSize.default takes 17
        (fresh fill_am3)
        (make_rtu 17 write_request)
        (make_rtu 17 read_request)
      ≡ ok s')
    × (s'.written
        ≡ make_rtu 17 (make_write_reply write_request)
          ∷ make_rtu 17 (make_read_reply read_request (0x12 ∷ 0x34 ∷ []))
          ∷ [])
served_registers_example =
    served_registers OverSize.default takes 17 (fresh fill_am3) 6 1 1 (0x1234 ∷ [])
      (0x12 ∷ 0x34 ∷ []) write_request read_request (omega arith) six_registers six_writes refl
      (omega arith, tt) register_data sent_write sent_read

-- A client that keeps the bytes that it is given.
abbrev keeper : RtuProtocolHandler (List ℕ)
keeper = record {
  on_read = λ header t. (ok [], t);
  on_write = λ header bytes t. (ok tt, t ++ bytes);
  on_error = λ header reply t. ok t;
}

abbrev start_ends : Ends (List ℕ)
start_ends = (record { stats = zero_stats; written = []; handled = [] }, fresh fill_am3)

three_reads : is_write_to_server 3 ≡ false
unfolding is_write_to_server
three_reads = refl

three_supported : max_per_packet 3 ≢ 0
unfolding max_per_packet
three_supported = λ e. ground arith

reads_range_example :
    (ps : List Pdu) × (make_pdu_request_headers 3 10 300 [] ≡ some (ok ps))
    × ((y : Ends (List ℕ)) × (do_transactions
            (over_line OverSize.default keeper takes takes)
            17
            ps
            start_ends
          ≡ ((length ps, none), y))
        × After keeper 17 ps start_ends y)
reads_range_example =
    reads_range OverSize.default keeper takes takes (λ l r. refl) 17 (omega arith) 3 three_reads
      (λ a q p bytes t made enough. (t ++ bytes, refl)) 10 300 start_ends three_supported
      (omega arith)
