-- ===== src/Requests.antt =====
-- The splitting of a large request (rtu_client.go).
pub mod Cover
use modbusone.Base.{
  ℕ, zero, suc, ◌+◌, ◌-◌, ltb, ◌==◌, List, [], ◌∷◌, ◌++◌, if◌then◌else◌, u16, Result, ok, err,
  panic, message, Option, none, some,
}
use modbusone.FunctionCode.{max_range, max_per_packet, make_request_header}
use modbusone.Pdu.{Pdu}

-- The rest of a round, behind the test `err != nil`.
abbrev pub with_header {ℓ} :
    {A : Type ℓ} → Result Pdu → (Pdu → Option (Result A)) → Option (Result A)
with_header (ok pdu) k = k pdu
with_header (err e) k = some (err e)
with_header panic k = some panic

-- The loop of `MakePDURequestHeadersSized`. `q` keeps its value from one round to the next. The
-- loop has `fuel` rounds, and `none` means that they were not enough.
unfoldable pub split_loop : ℕ → ℕ → ℕ → ℕ → ℕ → ℕ → List Pdu → Option (Result (List Pdu))
split_loop fuel fc address zero q max_size append_to = some (ok append_to)
split_loop zero fc address (suc quantity) q max_size append_to = none
split_loop (suc fuel) fc address (suc quantity) q max_size append_to =
    let q' = if ltb (suc quantity) max_size then suc quantity else q in
    with_header (make_request_header fc address q') λ pdu.
      split_loop fuel fc (u16 (address + q')) (u16 (suc quantity + 65536 - q')) q' max_size
        (append_to ++ (pdu ∷ []))

-- `MakePDURequestHeadersSized`, with a round for each value: a round takes one at least.
unfoldable pub make_pdu_request_headers_sized :
    ℕ → ℕ → ℕ → ℕ → List Pdu → Option (Result (List Pdu))
unfolding split_loop
make_pdu_request_headers_sized fc address quantity max_size append_to =
    if ltb max_range (address + quantity)
    then some (err message)
    else split_loop quantity fc address quantity max_size max_size append_to

-- `MakePDURequestHeaders`
unfoldable pub make_pdu_request_headers : ℕ → ℕ → ℕ → List Pdu → Option (Result (List Pdu))
unfolding make_pdu_request_headers_sized
make_pdu_request_headers fc address quantity append_to =
    make_pdu_request_headers_sized fc address quantity (max_per_packet fc) append_to
