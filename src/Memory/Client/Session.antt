-- ===== src/Memory/Client/Session.antt =====
-- What a round of `runClient` of examples/memory/client.go does.
use modbusone.Base.{
  ℕ, ◌+◌, ◌-◌, ◌≤◌, ◌≡◌, refl, ap, true, List, [], ◌∷◌, ◌++◌, All, length, get_elem?, Option, none,
  some, if-holds, ok, arith, Error,
}
use modbusone.Base.Int.{pos, ◌-ℤ◌}
use modbusone.FunctionCode.{valid, is_write_to_server, max_per_packet_sized, max_per_packet}
use modbusone.FunctionCode.Limits.{sized-fits, supported→Code, valid-max_per_packet}
use modbusone.Memory.Client.{
  Printed, limit, doing, stopped, finished, request_limit, blame, conclude, run_requests,
  run_request, run_line,
}
use modbusone.Memory.Client.Parsed.{IsCut, Spells, words, parse_request_lem}
use modbusone.Pdu.{Pdu}
use modbusone.Requests.Cover.{Covers, make_pdu_request_headers_sized-Covers}
use modbusone.RtuClient.Loop.{Starter, do_transactions}
use modbusone.RtuClient.Loop.Runs.{Ran, do_transactions-Ran}

-- What is printed for the result of `DoTransactions`: the number of the requests, or the error with
-- the request that it belongs to.
pub data Reports (reqs : List Pdu) (i : ℕ) : Option Error → Printed → Type 0 where
  all : Reports reqs i none (finished i)
  one :
      {e : Error} {r : Pdu}
      → get_elem? reqs i ≡ some r
      → Reports reqs i (some e) (stopped e (i + 1) (length reqs) r)

get-middle :
    (before : List Pdu) (r : Pdu) (rest : List Pdu)
    → get_elem? (before ++ (r ∷ rest)) (length before) ≡ some r
get-middle [] r rest = refl
get-middle (x ∷ before) r rest = get-middle before r rest

-- The index that `DoTransactions` returns with an error is that of a request.
pub conclude-Reports {ℓ} :
    {S : Type ℓ} (c : Starter S) (slave_id : ℕ) (reqs : List Pdu) (s : S) (i : ℕ) (e : Option Error)
    (t : S)
    → Ran c slave_id reqs s i e t
    → (p : Printed) × (conclude reqs ((i, e), t) ≡ ok (p ∷ [], t)) × Reports reqs i e p
unfolding conclude
conclude-Reports c slave_id reqs s i none t ran = (finished i, refl, all)
conclude-Reports c slave_id reqs s i (some e) t (Ran.stopped before r rest cut n ok_before fails) =
    let found : get_elem? reqs i ≡ some r = rw (cut, n) (get-middle before r rest) in
    (stopped e (i + 1) (length reqs) r, ap (blame reqs i e t) found, one found)

below_limit :
    (f n : ℕ)
    → valid f ≡ true
    → 13 ≤ n
    → (1 ≤ max_per_packet_sized f (pos n -ℤ pos 3))
      × (max_per_packet_sized f (pos n -ℤ pos 3) ≤ max_per_packet f)
below_limit f n h hn =
    let (c, e) = supported→Code f (omega (arith, (valid-max_per_packet f).0 h)) in
    let sub : pos n -ℤ pos 3 ≡ pos (n - 3) = ground arith in
    let (a, b, _, _) = sized-fits c (n - 3) (omega arith) in rw (e, sub) (a, b)

-- The flags leave 10 bytes at least for the PDU.
request_limit-fits :
    (f w r : ℕ)
    → valid f ≡ true
    → 13 ≤ w
    → 13 ≤ r
    → (1 ≤ request_limit (pos w) (pos r) f) × (request_limit (pos w) (pos r) f ≤ max_per_packet f)
unfolding request_limit
request_limit-fits f w r h hw hr =
    if-holds (λ (l : ℕ). (1 ≤ l) × (l ≤ max_per_packet f)) (is_write_to_server f) _ _
      (λ on. below_limit f w h hw) (λ off. below_limit f r h hr)

-- A line of a valid function code, an address and a quantity, in decimal digits, with one space
-- between them, and with no characters around them but spaces and the ends of lines. The address
-- and the quantity add up to 0xFFFF at most, so that the range does not reach the address 0xFFFF,
-- and both size limits are 13 bytes at least. The line makes the client run, in order, requests of
-- `limit` values each, the last of what is left, that cover the range without a gap, until one
-- fails. The round prints the limit, what is done, and either the number of the requests, or the
-- error with the request that failed.
pub run_line-Covers {ℓ} :
    {S : Type ℓ} (c : Starter S) (slave_id : ℕ) (s : S)
    → (w r : ℕ) (before f a q after : List ℕ) (n m k : ℕ) → 13 ≤ w
    → 13 ≤ r
    → All IsCut before
    → Spells f n
    → Spells a m
    → Spells q k
    → All IsCut after
    → valid n ≡ true
    → m + k ≤ 65535
    → (reqs : List Pdu) × (i : ℕ) × (e : Option Error) × (t : S) × (p : Printed) × Covers n
        (request_limit (pos w) (pos r) n)
        m
        k
        reqs
      × Ran c slave_id reqs s i e t
      × Reports reqs i e p
      × (run_line c slave_id (pos w) (pos r) s (ok (before ++ (words f a q ++ after)))
          ≡ some (
              ok (limit (request_limit (pos w) (pos r) n) ∷ doing n m k (length reqs) ∷ p ∷ [], t)))
unfolding run_line run_request run_requests
run_line-Covers c slave_id s w r before f a q after n m k hw hr cut hf ha hq cut' supported range =
    let parsed =
      parse_request_lem before f a q after n m k cut hf ha hq cut' supported (omega arith)
        (omega arith) in
    let (pos_limit, fits) = request_limit-fits n w r supported hw hr in
    let l = request_limit (pos w) (pos r) n in
    let (reqs, made, covers) =
      make_pdu_request_headers_sized-Covers n m k l [] pos_limit fits range in
    let ((i, e), t) = do_transactions c slave_id reqs s in
    let ran = do_transactions-Ran c slave_id reqs s in
    let (p, printed, reports) = conclude-Reports c slave_id reqs s i e t ran in
    (reqs, i, e, t, p, covers, ran, reports, rw (parsed, made, printed) refl)
