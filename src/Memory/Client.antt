-- ===== src/Memory/Client.antt =====
-- The interactive client of examples/memory/client.go. A line is the list of its bytes. The standard
-- library's Trim, Split and ParseUint are written out as far as the client calls them; what is printed
-- is kept as values, and the prompt and the colour are not.
pub mod Parsed
pub mod Session
pub mod Whole
use modbusone.Base.{
  ℕ, ◌+◌, ◌-◌, ◌*◌, ◌^◌, Bool, not, ◌||◌, ltb, ◌==◌, List, [], ◌∷◌, ◌++◌, length, get_elem?, Option,
  none, some, if◌then◌else◌, u8, u16, Result, ok, err, panic, ◌>>=◌, ◌>>◌, fail_if, Error, message,
}
use mathlib.Core.Option
use modbusone.Base.Int.{ℤ, pos, ◌-ℤ◌}
use modbusone.FunctionCode.{valid, max_per_packet_sized, is_write_to_server}
use modbusone.Pdu.{Pdu}
use modbusone.Requests.{make_pdu_request_headers_sized}
use modbusone.RtuClient.Loop.{Starter, do_transactions}

-- A character of the set " \r\n".
unfoldable pub is_cut : ℕ → Bool
is_cut c = c == b' ' || c == 13 || c == 10

unfoldable pub trim_left : List ℕ → List ℕ
unfolding is_cut
trim_left [] = []
trim_left (c ∷ s) = let rest = trim_left s in if is_cut c then rest else c ∷ s

-- A character is kept if it is not in the set, or one behind it is kept.
unfoldable pub keep : ℕ → List ℕ → List ℕ
unfolding is_cut
keep c [] = if is_cut c then [] else c ∷ []
keep c (d ∷ s) = c ∷ d ∷ s

unfoldable pub trim_right : List ℕ → List ℕ
unfolding keep
trim_right [] = []
trim_right (c ∷ s) = keep c (trim_right s)

-- `strings.Trim(line, " \r\n")`
unfoldable pub trim : List ℕ → List ℕ
unfolding trim_left trim_right
trim s = trim_right (trim_left s)

abbrev pub onto : ℕ → List (List ℕ) → List (List ℕ)
onto c [] = (c ∷ []) ∷ []
onto c (t ∷ ts) = (c ∷ t) ∷ ts

-- `strings.Split(line, " ")`
unfoldable pub split : List ℕ → List (List ℕ)
split [] = [] ∷ []
split (c ∷ s) = let rest = split s in if c == b' ' then [] ∷ rest else onto c rest

-- A round of the loop of `ParseUint`, with its largest value.
unfoldable pub parse_digit : ℕ → ℕ → ℕ → Result ℕ
parse_digit max_value n c =
    if ltb c b'0' || ltb b'9' c
    then err message
    else if ltb max_value (n * 10 + (c - b'0'))
    then err message
    else ok (n * 10 + (c - b'0'))

unfoldable pub parse_digits : ℕ → ℕ → List ℕ → Result ℕ
unfolding parse_digit
parse_digits max_value n [] = ok n
parse_digits max_value n (c ∷ s) = parse_digit max_value n c >>= λ m. parse_digits max_value m s

-- `strconv.ParseUint(s, 10, bits)`
unfoldable pub parse_uint : ℕ → List ℕ → Result ℕ
unfolding parse_digits
parse_uint bits [] = err message
parse_uint bits (c ∷ s) = parse_digits (2 ^ bits - 1) 0 (c ∷ s)

-- The end of `parseRequest`, from the test `len(ts) < 3` on.
unfoldable pub with_quantity : ℕ → ℕ → List (List ℕ) → Result (ℕ × ℕ × ℕ)
unfolding parse_uint
with_quantity fc address [] = ok (fc, address, 1)
with_quantity fc address (t ∷ ts) = do n ← parse_uint 16 t; ok (fc, address, u16 n)

-- From the test `len(ts) < 2` on.
unfoldable pub with_address : ℕ → List (List ℕ) → Result (ℕ × ℕ × ℕ)
unfolding parse_uint with_quantity
with_address fc [] = ok (fc, 0, 1)
with_address fc (t ∷ ts) = do n ← parse_uint 16 t; with_quantity fc (u16 n) ts

-- `parseRequest`
unfoldable pub parse_request : List (List ℕ) → Result (ℕ × ℕ × ℕ)
unfolding parse_uint with_address
parse_request [] = err message
parse_request (t ∷ ts) = do
  n ← parse_uint 7 t
  fail_if (not (valid (u8 n))) message
  with_address (u8 n) ts

-- What a round of `runClient` prints.
pub data Printed : Type 0 where
  failed : Error → Printed
  limit : ℕ → Printed
  -- the function code, the address, the quantity, and the number of requests
  doing : ℕ → ℕ → ℕ → ℕ → Printed
  -- the error, the number of the request and of all requests, and the request
  stopped : Error → ℕ → ℕ → Pdu → Printed
  finished : ℕ → Printed

-- The variable `limit`, from the two flags.
unfoldable pub request_limit : ℤ → ℤ → ℕ → ℕ
request_limit write_size_limit read_size_limit fc =
    if is_write_to_server fc
    then max_per_packet_sized fc (write_size_limit -ℤ pos 3)
    else max_per_packet_sized fc (read_size_limit -ℤ pos 3)

-- The error of the request `reqs[n]`.
abbrev pub blame {ℓ} :
    {S : Type ℓ} → List Pdu → ℕ → Error → S → Option Pdu → Result (List Printed × S)
blame reqs n e s (some r) = ok (stopped e (n + 1) (length reqs) r ∷ [], s)
blame reqs n e s none = panic

-- Behind `DoTransactions`. The index of an error is that of a request.
unfoldable pub conclude {ℓ} :
    {S : Type ℓ} → List Pdu → (ℕ × Option Error) × S → Result (List Printed × S)
conclude reqs ((n, none), s) = ok (finished n ∷ [], s)
conclude reqs ((n, some e), s) = blame reqs n e s (get_elem? reqs n)

abbrev pub also_printed {ℓ} : {S : Type ℓ} → List Printed → List Printed × S → List Printed × S
also_printed before (printed, s) = (before ++ printed, s)

-- Behind `MakePDURequestHeadersSized`.
unfoldable pub run_requests {ℓ} :
    {S : Type ℓ} → Starter S → ℕ → ℕ × ℕ × ℕ → ℕ → S → Result (List Pdu) → Result (List Printed × S)
unfolding conclude
run_requests c slave_id (fc, a, q) m s (ok reqs) = do
  ended ← conclude reqs (do_transactions c slave_id reqs s)
  ok (also_printed (limit m ∷ doing fc a q (length reqs) ∷ []) ended)
run_requests c slave_id request m s (err e) = ok (limit m ∷ failed e ∷ [], s)
run_requests c slave_id request m s panic = panic

-- Behind `parseRequest`. `none` is that of `make_pdu_request_headers_sized`.
unfoldable pub run_request {ℓ} :
    {S : Type ℓ}
    → Starter S
    → ℕ
    → ℤ
    → ℤ
    → S
    → Result (ℕ × ℕ × ℕ)
    → Option (Result (List Printed × S))
unfolding request_limit make_pdu_request_headers_sized run_requests
run_request c slave_id wsl rsl s (ok (fc, a, q)) =
    let m = request_limit wsl rsl fc in
    Option.map (run_requests c slave_id (fc, a, q) m s) (make_pdu_request_headers_sized fc a q m [])
run_request c slave_id wsl rsl s (err e) = some (ok (failed e ∷ [], s))
run_request c slave_id wsl rsl s panic = some panic

-- A round of `runClient`, for what `ReadString` returns.
unfoldable pub run_line {ℓ} :
    {S : Type ℓ} → Starter S → ℕ → ℤ → ℤ → S → Result (List ℕ) → Option (Result (List Printed × S))
unfolding trim split parse_request run_request
run_line c slave_id wsl rsl s (ok line) =
    run_request c slave_id wsl rsl s (parse_request (split (trim line)))
run_line c slave_id wsl rsl s (err e) = some (ok (failed e ∷ [], s))
run_line c slave_id wsl rsl s panic = some panic
