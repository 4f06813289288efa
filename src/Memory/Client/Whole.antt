-- ===== src/Memory/Client/Whole.antt =====
-- Whatever the line, a round of `runClient` of examples/memory/client.go comes to its end.
use modbusone.Base.{
  ℕ, zero, suc, ◌+◌, ◌-◌, ◌*◌, ◌^◌, ◌≡◌, ◌≢◌, refl, true, false, ltb, List, [], ◌∷◌, length, Option,
  none, some, if-holds, Result, ok, err, panic, fail_if, message, not, arith, IsU16, u8, u16,
  Settles, bind-Settles, fail_if-Settles, ◌||◌,
}
use mathlib.Core.Option
use modbusone.Base.Int.{ℤ}
use modbusone.FunctionCode.{valid, max_range, make_request_header}
use modbusone.Memory.Client.{
  parse_digit, parse_digits, parse_uint, with_quantity, with_address, parse_request, Printed, limit,
  doing, request_limit, run_requests, run_request, run_line, trim, split,
}
use modbusone.Memory.Client.Session.{conclude-Reports}
use modbusone.Pdu.{Pdu}
use modbusone.Requests.{split_loop, make_pdu_request_headers_sized, with_header}
use modbusone.Requests.Cover.{make_pdu_request_headers_sized-ne-none}
use modbusone.RtuClient.Loop.{Starter, do_transactions}
use modbusone.RtuClient.Loop.Runs.{do_transactions-Ran}

abbrev Any {ℓ} : {A : Type ℓ} → A → Type 0
Any a = Unit

digit-Settles : (x n c : ℕ) → Settles Any (parse_digit x n c)
unfolding parse_digit
digit-Settles x n c =
    if-holds (Settles Any) (ltb c b'0' || ltb b'9' c) _ _ (λ on. tt)
      (λ off. if-holds (Settles Any) (ltb x (n * 10 + (c - b'0'))) _ _ (λ on. tt) (λ off. tt))

digits-Settles : (x n : ℕ) (s : List ℕ) → Settles Any (parse_digits x n s)
unfolding parse_digits
digits-Settles x n [] = tt
digits-Settles x n (c ∷ s) =
    bind-Settles Any Any (parse_digit x n c) _ (digit-Settles x n c) (λ m _. digits-Settles x m s)

uint-Settles : (bits : ℕ) (s : List ℕ) → Settles Any (parse_uint bits s)
unfolding parse_uint
uint-Settles bits [] = tt
uint-Settles bits (c ∷ s) = digits-Settles (2 ^ bits - 1) 0 (c ∷ s)

-- A request with a valid function code, and a 16-bit address and quantity.
abbrev pub IsRequest : ℕ × ℕ × ℕ → Type 0
IsRequest (f, a, q) = (valid f ≡ true) × IsU16 a × IsU16 q

quantity-Settles :
    (f a : ℕ) (ts : List (List ℕ))
    → valid f ≡ true
    → IsU16 a
    → Settles IsRequest (with_quantity f a ts)
unfolding with_quantity
quantity-Settles f a [] h w = (h, w, omega arith)
quantity-Settles f a (t ∷ ts) h w =
    bind-Settles Any IsRequest (parse_uint 16 t) _ (uint-Settles 16 t) (λ n _. (h, w, omega arith))

address-Settles :
    (f : ℕ) (ts : List (List ℕ)) → valid f ≡ true → Settles IsRequest (with_address f ts)
unfolding with_address
address-Settles f [] h = (h, omega arith, omega arith)
address-Settles f (t ∷ ts) h =
    bind-Settles Any IsRequest (parse_uint 16 t) _ (uint-Settles 16 t)
      (λ n _. quantity-Settles f (u16 n) ts h (omega arith))

-- On every list of words `parseRequest` returns an error, or a supported function code with a 16-bit
-- address and quantity.
pub parse_request-Settles : (ts : List (List ℕ)) → Settles IsRequest (parse_request ts)
unfolding parse_request
parse_request-Settles [] = tt
parse_request-Settles (t ∷ ts) =
    bind-Settles Any IsRequest (parse_uint 7 t) _ (uint-Settles 7 t) λ n _.
      bind-Settles (λ (x : Unit {0}). not (valid (u8 n)) ≡ false) IsRequest
        (fail_if (not (valid (u8 n))) message) _ (fail_if-Settles (not (valid (u8 n))) message)
        (λ x on. address-Settles (u8 n) ts (ground (arith, on)))

header-ne-panic : (f a q : ℕ) → make_request_header f a q ≢ panic
unfolding make_request_header
header-ne-panic f a q = ground arith

one_header :
    (r : Result Pdu) (k : Pdu → Option (Result (List Pdu)))
    → r ≢ panic
    → ((p : Pdu) → k p ≢ some panic)
    → with_header r k ≢ some panic
one_header (ok p) k h each = each p
one_header (err e) k h each = λ e. cc
one_header panic k h each = absurd (h refl)

loop-ne-panic : (fuel f a q n m : ℕ) (acc : List Pdu) → split_loop fuel f a q n m acc ≢ some panic
unfolding split_loop
loop-ne-panic fuel f a zero n m acc = λ e. cc
loop-ne-panic zero f a (suc q) n m acc = λ e. cc
loop-ne-panic (suc fuel) f a (suc q) n m acc =
    one_header _ _ (header-ne-panic f a _) (λ p. loop-ne-panic fuel f _ _ _ m _)

sized-ne-panic :
    (f a q m : ℕ) (acc : List Pdu) → make_pdu_request_headers_sized f a q m acc ≢ some panic
unfolding make_pdu_request_headers_sized
sized-ne-panic f a q m acc =
    if-holds (λ (r : Option (Result (List Pdu))). r ≢ some panic) (ltb max_range (a + q)) _ _
      (λ on e. cc) (λ off. loop-ne-panic q f a q m m acc)

module _ {ℓ} {S : Type ℓ} (c : Starter S) (slave_id : ℕ) where
  -- There is a result with no panic.
  abbrev Returns : Option (Result (List Printed × S)) → Type ℓ
  Returns r = (out : List Printed × S) × (r ≡ some (ok out))

  requests-Returns :
      (request : ℕ × ℕ × ℕ) (m : ℕ) (s : S) (made : Option (Result (List Pdu)))
      → made ≢ none
      → made ≢ some panic
      → Returns (Option.map (run_requests c slave_id request m s) made)
  unfolding run_requests
  requests-Returns (f, a, q) m s (some (ok reqs)) h h' =
      let ((i, e), t) = do_transactions c slave_id reqs s in
      let (p, printed, _) =
        conclude-Reports c slave_id reqs s i e t (do_transactions-Ran c slave_id reqs s) in
      ((limit m ∷ doing f a q (length reqs) ∷ p ∷ [], t), rw printed refl)
  requests-Returns request m s (some (err e)) h h' = (_, refl)
  requests-Returns request m s (some panic) h h' = absurd (h' refl)
  requests-Returns request m s none h h' = absurd (h refl)

  request-Returns :
      (wsl rsl : ℤ) (s : S) (request : Result (ℕ × ℕ × ℕ))
      → Settles IsRequest request
      → Returns (run_request c slave_id wsl rsl s request)
  unfolding run_request
  request-Returns wsl rsl s (ok (f, a, q)) (h, wa, wq) =
      let m = request_limit wsl rsl f in
      requests-Returns (f, a, q) m s _ (make_pdu_request_headers_sized-ne-none f a q m [] wq)
        (sized-ne-panic f a q m [])
  request-Returns wsl rsl s (err e) h = (_, refl)
  request-Returns wsl rsl s panic h = absurd h

-- Whatever the line, and whatever the two size limits, negative or beyond the largest packet: the
-- round neither panics nor goes on for ever, be it in parsing, in splitting the request, or in naming
-- the request that failed.
pub run_line-returns {ℓ} :
    {S : Type ℓ} (c : Starter S) (slave_id : ℕ) (wsl rsl : ℤ) (s : S) (line : List ℕ)
    → (out : List Printed × S) × (run_line c slave_id wsl rsl s (ok line) ≡ some (ok out))
unfolding run_line
run_line-returns c slave_id wsl rsl s line =
    request-Returns c slave_id wsl rsl s _ (parse_request-Settles (split (trim line)))
