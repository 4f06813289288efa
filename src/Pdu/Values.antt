-- ===== src/Pdu/Values.antt =====
-- Write requests: `MakeWriteRequest` and `GetRequestValues`.
use modbusone.Base.{
  sym, ◌∙◌, subst, ℕ, ◌+◌, ◌≤◌, ◌≡◌, ◌≢◌, ◌⊎◌, ap, List, ◌∷◌, ◌++◌, length, ok, panic, arith, true,
  if◌then◌else◌,
}
use modbusone.FunctionCode.{
  max_per_packet, is_single, is_uint16, make_request_header, is_write_to_server,
}
use modbusone.FunctionCode.Limits.{Code, number, data_bytes, read_coils}
use modbusone.OverSize.{OverSize}
use modbusone.Pdu.{
  Pdu, get_function_code, get_address, get_request_count, validate_request, get_request_values,
  make_write_request,
}
use modbusone.Pdu.Fields.{big_endian_split}
use modbusone.Pdu.Header.{IsRequestable, header_of, made}

-- The bytes that a request with `q` values carries: one coil or register takes two.
abbrev pub request_bytes : ℕ → ℕ → ℕ
request_bytes f q = if is_single f then 2 else data_bytes f q

-- On a header `MakeWriteRequest` appends the data.
pub header_write :
    (c : Code) (a q : ℕ) (spare values : List ℕ)
    → is_write_to_server (number c) ≡ true
    → make_write_request (header_of c a q) spare values ≡ ok (header_of c a q ++ values)
unfolding make_write_request is_write_to_server get_function_code
header_write read_coils a q spare values h = cc
header_write _ a q spare values h = ground arith

pub header_values :
    (o : OverSize) (c : Code) (a q : ℕ) (values : List ℕ)
    → IsRequestable (number c) a q
    → is_write_to_server (number c) ≡ true
    → length values ≡ request_bytes (number c) q
    → get_request_values o (header_of c a q ++ values) ≡ ok values
unfolding get_request_values is_write_to_server is_single is_uint16 max_per_packet
header_values o read_coils a q values r h n = cc
header_values o _ a q values r h n = ground (arith, big_endian_split a, big_endian_split q)

pub header_read_back :
    (c : Code) (a q : ℕ) (values : List ℕ)
    → IsRequestable (number c) a q
    → let w = header_of c a q ++ values in
      (get_address w ≡ ok a) × (get_request_count w ≡ ok q) × (validate_request w ≡ ok tt)
unfolding get_address get_request_count validate_request max_per_packet is_single get_function_code
header_read_back read_coils a q values r = ground (arith, big_endian_split a, big_endian_split q)
header_read_back _ a q values r = ground (arith, big_endian_split a, big_endian_split q)

-- For a write header that was made, and data of the length that its values take, `MakeWriteRequest`
-- gives a valid request from which `GetAddress`, `GetRequestCount` and `GetRequestValues` read back
-- the address, the number of values and the data, whatever the over-size settings and whatever
-- lies behind the header in its array.
pub make_write_request_roundtrip :
    (o : OverSize) (f a q : ℕ) (p spare values : List ℕ)
    → make_request_header f a q ≡ ok p
    → is_write_to_server f ≡ true
    → length values ≡ request_bytes f q
    → (w : Pdu) × (make_write_request p spare values ≡ ok w)
      × (validate_request w ≡ ok tt)
      × (get_function_code w ≡ f)
      × (get_address w ≡ ok a)
      × (get_request_count w ≡ ok q)
      × (get_request_values o w ≡ ok values)
unfolding get_function_code
make_write_request_roundtrip o f a q p spare values h write n =
    let (c, e, e', r) = made f a q p h in
    let wc = subst (λ (g : ℕ). is_write_to_server g ≡ true) e write in
    let nc = subst (λ (g : ℕ). length values ≡ request_bytes g q) e n in
    let (x, y, z) = header_read_back c a q values r in
    (
      header_of c a q ++ values,
      ap (λ (t : List ℕ). make_write_request t spare values) e'
          ∙ header_write c a q spare values wc,
      z,
      sym e,
      x,
      y,
      header_values o c a q values r wc nc,
    )

-- No method panics on a request that `ValidateRequest` accepts.
pub valid_request_is_safe :
    (o : OverSize) (p : Pdu)
    → validate_request p ≡ ok tt
    → (get_address p ≢ panic) × (get_request_count p ≢ panic) × (get_request_values o p ≢ panic)
unfolding validate_request get_address get_request_count get_request_values
valid_request_is_safe o (f ∷ b₁ ∷ b₂ ∷ b₃ ∷ b₄ ∷ b₅ ∷ b₆ ∷ v) h =
    (λ e. cc, λ e. ground arith, λ e. ground arith)
valid_request_is_safe o _ h = (λ e. ground arith, λ e. ground arith, λ e. ground arith)

-- What `GetRequestValues` returns is as long as the values that the request counts take, and the
-- request is for a single value, or its address and count add up to 0xFFFF at most.
pub get_request_values_sound :
    (o : OverSize) (p v : List ℕ) (a q : ℕ)
    → get_address p ≡ ok a
    → get_request_count p ≡ ok q
    → get_request_values o p ≡ ok v
    → (length v ≡ request_bytes (get_function_code p) q)
      × ((is_single (get_function_code p) ≡ true) ⊎ (a + q ≤ 0xFFFF))
unfolding get_request_values get_request_count
get_request_values_sound o (f ∷ b₁ ∷ b₂ ∷ b₃ ∷ b₄ ∷ b₅ ∷ b₆ ∷ v) r a q ha hq h =
    (ground arith, ground arith)
get_request_values_sound o _ r a q ha hq h = (ground arith, ground arith)
