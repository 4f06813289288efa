-- ===== src/Pdu/Header.antt =====
-- Request headers: `MakeRequestHeader` and its inverses.
use modbusone.Base.{
  ok-injective, sym, ◌∙◌, subst, ℕ, ◌+◌, ◌*◌, ◌/◌, ◌≤◌, ◌≡◌, ◌≢◌, ◌↔◌, List, [], ◌∷◌, u8, ok, arith,
}
use modbusone.FunctionCode.{max_per_packet, is_single, make_request_header}
use modbusone.FunctionCode.Limits.{
  Code, number, supported→Code, write_single_coil, write_single_register, write_multiple_coils,
  write_multiple_registers, read_coils,
}
use modbusone.Pdu.{Pdu, get_function_code, get_address, get_request_count, validate_request}
use modbusone.Pdu.Fields.{big_endian_split}

-- The conditions that `MakeRequestHeader` puts on its arguments.
pub record IsRequestable (f address quantity : ℕ) : Type 0 where
  pub supported : max_per_packet f ≢ 0
  pub some_values : quantity ≢ 0
  pub not_too_many : quantity ≤ max_per_packet f
  pub in_range : address + quantity ≤ 0xFFFF

requested : (f a q : ℕ) (p : Pdu) → make_request_header f a q ≡ ok p → IsRequestable f a q
unfolding make_request_header
requested f a q p h = record {
  supported = ground arith;
  some_values = ground arith;
  not_too_many = ground arith;
  in_range = ground arith;
}

abbrev pub u16_bytes : ℕ → List ℕ → List ℕ
u16_bytes n rest = u8 (n / 256) ∷ u8 n ∷ rest

-- The bytes behind the address, by the kind of request.
abbrev pub count_bytes : Code → ℕ → List ℕ
count_bytes write_single_coil q = []
count_bytes write_single_register q = []
count_bytes write_multiple_coils q = u16_bytes q (u8 ((q + 7) / 8) ∷ [])
count_bytes write_multiple_registers q = u16_bytes q (u8 (q * 2) ∷ [])
count_bytes _ q = u16_bytes q []

abbrev pub header_of : Code → ℕ → ℕ → Pdu
header_of c a q = number c ∷ u16_bytes a (count_bytes c q)

pub make_request_header-header_of :
    (c : Code) (a q : ℕ)
    → IsRequestable (number c) a q
    → make_request_header (number c) a q ≡ ok (header_of c a q)
unfolding make_request_header
make_request_header-header_of read_coils a q h = ground arith
make_request_header-header_of _ a q h = ground arith

-- `MakeRequestHeader` succeeds exactly on a supported function code, a number of values between 1
-- and `MaxPerPacket`, and an address that is at most 0xFFFF minus that number.
pub make_request_header_iff :
    (f a q : ℕ) → ((p : Pdu) × (make_request_header f a q ≡ ok p)) ↔ IsRequestable f a q
make_request_header_iff f a q = (
  λ h. requested f a q h.0 h.1,
  λ h.
      let (c, e) = supported→Code f h.supported in
      let made_at = λ (g : ℕ). make_request_header g a q ≡ ok (header_of c a q) in
      let r = subst (λ (g : ℕ). IsRequestable g a q) e h in
      (header_of c a q, subst made_at (sym e) (make_request_header-header_of c a q r)),
)

-- A header that was made has the form that its code says.
pub made :
    (f a q : ℕ) (p : Pdu)
    → make_request_header f a q ≡ ok p
    → (c : Code) × (f ≡ number c) × (p ≡ header_of c a q) × IsRequestable (number c) a q
made f a q p h =
    let r = requested f a q p h in
    let (c, e) = supported→Code f r.supported in
    let rc = subst (λ (g : ℕ). IsRequestable g a q) e r in
    let hc = subst (λ (g : ℕ). make_request_header g a q ≡ ok p) e h in
    (c, e, ok-injective (sym hc ∙ make_request_header-header_of c a q rc), rc)

header_fields :
    (c : Code) (a q : ℕ)
    → IsRequestable (number c) a q
    → let p = header_of c a q in
      (get_address p ≡ ok a) × (get_request_count p ≡ ok q) × (validate_request p ≡ ok tt)
unfolding get_address get_request_count validate_request max_per_packet is_single get_function_code
header_fields read_coils a q h = ground (arith, big_endian_split a, big_endian_split q)
header_fields _ a q h = ground (arith, big_endian_split a, big_endian_split q)

-- `GetFunctionCode`, `GetAddress` and `GetRequestCount` read back the arguments of the
-- `MakeRequestHeader` that succeeded, and the header is a valid request.
pub make_request_header_roundtrip :
    (f a q : ℕ) (p : Pdu)
    → make_request_header f a q ≡ ok p
    → (get_function_code p ≡ f)
      × (get_address p ≡ ok a)
      × (get_request_count p ≡ ok q)
      × (validate_request p ≡ ok tt)
unfolding get_function_code
make_request_header_roundtrip f a q p h =
    let (c, e, e', r) = made f a q p h in
    let (x, y, z) = header_fields c a q r in
    subst
      (λ (t : Pdu).
        (get_function_code t ≡ f)
        × (get_address t ≡ ok a)
        × (get_request_count t ≡ ok q)
        × (validate_request t ≡ ok tt))
      (sym e') (sym e, x, y, z)
