-- ===== src/Pdu/Sent.antt =====
-- The requests that a client sends: a read header as it was made, or a write header with its data.
use modbusone.Base.{
  ℕ, ◌≡◌, ◌∙◌, ap, sym, subst, List, [], ◌++◌, append-nil, length, ok, ok-injective, true, false,
  refl, ◌≤◌, not, arith, if◌then◌else◌,
}
use modbusone.FunctionCode.{is_write_to_server, is_read_to_server, valid, make_request_header}
use modbusone.FunctionCode.Limits.{Code, number, read_coils, classified}
use modbusone.OverSize.{OverSize}
use modbusone.Pdu.{
  Pdu, make_write_request, get_function_code, get_address, get_request_count, validate_request,
  get_request_values,
}
use modbusone.Pdu.Header.{IsRequestable, header_of, made}
use modbusone.Pdu.Values.{request_bytes, header_write, header_values, header_read_back}

-- `w` is the request for the function code `f`, the address `a` and `q` values, with the data
-- `values` that it carries.
pub data Sent (f a q : ℕ) (values : List ℕ) (w : Pdu) : Type 0 where
  read :
      is_write_to_server f ≡ false
      → values ≡ []
      → make_request_header f a q ≡ ok w
      → Sent f a q values w
  write :
      (p spare : List ℕ)
      → is_write_to_server f ≡ true
      → length values ≡ request_bytes f q
      → make_request_header f a q ≡ ok p
      → make_write_request p spare values ≡ ok w
      → Sent f a q values w

-- The bytes of data behind the header.
abbrev pub sent_bytes : ℕ → ℕ → ℕ
sent_bytes f q = if is_write_to_server f then request_bytes f q else 0

sent_write : (f q : ℕ) → is_write_to_server f ≡ true → sent_bytes f q ≡ request_bytes f q
sent_write f q e = rw e refl

pub record HasForm (f a q : ℕ) (values : List ℕ) (w : Pdu) : Type 0 where
  pub code : Code
  pub is_code : f ≡ number code
  pub form : w ≡ header_of code a q ++ values
  pub requestable : IsRequestable (number code) a q
  pub carried : length values ≡ sent_bytes (number code) q

pub Sent-HasForm :
    {f a q : ℕ} {values : List ℕ} {w : Pdu} → Sent f a q values w → HasForm f a q values w
Sent-HasForm {f} {a} {q} {values} {w} (read r v h) =
    let (c, e, e', n) = made f a q w h in
    let rc : is_write_to_server (number c) ≡ false =
      subst (λ (g : ℕ). is_write_to_server g ≡ false) e r in
    record {
      code = c;
      is_code = e;
      form = e' ∙ sym (append-nil _) ∙ ap (◌++◌ (header_of c a q)) (sym v);
      requestable = n;
      carried = rw (v, rc);
    }
Sent-HasForm {f} {a} {q} {values} {w} (write p spare r n h m) =
    let (c, e, e', rq) = made f a q p h in
    let rc : is_write_to_server (number c) ≡ true =
      subst (λ (g : ℕ). is_write_to_server g ≡ true) e r in
    let nc : length values ≡ request_bytes (number c) q =
      subst (λ (g : ℕ). length values ≡ request_bytes g q) e n in
    let m' = subst (λ (t : Pdu). make_write_request t spare values ≡ ok w) e' m in
    record {
      code = c;
      is_code = e;
      form = ok-injective (sym m' ∙ header_write c a q spare values rc);
      requestable = rq;
      carried = rw rc nc;
    }

-- What the methods read from a request that was sent.
pub record Reads (o : OverSize) (f a q : ℕ) (values : List ℕ) (w : Pdu) : Type 0 where
  pub reads_code : get_function_code w ≡ f
  pub reads_address : get_address w ≡ ok a
  pub reads_count : get_request_count w ≡ ok q
  pub reads_valid : validate_request w ≡ ok tt
  pub reads_length : 3 ≤ length w
  pub reads_kind : is_read_to_server f ≡ not (is_write_to_server f)
  pub reads_values : is_write_to_server f ≡ true → get_request_values o w ≡ ok values

number-valid : (c : Code) → valid (number c) ≡ true
unfolding valid
number-valid read_coils = refl
number-valid _ = refl

valid_length : (w : Pdu) → validate_request w ≡ ok tt → 3 ≤ length w
unfolding validate_request
valid_length w h = ground arith

header_code :
    (c : Code) (a q : ℕ) (values : List ℕ)
    → get_function_code (header_of c a q ++ values) ≡ number c
unfolding get_function_code
header_code c a q values = refl

pub Sent-Reads :
    (o : OverSize) {f a q : ℕ} {values : List ℕ} {w : Pdu}
    → Sent f a q values w
    → Reads o f a q values w
Sent-Reads o {f} {a} {q} {values} {w} s =
    let h = Sent-HasForm s in
    let (x, y, z) = header_read_back h.code a q values h.requestable in
    let valid_w : validate_request w ≡ ok tt = rw h.form z in
    record {
      reads_code = rw (h.form, h.is_code) (header_code h.code a q values);
      reads_address = rw h.form x;
      reads_count = rw h.form y;
      reads_valid = valid_w;
      reads_length = valid_length w valid_w;
      reads_kind = rw h.is_code ((classified (number h.code) (number-valid h.code)).0);
      reads_values = λ e.
          let e' : is_write_to_server (number h.code) ≡ true =
            subst (λ (g : ℕ). is_write_to_server g ≡ true) h.is_code e in
          rw h.form (
            header_values o h.code a q values h.requestable e'
              (h.carried ∙ sent_write (number h.code) q e'));
    }
