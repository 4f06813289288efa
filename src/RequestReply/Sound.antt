-- ===== src/RequestReply/Sound.antt =====
-- Which replies `IsRequestReply` takes for the replies to a request.
use modbusone.Base.{
  ℕ, ◌≤◌, ◌≡◌, ◌≢◌, refl, ◌∙◌, subst, true, false, List, [], ◌∷◌, ◌++◌, append-nil, length, ok,
  panic, err, Error, Result, Bool, arith, ==_refl,
}
use modbusone.FunctionCode.{
  is_write_to_server, valid, is_single, is_uint16, max_per_packet, separate_error,
}
use modbusone.FunctionCode.Limits.{Code, number, read_coils, data_bytes}
use modbusone.OverSize.{OverSize}
use modbusone.PacketSize.{get_pdu_size_from_header}
use modbusone.PacketSize.Framing.{Sent-size, Sent-read_reply_size, Sent-write_reply_size}
use modbusone.Pdu.{Pdu, get_function_code, get_request_count, make_read_reply, make_write_reply}
use modbusone.Pdu.Fields.{big_endian_split}
use modbusone.Pdu.Header.{IsRequestable, header_of}
use modbusone.Pdu.Sent.{Sent, HasForm, Sent-HasForm, sent_bytes}
use modbusone.RequestReply.{is_request_reply, header_matches, with_count, equal}

equal_refl : (xs : List ℕ) → equal xs xs ≡ true
unfolding equal
equal_refl [] = refl
equal_refl (x ∷ xs) = ground (arith, equal_refl xs, ==_refl x)

-- What is left of `is_request_reply` where the function codes and the sizes agree.
agreed :
    (o : OverSize) (r a : Pdu)
    → get_function_code r ≡ get_function_code a
    → get_pdu_size_from_header o r false ≡ length r
    → get_pdu_size_from_header o a true ≡ length a
    → is_request_reply o r a ≡ with_count (get_request_count r) (header_matches r a)
unfolding is_request_reply
agreed o r a f m n =
    rw (f, m, n, ==_refl (get_function_code a), ==_refl (length r), ==_refl (length a)) refl

read_matches :
    (c : Code) (a q : ℕ) (values replied : List ℕ)
    → IsRequestable (number c) a q
    → is_write_to_server (number c) ≡ false
    → length replied ≡ data_bytes (number c) q
    → let w = header_of c a q ++ values in
      with_count (get_request_count w) (header_matches w (make_read_reply w replied)) ≡ ok true
unfolding get_request_count header_matches with_count make_read_reply get_function_code
    is_write_to_server is_single is_uint16 max_per_packet
read_matches read_coils a q values replied r h n = ground (arith, big_endian_split q)
read_matches _ a q values replied r h n = ground (arith, big_endian_split q)

-- There is data for a read, and it fits one byte's count.
read_fits :
    (c : Code) (a q : ℕ)
    → IsRequestable (number c) a q
    → is_write_to_server (number c) ≡ false
    → (1 ≤ data_bytes (number c) q) × (data_bytes (number c) q ≤ 250)
unfolding is_write_to_server is_single is_uint16 max_per_packet
read_fits read_coils a q r h = let n = r.some_values in (ground arith, ground arith)
read_fits _ a q r h = let n = r.some_values in (ground arith, ground arith)

write_matches :
    (w : Pdu)
    → valid (get_function_code w) ≡ true
    → is_write_to_server (get_function_code w) ≡ true
    → 5 ≤ length w
    → with_count (get_request_count w) (header_matches w (make_write_reply w)) ≡ ok true
unfolding get_request_count header_matches with_count make_write_reply is_write_to_server
    get_function_code is_single valid
write_matches (f ∷ b ∷ c ∷ d ∷ e ∷ rest) v h n = ground (arith, equal_refl (f ∷ b ∷ c ∷ d ∷ e ∷ []))
write_matches _ v h n = absurd (ground arith)

number-valid : (c : Code) → valid (number c) ≡ true
unfolding valid
number-valid read_coils = refl
number-valid _ = refl

sent_length :
    (c : Code) (a q : ℕ) (values : List ℕ)
    → is_write_to_server (number c) ≡ true
    → length values ≡ sent_bytes (number c) q
    → 5 ≤ length (header_of c a q ++ values)
unfolding is_write_to_server is_single
sent_length read_coils a q values h n = cc
sent_length _ a q values h n = ground arith

write_reply_code : (w : Pdu) → get_function_code w ≡ get_function_code (make_write_reply w)
unfolding get_function_code make_write_reply
write_reply_code [] = refl
write_reply_code (f ∷ p) = ground arith

read_reply_code :
    (w replied : List ℕ) → get_function_code w ≡ get_function_code (make_read_reply w replied)
unfolding get_function_code make_read_reply
read_reply_code w replied = refl

module _ {f a q : ℕ} {values : List ℕ} {w : Pdu} (h : HasForm f a q values w) where
  write_form :
      is_write_to_server f ≡ true
      → with_count (get_request_count w) (header_matches w (make_write_reply w)) ≡ ok true
  unfolding get_function_code
  write_form e =
      let e' = rw h.is_code at e in
      rw h.form (
        write_matches (header_of h.code a q ++ values) (number-valid h.code) e'
          (sent_length h.code a q values e' h.carried))

  read_form :
      (replied : List ℕ)
      → is_write_to_server f ≡ false
      → length replied ≡ data_bytes f q
      → with_count (get_request_count w) (header_matches w (make_read_reply w replied)) ≡ ok true
  read_form replied e n =
      rw h.form (
        read_matches h.code a q values replied h.requestable (rw h.is_code at e)
          (rw h.is_code at n))

  pub read_bytes : is_write_to_server f ≡ false → (1 ≤ data_bytes f q) × (data_bytes f q ≤ 250)
  read_bytes e = rw h.is_code (read_fits h.code a q h.requestable (rw h.is_code at e))

sized :
    (o : OverSize) {f a q : ℕ} {values : List ℕ} {w : Pdu}
    → Sent f a q values w
    → get_pdu_size_from_header o w false ≡ length w
sized o {w = w} s =
    subst (λ (t : Pdu). get_pdu_size_from_header o t false ≡ length w) (append-nil w)
      (Sent-size o [] s).0

trim :
    (o : OverSize) (p : Pdu)
    → get_pdu_size_from_header o (p ++ []) true ≡ length p
    → get_pdu_size_from_header o p true ≡ length p
trim o p = subst (λ (x : Pdu). get_pdu_size_from_header o x true ≡ length p) (append-nil p)

-- `IsRequestReply` takes the acknowledgement of a write that was sent for its reply, with any
-- over-size settings.
pub is_request_reply-write :
    (o : OverSize) {f a q : ℕ} {values : List ℕ} {w : Pdu}
    → Sent f a q values w
    → is_write_to_server f ≡ true
    → is_request_reply o w (make_write_reply w) ≡ ok true
is_request_reply-write o {w = w} s e =
    let size = Sent-write_reply_size o [] s e in
    agreed o w (make_write_reply w) (write_reply_code w) (sized o s)
      (trim o (make_write_reply w) size)
    ∙ write_form (Sent-HasForm s) e

-- For a read that was sent, `IsRequestReply` takes a data reply of as many bytes as the requested
-- values take, whatever the data, for its reply, with any over-size settings.
pub is_request_reply-read :
    (o : OverSize) {f a q : ℕ} {values : List ℕ} {w : Pdu} (replied : List ℕ)
    → Sent f a q values w
    → is_write_to_server f ≡ false
    → length replied ≡ data_bytes f q
    → is_request_reply o w (make_read_reply w replied) ≡ ok true
is_request_reply-read o {w = w} replied s e n =
    let size =
      Sent-read_reply_size o replied [] s e (omega (arith, n, (read_bytes (Sent-HasForm s) e).1)) in
    agreed o w (make_read_reply w replied) (read_reply_code w replied) (sized o s)
      (trim o (make_read_reply w replied) size)
    ∙ read_form (Sent-HasForm s) replied e n

-- `IsRequestReply` never panics, on any two lists of bytes.
pub is_request_reply_safe : (o : OverSize) (r a : Pdu) → is_request_reply o r a ≢ panic
unfolding is_request_reply get_request_count header_matches with_count get_function_code
    is_write_to_server is_single valid get_pdu_size_from_header separate_error
is_request_reply_safe o (f ∷ b ∷ c ∷ d ∷ e ∷ r) (g ∷ h ∷ i ∷ j ∷ k ∷ a) = λ e. ground arith
is_request_reply_safe o _ _ = λ e. ground arith

-- `IsRequestReply` has no error.
is_request_reply-no_error : (o : OverSize) (r a : Pdu) (e : Error) → is_request_reply o r a ≢ err e
unfolding is_request_reply get_request_count header_matches with_count get_function_code
    is_write_to_server is_single valid get_pdu_size_from_header separate_error
is_request_reply-no_error o (f ∷ b ∷ c ∷ d ∷ e ∷ r) (g ∷ h ∷ i ∷ j ∷ k ∷ a) x = λ e. ground arith
is_request_reply-no_error o _ _ x = λ e. ground arith

-- `IsRequestReply` always answers.
pub is_request_reply-answers :
    (o : OverSize) (r a : Pdu) → (b : Bool) × (is_request_reply o r a ≡ ok b)
is_request_reply-answers o r a =
    go (is_request_reply o r a) (is_request_reply_safe o r a) (is_request_reply-no_error o r a)
  where
    go : (m : Result Bool) → m ≢ panic → ((e : Error) → m ≢ err e) → (b : Bool) × (m ≡ ok b)
    go (ok b) _ _ = (b, refl)
    go (err e) _ fine = absurd (fine e refl)
    go panic safe _ = absurd (safe refl)
