-- ===== src/RequestReply/Total.antt =====
-- `IsRequestReply` answers on any two sequences of bytes.
use modbusone.Base.{
  ℕ, bit_and, ◌≤◌, ◌≡◌, ◌≢◌, ◌⊎◌, inl, inr, refl, Bool, true, false, not, ◌||◌, ◌==◌, List, length,
  take, append-nil, le→leb, le_or_lt, subst, get_or, [], ◌∷◌, if-holds, Result, ok, err, panic,
  arith,
}
use modbusone.FunctionCode.{valid, is_single, is_write_to_server, separate_error}
use modbusone.OverSize.{OverSize, get_max_pdu_size}
use modbusone.PacketSize.{get_pdu_size_from_header, over_size}
use modbusone.Minmax
use modbusone.Pdu.{Pdu, at, slice_to, get_function_code, get_request_count}
use modbusone.RequestReply.{is_request_reply, header_matches, with_count}

over_size-five : (o : OverSize) (f : ℕ) (h : List ℕ) → 5 ≤ over_size o f h
unfolding over_size get_max_pdu_size Minmax.min Minmax.max
over_size-five o f h = ground arith

size_two : (o : OverSize) (h : List ℕ) (b : Bool) → 2 ≤ get_pdu_size_from_header o h b
unfolding get_pdu_size_from_header
size_two o h b = ground (arith, over_size-five o (separate_error (get_or h 0 0)).1 h)

-- A function code that is one of the writes.
abbrev IsWrite : ℕ → Type 0
IsWrite f = (f ≡ 5) ⊎ ((f ≡ 6) ⊎ ((f ≡ 15) ⊎ (f ≡ 16)))

write_size :
    (o : OverSize) (f : ℕ) (p : List ℕ) (b : Bool)
    → IsWrite f
    → get_pdu_size_from_header o (f ∷ p) b ≡ length (f ∷ p)
    → 5 ≤ length (f ∷ p)
unfolding get_pdu_size_from_header separate_error valid is_write_to_server is_single
write_size o f p b (inl e) n = ground (arith, e)
write_size o f p b (inr (inl e)) n = ground (arith, e)
write_size o f p b (inr (inr (inl e))) n =
    ground (arith, e, over_size-five o (bit_and f 127) (f ∷ p))
write_size o f p b (inr (inr (inr e))) n =
    ground (arith, e, over_size-five o (bit_and f 127) (f ∷ p))

-- A PDU with a code of a write, whose length is the size that its header tells.
five :
    (o : OverSize) (p : Pdu) (b : Bool)
    → IsWrite (get_function_code p)
    → get_pdu_size_from_header o p b ≡ length p
    → 5 ≤ length p
unfolding get_function_code
five o [] b w n = absurd (omega arith)
five o (f ∷ p) b w n = write_size o f p b w n

pub at-ok : (p : Pdu) → 2 ≤ length p → (n : ℕ) × (at p 1 ≡ ok n)
at-ok (x ∷ y ∷ p) two = (y, refl)
at-ok (x ∷ []) two = absurd (omega arith)
at-ok [] two = absurd (omega arith)

head-ok : (p : Pdu) → 5 ≤ length p → (x : List ℕ) × (slice_to p [] 5 ≡ ok x)
head-ok p long = rw (append-nil p, le→leb 5 (length p) long) (take 5 p, refl)

five_bytes : (p : Pdu) → 5 ≤ length p → get_request_count p ≢ panic
unfolding get_request_count
five_bytes (a ∷ b ∷ c ∷ d ∷ e ∷ p) h = ground arith
five_bytes _ h = absurd (omega arith)

count-ne-panic : (p : Pdu) → get_request_count p ≢ panic
unfolding get_request_count
count-ne-panic p = elim (le_or_lt 5 (length p)) [
  | inl enough ↦ five_bytes p enough
  | inr few ↦ ground arith
]

abbrev Answers : Result Bool → Type 0
Answers r = (b : Bool) × (r ≡ ok b)

matches :
    (r a : Pdu) (c : ℕ)
    → 2 ≤ length a
    → (IsWrite (get_function_code r) → (5 ≤ length r) × (5 ≤ length a))
    → Answers (header_matches r a c)
unfolding header_matches
matches r a c two long =
    let f = get_function_code r in
    let (n, got) = at-ok a two in
    if-holds Answers (f == 1 || f == 2) _ _ (λ bits. rw got (_, refl))
      λ other.
        if-holds Answers (f == 3 || f == 4) _ _ (λ registers. rw got (_, refl))
          λ other'.
            if-holds Answers (f == 5 || f == 6 || f == 15 || f == 16) _ _
              (λ writes.
                let (lr, la) = long (ground arith) in
                let (x, hx) = head-ok r lr in let (y, hy) = head-ok a la in rw (hx, hy) (_, refl))
              (λ none_of_them. (_, refl))

counted :
    (m : Result ℕ) (k : ℕ → Result Bool)
    → m ≢ panic
    → ((c : ℕ) → Answers (k c))
    → Answers (with_count m k)
unfolding with_count
counted (ok c) k h each = each c
counted (err e) k h each = (false, refl)
counted panic k h each = absurd (h refl)

-- `IsRequestReply` answers yes or no, and does not panic, on any two sequences of bytes, also empty
-- ones, whatever the over-size settings.
pub is_request_reply-total :
    (o : OverSize) (r a : Pdu) → (b : Bool) × (is_request_reply o r a ≡ ok b)
unfolding is_request_reply
is_request_reply-total o r a =
    let f = get_function_code r in
    if-holds Answers (not (f == get_function_code a)) _ _ (λ codes. (false, refl))
      λ same_code.
        if-holds Answers (not (get_pdu_size_from_header o r false == length r)) _ _
          (λ request. (false, refl))
          λ sized_r.
            if-holds Answers (not (get_pdu_size_from_header o a true == length a)) _ _
              (λ reply. (false, refl))
              λ sized_a.
                let code : f ≡ get_function_code a = ground arith in
                let nr : get_pdu_size_from_header o r false ≡ length r = ground arith in
                let na : get_pdu_size_from_header o a true ≡ length a = ground arith in
                counted (get_request_count r) (header_matches r a) (count-ne-panic r) λ c.
                  matches r a c (omega (arith, size_two o a true, na))
                    λ w. (five o r false w nr, five o a true (subst IsWrite code w) na)
