-- ===== src/RtuClient/Reports.antt =====
-- Every transaction of `ServeRTU` whose timer expires is answered.
use modbusone.Base.{
  ℕ, ◌≤◌, ◌≡◌, ◌≢◌, refl, sym, subst, Bool, true, not, ◌&&◌, ◌==◌, List, [], ◌∷◌, ◌++◌, length,
  drop, length-take, length-drop, ◌-◌, none, some, if-holds, Result, ok, err, panic, ◌>>=◌, arith,
}
use modbusone.FunctionCode.{
  is_read_to_server, is_write_to_server, separate_error, make_request_header,
}
use modbusone.FunctionCode.Limits.{number}
use modbusone.Handler.{RtuProtocolHandler}
use modbusone.OverSize.{OverSize}
use modbusone.Pdu.{Pdu, get_function_code, get_reply_values, make_write_request}
use modbusone.Pdu.Header.{made, header_of}
use modbusone.Pdu.Values.{header_write}
use modbusone.RequestReply.Total.{is_request_reply-total, at-ok}
use modbusone.Rtu.{Rtu, RtuHeader, make_rtu, get_pdu, fast_get_pdu, get_slave_id, is_multicast}
use modbusone.Rtu.Frame.{get_pdu-no_panic}
use modbusone.RtuClient.{
  Client, Event, time_out, client_start, client_read, Outcome, reported, returned, waiting, drop_id,
  with_handled, fast_get_header, after_on_write, after_reply_values, accept_reply, refused,
  after_get_pdu, read_loop, send, after_on_read, transaction,
}
use modbusone.RtuClient.Exchange.{header_back}

-- The user's functions do not panic.
pub record IsSafe {ℓ} {S : Type ℓ} (h : RtuProtocolHandler S) : Type ℓ where
  pub read_safe : (p : RtuHeader) (s : S) → (h.on_read p s).0 ≢ panic
  pub write_safe : (p : RtuHeader) (values : List ℕ) (s : S) → (h.on_write p values s).0 ≢ panic
  pub error_safe : (p q : RtuHeader) (s : S) → (t : S) × (h.on_error p q s ≡ ok t)

-- The timer expires, or another transaction is started, before the connection fails, and the packets
-- until then are not empty.
pub data Timed : List Event → Type 0 where
  expires : {events : List Event} → Timed (time_out ∷ events)
  starts : {events : List Event} → Timed (client_start ∷ events)
  hears :
      {id : ℕ} {r : Rtu} {events : List Event}
      → Timed events
      → Timed (client_read (id ∷ r) ∷ events)

-- Something was sent on the channel of the transaction.
abbrev pub Reported {ℓ} : {C : Type ℓ} → Result (Outcome × C) → Type 0
Reported (ok (reported e, c)) = Unit
Reported (ok (returned (some r) e, c)) = Unit
Reported (ok (returned none e, c)) = ⊥
Reported (ok (waiting, c)) = ⊥
Reported (err e) = ⊥
Reported panic = ⊥

pub bind-Reported {ℓ κ} :
    {A : Type κ} {C : Type ℓ} {r : Result A} (a : A) (k : A → Result (Outcome × C))
    → r ≡ ok a
    → Reported (k a)
    → Reported (r >>= k)
bind-Reported {A = A} a k e h = subst (λ (m : Result A). Reported (m >>= k)) (sym e) h

pub fast_ok : (r : Rtu) (p : Pdu) → get_pdu r ≡ ok p → (fast_get_pdu r ≡ ok p) × (2 ≤ length p)
unfolding get_pdu
fast_ok r p e =
    let fast : fast_get_pdu r ≡ ok p = unfold fast_get_pdu in ground arith in
    (fast, ground (arith, length-take (length r - 3) (drop 1 r), length-drop 1 r, fast))

pub reply_values-ne-panic : (p : Pdu) → 2 ≤ length p → get_reply_values p ≢ panic
unfolding get_reply_values
reply_values-ne-panic (x ∷ y ∷ []) two = ground arith
reply_values-ne-panic (x ∷ y ∷ z ∷ p) two = ground arith
reply_values-ne-panic _ two = absurd (omega arith)

module _ {ℓ} {S : Type ℓ} (o : OverSize) (h : RtuProtocolHandler S) (safe : IsSafe h)
    (afc : ℕ) where
  write-Reported :
      (c : Client S) (m : Result (Unit {0})) → m ≢ panic → Reported (after_on_write o h afc c m)
  unfolding after_on_write
  write-Reported c (ok _) ne = tt
  write-Reported c (err e) ne = tt
  write-Reported c panic ne = absurd (ne refl)

  values-Reported :
      (header : RtuHeader) (c : Client S) (m : Result (List ℕ))
      → m ≢ panic
      → Reported (after_reply_values o h afc header c m)
  unfolding after_reply_values
  values-Reported header c (ok values) ne =
      write-Reported (with_handled c (h.on_write header values c.handled).1)
        (h.on_write header values c.handled).0 (safe.write_safe header values c.handled)
  values-Reported header c (err e) ne = tt
  values-Reported header c panic ne = absurd (ne refl)

  accept-Reported :
      (header : RtuHeader) (rp : Pdu) (c : Client S)
      → 2 ≤ length rp
      → Reported (accept_reply o h afc header rp c)
  unfolding accept_reply
  accept-Reported header rp c two =
      let (b, answer) = is_request_reply-total o header.pdu rp in
      bind-Reported b _ answer (
        if-holds Reported (not b) _ _ (λ other. tt)
          λ ours.
            if-holds Reported (is_read_to_server afc) _ _
              (λ reads.
                values-Reported header c (get_reply_values rp) (reply_values-ne-panic rp two))
              (λ writes. tt))

  refused-Reported :
      (header reply : RtuHeader) (rp : Pdu) (c : Client S)
      → 2 ≤ length rp
      → Reported (refused o h afc header reply rp c)
  unfolding refused
  refused-Reported header reply rp c two =
      let (t, told) = safe.error_safe header reply c.handled in
      let (ec, code) = at-ok rp two in bind-Reported t _ told (bind-Reported ec _ code tt)

  pdu-Reported :
      (header : RtuHeader) (r : Rtu) (c : Client S) (m : Result Pdu)
      → get_pdu r ≡ m
      → Reported (after_get_pdu o h afc header r c m)
  unfolding after_get_pdu fast_get_header
  pdu-Reported header r c (ok rp) e =
      let (fast, two) = fast_ok r rp e in
      let reply : RtuHeader = record { slave_id = get_slave_id r; pdu = rp } in
      let (flag, fc) = separate_error (get_function_code rp) in
      if-holds Reported (flag && fc == afc)
        (fast_get_header r >>= λ x. refused o h afc header x rp c)
        (accept_reply o h afc header rp c)
        (λ excepted.
          bind-Reported reply (λ x. refused o h afc header x rp c) (rw fast refl)
            (refused-Reported header reply rp c two))
        (λ fine. accept-Reported header rp c two)
  pdu-Reported header r c (err x) e = tt
  pdu-Reported header r c panic e = absurd (get_pdu-no_panic r e)

  read_loop-Reported :
      {events : List Event} (header : RtuHeader) (c : Client S)
      → Timed events
      → Reported (read_loop o h afc header events c)
  unfolding read_loop
  read_loop-Reported header c expires = tt
  read_loop-Reported header c starts = tt
  read_loop-Reported header c (hears {id = id} {r = r} {events = events} later) =
      let rest = read_loop-Reported header (drop_id c) later in
      if-holds Reported (not (id == header.slave_id)) _ _ (λ other. rest)
        (λ ours. pdu-Reported header (id ∷ r) c (get_pdu (id ∷ r)) refl)

  send-Reported :
      (accepts : List Rtu → Rtu → Bool) (id : ℕ) (w : Pdu) (events : List Event) (c : Client S)
      → Timed events
      → Reported (send o h afc accepts (make_rtu id w) events c)
  unfolding send
  send-Reported accepts id w events c timed =
      let c' : Client S = record {
        stats = c.stats;
        written = c.written ++ (make_rtu id w ∷ []);
        handled = c.handled;
      } in
      if-holds Reported (not (accepts c.written (make_rtu id w))) _ _ (λ failed. tt)
        λ taken.
          if-holds Reported (is_multicast (make_rtu id w)) _ _ (λ all. tt)
            λ one.
              bind-Reported (record { slave_id = id; pdu = w }) _ (header_back id w)
                (read_loop-Reported (record { slave_id = id; pdu = w }) c' timed)

  read-Reported :
      (accepts : List Rtu → Rtu → Bool) (id : ℕ) (p : Pdu) (spare : List ℕ) (events : List Event)
      (c : Client S) (m : Result (List ℕ))
      → ((values : List ℕ) → (w : Pdu) × (make_write_request p spare values ≡ ok w))
      → m ≢ panic
      → Timed events
      → Reported
          (after_on_read o h afc accepts (record { slave_id = id; pdu = p }) spare events c m)
  unfolding after_on_read
  read-Reported accepts id p spare events c (ok values) fills ne timed =
      let (w, fill) = fills values in
      bind-Reported w _ fill (send-Reported accepts id w events c timed)
  read-Reported accepts id p spare events c (err e) fills ne timed = tt
  read-Reported accepts id p spare events c panic fills ne timed = absurd (ne refl)

-- `MakeWriteRequest` takes any data for a header of a write.
pub fills :
    (f a q : ℕ) (p spare values : List ℕ)
    → make_request_header f a q ≡ ok p
    → is_write_to_server (get_function_code p) ≡ true
    → (w : Pdu) × (make_write_request p spare values ≡ ok w)
unfolding get_function_code
fills f a q p spare values h writes =
    let (c, e, form, _) = made f a q p h in
    let kind : is_write_to_server (number c) ≡ true = rw form at writes in
    (header_of c a q ++ values, rw form (header_write c a q spare values kind))

-- A transaction for a request header, with functions of the user that do not panic. Whether or not the
-- connection takes the frame, and whatever is heard: if the timer expires before the connection fails,
-- then something is sent on the channel of the transaction, an error or nil.
pub transaction-Reported {ℓ} :
    {S : Type ℓ} (o : OverSize) (h : RtuProtocolHandler S) (accepts : List Rtu → Rtu → Bool)
    (id f a q : ℕ) (p : Pdu) (spare : List ℕ) (events : List Event) (c : Client S)
    → IsSafe h
    → make_request_header f a q ≡ ok p
    → Timed events
    → Reported (transaction o h accepts (make_rtu id p) spare events c)
unfolding transaction
transaction-Reported o h accepts id f a q p spare events c safe header timed =
    let request : RtuHeader = record { slave_id = id; pdu = p } in
    let afc = get_function_code p in
    bind-Reported request _ (header_back id p) (
      if-holds Reported (is_write_to_server afc) _ _
        (λ writes.
          read-Reported o h safe afc accepts id p spare events
            (with_handled c (h.on_read request c.handled).1) (h.on_read request c.handled).0
            (λ values. fills f a q p spare values header writes) (safe.read_safe request c.handled)
            timed)
        (λ reads. send-Reported o h safe afc accepts id p events c timed))
