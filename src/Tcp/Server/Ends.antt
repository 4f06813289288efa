-- ===== src/Tcp/Server/Ends.antt =====
-- Every connection comes to its end.
use modbusone.Base.{
  ℕ, zero, suc, ◌+◌, ◌*◌, ◌≤◌, ◌<◌, ◌≡◌, ◌≢◌, refl, if-holds, List, length, length-drop, drop, take,
  Result, ok, err, panic, ◌>>=◌, Option, none, arith, get_or,
}
use modbusone.FunctionCode.{is_read_to_server, is_write_to_server}
use modbusone.Handler.{ProtocolHandler}
use modbusone.OverSize.{OverSize}
use modbusone.Pdu.{Pdu, get_function_code, validate_request, get_request_values}
use modbusone.Tcp.{read_tcp, read_body, read_full, write_tcp}
use modbusone.Tcp.Server.{
  Session, Round, closed, next, buffer, buffer_size, reply, wec, after_read, after_write,
  after_values, answer, after_validate, after_tcp, round, serve, go_on,
}

body-shortens :
    (header stream : List ℕ) (size l : ℕ) (bs rest : List ℕ)
    → read_body header stream size l ≡ ok (bs, rest)
    → length rest ≤ length stream
unfolding read_body read_full
body-shortens header stream size l bs rest e = ground (arith, length-drop l stream)

-- A packet that is read is not empty.
read_tcp-shortens :
    (stream : List ℕ) (size : ℕ) (bs rest : List ℕ)
    → read_tcp stream size ≡ ok (bs, rest)
    → length rest < length stream
unfolding read_tcp read_full
read_tcp-shortens stream size bs rest e =
    let six = take 6 stream in
    ground (
      arith,
      length-drop 6 stream,
      body-shortens six (drop 6 stream) size (get_or six 4 0 * 256 + get_or six 5 0) bs rest,
    )

-- A round that does not close the connection leaves `n` bytes to be read.
abbrev Leaves {ℓ} : {S : Type ℓ} → ℕ → Result (Round S) → Type 0
Leaves n (ok (closed s)) = Unit
Leaves n (ok (next s)) = length s.stream ≡ n
Leaves n (err e) = Unit
Leaves n panic = Unit

module _ {ℓ} {S : Type ℓ} (o : OverSize) (h : ProtocolHandler S) where
  bind-Leaves :
      {A : Type 0} (n : ℕ) (m : Result A) (k : A → Result (Round S))
      → ((a : A) → Leaves n (k a))
      → Leaves n (m >>= k)
  bind-Leaves n (ok a) k each = each a
  bind-Leaves n (err e) k each = tt
  bind-Leaves n panic k each = tt

  reply-Leaves :
      (bs : List ℕ) (p : Pdu) (s : Session S) → Leaves (length s.stream) (reply o h bs p s)
  unfolding reply
  reply-Leaves bs p s = bind-Leaves (length s.stream) (write_tcp (buffer o bs) p) _ (λ frame. refl)

  read-Leaves :
      (bs : List ℕ) (p : Pdu) (s : Session S) (m : Result (List ℕ))
      → Leaves (length s.stream) (after_read o h bs p s m)
  unfolding after_read wec
  read-Leaves bs p s (ok values) = reply-Leaves bs _ s
  read-Leaves bs p s (err e) = reply-Leaves bs _ s
  read-Leaves bs p s panic = tt

  write-Leaves :
      (bs : List ℕ) (p : Pdu) (s : Session S) (m : Result (Unit {0}))
      → Leaves (length s.stream) (after_write o h bs p s m)
  unfolding after_write wec
  write-Leaves bs p s (ok _) = reply-Leaves bs _ s
  write-Leaves bs p s (err e) = reply-Leaves bs _ s
  write-Leaves bs p s panic = tt

  values-Leaves :
      (bs : List ℕ) (p : Pdu) (s : Session S) (m : Result (List ℕ))
      → Leaves (length s.stream) (after_values o h bs p s m)
  unfolding after_values wec
  values-Leaves bs p s (ok values) =
      write-Leaves bs p (record s { handled = (h.on_write p values s.handled).1 })
        (h.on_write p values s.handled).0
  values-Leaves bs p s (err e) = reply-Leaves bs _ s
  values-Leaves bs p s panic = tt

  answer-Leaves :
      (bs : List ℕ) (p : Pdu) (s : Session S) → Leaves (length s.stream) (answer o h bs p s)
  unfolding answer
  answer-Leaves bs p s =
      if-holds (Leaves (length s.stream)) (is_read_to_server (get_function_code p)) _ _
        (λ reads.
          read-Leaves bs p (record s { handled = (h.on_read p s.handled).1 })
            (h.on_read p s.handled).0)
        (λ other.
          if-holds (Leaves (length s.stream)) (is_write_to_server (get_function_code p)) _ _
            (λ writes. values-Leaves bs p s (get_request_values o p)) (λ neither. refl))

  validated-Leaves :
      (bs : List ℕ) (p : Pdu) (s : Session S) (m : Result (Unit {0}))
      → Leaves (length s.stream) (after_validate o h bs p s m)
  unfolding after_validate
  validated-Leaves bs p s (ok _) = answer-Leaves bs p s
  validated-Leaves bs p s (err e) = tt
  validated-Leaves bs p s panic = tt

  abbrev Shortens : ℕ → Result (Round S) → Type 0
  Shortens n (ok (closed s)) = Unit
  Shortens n (ok (next s)) = length s.stream < n
  Shortens n (err e) = Unit
  Shortens n panic = Unit

  Leaves-Shortens : (k n : ℕ) (m : Result (Round S)) → k < n → Leaves k m → Shortens n m
  Leaves-Shortens k n (ok (closed s)) less left = tt
  Leaves-Shortens k n (ok (next s)) less left = omega arith
  Leaves-Shortens k n (err e) less left = tt
  Leaves-Shortens k n panic less left = tt

  tcp-Shortens :
      (s : Session S) (m : Result (List ℕ × List ℕ))
      → ((bs rest : List ℕ) → m ≡ ok (bs, rest) → length rest < length s.stream)
      → Shortens (length s.stream) (after_tcp o h s m)
  unfolding after_tcp
  tcp-Shortens s (ok (bs, rest)) less =
      Leaves-Shortens (length rest) (length s.stream) _ (less bs rest refl) (
        validated-Leaves bs (drop 7 bs) (record s { stream = rest }) (validate_request (drop 7 bs)))
  tcp-Shortens s (err e) less = tt
  tcp-Shortens s panic less = tt

  go_on-ends :
      (n : ℕ) (rounds : Session S → Result (Option (Session S))) (r : Result (Round S))
      → Shortens n r
      → ((s : Session S) → length s.stream < n → rounds s ≢ ok none)
      → (r >>= go_on o h rounds) ≢ ok none
  unfolding go_on
  go_on-ends n rounds (ok (closed s)) less ends = λ e. cc
  go_on-ends n rounds (ok (next s)) less ends = ends s less
  go_on-ends n rounds (err e) less ends = λ e. cc
  go_on-ends n rounds panic less ends = λ e. cc

  -- The loop of a connection ends after at most one round more than the connection gives bytes,
  -- whatever the bytes and the handler: the fuel suffices.
  pub serve-ends : (fuel : ℕ) (s : Session S) → length s.stream < fuel → serve o h fuel s ≢ ok none
  unfolding serve round
  serve-ends zero s enough = absurd (omega arith)
  serve-ends (suc fuel) s enough =
      go_on-ends (length s.stream) (serve o h fuel) (round o h s)
        (tcp-Shortens s (read_tcp s.stream (buffer_size o))
          (λ bs rest e. read_tcp-shortens s.stream (buffer_size o) bs rest e))
        (λ s' less. serve-ends fuel s' (omega arith))
