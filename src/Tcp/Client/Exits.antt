-- ===== src/Tcp/Client/Exits.antt =====
-- How the client of tcp_client.go comes to its end.
use modbusone.Base.{
  ℕ, ◌≡◌, refl, sym, ap, subst, ◌∙◌, ◌+◌, Bool, true, false, not, List, [], ◌∷◌, ◌++◌, Option, none,
  some, Result, ok, err, panic, ◌>>=◌, Error, io_failure, message, if-holds, if◌then◌else◌, drop,
}
use modbusone.FunctionCode.{separate_error, is_write_to_server, is_read_to_server}
use modbusone.Handler.{ProtocolHandler}
use modbusone.OverSize.{OverSize, get_max_rtu_size}
use modbusone.Pdu.{Pdu, get_function_code, get_reply_values, make_write_request}
use modbusone.RequestReply.{is_request_reply}
use modbusone.Tcp.{read_tcp, write_tcp, mbap_header_length, tcp_header_length}
use modbusone.Tcp.Client.{
  Client, Done, exit, new_buffer, after_on_write, after_reply_values, after_reply, after_tcp, send,
  after_on_read, do_transaction2, user_exit, close, exit_reason, serve,
}

-- A result of a transaction that began with the `exitError` and the context given: both are as they
-- were, or the context is cancelled with exactly the error that the transaction returns.
pub data Exits {ℓ} {S : Type ℓ} (before : Option Error) (was : Bool) : Done S → Type ℓ where
  stays :
      {e : Option Error} {c : Client S}
      → c.exit_error ≡ before
      → c.cancelled ≡ was
      → Exits before was (e, c)
  ends :
      {e : Error} {c : Client S}
      → c.exit_error ≡ some e
      → c.cancelled ≡ true
      → Exits before was (some e, c)

-- Where the transaction gives a result at all.
abbrev ExitsIn {ℓ} : {S : Type ℓ} → Option Error → Bool → Result (Done S) → Type ℓ
ExitsIn before was (ok done) = Exits before was done
ExitsIn before was (err e) = Unit
ExitsIn before was panic = Unit

bind-ExitsIn {ℓ κ} :
    {A : Type κ} {S : Type ℓ} (b : Option Error) (w : Bool) (r : Result A) (k : A → Result (Done S))
    → ((a : A) → ExitsIn b w (k a))
    → ExitsIn b w (r >>= k)
bind-ExitsIn b w (ok a) k each = each a
bind-ExitsIn b w (err e) k each = tt
bind-ExitsIn b w panic k each = tt

-- A transaction, with what it returned, or a call of `Close`.
pub data Deed : Type 0 where
  ran : Option Error → Deed
  shut : Deed

-- The errors that deeds account for: those that transactions returned, and that of a `Close`.
pub data Causes : List Deed → Error → Type 0 where
  by_run : {e : Error} {deeds : List Deed} → Causes (ran (some e) ∷ deeds) e
  by_close : {deeds : List Deed} → Causes (shut ∷ deeds) message
  earlier : {e : Error} {d : Deed} {deeds : List Deed} → Causes deeds e → Causes (d ∷ deeds) e

module _ {ℓ} {S : Type ℓ} (o : OverSize) (h : ProtocolHandler S) where
  module _ (c : Client S) where
    abbrev Ok : Result (Done S) → Type ℓ
    Ok = ExitsIn c.exit_error c.cancelled

    exit-Exits : (e : Error) (c' : Client S) → Ok (exit e c')
    unfolding exit
    exit-Exits e c' = ends refl refl

  write-Exits : (c : Client S) (m : Result (Unit {0})) → Ok c (after_on_write o h c m)
  unfolding after_on_write
  write-Exits c (ok _) = stays refl refl
  write-Exits c (err e) = stays refl refl
  write-Exits c panic = tt

  values-Exits :
      (req : Pdu) (c : Client S) (m : Result (List ℕ)) → Ok c (after_reply_values o h req c m)
  unfolding after_reply_values
  values-Exits req c (ok values) =
      write-Exits (record c { handled = (h.on_write req values c.handled).1 })
        (h.on_write req values c.handled).0
  values-Exits req c (err e) = exit-Exits c e c
  values-Exits req c panic = tt

  reply-Exits : (req rp : Pdu) (c : Client S) → Ok c (after_reply o h req rp c)
  unfolding after_reply
  reply-Exits req rp c =
      if-holds (Ok c) (separate_error (get_function_code rp)).0 _ _ (λ flagged. stays refl refl)
        λ fine. bind-ExitsIn c.exit_error c.cancelled (is_request_reply o req rp) _ λ matches.
          if-holds (Ok c) (not matches) _ _ (λ other. exit-Exits c message c)
            λ ours.
              if-holds (Ok c) (is_read_to_server (separate_error (get_function_code rp)).1) _ _
                (λ reads. values-Exits req c (get_reply_values rp)) (λ writes. stays refl refl)

  tcp-Exits :
      (req : Pdu) (c : Client S) (m : Result (List ℕ × List ℕ)) → Ok c (after_tcp o h req c m)
  unfolding after_tcp
  tcp-Exits req c (ok (bs, rest)) =
      reply-Exits req (drop mbap_header_length bs) (record c { stream = rest })
  tcp-Exits req c (err e) = exit-Exits c e c
  tcp-Exits req c panic = tt

  module _ (accepts : List (List ℕ) → List ℕ → Bool) where
    send-Exits : (req : Pdu) (c : Client S) → Ok c (send o h accepts req c)
    unfolding send
    send-Exits req c =
        bind-ExitsIn c.exit_error c.cancelled (write_tcp (new_buffer o) req) _ λ frame.
          let c' : Client S = record c { written = c.written ++ (frame ∷ []) } in
          if-holds (Ok c) (accepts c.written frame) _ _
            (λ taken. tcp-Exits req c' (read_tcp c.stream (get_max_rtu_size o + tcp_header_length)))
            (λ refused. exit-Exits c io_failure c')

    read-Exits :
        (spare : List ℕ) (req : Pdu) (c : Client S) (m : Result (List ℕ))
        → Ok c (after_on_read o h accepts spare req c m)
    unfolding after_on_read
    read-Exits spare req c (ok values) =
        bind-ExitsIn c.exit_error c.cancelled (make_write_request req spare values) _
          (λ w. send-Exits w c)
    read-Exits spare req c (err e) = stays refl refl
    read-Exits spare req c panic = tt

    -- Whatever the connection gives and takes: a transaction that gives a result leaves `exitError`
    -- and the context as they were, or it has cancelled the context, and then `exitError` is exactly
    -- the error that it returns.
    pub do_transaction2-Exits :
        (spare : List ℕ) (slave_id : ℕ) (req : Pdu) (c : Client S)
        → ExitsIn c.exit_error c.cancelled (do_transaction2 o h accepts spare slave_id req c)
    unfolding do_transaction2
    do_transaction2-Exits spare slave_id req c =
        if-holds (Ok c) (is_write_to_server (get_function_code req)) _ _
          (λ writes.
            read-Exits spare req (record c { handled = (h.on_read req c.handled).1 })
              (h.on_read req c.handled).0)
          (λ reads. send-Exits req c)

    -- The clients that transactions and `Close` make of a new one, with what was done, the last first.
    pub data Reach : List Deed → Client S → Type ℓ where
      new : {c : Client S} → c.exit_error ≡ none → c.cancelled ≡ false → Reach [] c
      transacted :
          {deeds : List Deed} {c c' : Client S} {e : Option Error} (spare : List ℕ) (slave_id : ℕ)
          (req : Pdu)
          → Reach deeds c
          → do_transaction2 o h accepts spare slave_id req c ≡ ok (e, c')
          → Reach (ran e ∷ deeds) c'
      closed : {deeds : List Deed} {c : Client S} → Reach deeds c → Reach (shut ∷ deeds) (close c)

    -- An `exitError` has its cause, and a context that is cancelled has an `exitError`.
    record IsExplained (deeds : List Deed) (c : Client S) : Type 0 where
      pub cause : (e : Error) → c.exit_error ≡ some e → Causes deeds e
      pub reason : c.cancelled ≡ true → (e : Error) × (c.exit_error ≡ some e)

    Exits-IsExplained :
        {deeds : List Deed} {c : Client S} {e : Option Error} {c' : Client S}
        → IsExplained deeds c
        → Exits c.exit_error c.cancelled (e, c')
        → IsExplained (ran e ∷ deeds) c'
    Exits-IsExplained was (stays kept same) = record {
      cause = λ e set. earlier (was.cause e (sym kept ∙ set));
      reason = λ on. let (e, set) = was.reason (sym same ∙ on) in (e, kept ∙ set);
    }
    Exits-IsExplained was (ends {e = e} set on) = record {
      cause = λ e' set'. let same : e ≡ e' = cc in subst (Causes _) same by_run;
      reason = λ on'. (e, set);
    }

    closed-cause :
        {deeds : List Deed} (x : Option Error)
        → ((e : Error) → x ≡ some e → Causes deeds e)
        → (e : Error) → user_exit x ≡ some e
        → Causes (shut ∷ deeds) e
    unfolding user_exit
    closed-cause none cause e set = let own : message ≡ e = cc in subst (Causes _) own by_close
    closed-cause (some e') cause e set = earlier (cause e set)

    user-some : (x : Option Error) → (e : Error) × (user_exit x ≡ some e)
    unfolding user_exit
    user-some none = (_, refl)
    user-some (some e) = (e, refl)

    closed-IsExplained :
        {deeds : List Deed} {c : Client S}
        → IsExplained deeds c
        → IsExplained (shut ∷ deeds) (close c)
    unfolding close
    closed-IsExplained {c = c} was = record {
      cause = closed-cause c.exit_error was.cause;
      reason = λ on. user-some c.exit_error;
    }

    Reach-IsExplained : {deeds : List Deed} {c : Client S} → Reach deeds c → IsExplained deeds c
    Reach-IsExplained (new none_yet live) = record {
      cause = λ e set. cc;
      reason = λ on. let clash : true ≡ false = sym on ∙ live in cc;
    }
    Reach-IsExplained (transacted {c = c} spare slave_id req before run) =
        Exits-IsExplained (Reach-IsExplained before) (
          subst (ExitsIn c.exit_error c.cancelled) run (do_transaction2-Exits spare slave_id req c))
    Reach-IsExplained (closed before) = closed-IsExplained (Reach-IsExplained before)

    -- Behind any transactions and calls of `Close` on a new client, where its context is cancelled,
    -- `exitError` is set: it is an error that one of those transactions returned, or that of `Close`,
    -- where there was one. `Serve` returns exactly that error, and
    -- the `Close` behind it keeps it as `exitError`.
    pub serve-explained :
        (deeds : List Deed) (c : Client S)
        → Reach deeds c
        → c.cancelled ≡ true
        → (e : Error) × (c.exit_error ≡ some e)
          × Causes deeds e
          × (serve c ≡ some (e, close c))
          × ((close c).exit_error ≡ some e)
    unfolding serve exit_reason close user_exit
    serve-explained deeds c reach on =
        let explained = Reach-IsExplained reach in
        let (e, set) = explained.reason on in
        let returns = λ (b : Bool). if b then some (exit_reason c.exit_error, close c) else none in
        (
          e,
          set,
          explained.cause e set,
          ap returns on ∙ ap (λ (x : Option Error). some (exit_reason x, close c)) set,
          ap user_exit set,
        )
