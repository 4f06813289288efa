-- ===== src/RtuServer/Quiet.antt =====
-- A connection that takes every frame leaves no error behind in a round of the server.
use modbusone.Base.{
  ℕ, ◌≡◌, refl, Bool, true, not, ◌&&◌, ◌==◌, if-holds, List, none, Result, ok, err, panic, Error,
}
use modbusone.FunctionCode.{is_read_to_server, is_write_to_server}
use modbusone.Handler.{ProtocolHandler}
use modbusone.OverSize.{OverSize}
use modbusone.Pdu.{Pdu, get_function_code, validate_request, get_request_values}
use modbusone.Rtu.{Rtu, make_rtu, get_pdu, get_slave_id}
use modbusone.RtuServer.{
  Server, wp, wec, count_other, count_id_drop, count_crc, is_crc, answer_error, after_read,
  after_write, after_values, after_call, answer, answer_valid, serve_pdu, serve_packet,
}

module _ {ℓ} {S : Type ℓ} (o : OverSize) (accepts : List Rtu → Rtu → Bool) (h : ProtocolHandler S)
    (takes : (l : List Rtu) (r : Rtu) → accepts l r ≡ true) where
  -- Where a server comes out of a round, no frame was refused.
  abbrev pub Quiet : Result (Server S) → Type 0
  Quiet (ok s) = s.io_err ≡ none
  Quiet (err e) = Unit
  Quiet panic = Unit

  wp-Quiet : (p : Pdu) (id : ℕ) (s : Server S) → s.io_err ≡ none → Quiet (ok (wp accepts p id s))
  unfolding wp
  wp-Quiet p id s quiet =
      if-holds (λ (t : Server S). t.io_err ≡ none) (id == 0) _ _ (λ all. quiet)
        (λ one. rw (takes s.written (make_rtu id p)) refl)

  error-Quiet :
      (p : Pdu) (e : Error) (id : ℕ) (s : Server S)
      → s.io_err ≡ none
      → Quiet (ok (answer_error o accepts h p e id s))
  unfolding answer_error wec count_other
  error-Quiet p e id s quiet = wp-Quiet _ id (count_other s) quiet

  read-Quiet :
      (p : Pdu) (id : ℕ) (s : Server S) (m : Result (List ℕ))
      → s.io_err ≡ none
      → Quiet (after_read o accepts h p id s m)
  unfolding after_read
  read-Quiet p id s (ok values) quiet = wp-Quiet _ id s quiet
  read-Quiet p id s (err e) quiet = error-Quiet p e id s quiet
  read-Quiet p id s panic quiet = tt

  write-Quiet :
      (p : Pdu) (id : ℕ) (s : Server S) (m : Result (Unit {0}))
      → s.io_err ≡ none
      → Quiet (after_write o accepts h p id s m)
  unfolding after_write
  write-Quiet p id s (ok _) quiet = wp-Quiet _ id s quiet
  write-Quiet p id s (err e) quiet = error-Quiet p e id s quiet
  write-Quiet p id s panic quiet = tt

  values-Quiet :
      (p : Pdu) (id : ℕ) (s : Server S) (m : Result (List ℕ))
      → s.io_err ≡ none
      → Quiet (after_values o accepts h p id s m)
  unfolding after_values
  values-Quiet p id s (ok values) quiet = write-Quiet p id (after_call s _) _ quiet
  values-Quiet p id s (err e) quiet = error-Quiet p e id s quiet
  values-Quiet p id s panic quiet = tt

  answer-Quiet :
      (p : Pdu) (id : ℕ) (s : Server S) → s.io_err ≡ none → Quiet (answer o accepts h p id s)
  unfolding answer
  answer-Quiet p id s quiet =
      if-holds Quiet (is_read_to_server (get_function_code p)) _ _
        (λ reads. read-Quiet p id (after_call s _) _ quiet)
        λ other.
          if-holds Quiet (is_write_to_server (get_function_code p)) _ _
            (λ writes. values-Quiet p id s (get_request_values o p) quiet) (λ neither. quiet)

  valid-Quiet :
      (p : Pdu) (id : ℕ) (s : Server S) (m : Result (Unit {0}))
      → s.io_err ≡ none
      → Quiet (answer_valid o accepts h p id s m)
  unfolding answer_valid
  valid-Quiet p id s (ok _) quiet = answer-Quiet p id s quiet
  valid-Quiet p id s (err e) quiet = error-Quiet p e id s quiet
  valid-Quiet p id s panic quiet = tt

  pdu-Quiet :
      (slave_id : ℕ) (r : Rtu) (s : Server S) (m : Result Pdu)
      → s.io_err ≡ none
      → Quiet (serve_pdu o accepts h slave_id r s m)
  unfolding serve_pdu count_id_drop count_crc count_other
  pdu-Quiet slave_id r s (ok p) quiet =
      if-holds Quiet (not (get_slave_id r == 0) && not (get_slave_id r == slave_id)) _ _
        (λ dropped. quiet) (λ ours. valid-Quiet p (get_slave_id r) s (validate_request p) quiet)
  pdu-Quiet slave_id r s (err e) quiet =
      if-holds (λ (t : Server S). t.io_err ≡ none) (is_crc e) _ _ (λ crc. quiet) (λ other. quiet)
  pdu-Quiet slave_id r s panic quiet = tt

  pub serve_packet-Quiet :
      (slave_id : ℕ) (r : Rtu) (s : Server S)
      → s.io_err ≡ none
      → Quiet (serve_packet o accepts h slave_id r s)
  unfolding serve_packet
  serve_packet-Quiet slave_id r s quiet = pdu-Quiet slave_id r s (get_pdu r) quiet
