-- ===== src/Client/Errors.antt =====
-- Which exceptions a command can end in.
use python_miio.Base.{
  ℕ, zero, suc, ◌+◌, ◌≡◌, refl, String, Bool, true, false, Option, none, some, arith,
}
use python_miio.Base.Int.{ℤ, pos}
use python_miio.Python.Value.{Value, Fields}
use python_miio.Python.Result.{
  Error, Result, ok, err, device_exception, invalid_token, payload_decode, device_error,
  recoverable_error, os_error, timeout_error, key_error, type_error, value_error, attribute_error,
  construct_error, checksum_error,
}
use python_miio.Python.Action.{Action, pure}
use python_miio.Python.Action.Raises.{
  Raises, Raises-bind, Raises-try_except, Raises-get, Raises-modify,
}
use python_miio.Protocol.Backend.{Bytes, Backend, BackendLaws}
use python_miio.Protocol.Payload.{Payload}
use python_miio.Protocol.Message.{Message, parse, build}
use python_miio.Protocol.Integrity.{parse_errors}
use python_miio.Protocol.BuildErrors.{build_errors}
use python_miio.Client.Network.{recvfrom, sendto}
use python_miio.Client.State.{Client, on_network}
use python_miio.Client.Discovery.{discover, after_discover, adopt, send_handshake}
use python_miio.Client.Handshake.{only_os_error, discover-Raises, handshake_without_retries}
use python_miio.Client.Request.{add_id, next_id, create_request}
use python_miio.Client.Send.{
  send, prepare, ensure_discovered, transmit, exchange, recover, retry_receive, payload_id,
  payload_result, handle_error, accept,
}

-- What may come out of `send`. Not so a checksum error, a recoverable error, or a timeout.
abbrev pub may_escape : Error → Bool
may_escape device_exception = true
may_escape invalid_token = true
may_escape payload_decode = true
may_escape (device_error code message) = true
may_escape os_error = true
may_escape key_error = true
may_escape type_error = true
may_escape value_error = true
may_escape attribute_error = true
may_escape construct_error = true
may_escape _ = false

-- What may come out of the exchange: those, and what the handlers are there for.
abbrev pub may_occur : Error → Bool
may_occur checksum_error = true
may_occur timeout_error = true
may_occur (recoverable_error code message) = true
may_occur e = may_escape e

handle_error-occurs : (v : Value) → may_occur (handle_error v) ≡ true
unfolding handle_error
handle_error-occurs v = ground arith

payload_result-occurs : (p : Payload) (e : Error) → payload_result p ≡ err e → may_occur e ≡ true
unfolding payload_result
payload_result-occurs p e h = grind (arith, handle_error-occurs)

accept-Raises : (m : Message) (p : Payload) → Raises may_occur (accept m (payload_id p))
unfolding payload_id
accept-Raises m p = record { at = λ c e h. ground arith }

recvfrom-Raises : (n : ℕ) → Raises may_occur (on_network (recvfrom n))
unfolding recvfrom
recvfrom-Raises n = record { at = λ c e h. ground arith }

module _ (b : Backend) where
  parse-Raises : (s : Bytes) (t : Bytes) → Raises {S = Client} may_occur (pure (parse b s (some t)))
  parse-Raises s t = record { at = λ c e h. ground (arith, parse_errors b s (some t) e h) }

  exchange-Raises : Raises may_occur (exchange b)
  unfolding exchange
  exchange-Raises = Raises-bind _ _ (recvfrom-Raises 4096) λ (s, addr).
      Raises-bind _ _ (Raises-get (λ c. c.token)) λ token.
        Raises-bind _ _ (parse-Raises s token) λ m.
          Raises-bind _ _ (accept-Raises m m.payload)
            λ _. record { at = λ c e h. payload_result-occurs m.payload e h }

recover_last-Raises : (e : Error) → may_occur e ≡ true → Raises may_escape (recover none e)
unfolding recover
recover_last-Raises e h = record { at = λ c x p. ground arith }

add_id-Raises : (k : ℤ) → Raises may_escape (add_id k)
unfolding add_id
add_id-Raises k = record { at = λ c e p. ground arith }

retry_receive-Raises :
    (again : Action Client Value)
    → Raises may_escape again
    → Raises may_escape (retry_receive again)
unfolding retry_receive
retry_receive-Raises again h =
    Raises-bind _ _ (add_id-Raises (pos 100)) λ _. Raises-bind _ _ (Raises-modify _) λ _. h

recover_again-Raises :
    (again : Action Client Value) (e : Error)
    → Raises may_escape again
    → may_occur e ≡ true
    → Raises may_escape (recover (some again) e)
unfolding recover
recover_again-Raises again e h occurs = record {
  at = λ c x p. ground (arith, h.at c x, (retry_receive-Raises again h).at c x);
}

create_request-Raises :
    (command : String) (parameters : Option Value) (extra : Option Fields)
    → Raises may_escape (create_request command parameters extra)
unfolding create_request next_id add_id
create_request-Raises command parameters extra = record { at = λ c e p. ground arith }

transmit-Raises : (m : Bytes) → Raises may_escape (transmit m)
unfolding transmit sendto
transmit-Raises m = record { at = λ c e p. ground arith }

module _ (b : Backend) (laws : BackendLaws b) where
  after_discover-Raises :
      (r : Result (Option Message)) (c : Client) (e : Error)
      → ((x : Error) → r ≡ err x → only_os_error x ≡ true)
      → (after_discover b none r c).0 ≡ err e
      → may_escape e ≡ true
  unfolding adopt
  after_discover-Raises (ok none) c e h p = ground arith
  after_discover-Raises (ok (some m)) c e h p = cc
  after_discover-Raises (err x) c e h p = ground (arith, h x refl)

  send_handshake-Raises : (n : ℕ) → Raises may_escape (send_handshake b n)
  unfolding send_handshake
  send_handshake-Raises n = record {
    at = λ c e p.
        after_discover-Raises (discover b c.ip c.network).0 _ e
          ((discover-Raises b c.ip).at c.network) (rw handshake_without_retries at p);
  }

  ensure_discovered-Raises : Raises may_escape (ensure_discovered b)
  unfolding ensure_discovered
  ensure_discovered-Raises = record {
    at = λ c e p. ground (
      arith,
      (Raises-bind _ _ (send_handshake-Raises 3) (λ _. Raises-get {A = Unit {0}} (λ _. tt))).at c e,
    );
  }

  build-Raises :
      (v : Value) (c : Client) (e : Error)
      → build b v c.device_id (c.device_ts + 1) c.token ≡ err e
      → may_escape e ≡ true
  build-Raises v c e h =
      ground (arith, build_errors b laws v c.device_id (c.device_ts + 1) c.token e h)

  prepare-Raises :
      (command : String) (parameters : Option Value) (extra : Option Fields)
      → Raises may_escape (prepare b command parameters extra)
  unfolding prepare
  prepare-Raises command parameters extra = Raises-bind _ _ ensure_discovered-Raises λ _.
      Raises-bind _ _ (create_request-Raises command parameters extra) λ request.
        Raises-bind _ _ (record { at = λ c e p. build-Raises request c e p }) λ m. transmit-Raises m

  -- However the network behaves, `send` ends in a result, in a `DeviceException` that is neither the
  -- recoverable error nor a checksum error, or in one of Python's own exceptions that are listed in
  -- `may_escape`.
  pub send-Raises :
      (n : ℕ) (command : String) (parameters : Option Value) (extra : Option Fields)
      → Raises may_escape (send b n command parameters extra)
  unfolding send
  send-Raises zero command parameters extra =
      Raises-bind _ _ (prepare-Raises command parameters extra)
        λ _. Raises-try_except _ _ (exchange-Raises b) recover_last-Raises
  send-Raises (suc n) command parameters extra =
      Raises-bind _ _ (prepare-Raises command parameters extra) λ _.
        Raises-try_except _ _ (exchange-Raises b)
          λ e occurs. recover_again-Raises _ e (send-Raises n command parameters extra) occurs
