-- ===== src/Client/Send.antt =====
-- `MiIOProtocol.send`.
use python_miio.Base.{
  ℕ, zero, suc, ◌+◌, String, Bool, false, not, ◌||◌, Option, none, some, str_eq, if◌then◌else◌,
}
use python_miio.Base.Int.{pos, negsuc, eq_ℤ}
use python_miio.Base.Text.{has_substring}
use python_miio.Python.Value.{Value, int, str, arr, obj, Items, nil, cons, Fields, lookup_field}
use python_miio.Python.Result.{
  Error, Result, ok, err, device_exception, invalid_token, checksum_error, recoverable_error,
  device_error, type_error, key_error, attribute_error, is_os_error, or_raise,
}
use python_miio.Python.Action.{Action, pure, raise, modify, get, try_except, ◌>>=◌, ◌>>◌}
use python_miio.Protocol.Backend.{Bytes, Backend}
use python_miio.Protocol.Payload.{Payload, json}
use python_miio.Protocol.Message.{Message, build, parse}
use python_miio.Client.Network.{sendto, recvfrom}
use python_miio.Client.State.{Client, on_network}
use python_miio.Client.Discovery.{send_handshake}
use python_miio.Client.Request.{add_id, create_request}

-- `"code" in items`
unfoldable pub has_code : Items → Bool
has_code nil = false
has_code (cons (str s) vs) = str_eq s "code" || has_code vs
has_code (cons _ vs) = has_code vs

-- `code in RECOVERABLE_ERRORS`
unfoldable pub is_recoverable : Value → Bool
is_recoverable (int n) = eq_ℤ n (negsuc 30000) || eq_ℤ n (negsuc 9998)
is_recoverable _ = false

abbrev device_error_of : Option Value → Option Value → Error
device_error_of none message = device_error none message
device_error_of (some code) message =
    if is_recoverable code
    then recoverable_error (some code) message
    else device_error (some code) message

-- `_handle_error`: the exception that it raises. `DeviceError` takes a dictionary, and the tests
-- before it raise for what holds no `"code"` or cannot be indexed by it.
unfoldable pub handle_error : Value → Error
unfolding is_recoverable has_code has_substring
handle_error (obj fs) = device_error_of (lookup_field "code" fs) (lookup_field "message" fs)
handle_error (str s) = if has_substring "code" s then type_error else attribute_error
handle_error (arr vs) = if has_code vs then type_error else attribute_error
handle_error _ = type_error

abbrev error_or_result : Fields → Option Value → Option Value → Result Value
error_or_result fs (some error) _ = err (handle_error error)
error_or_result fs none (some result) = ok result
error_or_result fs none none = ok (obj fs)

-- `payload["id"]`
unfoldable pub payload_id : Payload → Result Value
payload_id (json (obj fs)) = or_raise (lookup_field "id" fs) key_error
payload_id _ = err type_error

-- From `if "error" in payload` to `return payload`. Only a dictionary comes so far.
unfoldable pub payload_result : Payload → Result Value
payload_result (json (obj fs)) =
    error_or_result fs (lookup_field "error" fs) (lookup_field "result" fs)
payload_result _ = err type_error

-- `self.__id = payload["id"]` and `self._device_ts = header["ts"]`
abbrev pub accept : Message → Result Value → Action Client (Unit {0})
accept m (err e) c = (err e, c)
accept m (ok v) c = (ok tt, record c { id = v; device_ts = m.header.ts })

abbrev pub not_os_error : Error → Error
not_os_error e = if is_os_error e then device_exception else e

-- `s.sendto(m, (self.ip, self.port))`, where an `OSError` becomes a `DeviceException`; there is no
-- address `None`
abbrev pub transmit_to : Option String → Bytes → Action Client (Unit {0})
transmit_to none m = raise type_error
transmit_to (some ip) m = try_except (on_network (sendto m ip)) (λ e. raise (not_os_error e))

unfoldable pub transmit : Bytes → Action Client (Unit {0})
transmit m c = transmit_to c.ip m c

-- The retry after a receive that failed, with the id moved on by 100.
unfoldable pub retry_receive : Action Client Value → Action Client Value
retry_receive again = do add_id (pos 100); modify (λ c. record c { discovered = false }); again

-- The handlers of the second `try` block, with the retry if one is left.
unfoldable pub recover : Option (Action Client Value) → Error → Action Client Value
recover again checksum_error = raise invalid_token
recover none (recoverable_error code message) = raise device_exception
recover (some again) (recoverable_error code message) = again
recover none e = raise (not_os_error e)
recover (some again) e = if is_os_error e then retry_receive again else raise e

module _ (b : Backend) where
  -- The second `try` block: what is received, and what it means.
  unfoldable pub exchange : Action Client Value
  exchange = do
    (s, addr) ← on_network (recvfrom 4096)
    token ← get (λ c. c.token)
    m ← pure (parse b s (some token))
    accept m (payload_id m.payload)
    pure (payload_result m.payload)

  unfoldable pub ensure_discovered : Action Client (Unit {0})
  ensure_discovered c =
      if not c.lazy_discover || not c.discovered
      then (do send_handshake b 3; pure (ok tt)) c
      else (ok tt, c)

  -- `send` as far as the packet's transmission
  unfoldable pub prepare : String → Option Value → Option Fields → Action Client (Unit {0})
  prepare command parameters extra_parameters = do
    ensure_discovered
    request ← create_request command parameters extra_parameters
    m ← (λ c. (build b request c.device_id (c.device_ts + 1) c.token, c))
    transmit m

  -- `send(command, parameters, retry_count, extra_parameters=extra_parameters)`
  unfoldable pub send : ℕ → String → Option Value → Option Fields → Action Client Value
  send zero command parameters extra_parameters = do
    prepare command parameters extra_parameters
    try_except exchange (recover none)
  send (suc n) command parameters extra_parameters = do
    prepare command parameters extra_parameters
    try_except exchange (recover (some (λ c. send n command parameters extra_parameters c)))
