-- ===== src/PushServer/Datagrams.antt =====
-- The handlers of datagrams in miio/push_server/serverprotocol.py.
use Prim.Native.Char.{code}
use Prim.Native.String.{◌++◌ as join}
use python_miio.Base.{
  ℕ, ◌==◌, String, Option, none, some, List, [], ◌∷◌, ◌++◌, replicate, if◌then◌else◌,
}
use python_miio.Base.Int.{ℤ, pos, negsuc}
use python_miio.Python.Value.{
  Value, Fields, arr, obj, str, int, null, field, end, lookup_field, merge_fields,
}
use python_miio.Python.Dict.{text_eq, lookup}
use python_miio.Python.Result.{
  Error, Result, ok, err, key_error, type_error, value_error, attribute_error, or_raise,
}
use python_miio.Python.Action.{Action, pure, modify, on, ◌>>=◌, ◌>>◌}
use python_miio.Protocol.Backend.{Bytes, Backend}
use python_miio.Protocol.Payload.{Payload, json}
use python_miio.Protocol.Message.{build, parse, same_bytes}
use python_miio.Client.Discovery.{helobytes}
use python_miio.Client.Send.{payload_id}
use python_miio.PushServer.Registry.{PushServer, Registration, Response, fixed, computed}

-- `(host, port)`
abbrev pub Address : Type 0
Address = String × ℕ

-- The protocol's transport as the list of what it was given, beside the server.
pub record Endpoint (C S : Type 0) : Type 0 where
  pub server : PushServer C S
  pub outgoing : List (Address × Bytes)

-- What the handlers call: callbacks and methods, which are given by the users, `struct.pack`, the texts of
-- exceptions, the clock, and the device id as four bytes and as a number.
pub record Surroundings (C S : Type 0) : Type 0 where
  pub call_back : C → String → String → Option Value → Action S (Unit {0})
  pub call_method : C → Value → Action S Value
  pub pack_ack : ℕ → ℕ → ℕ → ℕ → ℕ → Bytes → Result Bytes
  pub describe : Error → String
  pub now : ℕ
  pub device_id : ℕ
  pub device_id_bytes : Bytes

-- `s.rsplit(":", 1)`, if there is a colon
unfoldable pub split_last_colon : String → Option (String × String)
split_last_colon String.[] = none
split_last_colon (String.◌∷◌ c s) = elim (split_last_colon s) [
  | some (before, behind) ↦ some (String.◌∷◌ c before, behind)
  | none ↦ if code c == 58 then some ("", s) else none
]

-- `s.replace("_", ".")`
unfoldable pub dotted : String → String
dotted String.[] = String.[]
dotted (String.◌∷◌ c s) = if code c == 95 then join "." (dotted s) else String.◌∷◌ c (dotted s)

-- `action, device_call_id = method.rsplit(":", 1)`
unfoldable pub split_method : Value → Result (String × String)
split_method (str s) = or_raise (split_last_colon s) value_error
split_method _ = err attribute_error

-- `{**response}`, where `None` stands for no fields
unfoldable pub response_fields : Value → Result Fields
response_fields null = ok end
response_fields (obj fs) = ok fs
response_fields _ = err type_error

-- `msg_value` after `msg_value["id"]`
abbrev pub fields_of : Payload → Fields
fields_of (json (obj fs)) = fs
fields_of _ = end

-- `methods[name]`, if it is there: lists and dictionaries cannot be looked up
abbrev pub find_method : {C S : Type 0} → Value → PushServer C S → Result (Option (Response C))
find_method (str name) s = ok (lookup name s.methods)
find_method (arr _) s = err type_error
find_method (obj _) s = err type_error
find_method _ s = ok none

-- the token of everyone who is not registered
abbrev pub client_token : Bytes
client_token = replicate 16 0

module _ {C S : Type 0} (b : Backend) (u : Surroundings C S) where
  -- `self.transport.sendto(m, (host, port))`
  unfoldable pub sendto : Address → Bytes → Action (Endpoint C S) (Unit {0})
  sendto addr m = modify (λ e. record e { outgoing = e.outgoing ++ (addr, m) ∷ [] })

  -- `send_ping_ACK` and `_build_ack`
  unfoldable pub send_ping_ack : Address → Action (Endpoint C S) (Unit {0})
  send_ping_ack addr = do
    m ← pure (u.pack_ack 0x2131 32 0 u.device_id u.now (replicate 16 0))
    sendto addr m

  -- `send_response` and `_create_message`
  unfoldable pub send_response : Address → Value → Bytes → Fields → Action (Endpoint C S) (Unit {0})
  send_response addr msg_id token payload = do
    m ←
        pure (
          build b (obj (merge_fields payload (field "id" msg_id end))) u.device_id_bytes u.now
            token)
    sendto addr m

  -- `send_error`
  unfoldable pub send_error :
      Address → Value → Bytes → ℤ → String → Action (Endpoint C S) (Unit {0})
  send_error addr msg_id token code message =
      send_response addr msg_id token
        (field "error" (obj (field "code" (int code) (field "error" (str message) end))) end)

  abbrev pub on_devices : {A : Type 0} → Action S A → Action (Endpoint C S) A
  on_devices =
      on (λ e. e.server.devices) (λ s e. record e { server = record e.server { devices = s } })

  -- From `# Parse message` on.
  unfoldable pub run_callback : C → Fields → Action (Endpoint C S) (Unit {0})
  run_callback callback fs = do
    method ← pure (or_raise (lookup_field "method" fs) key_error)
    (action, device_call_id) ← pure (split_method method)
    on_devices (u.call_back callback (dotted device_call_id) action (lookup_field "params" fs))

  -- `_handle_datagram_from_registered_device`
  unfoldable pub handle_registered :
      Registration C → Address → Bytes → Action (Endpoint C S) (Unit {0})
  handle_registered r addr packet = do
    m ← pure (parse b packet (some r.token))
    msg_id ← pure (payload_id m.payload)
    send_response addr msg_id r.token (field "result" (int (pos 0)) end)
    run_callback r.callback (fields_of m.payload)

  -- The `except` around a method's call.
  abbrev pub answer_method :
      Address → Value → Bytes → Result Value → Action (Endpoint C S) (Unit {0})
  answer_method addr msg_id token (err e) = send_error addr msg_id token (negsuc 2) (u.describe e)
  answer_method addr msg_id token (ok response) = do
    fs ← pure (response_fields response)
    send_response addr msg_id token fs

  abbrev pub answer_found :
      Address → Value → Bytes → Fields → Option (Response C) → Action (Endpoint C S) (Unit {0})
  answer_found addr msg_id token fs none e =
      send_error addr msg_id token (negsuc 1) "unsupported method" e
  answer_found addr msg_id token fs (some (fixed response)) e =
      answer_method addr msg_id token (ok response) e
  answer_found addr msg_id token fs (some (computed c)) e =
      let (r, e') = on_devices (u.call_method c (obj fs)) e in answer_method addr msg_id token r e'

  abbrev pub answer_named :
      Address → Value → Bytes → Fields → Option Value → Action (Endpoint C S) (Unit {0})
  answer_named addr msg_id token fs none = send_error addr msg_id token (negsuc 0) "missing method"
  answer_named addr msg_id token fs (some name) = do
    method ← (λ e. (find_method name e.server, e))
    answer_found addr msg_id token fs method

  -- `_handle_datagram_from_client`
  unfoldable pub handle_client : Address → Bytes → Action (Endpoint C S) (Unit {0})
  handle_client addr packet = do
    m ← pure (parse b packet (some client_token))
    msg_id ← pure (payload_id m.payload)
    answer_named addr msg_id client_token (fields_of m.payload)
        (lookup_field "method" (fields_of m.payload))

  abbrev pub dispatch : Option (Registration C) → Address → Bytes → Action (Endpoint C S) (Unit {0})
  dispatch none addr packet = handle_client addr packet
  dispatch (some r) addr packet = handle_registered r addr packet

  -- the body of `datagram_received`
  unfoldable pub handle_datagram : Bytes → Address → Action (Endpoint C S) (Unit {0})
  handle_datagram packet (host, port) e =
      if same_bytes packet helobytes
      then send_ping_ack (host, port) e
      else dispatch (lookup host e.server.registered_devices) (host, port) packet e

  -- `datagram_received`: every exception is logged, and what was done before it stays done
  unfoldable pub datagram_received : Bytes → Address → Endpoint C S → Endpoint C S
  datagram_received packet addr e = (handle_datagram packet addr e).1
