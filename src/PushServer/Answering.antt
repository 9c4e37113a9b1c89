-- ===== src/PushServer/Answering.antt =====
-- What the push server makes of a datagram.
use python_miio.Base.{
  ℕ, ◌+◌, ◌^◌, ◌<◌, ◌≤◌, ◌≡◌, sym, ap, ◌∙◌, String, true, false, Option, some, none, [], ◌∷◌, ◌++◌,
  take, drop, replicate, Bool-cases, inl, inr, subst, length, length-append, arith,
}
use python_miio.Base.Int.{pos}
use python_miio.Python.Value.{Value, Fields, obj, int, field, end, merge_fields, put_field}
use python_miio.Python.Dict.{text_eq, lookup}
use python_miio.Python.Result.{Error, Result, ok, err}
use python_miio.Python.Action.Counts.{Adds, Adds-bind, Adds-pure}
use python_miio.Protocol.Backend.{Bytes, Backend, BackendLaws, Serializes}
use python_miio.Protocol.Payload.{json}
use python_miio.Protocol.Message.{Message, build, parse, same_bytes}
use python_miio.Protocol.Packet.{parse-build}
use python_miio.Client.Discovery.{helobytes}
use python_miio.Client.Send.{payload_id}
use python_miio.PushServer.Registry.{Registration, Response, fixed, computed}
use python_miio.PushServer.Datagrams.{
  Address, Endpoint, Surroundings, fields_of, sendto, send_ping_ack, send_response, send_error,
  run_callback, handle_registered, response_fields, find_method, on_devices, answer_method,
  answer_found, answer_named, client_token, handle_client, dispatch, handle_datagram,
  datagram_received,
}

-- The token that a datagram of an address has to be made with.
abbrev pub token_of : {C : Type 0} → Option (Registration C) → Bytes
token_of none = client_token
token_of (some r) = r.token

-- What a registered device is answered.
abbrev pub receipt : Value → Fields
receipt msg_id = field "result" (int (pos 0)) (field "id" msg_id end)

module _ {C S : Type 0} (b : Backend) (u : Surroundings C S) where
  dispatch_unreadable :
      (r : Option (Registration C)) (addr : Address) (packet : Bytes) (x : Error) (e : Endpoint C S)
      → parse b packet (some (token_of r)) ≡ err x
      → (dispatch b u r addr packet e).1 ≡ e
  unfolding handle_client handle_registered
  dispatch_unreadable none addr packet x e h = rw h
  dispatch_unreadable (some r) addr packet x e h = rw h

  handle_datagram_else :
      (packet : Bytes) (host : String) (port : ℕ) (e : Endpoint C S)
      → same_bytes packet helobytes ≡ false
      → handle_datagram b u packet (host, port) e
        ≡ dispatch b u (lookup host e.server.registered_devices) (host, port) packet e
  unfolding handle_datagram
  handle_datagram_else packet host port e h = rw (handle_datagram, h)

  datagram_received_else :
      (packet : Bytes) (host : String) (port : ℕ) (e : Endpoint C S)
      → same_bytes packet helobytes ≡ false
      → datagram_received b u packet (host, port) e
        ≡ (dispatch b u (lookup host e.server.registered_devices) (host, port) packet e).1
  unfolding datagram_received
  datagram_received_else packet host port e h =
      ap (λ x. x.1) (handle_datagram_else packet host port e h)

  -- A datagram that is no hello and cannot be read with the token of its sender, the registered one or
  -- else 16 zeros, is not answered, calls nothing and changes nothing.
  pub datagram_received_unreadable :
      (packet : Bytes) (host : String) (port : ℕ) (x : Error) (e : Endpoint C S)
      → same_bytes packet helobytes ≡ false
      → parse b packet (some (token_of (lookup host e.server.registered_devices))) ≡ err x
      → datagram_received b u packet (host, port) e ≡ e
  datagram_received_unreadable packet host port x e no_hello h =
      datagram_received_else packet host port e no_hello
      ∙ (dispatch_unreadable (lookup host e.server.registered_devices) (host, port) packet x e h)

  run_callback-outgoing :
      (c : C) (fs : Fields) (e : Endpoint C S) → (run_callback b u c fs e).1.outgoing ≡ e.outgoing
  unfolding run_callback
  run_callback-outgoing c fs e = ground arith

  packets : Endpoint C S → ℕ
  packets e = length e.outgoing

  sendto-Adds : (addr : Address) (m : Bytes) → Adds packets 1 (sendto b u addr m)
  unfolding sendto packets
  sendto-Adds addr m = record { at = λ e. omega (arith, length-append e.outgoing ((addr, m) ∷ [])) }

  send_response-Adds :
      (addr : Address) (i : Value) (token : Bytes) (fs : Fields)
      → Adds packets 1 (send_response b u addr i token fs)
  unfolding send_response
  send_response-Adds addr i token fs =
      Adds-bind _ _
        (Adds-pure
          (λ e. build b (obj (merge_fields fs (field "id" i end))) u.device_id_bytes u.now token))
        (λ m. sendto-Adds addr m)

  run_callback-Adds : (c : C) (fs : Fields) → Adds packets 0 (run_callback b u c fs)
  unfolding packets
  run_callback-Adds c fs = record {
    at = λ e. omega (arith, ap length (run_callback-outgoing c fs e));
  }

  handle_registered-Adds :
      (r : Registration C) (addr : Address) (packet : Bytes)
      → Adds packets 1 (handle_registered b u r addr packet)
  unfolding handle_registered
  handle_registered-Adds r addr packet =
      Adds-bind _ _ (Adds-pure (λ e. parse b packet (some r.token))) λ m.
        Adds-bind _ _ (Adds-pure (λ e. payload_id m.payload)) λ i.
          Adds-bind _ _ (send_response-Adds addr i r.token _)
            λ _. run_callback-Adds r.callback (fields_of m.payload)

  answer_method-Adds :
      (addr : Address) (i : Value) (token : Bytes) (r : Result Value)
      → Adds packets 1 (answer_method b u addr i token r)
  unfolding send_error
  answer_method-Adds addr i token (err x) = send_response-Adds addr i token _
  answer_method-Adds addr i token (ok v) =
      Adds-bind _ _ (Adds-pure (λ e. response_fields v)) (λ fs. send_response-Adds addr i token fs)

  answer_found-Adds :
      (addr : Address) (i : Value) (token : Bytes) (fs : Fields) (method : Option (Response C))
      → Adds packets 1 (answer_found b u addr i token fs method)
  unfolding send_error packets
  answer_found-Adds addr i token fs none = send_response-Adds addr i token _
  answer_found-Adds addr i token fs (some (fixed v)) = answer_method-Adds addr i token (ok v)
  answer_found-Adds addr i token fs (some (computed c)) = record {
    at = λ e.
        let (r, e') = on_devices b u (u.call_method c (obj fs)) e in
        (answer_method-Adds addr i token r).at e';
  }

  answer_named-Adds :
      (addr : Address) (i : Value) (token : Bytes) (fs : Fields) (name : Option Value)
      → Adds packets 1 (answer_named b u addr i token fs name)
  unfolding send_error
  answer_named-Adds addr i token fs none = send_response-Adds addr i token _
  answer_named-Adds addr i token fs (some name) =
      Adds-bind _ _ (Adds-pure (λ e. find_method name e.server))
        (λ m. answer_found-Adds addr i token fs m)

  handle_client-Adds :
      (addr : Address) (packet : Bytes) → Adds packets 1 (handle_client b u addr packet)
  unfolding handle_client
  handle_client-Adds addr packet =
      Adds-bind _ _ (Adds-pure (λ e. parse b packet (some client_token))) λ m.
        Adds-bind _ _ (Adds-pure (λ e. payload_id m.payload))
          λ i. answer_named-Adds addr i client_token _ _

  dispatch-Adds :
      (r : Option (Registration C)) (addr : Address) (packet : Bytes)
      → Adds packets 1 (dispatch b u r addr packet)
  dispatch-Adds none addr packet = handle_client-Adds addr packet
  dispatch-Adds (some r) addr packet = handle_registered-Adds r addr packet

  send_ping_ack-Adds : (addr : Address) → Adds packets 1 (send_ping_ack b u addr)
  unfolding send_ping_ack
  send_ping_ack-Adds addr =
      Adds-bind _ _ (Adds-pure (λ e. u.pack_ack 0x2131 32 0 u.device_id u.now (replicate 16 0)))
        (λ m. sendto-Adds addr m)

  handle_datagram_hello :
      (packet : Bytes) (host : String) (port : ℕ) (e : Endpoint C S)
      → same_bytes packet helobytes ≡ true
      → handle_datagram b u packet (host, port) e ≡ send_ping_ack b u (host, port) e
  unfolding handle_datagram
  handle_datagram_hello packet host port e h = rw (handle_datagram, h)

  -- Whatever a datagram holds and whoever sends it, at most one packet is sent because of it.
  pub datagram_received_packets :
      (packet : Bytes) (host : String) (port : ℕ) (e : Endpoint C S)
      → length (datagram_received b u packet (host, port) e).outgoing ≤ length e.outgoing + 1
  unfolding datagram_received packets
  datagram_received_packets packet host port e = elim (Bool-cases (same_bytes packet helobytes)) [
    | inl hello ↦
        subst (λ x. length x.1.outgoing ≤ length e.outgoing + 1)
          (sym (handle_datagram_hello packet host port e hello))
          ((send_ping_ack-Adds (host, port)).at e)
    | inr other ↦
        subst (λ x. length x.1.outgoing ≤ length e.outgoing + 1)
          (sym (handle_datagram_else packet host port e other))
          ((dispatch-Adds (lookup host e.server.registered_devices) (host, port) packet).at e)
  ]

  handle_registered_lem :
      (r : Registration C) (addr : Address) (packet : Bytes) (e : Endpoint C S) (m : Message)
      (i : Value) (reply : Bytes)
      → parse b packet (some r.token) ≡ ok m
      → payload_id m.payload ≡ ok i
      → build b (obj (receipt i)) u.device_id_bytes u.now r.token ≡ ok reply
      → (handle_registered b u r addr packet e).1.outgoing ≡ e.outgoing ++ (addr, reply) ∷ []
  unfolding handle_registered send_response sendto merge_fields put_field
  handle_registered_lem r addr packet e m i reply hm hi hb =
      rw (hm, hi, hb)
        (run_callback-outgoing r.callback (fields_of m.payload)
          (record e { outgoing = e.outgoing ++ (addr, reply) ∷ [] }))

module _ {C S : Type 0} (b : Backend) (laws : BackendLaws b) (u : Surroundings C S) where
  -- A readable request of a registered device is answered with one packet to its address, whatever becomes
  -- of the callback. With its token the device reads that packet as the result 0 under the request's id, from the
  -- server's own device id. The clock has to fit 32 bits, the ids their sizes, and the text its length.
  pub datagram_received_registered :
      (packet : Bytes) (host : String) (port : ℕ) (e : Endpoint C S) (r : Registration C)
      (m : Message) (i : Value)
      → same_bytes packet helobytes ≡ false
      → lookup host e.server.registered_devices ≡ some r
      → parse b packet (some r.token) ≡ ok m
      → payload_id m.payload ≡ ok i
      → length r.token ≡ 16
      → length u.device_id_bytes ≡ 4
      → u.now < 2 ^ 32
      → Serializes b (obj (receipt i))
      → length (b.json_dumps (obj (receipt i))) + 49 < 2 ^ 16
      → (reply : Bytes) × ((datagram_received b u packet (host, port) e).outgoing
          ≡ e.outgoing ++ ((host, port), reply) ∷ [])
        × (parse b reply (some r.token)
            ≡ ok (record {
              payload = json (obj (receipt i));
              header = record {
                size = length reply;
                unknown = 0;
                device_id = u.device_id_bytes;
                ts = u.now;
              };
              checksum = take 16 (drop 16 reply);
            }))
  datagram_received_registered packet host port e r m i no_hello registered hm hi ht hd hn sv fits =
      let (reply, built, read) =
        parse-build b laws r.token ht u.device_id_bytes hd u.now hn (obj (receipt i)) sv fits in
      (
        reply,
        ap (λ x. x.outgoing) (datagram_received_else b u packet host port e no_hello)
            ∙ (ap (λ x. (dispatch b u x (host, port) packet e).1.outgoing) registered
                ∙ handle_registered_lem b u r (host, port) packet e m i reply hm hi built),
        read,
      )
