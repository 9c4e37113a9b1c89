-- ===== src/Client/Delivery.antt =====
-- What `send` makes of what arrives.
use python_miio.Base.{
  ℕ, zero, suc, ◌+◌, ◌^◌, ◌≤◌, ◌<◌, ◌≡◌, refl, subst, String, Option, none, some, List, ◌∷◌, length,
  take, take_all, arith,
}
use python_miio.Python.Value.{Value, obj, Fields, lookup_field}
use python_miio.Python.Result.{Error, ok, err, invalid_token, checksum_error}
use python_miio.Protocol.Backend.{Bytes, Backend, BackendLaws, Serializes}
use python_miio.Protocol.Payload.{json}
use python_miio.Protocol.Message.{Message, build, parse}
use python_miio.Protocol.Packet.{parse-build}
use python_miio.Client.Network.{Reception, datagram, recvfrom}
use python_miio.Client.State.{Client}
use python_miio.Client.Send.{send, prepare, exchange, recover, payload_id, payload_result}

-- the client after one packet has been read
abbrev pub after_packet : Client → List Reception → Client
after_packet c rest = record c { network = record c.network { incoming = rest } }

module _ (b : Backend) where
  -- An exchange ends as the payload says.
  exchange_parsed :
      (c : Client) (s : Bytes) (addr : String) (rest : List Reception) (m : Message) (fs : Fields)
      (i : Value)
      → c.network.incoming ≡ datagram s addr ∷ rest
      → parse b (take 4096 s) (some c.token) ≡ ok m
      → m.payload ≡ json (obj fs)
      → lookup_field "id" fs ≡ some i
      → exchange b c ≡ (
        payload_result (json (obj fs)),
        record (after_packet c rest) { id = i; device_ts = m.header.ts },
      )
  unfolding exchange recvfrom payload_id
  exchange_parsed c s addr rest m fs i net parsed payload id = ground arith

  -- An exchange in which the packet is refused leaves all but the network as it was.
  exchange_refused :
      (c : Client) (s : Bytes) (addr : String) (rest : List Reception) (e : Error)
      → c.network.incoming ≡ datagram s addr ∷ rest
      → parse b (take 4096 s) (some c.token) ≡ err e
      → exchange b c ≡ (err e, after_packet c rest)
  unfolding exchange recvfrom
  exchange_refused c s addr rest e net refused = ground arith

  send_step_ok :
      (n : ℕ) (command : String) (parameters : Option Value) (extra : Option Fields)
      (c c₁ c₂ : Client) (v : Value)
      → prepare b command parameters extra c ≡ (ok tt, c₁)
      → exchange b c₁ ≡ (ok v, c₂)
      → send b n command parameters extra c ≡ (ok v, c₂)
  unfolding send
  send_step_ok zero command parameters extra c c₁ c₂ v p x = rw (p, x)
  send_step_ok (suc n) command parameters extra c c₁ c₂ v p x = rw (p, x)

  send_step_checksum :
      (n : ℕ) (command : String) (parameters : Option Value) (extra : Option Fields)
      (c c₁ c₂ : Client)
      → prepare b command parameters extra c ≡ (ok tt, c₁)
      → exchange b c₁ ≡ (err checksum_error, c₂)
      → send b n command parameters extra c ≡ (err invalid_token, c₂)
  unfolding send recover
  send_step_checksum zero command parameters extra c c₁ c₂ p x = rw (p, x)
  send_step_checksum (suc n) command parameters extra c c₁ c₂ p x = rw (p, x)

  -- A packet whose digest does not fit the token ends the command in the exception for an invalid
  -- token, however many retries are left: the packet is used up, and nothing else changes.
  pub send_invalid_token :
      (n : ℕ) (command : String) (parameters : Option Value) (extra : Option Fields) (c c₁ : Client)
      (s : Bytes) (addr : String) (rest : List Reception)
      → prepare b command parameters extra c ≡ (ok tt, c₁)
      → c₁.network.incoming ≡ datagram s addr ∷ rest
      → parse b (take 4096 s) (some c₁.token) ≡ err checksum_error
      → send b n command parameters extra c ≡ (err invalid_token, after_packet c₁ rest)
  send_invalid_token n command parameters extra c c₁ s addr rest p net refused =
      send_step_checksum n command parameters extra c c₁ (after_packet c₁ rest) p
        (exchange_refused c₁ s addr rest checksum_error net refused)

payload_result_lem :
    (fs : Fields) (v : Value)
    → lookup_field "error" fs ≡ none
    → lookup_field "result" fs ≡ some v
    → payload_result (json (obj fs)) ≡ ok v
unfolding payload_result
payload_result_lem fs v no_error result = rw (no_error, result)

module _ (b : Backend) (laws : BackendLaws b) where
  -- A packet that is built with a token of 16 bytes is the one that `parse-build` reads back.
  parse_built :
      (token device_id : Bytes) (ts : ℕ) (v : Value) (m : Bytes)
      → length token ≡ 16
      → length device_id ≡ 4
      → ts < 2 ^ 32
      → Serializes b v
      → length (b.json_dumps v) + 49 < 2 ^ 16
      → build b v device_id ts token ≡ ok m
      → (p : Message) × (parse b m (some token) ≡ ok p) × (p.payload ≡ json v) × (p.header.ts ≡ ts)
  parse_built token device_id ts v m ht hd hts sv fits built =
      let (m', built', parsed) = parse-build b laws token ht device_id hd ts hts v sv fits in
      let same : m' ≡ m = cc in (_, rw same at parsed, refl, refl)

  -- What a device answers with the client's token reaches the caller. The device builds a dictionary
  -- with an id, no error and a result into a packet of at most 4096 bytes, which is the next to arrive
  -- once the command is on its way: `send` returns the result, and the client takes over the answer's
  -- id and time.
  pub send_delivers :
      (n : ℕ) (command : String) (parameters : Option Value) (extra : Option Fields) (c c₁ : Client)
      (addr : String) (rest : List Reception) (fs : Fields) (i v : Value) (device_id : Bytes)
      (ts : ℕ) (m : Bytes)
      → prepare b command parameters extra c ≡ (ok tt, c₁)
      → length c₁.token ≡ 16
      → length device_id ≡ 4
      → ts < 2 ^ 32
      → Serializes b (obj fs)
      → length (b.json_dumps (obj fs)) + 49 < 2 ^ 16
      → lookup_field "id" fs ≡ some i
      → lookup_field "error" fs ≡ none
      → lookup_field "result" fs ≡ some v
      → build b (obj fs) device_id ts c₁.token ≡ ok m
      → length m ≤ 4096
      → c₁.network.incoming ≡ datagram m addr ∷ rest
      → send b n command parameters extra c
        ≡ (ok v, record (after_packet c₁ rest) { id = i; device_ts = ts })
  send_delivers n command parameters extra c c₁ addr rest fs i v device_id ts m p ht hd hts sv fits
        id no_error result built short net =
      let (msg, parsed, payload, time) =
        parse_built c₁.token device_id ts (obj fs) m ht hd hts sv fits built in
      send_step_ok b n command parameters extra c c₁ _ v p (
        subst (λ t. exchange b c₁ ≡ (ok v, record (after_packet c₁ rest) { id = i; device_ts = t }))
          time
          (rw (← payload_result_lem fs v no_error result) (
            exchange_parsed b c₁ m addr rest msg fs i net (rw (take_all 4096 m short) parsed)
              payload id)))
