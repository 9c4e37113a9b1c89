-- ===== src/Examples/Commands.antt =====
-- Commands, on networks that answer and on one that does not.
use python_miio.Base.{
  ℕ, suc, List, ◌⊎◌, ◌+◌, ◌*◌, ◌≡◌, ◌≤◌, refl, [], ◌∷◌, ◌++◌, replicate, some, none, arith, false,
}
use python_miio.Base.Int.{pos, negsuc, ◌+ℤ◌}
use python_miio.Python.Value.{int, str, obj, field, end, as_number, lookup_field}
use python_miio.Python.Result.{ok, err, checksum_error, device_exception, recoverable_error}
use python_miio.Python.Action.Raises.{Raises}
use python_miio.Client.Network.{Reception, datagram, sendto, recvfrom}
use python_miio.Client.State.{Client}
use python_miio.Client.Discovery.{target}
use python_miio.Client.Request.{next_id, create_request}
use python_miio.Client.Send.{
  send, prepare, ensure_discovered, transmit, exchange, payload_id, payload_result, handle_error,
  is_recoverable,
}
use python_miio.Client.Bounds.{packets, send_packets}
use python_miio.Client.Ids.{next_id_range}
use python_miio.Client.Errors.{may_escape, send-Raises}
use python_miio.Client.Delivery.{after_packet, send_delivers}
use python_miio.Client.Retries.{
  Recoveries, again, done, with_hellos, send_recovers, send_exhausted, send_silent,
}
use python_miio.Protocol.Backend.{Bytes, Backend, big_endian}
use python_miio.Protocol.ByteScan.{rstrip}
use python_miio.Protocol.Concrete.{backend}
use python_miio.Protocol.Crypt.{encrypt, decrypt}
use python_miio.Protocol.Payload.{
  encode_payload, decode_payload, decrypt_or_raise, first_parse, decrypted_quirks,
}
use python_miio.Protocol.Message.{
  build, parse, parse_header, read, is_hello, same_bytes, parse_checksum, build_header,
  build_checksum, get_length,
}
use python_miio.Examples.Fixtures.{
  toy, toy_laws, token, device_id, answer, answer_fields, answer-Serializes, packet, forged, client,
  payload, bytes_of,
}

-- the client once its command is on the way
abbrev request : Bytes
request =
    (0x21 ∷ 0x31 ∷ 0 ∷ 48 ∷ 0 ∷ 0 ∷ 0 ∷ 0 ∷ 1 ∷ 2 ∷ 3 ∷ 4 ∷ 0 ∷ 0 ∷ 0 ∷ 101 ∷ [])
    ++ (replicate 16 2 ++ payload)

abbrev sent : List Reception → Client
sent incoming = record (client incoming) {
  id = int (pos 6);
  network = record (client incoming).network { outgoing = ("10.0.0.2", request) ∷ [] };
}

prepare_lem :
    (incoming : List Reception)
    → prepare toy "get_prop" none none (client incoming) ≡ (ok tt, sent incoming)
unfolding prepare ensure_discovered create_request next_id ◌+ℤ◌ transmit sendto backend build
    encode_payload encrypt build_header build_checksum get_length big_endian
prepare_lem incoming = refl

-- A backend that reads every text as a recoverable error.
abbrev busy : Backend
busy = backend bytes_of λ s. ok (
    obj (field "id" (int (pos 6)) (field "error" (obj (field "code" (int (negsuc 9998)) end)) end)))

abbrev arrives : Bytes → List Reception
arrives s = datagram s "10.0.0.2" ∷ []

send_packets_example :
    packets (send toy 2 "get_prop" none none (client [])).1 ≤ packets (client []) + 4 * (2 + 1)
send_packets_example = send_packets toy 2 "get_prop" none none (client [])

send-Raises_example : Raises may_escape (send toy 2 "get_prop" none none)
send-Raises_example = send-Raises toy toy_laws 2 "get_prop" none none

next_id_range_example :
    (n : ℕ) × (next_id (client []) ≡ (ok (pos n), record (client []) { id = int (pos n) }))
    × (1 ≤ n)
    × (n ≤ 9998)
    × (((5 ≤ 9997) × (n ≡ 5 + 1)) ⊎ ((9998 ≤ 5) × (n ≡ 1)))
unfolding as_number
next_id_range_example = next_id_range (client []) 5 refl

build-packet : build toy answer device_id 100 token ≡ ok packet
unfolding backend build encode_payload encrypt build_header build_checksum get_length big_endian
build-packet = refl

send_delivers_example : send toy 3 "get_prop" none none (client (arrives packet)) ≡ (
  ok (str "ok"),
  record (after_packet (sent (arrives packet)) []) { id = int (pos 6); device_ts = 100 },
)
unfolding lookup_field backend
send_delivers_example =
    send_delivers toy toy_laws 3 "get_prop" none none (client (arrives packet))
      (sent (arrives packet)) "10.0.0.2" [] answer_fields (int (pos 6)) (str "ok") device_id 100
      packet (prepare_lem (arrives packet)) refl refl (omega arith) answer-Serializes (omega arith)
      refl refl refl build-packet (omega arith) refl

parse-forged : parse toy forged (some token) ≡ err checksum_error
unfolding backend parse parse_header parse_checksum read is_hello same_bytes decode_payload
    decrypt_or_raise decrypt first_parse decrypted_quirks rstrip big_endian
parse-forged = refl

-- what a recoverable error leaves
abbrev refused : Client
refused = record (after_packet (sent (arrives packet)) []) { id = int (pos 6); device_ts = 100 }

prepare-busy :
    prepare busy "get_prop" none none (client (arrives packet)) ≡ (ok tt, sent (arrives packet))
unfolding prepare ensure_discovered create_request next_id ◌+ℤ◌ transmit sendto backend build
    encode_payload encrypt build_header build_checksum get_length big_endian
prepare-busy = refl

exchange-busy :
    exchange busy (sent (arrives packet))
    ≡ (err (recoverable_error (some (int (negsuc 9998))) none), refused)
unfolding backend exchange recvfrom payload_id payload_result handle_error is_recoverable
    lookup_field parse parse_header parse_checksum read is_hello same_bytes decode_payload
    decrypt_or_raise decrypt first_parse decrypted_quirks rstrip big_endian
exchange-busy = refl

one_recovery : Recoveries busy "get_prop" none none 1 (client (arrives packet)) refused
one_recovery = again _ _ _ _ _ _ prepare-busy exchange-busy (done refused)

send_recovers_example :
    send busy (1 + 2) "get_prop" none none (client (arrives packet))
    ≡ send busy 2 "get_prop" none none refused
send_recovers_example = send_recovers busy "get_prop" none none 2 one_recovery

send_exhausted_example :
    send busy 0 "get_prop" none none (client (arrives packet)) ≡ (err device_exception, refused)
send_exhausted_example = send_exhausted busy "get_prop" none none one_recovery 0 refl

send_silent_example : send toy (suc 2) "get_prop" none none (client []) ≡ (
  err device_exception,
  record (sent []) {
    id = int (pos 6 +ℤ pos 100);
    discovered = false;
    network = with_hellos 3 (target (some "10.0.0.2")) (sent []).network;
  },
)
unfolding as_number
send_silent_example =
    send_silent toy 2 "get_prop" none none (client []) (sent []) (pos 6) (prepare_lem [])
      (record { no_answer = refl; no_refusal = refl }) refl
