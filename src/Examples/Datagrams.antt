-- ===== src/Examples/Datagrams.antt =====
-- Datagrams that reach the push server.
use python_miio.Base.{
  ℕ, ◌+◌, ◌≤◌, ◌≡◌, refl, some, none, List, [], ◌∷◌, ◌++◌, length, take, drop, replicate, arith,
}
use python_miio.Base.Int.{pos}
use python_miio.Python.Value.{Value, int, obj, null, lookup_field}
use python_miio.Python.Dict.{text_eq, lookup}
use python_miio.Python.Result.{Result, ok, err, checksum_error}
use python_miio.Protocol.Backend.{Bytes, Backend, Serializes, big_endian}
use python_miio.Protocol.ByteScan.{rstrip}
use python_miio.Protocol.Concrete.{backend, backend_laws}
use python_miio.Protocol.Crypt.{decrypt}
use python_miio.Protocol.Payload.{
  json, decode_payload, decrypt_or_raise, first_parse, decrypted_quirks,
}
use python_miio.Protocol.Message.{
  Message, parse, parse_header, read, is_hello, same_bytes, parse_checksum,
}
use python_miio.Client.Send.{payload_id}
use python_miio.PushServer.Registry.{Registration}
use python_miio.PushServer.Datagrams.{Endpoint, Surroundings, datagram_received, client_token}
use python_miio.PushServer.Answering.{
  receipt, datagram_received_unreadable, datagram_received_packets, datagram_received_registered,
}
use python_miio.Examples.Fixtures.{token, device_id, packet, forged, bytes_of}

-- A backend that reads every text as the receipt for the id 6.
abbrev six : Value
six = int (pos 6)

abbrev value_six : Bytes → Result Value
value_six s = ok (obj (receipt six))

abbrev reader : Backend
reader = backend bytes_of value_six

abbrev registration : Registration ℕ
registration = record {
  callback = 0;
  token = token;
  event_ids = [];
  device = record { ip = some "10.0.0.3"; token = none };
}

abbrev endpoint : Endpoint ℕ (List ℕ)
endpoint = record {
  server = record {
    registered_devices = ("10.0.0.3", registration) ∷ [];
    methods = [];
    event_id = 0;
    server_ip = none;
    devices = [];
  };
  outgoing = [];
}

abbrev surroundings : Surroundings ℕ (List ℕ)
surroundings = record {
  call_back = λ c source action params log. (ok tt, log ++ c ∷ []);
  call_method = λ c request log. (ok null, log ++ c ∷ []);
  pack_ack = λ magic size unknown id ts checksum. ok [];
  describe = λ e. "";
  now = 100;
  device_id = 1;
  device_id_bytes = device_id;
}

parse-forged : parse reader forged (some client_token) ≡ err checksum_error
unfolding backend parse parse_header parse_checksum read is_hello same_bytes decode_payload
    decrypt_or_raise decrypt first_parse decrypted_quirks rstrip big_endian
parse-forged = refl

abbrev message : Message
message = record {
  payload = json (obj (receipt six));
  header = record { size = 48; unknown = 0; device_id = device_id; ts = 100 };
  checksum = replicate 16 1;
}

parse-packet : parse reader packet (some token) ≡ ok message
unfolding backend parse parse_header parse_checksum read is_hello same_bytes decode_payload
    decrypt_or_raise decrypt first_parse decrypted_quirks rstrip big_endian
parse-packet = refl

receipt-Serializes : Serializes reader (obj (receipt six))
unfolding backend
receipt-Serializes = record {
  dumps_no_nul = (λ p. omega arith, (λ p. omega arith, tt));
  loads-dumps = refl;
}

datagram_received_unreadable_example :
    datagram_received reader surroundings forged ("10.0.0.9", 54321) endpoint ≡ endpoint
unfolding same_bytes lookup
datagram_received_unreadable_example =
    datagram_received_unreadable reader surroundings forged "10.0.0.9" 54321 checksum_error endpoint
      refl parse-forged

datagram_received_packets_example :
    length (datagram_received reader surroundings forged ("10.0.0.9", 54321) endpoint).outgoing
    ≤ length endpoint.outgoing + 1
datagram_received_packets_example =
    datagram_received_packets reader surroundings forged "10.0.0.9" 54321 endpoint

datagram_received_registered_example :
    (reply : Bytes) × ((datagram_received reader surroundings packet
        ("10.0.0.3", 54321)
        endpoint).outgoing
      ≡ endpoint.outgoing ++ (("10.0.0.3", 54321), reply) ∷ [])
    × (parse reader reply (some token)
        ≡ ok (record {
          payload = json (obj (receipt six));
          header = record { size = length reply; unknown = 0; device_id = device_id; ts = 100 };
          checksum = take 16 (drop 16 reply);
        }))
unfolding backend same_bytes lookup payload_id lookup_field
datagram_received_registered_example =
    datagram_received_registered reader (backend_laws bytes_of value_six) surroundings packet
      "10.0.0.3" 54321 endpoint registration message six refl refl parse-packet refl refl refl
      (omega arith) receipt-Serializes (omega arith)
