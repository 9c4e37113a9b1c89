-- ===== src/Examples/Packets.antt =====
-- Packets, written and read.
use python_miio.Base.{◌≡◌, ◌≤◌, refl, [], ◌∷◌, length, take, drop, some, arith}
use python_miio.Python.Result.{ok, err, value_error, checksum_error}
use python_miio.Protocol.Backend.{Bytes, big_endian}
use python_miio.Protocol.Payload.{json, encode_payload, decode_payload}
use python_miio.Protocol.Crypt.{encrypt, decrypt}
use python_miio.Protocol.Message.{build, parse, parse_header, checksum_field_bytes}
use python_miio.Protocol.Concrete.{backend}
use python_miio.Protocol.Packet.{parse-build}
use python_miio.Protocol.Integrity.{parse_sound, parse_errors, IsParseError}
use python_miio.Protocol.ByteScan.{rstrip}
use python_miio.Protocol.Message.{read, is_hello, same_bytes, parse_checksum}
use python_miio.Protocol.Payload.{decrypt_or_raise, first_parse, decrypted_quirks}
use python_miio.Protocol.BuildErrors.{build_errors, IsBuildError}
use python_miio.Examples.Fixtures.{
  token, device_id, answer, answer-Serializes, toy, toy_laws, packet, packet_message, forged,
}

parse-build_example :
    (m : Bytes) × (build toy answer device_id 100 token ≡ ok m)
    × (parse toy m (some token)
        ≡ ok (record {
          payload = json answer;
          header = record { size = length m; unknown = 0; device_id = device_id; ts = 100 };
          checksum = take 16 (drop 16 m);
        }))
unfolding backend
parse-build_example =
    parse-build toy toy_laws token refl device_id refl 100 (omega arith) answer answer-Serializes
      (omega arith)

parse-packet : parse toy packet (some token) ≡ ok packet_message
unfolding backend parse parse_header parse_checksum read is_hello same_bytes decode_payload
    decrypt_or_raise decrypt first_parse decrypted_quirks rstrip big_endian
parse-packet = refl

parse_sound_example :
    (packet_message.checksum ≡ take 16 (drop 16 packet))
    × (packet_message.checksum
        ≡ toy.md5 (checksum_field_bytes (take 16 packet) token (drop 32 packet)))
    × (32 ≤ length packet)
    × (parse_header toy packet ≡ ok packet_message.header)
    × (decode_payload toy (drop 32 packet) (some token) ≡ ok packet_message.payload)
parse_sound_example = parse_sound toy packet token parse-packet (λ e. omega arith)

parse-forged : parse toy forged (some token) ≡ err checksum_error
unfolding backend parse parse_header parse_checksum read is_hello same_bytes decode_payload
    decrypt_or_raise decrypt first_parse decrypted_quirks rstrip big_endian
parse-forged = refl

parse_errors_example : IsParseError toy (some token) checksum_error
parse_errors_example = parse_errors toy forged (some token) checksum_error parse-forged

build_short : build toy answer device_id 100 (7 ∷ []) ≡ err value_error
unfolding backend build encode_payload encrypt
build_short = refl

build_errors_example : IsBuildError value_error
build_errors_example =
    build_errors toy toy_laws answer device_id 100 (7 ∷ []) value_error build_short
