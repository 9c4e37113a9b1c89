-- ===== src/Protocol/Packet.antt =====
-- Whole packets: what is built is read back, and what is accepted carries the digest of its token.
use python_miio.Base.{
  ℕ, ◌+◌, ◌^◌, ◌<◌, ◌≡◌, ◌≢◌, ◌↔◌, refl, true, some, [], ◌∷◌, ◌++◌, append_assoc, arith, length,
  take, drop, length-append, take-append_left, drop-append_left,
}
use python_miio.Python.Value.{Value}
use python_miio.Python.Result.{ok}
use python_miio.Protocol.Backend.{Bytes, Backend, BackendLaws, Serializes}
use python_miio.Protocol.Payload.{json, encode_payload, decode_payload}
use python_miio.Protocol.RoundTrip.{
  encode_payload_lem, build_header_lem, header_bytes, length-header_bytes, parse-header_bytes,
  read-append,
}
use python_miio.Protocol.Message.{
  Header, build, parse, parse_header, build_checksum, parse_checksum, exactly, same_bytes, is_hello,
  get_length, checksum_field_bytes,
}

pub same_bytes_iff : (s t : Bytes) → (same_bytes s t ≡ true) ↔ (s ≡ t)
unfolding same_bytes
same_bytes_iff s t = (to s t, of s t)
  where
    to : (s t : Bytes) → same_bytes s t ≡ true → s ≡ t
    to [] [] h = refl
    to (c ∷ s) (d ∷ t) h = ground (arith, to s t)
    to [] (d ∷ t) h = ground arith
    to (c ∷ s) [] h = ground arith

    self : (s : Bytes) → same_bytes s s ≡ true
    self [] = refl
    self (c ∷ s) = ground (arith, self s)

    of : (s t : Bytes) → s ≡ t → same_bytes s t ≡ true
    of s t e = rw (← e) (self s)

module _ (b : Backend) (laws : BackendLaws b) where
  -- The digest that is built is the one that is accepted.
  build_checksum_lem :
      (size : ℕ) (header token c : Bytes)
      → size ≢ 32
      → build_checksum b size header token c ≡ ok (b.md5 (checksum_field_bytes header token c))
  unfolding build_checksum is_hello exactly
  build_checksum_lem size header token c h =
      ground (arith, laws.length-md5 (checksum_field_bytes header token c))

  parse_checksum_lem :
      (size : ℕ) (header token c : Bytes)
      → size ≢ 32
      → let digest = b.md5 (checksum_field_bytes header token c) in
        parse_checksum b size header c (some token) (digest ++ c) ≡ ok digest
  unfolding parse_checksum is_hello
  parse_checksum_lem size header token c h =
      let digest : Bytes = b.md5 (checksum_field_bytes header token c) in
      rw (read-append 16 digest c (laws.length-md5 _))
        (ground (arith, (same_bytes_iff digest digest).1 refl))

-- The header of a request with `n` bytes of encrypted data, and the packet around the data.
abbrev request_header : ℕ → Bytes → ℕ → Header
request_header n device_id ts = record {
  size = n + 32;
  unknown = 0;
  device_id = device_id;
  ts = ts;
}

packet : Backend → Bytes → Bytes → ℕ → Bytes → Bytes
packet b token device_id ts c =
    let header : Bytes = header_bytes (request_header (length c) device_id ts) in
    header ++ (b.md5 (checksum_field_bytes header token c) ++ c)

-- Where the parts of a packet stand.
module _ (head digest c : Bytes) (h : length head ≡ 16) (d : length digest ≡ 16) where
  length-parts : length (head ++ (digest ++ c)) ≡ length c + 32
  length-parts = omega (arith, length-append head (digest ++ c), length-append digest c)

  payload_part : drop 32 (head ++ (digest ++ c)) ≡ c
  payload_part =
      rw (← append_assoc {0} head digest c)
        (drop-append_left 32 (head ++ digest) c (omega (arith, length-append head digest)))

module _ (b : Backend) (laws : BackendLaws b) (token : Bytes) (h : length token ≡ 16)
    (device_id : Bytes) (hd : length device_id ≡ 4) (ts : ℕ) (ht : ts < 2 ^ 32) where
  length-packet : (c : Bytes) → length (packet b token device_id ts c) ≡ length c + 32
  unfolding packet
  length-packet c =
      length-parts (header_bytes (request_header (length c) device_id ts)) _ c
        (length-header_bytes (request_header (length c) device_id ts) hd) (laws.length-md5 _)

  build-packet :
      (v : Value) (c : Bytes)
      → encode_payload b v token ≡ ok c
      → 0 < length c
      → length c + 32 < 2 ^ 16
      → build b v device_id ts token ≡ ok (packet b token device_id ts c)
  unfolding build get_length packet
  build-packet v c e pos fits =
      let hdr : Header = request_header (length c) device_id ts in
      rw (
        e,
        build_header_lem b laws hdr fits (omega arith) hd ht,
        build_checksum_lem b laws (length c + 32) (header_bytes hdr) token c (omega arith),
      )

  -- What `parse` returns, from what each of its steps returns.
  parse_steps :
      (s c head digest : Bytes) (v : Value) (hdr : Header)
      → drop 32 s ≡ c
      → take 16 s ≡ head
      → drop 16 s ≡ digest ++ c
      → decode_payload b c (some token) ≡ ok (json v)
      → parse_header b s ≡ ok hdr
      → parse_checksum b hdr.size head c (some token) (digest ++ c) ≡ ok digest
      → parse b s (some token) ≡ ok (record { payload = json v; header = hdr; checksum = digest })
  unfolding parse
  parse_steps s c head digest v hdr h₁ h₂ h₃ h₄ h₅ h₆ = rw (h₁, h₄, h₅, h₂, h₃, h₆)

  parse-packet :
      (v : Value) (c : Bytes)
      → decode_payload b c (some token) ≡ ok (json v)
      → 0 < length c
      → length c + 32 < 2 ^ 16
      → parse b (packet b token device_id ts c) (some token)
        ≡ ok (record {
          payload = json v;
          header = request_header (length c) device_id ts;
          checksum = take 16 (drop 16 (packet b token device_id ts c));
        })
  unfolding packet
  parse-packet v c d pos fits =
      let hdr : Header = request_header (length c) device_id ts in
      let head : Bytes = header_bytes hdr in
      let digest : Bytes = b.md5 (checksum_field_bytes head token c) in
      let len : length head ≡ 16 = length-header_bytes hdr hd in
      let len' : length digest ≡ 16 = laws.length-md5 (checksum_field_bytes head token c) in
      rw (drop-append_left 16 head (digest ++ c) len, take-append_left 16 digest c len')
        (parse_steps (head ++ (digest ++ c)) c head digest v hdr
          (payload_part head digest c len len') (take-append_left 16 head (digest ++ c) len)
          (drop-append_left 16 head (digest ++ c) len) d
          (parse-header_bytes b laws hdr (digest ++ c) fits (omega arith) hd ht)
          (parse_checksum_lem b laws (length c + 32) head token c (omega arith)))

  -- A request whose packet fits 16 bits of length is built, and the packet is read back with the same
  -- token as the request, its header with the packet's own length, and its checksum.
  pub parse-build :
      (v : Value)
      → Serializes b v
      → length (b.json_dumps v) + 49 < 2 ^ 16
      → (m : Bytes) × (build b v device_id ts token ≡ ok m)
        × (parse b m (some token)
            ≡ ok (record {
              payload = json v;
              header = record { size = length m; unknown = 0; device_id = device_id; ts = ts };
              checksum = take 16 (drop 16 m);
            }))
  parse-build v sv fits =
      let (c, e, pos, bounded, d) = encode_payload_lem b laws token h v sv in
      (
        packet b token device_id ts c,
        build-packet v c e pos (omega arith),
        rw length-packet (parse-packet v c d pos (omega arith)),
      )
