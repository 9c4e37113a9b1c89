-- ===== src/Protocol/RoundTrip.antt =====
-- A packet that was built is read back as what went into it.
use python_miio.Base.{
  ℕ, zero, suc, ◌/◌, ◌%◌, refl, append_assoc, ◌+◌, ◌^◌, ◌≤◌, ◌<◌, ◌≡◌, true, some, [], ◌∷◌, ◌++◌,
  arith, length, ==_iff, ◌==◌, length-append, take-append_left, drop-append_left,
}
use python_miio.Python.Value.{Value}
use python_miio.Python.Result.{ok}
use python_miio.Protocol.Backend.{Bytes, Backend, BackendLaws, Serializes, big_endian}
use python_miio.Protocol.ByteScan.{rstrip-append}
use python_miio.Protocol.Crypt.{encrypt, decrypt}
use python_miio.Protocol.Payload.{
  json, encode_payload, decode_payload, decrypt_or_raise, first_parse, decrypted_quirks,
}
use python_miio.Protocol.Message.{Header, magic, build_header, parse_header, read}

module _ (b : Backend) (laws : BackendLaws b) (token : Bytes) (h : length token ≡ 16) where
  -- A text is encrypted to something longer, by a block at most, which decrypts to the text.
  pub encrypt_lem :
      (text : Bytes)
      → (c : Bytes) × (encrypt b text token ≡ ok c)
        × (length text < length c)
        × (length c ≤ length text + 16)
        × (decrypt b c token ≡ ok text)
  unfolding encrypt decrypt
  encrypt_lem text =
      let key : Bytes = b.md5 token in
      let iv : Bytes = b.md5 (key ++ token) in
      let (c, e, len, d) =
        laws.encrypt_blocks key iv (b.pkcs7_pad text) (laws.length-md5 token)
          (laws.length-md5 (key ++ token)) (laws.pad_blocks text) in
      let known : (length token == 16) ≡ true = (==_iff (length token) 16).1 h in
      (
        c,
        rw known e,
        omega (arith, laws.pad_grows text),
        omega (arith, laws.pad_bounded text),
        rw (known, d) (laws.unpad-pad text),
      )

  decrypt_or_raise_lem :
      (c : Bytes) (v : Value)
      → Serializes b v
      → decrypt b c token ≡ ok (b.json_dumps v ++ 0 ∷ [])
      → decrypt_or_raise b c (some token) ≡ ok (b.json_dumps v)
  unfolding decrypt_or_raise
  decrypt_or_raise_lem c v sv d = rw (d, rstrip-append 0 (b.json_dumps v) (sv.dumps_no_nul))

  -- A payload that decrypts to a value's text, with the byte 0 behind it, decodes to the value.
  decode_payload_of_decrypt :
      (c : Bytes) (v : Value)
      → Serializes b v
      → 0 < length c
      → decrypt b c token ≡ ok (b.json_dumps v ++ 0 ∷ [])
      → decode_payload b c (some token) ≡ ok (json v)
  unfolding decode_payload first_parse decrypted_quirks
  decode_payload_of_decrypt [] v sv pos d = absurd (omega arith)
  decode_payload_of_decrypt (x ∷ c) v sv pos d =
      ground (arith, decrypt_or_raise_lem (x ∷ c) v sv d, sv.loads-dumps)

  -- An encoded payload decodes to its value.
  pub encode_payload_lem :
      (v : Value)
      → Serializes b v
      → (c : Bytes) × (encode_payload b v token ≡ ok c)
        × (0 < length c)
        × (length c ≤ length (b.json_dumps v) + 17)
        × (decode_payload b c (some token) ≡ ok (json v))
  unfolding encode_payload
  encode_payload_lem v sv =
      let (c, e, longer, bounded, d) = encrypt_lem (b.json_dumps v ++ 0 ∷ []) in
      (
        c,
        e,
        omega arith,
        omega (arith, length-append (b.json_dumps v) (0 ∷ [])),
        decode_payload_of_decrypt c v sv (omega arith) d,
      )

pub length-big_endian : (k n : ℕ) → length (big_endian k n) ≡ k
unfolding big_endian
length-big_endian zero n = refl
length-big_endian (suc k) n =
    omega (
      arith,
      length-big_endian k (n / 256),
      length-append (big_endian k (n / 256)) ((n % 256) ∷ []),
    )

-- Bytes at the head of a stream are what a read of their length returns.
pub read-append : (n : ℕ) (s rest : Bytes) → length s ≡ n → read n (s ++ rest) ≡ ok (s, rest)
unfolding read
read-append n s rest h =
    rw (take-append_left n s rest h, drop-append_left n s rest h)
      (ground (arith, length-append s rest))

-- The bytes of a header, and what they are read as.
unfoldable pub header_bytes : Header → Bytes
header_bytes h =
    big_endian 2 magic
    ++ big_endian 2 h.size
    ++ big_endian 4 h.unknown
    ++ h.device_id
    ++ big_endian 4 h.ts

pub length-header_bytes : (h : Header) → length h.device_id ≡ 4 → length (header_bytes h) ≡ 16
unfolding header_bytes big_endian
length-header_bytes h device_id = omega (arith, length-append {0} h.device_id (big_endian 4 h.ts))

module _ (b : Backend) (laws : BackendLaws b) where
  pub build_header_lem :
      (h : Header)
      → h.size < 2 ^ 16
      → h.unknown < 2 ^ 32
      → length h.device_id ≡ 4
      → h.ts < 2 ^ 32
      → build_header b h ≡ ok (header_bytes h)
  unfolding build_header header_bytes
  build_header_lem h size unknown device_id ts = rw (
    laws.build_int16ub_fits magic (omega arith),
    laws.build_int16ub_fits h.size size,
    laws.build_int32ub_fits h.unknown unknown,
    (==_iff (length h.device_id) 4).1 device_id,
    laws.build_int32ub_fits h.ts ts,
  )

  -- A header of 16 bytes is read back field by field.
  pub parse-header_bytes :
      (h : Header) (rest : Bytes)
      → h.size < 2 ^ 16
      → h.unknown < 2 ^ 32
      → length h.device_id ≡ 4
      → h.ts < 2 ^ 32
      → parse_header b (header_bytes h ++ rest) ≡ ok h
  unfolding parse_header header_bytes
  parse-header_bytes h rest size unknown device_id ts = simp append_assoc (
      rw (
        read-append 2 (big_endian 2 magic) _ (length-big_endian 2 magic),
        laws.parse_int16ub_lem magic (omega arith),
        read-append 2 (big_endian 2 h.size) _ (length-big_endian 2 h.size),
        read-append 4 (big_endian 4 h.unknown) _ (length-big_endian 4 h.unknown),
        read-append 4 h.device_id _ device_id,
        read-append 4 (big_endian 4 h.ts) _ (length-big_endian 4 h.ts),
        laws.parse_int16ub_lem h.size size,
        laws.parse_int32ub_lem h.unknown unknown,
        laws.parse_int32ub_lem h.ts ts,
      ))
