-- ===== src/Protocol/Integrity.antt =====
-- What an accepted packet guarantees, and which exceptions a refused one raises.
use python_miio.Base.{
  ℕ, ◌≤◌, ◌≡◌, ◌≢◌, ◌⊎◌, inl, inr, none, some, Option, List, [], ◌∷◌, arith, length, take, drop,
  length-drop,
}
use python_miio.Python.Result.{
  Error, ok, err, key_error, payload_decode, construct_error, checksum_error, Result-cases,
}
use python_miio.Protocol.Backend.{Bytes, Backend}
use python_miio.Protocol.Payload.{decode_payload, decrypt_or_raise, first_parse, decrypted_quirks}
use python_miio.Protocol.Packet.{same_bytes_iff}
use python_miio.Protocol.Message.{
  Message, parse, parse_header, parse_checksum, is_hello, checksum_field_bytes, read,
}

module _ (b : Backend) where
  parse_checksum_sound :
      (size : ℕ) (header payload token s : Bytes) {checksum : Bytes}
      → size ≢ 32
      → parse_checksum b size header payload (some token) s ≡ ok checksum
      → (checksum ≡ take 16 s)
        × (checksum ≡ b.md5 (checksum_field_bytes header token payload))
        × (16 ≤ length s)
  unfolding parse_checksum read is_hello
  parse_checksum_sound size header payload token s h e =
      ground (arith, same_bytes_iff (take 16 s) (b.md5 (checksum_field_bytes header token payload)))

  -- The steps of a successful `parse`.
  parse_inversion :
      (s : Bytes) (token : Option Bytes) {m : Message}
      → parse b s token ≡ ok m
      → (decode_payload b (drop 32 s) token ≡ ok m.payload)
        × (parse_header b s ≡ ok m.header)
        × (parse_checksum b m.header.size (take 16 s) (drop 32 s) token (drop 16 s) ≡ ok m.checksum)
  unfolding parse
  parse_inversion s token e = ground arith

  -- A packet that is accepted with a token, and whose header does not say 32, has at least 32 bytes,
  -- and carries at bytes 16 to 31 the digest of its first 16 bytes, the token and everything from
  -- byte 32 on. Its header and its payload are what those bytes are read and decoded as.
  pub parse_sound :
      (s token : Bytes) {m : Message}
      → parse b s (some token) ≡ ok m
      → m.header.size ≢ 32
      → (m.checksum ≡ take 16 (drop 16 s))
        × (m.checksum ≡ b.md5 (checksum_field_bytes (take 16 s) token (drop 32 s)))
        × (32 ≤ length s)
        × (parse_header b s ≡ ok m.header)
        × (decode_payload b (drop 32 s) (some token) ≡ ok m.payload)
  parse_sound s token {m} e h =
      let (payload, header, checksum) = parse_inversion s (some token) e in
      let (bytes, digest, enough) =
        parse_checksum_sound m.header.size (take 16 s) (drop 32 s) token (drop 16 s) h checksum in
      (bytes, digest, omega (arith, length-drop 16 s), header, payload)

  -- The exceptions of `parse` with a token or without one.
  abbrev pub IsParseError : Option Bytes → Error → Type 0
  IsParseError token e =
      (e ≡ payload_decode)
      ⊎ (e ≡ construct_error)
      ⊎ ((e ≡ key_error) × (token ≡ none))
      ⊎ (e ≡ checksum_error)

  first_parse_errors :
      (qs : List (Bytes → Bytes)) (s : Bytes) (e : Error)
      → first_parse b qs s ≡ err e
      → e ≡ payload_decode
  unfolding first_parse
  first_parse_errors [] s e h = ground arith
  first_parse_errors (q ∷ qs) s e h = ground (arith, first_parse_errors qs s e)

  decode_payload_errors :
      (s : Bytes) (token : Option Bytes) (e : Error)
      → decode_payload b s token ≡ err e
      → e ≡ payload_decode
  unfolding decode_payload
  decode_payload_errors [] token e h = cc
  decode_payload_errors (c ∷ s) token e h = elim (Result-cases (decrypt_or_raise b (c ∷ s) token)) [
    | inl (d, hd) ↦ ground (arith, first_parse_errors decrypted_quirks d e)
    | inr (x, hx) ↦ ground arith
  ]

  parse_header_errors : (s : Bytes) (e : Error) → parse_header b s ≡ err e → e ≡ construct_error
  unfolding parse_header read
  parse_header_errors s e h = ground arith

  parse_checksum_errors :
      (size : ℕ) (header payload : Bytes) (token : Option Bytes) (s : Bytes) (e : Error)
      → parse_checksum b size header payload token s ≡ err e
      → IsParseError token e
  unfolding parse_checksum read
  parse_checksum_errors size header payload none s e h = ground arith
  parse_checksum_errors size header payload (some token) s e h = ground arith

  -- Whatever the packet and the token, `parse` raises only a payload, a construct, a key or a
  -- checksum error; the key error only if there is no token.
  pub parse_errors :
      (s : Bytes) (token : Option Bytes) (e : Error)
      → parse b s token ≡ err e
      → IsParseError token e
  unfolding parse
  parse_errors s token e h =
      grind (arith, decode_payload_errors, parse_header_errors, parse_checksum_errors)
