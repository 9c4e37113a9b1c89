-- ===== src/Protocol/Message.antt =====
-- `Message` of miio/protocol.py: 16 bytes of header, 16 of checksum, and the payload from byte 32.
-- `construct` reads and writes the fields of a `Struct` in order; `Pointer(32, …)` is the rest of
-- the packet from byte 32, and `RawCopy` keeps the bytes beside the value.
use python_miio.Base.{
  ℕ, ◌+◌, ◌++◌, ◌&&◌, Bool, true, false, [], ◌∷◌, Option, ◌==◌, ltb, length, take, drop, replicate,
  if◌then◌else◌,
}
use python_miio.Python.Value.{Value}
use python_miio.Python.Result.{
  Result, ok, err, key_error, construct_error, checksum_error, or_raise, require, ◌>>=◌, ◌>>◌,
}
use python_miio.Protocol.Backend.{Bytes, Backend}
use python_miio.Protocol.Payload.{Payload, encode_payload, decode_payload}

pub record Header : Type 0 where
  pub size : ℕ
  pub unknown : ℕ
  pub device_id : Bytes
  -- seconds since 1970, which `TimeAdapter` shows as a date
  pub ts : ℕ

pub record Message : Type 0 where
  pub payload : Payload
  pub header : Header
  pub checksum : Bytes

abbrev pub magic : ℕ
magic = 0x2131

-- `stream.read(n)`, and the error for a stream that ends before
unfoldable pub read : ℕ → Bytes → Result (Bytes × Bytes)
read n s = if ltb (length s) n then err construct_error else ok (take n s, drop n s)

-- `Bytes(n)` when it builds
unfoldable pub exactly : ℕ → Bytes → Result Bytes
exactly n s = if length s == n then ok s else err construct_error

-- `hash1 == hash2`
unfoldable pub same_bytes : Bytes → Bytes → Bool
same_bytes [] [] = true
same_bytes (c ∷ s) (d ∷ t) = c == d && same_bytes s t
same_bytes _ _ = false

-- `Utils.get_length`, from the length of the encrypted data
unfoldable pub get_length : ℕ → ℕ
get_length datalen = datalen + 32

-- `Utils.is_hello`, from the header's length
unfoldable pub is_hello : ℕ → Bool
is_hello size = size == 32

-- `Utils.checksum_field_bytes`
abbrev pub checksum_field_bytes : Bytes → Bytes → Bytes → Bytes
checksum_field_bytes header token payload = header ++ token ++ payload

module _ (b : Backend) where
  unfoldable pub build_header : Header → Result Bytes
  unfolding exactly
  build_header h = do
    m ← b.build_int16ub magic
    size ← b.build_int16ub h.size
    unknown ← b.build_int32ub h.unknown
    device_id ← exactly 4 h.device_id
    ts ← b.build_int32ub h.ts
    ok (m ++ size ++ unknown ++ device_id ++ ts)

  unfoldable pub build_checksum : ℕ → Bytes → Bytes → Bytes → Result Bytes
  unfolding is_hello exactly
  build_checksum size header token payload =
      if is_hello size
      then ok (replicate 16 0)
      else exactly 16 (b.md5 (checksum_field_bytes header token payload))

  -- `Message.build(msg, token=token)` with the checksum 0 in `msg`
  unfoldable pub build : Value → Bytes → ℕ → Bytes → Result Bytes
  build request device_id ts token = do
    payload ← encode_payload b request token
    let size = get_length (length payload)
    header ← build_header (record { size = size; unknown = 0; device_id = device_id; ts = ts })
    checksum ← build_checksum size header token payload
    ok (header ++ (checksum ++ payload))

  unfoldable pub parse_header : Bytes → Result Header
  unfolding read
  parse_header s = do
    (m, s) ← read 2 s
    require (b.parse_int16ub m == magic) construct_error
    (size, s) ← read 2 s
    (unknown, s) ← read 4 s
    (device_id, s) ← read 4 s
    (ts, _) ← read 4 s
    ok (record {
      size = b.parse_int16ub size;
      unknown = b.parse_int32ub unknown;
      device_id = device_id;
      ts = b.parse_int32ub ts;
    })

  -- The checksum field: any 16 bytes in a hello packet, else the digest that it has to be.
  unfoldable pub parse_checksum : ℕ → Bytes → Bytes → Option Bytes → Bytes → Result Bytes
  unfolding is_hello read
  parse_checksum size header payload token s = do
    (checksum, _) ← read 16 s
    if is_hello size then ok checksum else do
      t ← or_raise token key_error
      require (same_bytes checksum (b.md5 (checksum_field_bytes header t payload))) checksum_error
      ok checksum

  -- `Message.parse(data, token=token)`; there may be no token.
  unfoldable pub parse : Bytes → Option Bytes → Result Message
  parse s token = do
    payload ← decode_payload b (drop 32 s) token
    header ← parse_header s
    checksum ← parse_checksum header.size (take 16 s) (drop 32 s) token (drop 16 s)
    ok (record { payload = payload; header = header; checksum = checksum })
