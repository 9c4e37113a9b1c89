-- ===== src/Protocol/Backend.antt =====
-- What miio/protocol.py calls and does not implement: the digest, the cipher and the padding of
-- `hashlib` and `cryptography`, `json`, and the integers of `construct`. Each is a parameter; the
-- laws state its documented behaviour.
use python_miio.Base.{
  ℕ, ◌+◌, ◌^◌, ◌%◌, ◌/◌, ◌<◌, ◌≤◌, ◌≡◌, ◌≢◌, List, [], ◌∷◌, length, All, zero, suc, ◌++◌,
}
use python_miio.Python.Value.{Value}
use python_miio.Python.Result.{Result, ok, err, construct_error}

abbrev pub Bytes : Type 0
Bytes = List ℕ

pub record Backend : Type 0 where
  -- `hashlib.md5(data).digest()`
  pub md5 : Bytes → Bytes
  -- `Cipher(algorithms.AES(key), modes.CBC(iv))`, `update` and `finalize`
  pub aes_cbc_encrypt : Bytes → Bytes → Bytes → Result Bytes
  pub aes_cbc_decrypt : Bytes → Bytes → Bytes → Result Bytes
  -- `padding.PKCS7(128)`, `update` and `finalize`
  pub pkcs7_pad : Bytes → Bytes
  pub pkcs7_unpad : Bytes → Result Bytes
  -- `json.dumps(obj).encode("utf-8")` and `json.loads(data.decode("utf-8"))`
  pub json_dumps : Value → Bytes
  pub json_loads : Bytes → Result Value
  -- `Int16ub` and `Int32ub`; the parsers are given exactly two and four bytes
  pub build_int16ub : ℕ → Result Bytes
  pub parse_int16ub : Bytes → ℕ
  pub build_int32ub : ℕ → Result Bytes
  pub parse_int32ub : Bytes → ℕ

-- The last `k` bytes of a number, the highest first.
unfoldable pub big_endian : ℕ → ℕ → Bytes
big_endian zero n = []
big_endian (suc k) n = big_endian k (n / 256) ++ (n % 256) ∷ []

pub record BackendLaws (b : Backend) : Type 0 where
  pub length-md5 : (x : Bytes) → length (b.md5 x) ≡ 16
  -- With a key and an initialization vector of 16 bytes, whole blocks are encrypted to as many
  -- bytes, and decrypted to what they were.
  pub encrypt_blocks :
      (key iv text : Bytes)
      → length key ≡ 16
      → length iv ≡ 16
      → length text % 16 ≡ 0
      → (c : Bytes) × (b.aes_cbc_encrypt key iv text ≡ ok c)
        × (length c ≡ length text)
        × (b.aes_cbc_decrypt key iv c ≡ ok text)
  pub pad_blocks : (x : Bytes) → length (b.pkcs7_pad x) % 16 ≡ 0
  pub pad_grows : (x : Bytes) → length x < length (b.pkcs7_pad x)
  pub pad_bounded : (x : Bytes) → length (b.pkcs7_pad x) ≤ length x + 16
  pub unpad-pad : (x : Bytes) → b.pkcs7_unpad (b.pkcs7_pad x) ≡ ok x
  pub build_int16ub_fits : (n : ℕ) → n < 2 ^ 16 → b.build_int16ub n ≡ ok (big_endian 2 n)
  pub build_int16ub_overflow : (n : ℕ) → 2 ^ 16 ≤ n → b.build_int16ub n ≡ err construct_error
  pub parse_int16ub_lem : (n : ℕ) → n < 2 ^ 16 → b.parse_int16ub (big_endian 2 n) ≡ n
  pub build_int32ub_fits : (n : ℕ) → n < 2 ^ 32 → b.build_int32ub n ≡ ok (big_endian 4 n)
  pub build_int32ub_overflow : (n : ℕ) → 2 ^ 32 ≤ n → b.build_int32ub n ≡ err construct_error
  pub parse_int32ub_lem : (n : ℕ) → n < 2 ^ 32 → b.parse_int32ub (big_endian 4 n) ≡ n

-- A value that survives `json`: its text escapes control characters, and reads back as the value.
pub record Serializes (b : Backend) (v : Value) : Type 0 where
  pub dumps_no_nul : All (λ c. c ≢ 0) (b.json_dumps v)
  pub loads-dumps : b.json_loads (b.json_dumps v) ≡ ok v
