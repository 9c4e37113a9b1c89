-- ===== src/Protocol/Crypt.antt =====
-- `Utils` of miio/protocol.py: token check, key derivation, encryption.
use python_miio.Base.{◌++◌, ◌==◌, length, if◌then◌else◌}
use python_miio.Python.Result.{Result, ok, err, value_error, ◌>>=◌, ◌>>◌}
use python_miio.Protocol.Backend.{Bytes, Backend}

-- The test that the token is `bytes` is its type here.
unfoldable pub verify_token : Bytes → Result (Unit {0})
verify_token token = if length token == 16 then ok tt else err value_error

module _ (b : Backend) where
  unfoldable pub key_iv : Bytes → Bytes × Bytes
  key_iv token = let key = b.md5 token in (key, b.md5 (key ++ token))

  unfoldable pub encrypt : Bytes → Bytes → Result Bytes
  unfolding verify_token key_iv
  encrypt plaintext token = do
    verify_token token
    let (key, iv) = key_iv token
    b.aes_cbc_encrypt key iv (b.pkcs7_pad plaintext)

  unfoldable pub decrypt : Bytes → Bytes → Result Bytes
  unfolding verify_token key_iv
  decrypt ciphertext token = do
    verify_token token
    let (key, iv) = key_iv token
    padded ← b.aes_cbc_decrypt key iv ciphertext
    b.pkcs7_unpad padded
