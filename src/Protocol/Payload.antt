-- ===== src/Protocol/Payload.antt =====
-- `EncryptionAdapter` of miio/protocol.py: JSON to encrypted bytes and back, with the corrections of
-- malformed JSON that devices are known to send.
use python_miio.Base.{◌++◌, Option, none, some, List, [], ◌∷◌}
use python_miio.Base.Text.{codes}
use python_miio.Python.Value.{Value}
use python_miio.Python.Result.{Result, ok, err, key_error, payload_decode, or_raise, ◌>>=◌}
use python_miio.Protocol.Backend.{Bytes, Backend}
use python_miio.Protocol.ByteScan.{replace, before_last, rstrip}
use python_miio.Protocol.Crypt.{encrypt, decrypt}

-- What a decoded `data` field holds: bytes, if there was no payload or it did not decrypt.
pub data Payload : Type 0 where
  raw : Bytes → Payload
  json : Value → Payload

abbrev cut_at_last_nul : Bytes → Bytes
cut_at_last_nul s = elim (before_last 0 s) [ some p ↦ p | none ↦ s ]

-- `decrypted_quirks`, in order
unfoldable pub decrypted_quirks : List (Bytes → Bytes)
unfolding replace before_last
decrypted_quirks =
    (λ s. s)
    ∷ replace (codes ",,\"otu_stat\"") (codes ",\"otu_stat\"")
    ∷ cut_at_last_nul
    ∷ replace (codes "\"value\":00") (codes "\"value\":0")
    ∷ replace (codes ",,") (codes ",")
    ∷ replace (codes "\"result\":,") []
    ∷ []

module _ (b : Backend) where
  -- The loop over the quirks: the first text that parses; the last failure raises.
  unfoldable pub first_parse : List (Bytes → Bytes) → Bytes → Result Value
  first_parse [] s = err payload_decode
  first_parse (quirk ∷ quirks) s =
      let rest = first_parse quirks s in
      elim (b.json_loads (quirk s)) [ ok v ↦ ok v | err _ ↦ rest ]

  -- `_encode`
  unfoldable pub encode_payload : Value → Bytes → Result Bytes
  encode_payload v token = encrypt b (b.json_dumps v ++ 0 ∷ []) token

  -- The `try` around the decryption; a missing token raises in it too.
  unfoldable pub decrypt_or_raise : Bytes → Option Bytes → Result Bytes
  decrypt_or_raise s token = do
    t ← or_raise token key_error
    decrypted ← decrypt b s t
    ok (rstrip 0 decrypted)

  -- `_decode`
  unfoldable pub decode_payload : Bytes → Option Bytes → Result Payload
  decode_payload [] token = ok (raw [])
  decode_payload (c ∷ s) token = elim (decrypt_or_raise (c ∷ s) token) [
    | err _ ↦ ok (raw (c ∷ s))
    | ok decrypted ↦ (do v ← first_parse decrypted_quirks decrypted; ok (json v))
  ]
