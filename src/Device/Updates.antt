-- ===== src/Device/Updates.antt =====
-- The update and wifi commands of miio/device.py, and its `device_id`, `raw_id` and `send_handshake` over
-- the client.
use python_miio.Base.{
  ℕ, ◌+◌, ◌*◌, String, Bool, false, Option, none, some, [], ◌∷◌, str_eq, if◌then◌else◌,
}
use python_miio.Python.Value.{Value, str, obj, Fields, field, end, merge_fields}
use python_miio.Python.Result.{Result, ok, err, value_error}
use python_miio.Python.Action.{Action, pure, get, ◌>>=◌, ◌>>◌}
use python_miio.Protocol.Backend.{Bytes, Backend}
use python_miio.Client.State.{Client}
use python_miio.Client.Discovery.{send_handshake}
use python_miio.Device.Transport.{Transport, call, call_with}
use python_miio.Device.Sequence.{first_item}

pub data UpdateState : Type 0 where
  downloading installing failed idle : UpdateState

-- `UpdateState(v)`
unfoldable pub to_update_state : Value → Result UpdateState
to_update_state (str s) =
    if str_eq s "downloading"
    then ok downloading
    else if str_eq s "installing"
    then ok installing
    else if str_eq s "failed"
    then ok failed
    else if str_eq s "idle"
    then ok idle
    else err value_error
to_update_state _ = err value_error

-- `v == "ok"`
abbrev equals_ok : Value → Bool
equals_ok (str s) = str_eq s "ok"
equals_ok _ = false

abbrev no_fields_or : Option Fields → Fields
no_fields_or none = end
no_fields_or (some fs) = fs

module _ {S : Type 0} (t : Transport S) where
  -- `self.send(command, parameters)[0]`
  unfoldable pub call_first : String → Value → Action S Value
  call_first command parameters = do
    answer ← call_with t command parameters
    pure (first_item answer)

  -- `update`
  unfoldable pub update : String → String → Action S Bool
  update url md5 = do
    answer ← call_first "miIO.ota" (
        obj (
          field "mode" (str "normal") (
            field "install" (str "1") (
              field "app_url" (str url)
                (field "file_md5" (str md5) (field "proc" (str "dnld install") end))))))
    pure (ok (equals_ok answer))

  -- `update_progress`
  unfoldable pub update_progress : Action S Value
  update_progress = do answer ← call t "miIO.get_ota_progress"; pure (first_item answer)

  -- `update_state`
  unfoldable pub update_state : Action S UpdateState
  update_state = do
    answer ← call t "miIO.get_ota_state"
    state ← pure (first_item answer)
    pure (to_update_state state)

  -- `configure_wifi`
  unfoldable pub configure_wifi : Value → Value → Value → Option Fields → Action S Value
  configure_wifi ssid password uid extra_params = call_first "miIO.config_router" (
      obj (
        merge_fields (field "ssid" ssid (field "passwd" password (field "uid" uid end)))
          (no_fields_or extra_params)))

-- `int.from_bytes(b, byteorder="big")`, behind the bytes that are read
unfoldable pub from_bytes : ℕ → Bytes → ℕ
from_bytes n [] = n
from_bytes n (c ∷ s) = from_bytes (n * 256 + c) s

module _ (b : Backend) where
  -- `if not self._protocol._device_id: self.send_handshake()`
  abbrev known_or_asked : Bytes → Action Client (Unit {0})
  known_or_asked [] = do send_handshake b 3; pure (ok tt)
  known_or_asked (c ∷ s) = pure (ok tt)

  -- the property `device_id`
  unfoldable pub device_id : Action Client ℕ
  unfolding from_bytes
  device_id = do (λ c. known_or_asked c.device_id c); get (λ c. from_bytes 0 c.device_id)
