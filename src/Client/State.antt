-- ===== src/Client/State.antt =====
-- The attributes of `MiIOProtocol`. `debug` and `_timeout` are left out: the first decides what is
-- logged, the second how long a receive waits.
use python_miio.Base.{ℕ, String, Bool, false, Option, none, some, [], replicate}
use python_miio.Python.Value.{Value}
use python_miio.Python.Result.{Result, ok, ◌>>=◌}
use python_miio.Python.Action.{Action, on}
use python_miio.Python.Hex.{from_hex}
use python_miio.Protocol.Backend.{Bytes}
use python_miio.Client.Network.{Network}

pub record Client : Type 0 where
  pub ip : Option String
  pub token : Bytes
  pub lazy_discover : Bool
  -- `__id`: a device's answer may put any value here
  pub id : Value
  pub discovered : Bool
  -- `_device_ts`, in seconds since 1970
  pub device_ts : ℕ
  pub device_id : Bytes
  pub network : Network

abbrev pub on_network {ℓ} : {A : Type ℓ} → Action Network A → Action Client A
on_network = on (λ c. c.network) (λ n c. record c { network = n })

-- `token` of `__init__`: without one, 16 bytes of zero
unfoldable pub token_bytes : Option String → Result Bytes
token_bytes none = ok (replicate 16 0)
token_bytes (some token) = from_hex token

-- `__init__`, at the time `now`, over a network that is given
unfoldable pub init : Option String → Option String → Value → Bool → ℕ → Network → Result Client
unfolding token_bytes
init ip token start_id lazy_discover now network = do
  bytes ← token_bytes token
  ok (record {
    ip = ip;
    token = bytes;
    lazy_discover = lazy_discover;
    id = start_id;
    discovered = false;
    device_ts = now;
    device_id = [];
    network = network;
  })
