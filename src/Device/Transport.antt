-- ===== src/Device/Transport.antt =====
-- `Device.send` as an interface: the rest of miio/device.py only calls it. `over_client` is the
-- implementation that the program has, `MiIOProtocol.send`.
use python_miio.Base.{ℕ, String, Option, none, some}
use python_miio.Python.Value.{Value, Fields}
use python_miio.Python.Action.{Action}
use python_miio.Protocol.Backend.{Backend}
use python_miio.Client.State.{Client}
use python_miio.Client.Send.{send as protocol_send}

pub record Transport (S : Type 0) : Type 0 where
  -- `self.send(command, parameters, retry_count, extra_parameters=extra_parameters)`
  pub send : String → Option Value → Option ℕ → Option Fields → Action S Value

-- The class attribute `retry_count` (3 unless a subclass says otherwise), which stands in for an argument
-- that is not given.
unfoldable pub retries_or_default : ℕ → Option ℕ → ℕ
retries_or_default class_retry_count none = class_retry_count
retries_or_default class_retry_count (some n) = n

-- `Device.send`
unfoldable pub over_client : Backend → ℕ → Transport Client
unfolding retries_or_default
over_client b class_retry_count = record {
  send = λ command parameters retry_count extra.
      protocol_send b (retries_or_default class_retry_count retry_count) command parameters extra;
}

module _ {S : Type 0} (t : Transport S) where
  -- `self.send(command)` and `self.send(command, parameters)`
  abbrev pub call : String → Action S Value
  call command = t.send command none none none

  abbrev pub call_with : String → Value → Action S Value
  call_with command parameters = t.send command (some parameters) none none
