-- ===== src/Examples/Events.antt =====
-- A device registered at the push server, with three events.
use python_miio.Base.{ℕ, ◌≡◌, refl, String, some, none, List, [], ◌∷◌, ◌++◌, str_eq_iff, arith}
use python_miio.Python.Value.{Value, arr, cons, str}
use python_miio.Python.Dict.{text_eq, lookup, erase}
use python_miio.Python.Result.{ok}
use python_miio.Python.Action.{Action}
use python_miio.PushServer.Registry.{PushDevice, PushServer, Registration, unregister_miio_device}
use python_miio.PushServer.Unregistering.{
  IsDistinct, after_all, every_other, ok_reply, unregister_miio_device_lem,
}

abbrev device : PushDevice
device = record { ip = some "10.0.0.3"; token = some "0a0b" }

abbrev asked : Value → List String
asked (arr (cons (str x) _)) = x ∷ []
asked _ = []

-- A device that agrees, and keeps the ids that it was asked to forget.
abbrev obey : PushDevice → String → Value → Action (List String) Value
obey d command parameters log = (ok ok_reply, log ++ asked parameters)

abbrev keep_id : List String → String → List String
keep_id log x = log ++ x ∷ []

abbrev registration : Registration ℕ
registration = record {
  callback = 0;
  token = [];
  event_ids = "x.scene.1" ∷ "x.scene.2" ∷ "x.scene.3" ∷ [];
  device = device;
}

abbrev server : PushServer ℕ (List String)
server = record {
  registered_devices = ("10.0.0.3", registration) ∷ [];
  methods = [];
  event_id = 3;
  server_ip = none;
  devices = [];
}

found_lem : lookup "10.0.0.3" server.registered_devices ≡ some registration
unfolding lookup
found_lem = refl

distinct : IsDistinct registration.event_ids
distinct = (
  (
    λ e. absurd (ground (arith, str_eq_iff "x.scene.2" "x.scene.1")),
    (λ e. absurd (ground (arith, str_eq_iff "x.scene.3" "x.scene.1")), tt),
  ),
  ((λ e. absurd (ground (arith, str_eq_iff "x.scene.3" "x.scene.2")), tt), (tt, tt)),
)

unregister_miio_device_lem_example : unregister_miio_device obey device server ≡ (
  ok tt,
  record server {
    registered_devices = erase "10.0.0.3" server.registered_devices;
    devices = after_all keep_id [] (every_other registration.event_ids);
  },
)
unregister_miio_device_lem_example =
    unregister_miio_device_lem obey device keep_id (λ x w. refl) "10.0.0.3" refl server registration
      found_lem distinct
