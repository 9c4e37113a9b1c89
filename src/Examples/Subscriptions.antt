-- ===== src/Examples/Subscriptions.antt =====
-- An alarm that a registered device is asked to push.
use python_miio.Base.{ℕ, ◌⊎◌, String, some, none, [], ◌∷◌}
use python_miio.Python.Value.{Value, str}
use python_miio.Python.Dict.{text_eq}
use python_miio.Python.Result.{ok}
use python_miio.Python.Action.{Action, pure}
use python_miio.PushServer.Registry.{PushDevice, PushServer, Registration}
use python_miio.PushServer.Events.{EventInfo, EventTools}
use python_miio.PushServer.Subscribing.{Subscription, subscribe_event}
use python_miio.PushServer.NewEvents.{IsSubscribed, IsUnsubscribed, subscribe_event_lem}
use python_miio.PushServer.Unregistering.{ok_reply}
use python_miio.Examples.Fixtures.{toy}

abbrev gateway : PushDevice
gateway = record { ip = some "10.0.0.4"; token = some "00112233445566778899aabbccddeeff" }

abbrev entry : Registration ℕ
entry = record { callback = 0; token = []; event_ids = []; device = gateway }

abbrev registry : PushServer ℕ ℕ
registry = record {
  registered_devices = ("10.0.0.4", entry) ∷ [];
  methods = [];
  event_id = 1000000;
  server_ip = some "10.0.0.2";
  devices = 0;
}

abbrev alarm : EventInfo
alarm = record {
  event_action = "alarm_triggering";
  extra = "[1,19,1,111,[0,1],2,0]";
  event = none;
  command_extra = "";
  trigger_value = none;
  trigger_token = "";
  source_sid = none;
  source_model = none;
}

abbrev tools : EventTools ℕ
tools = record {
  backend = toy;
  dumps = λ v. "[]";
  show = λ v. "lumi.gateway.v3";
  magic_number = 1590161094;
  device_id_of = λ d. pure (ok 7);
  model_of = λ d. pure (ok (str "lumi.gateway.v3"));
}

abbrev agree : PushDevice → String → Value → Action ℕ Value
agree d command parameters = pure (ok ok_reply)

abbrev wanted : Subscription ℕ ℕ
wanted = record { server = registry; info = alarm }

subscribe_event_lem_example :
    IsUnsubscribed tools 120009025 agree gateway wanted
      (subscribe_event tools 120009025 agree gateway wanted)
    ⊎ IsSubscribed tools 120009025 agree gateway wanted
        (subscribe_event tools 120009025 agree gateway wanted)
subscribe_event_lem_example = subscribe_event_lem tools 120009025 agree gateway wanted
