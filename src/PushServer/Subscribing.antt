-- ===== src/PushServer/Subscribing.antt =====
-- `subscribe_event`, `start` and `stop` of `PushServer` in miio/push_server/server.py. The state is the
-- server, and the `EventInfo` that a call is given and changes.
use Prim.Native.String.{◌++◌}
use python_miio.Base.{
  ℕ, suc, String, Bool, true, false, Option, none, some, List, [], ◌∷◌, ◌++◌ as append,
  if◌then◌else◌,
}
use python_miio.Base.Int.{pos}
use python_miio.Base.Decimal.{decimal}
use python_miio.Python.Value.{Value, str, int, obj, null, field, end}
use python_miio.Python.Dict.{Dict, text_eq, lookup}
use python_miio.Python.Result.{Result, ok, err, key_error, or_raise}
use python_miio.Python.Action.{Action, pure, modify, get, on, ◌>>=◌, ◌>>◌}
use python_miio.PushServer.Registry.{
  PushDevice, PushServer, Registration, registration_of, update_ids, is_ok, unregister_miio_device,
}
use python_miio.PushServer.Events.{EventInfo, EventTools, event_payload, or_default}

-- `f"x.scene.{n}"`
unfoldable pub scene_id : ℕ → String
scene_id n = "x.scene." ++ decimal n

abbrev pub text_or_null : Option String → Value
text_or_null none = null
text_or_null (some s) = str s

-- the parameters of `send_data_frame`
unfoldable pub data_frame : String → Value
data_frame payload = obj (
    field "cur" (int (pos 0)) (
      field "data" (str payload) (
        field "data_tkn" (int (pos 29576))
          (field "total" (int (pos 1)) (field "type" (str "scene") end)))))

abbrev pub with_event : EventInfo → EventInfo
with_event info = record info { event = some (or_default info.event info.event_action) }

abbrev pub with_sid : String → EventInfo → EventInfo
with_sid sid info = record info { source_sid = some sid }

abbrev pub with_model : Value → EventInfo → EventInfo
with_model source_model info = record info { source_model = some source_model }

-- `str(device.device_id)`
abbrev pub asked_sid : {S : Type 0} → EventTools S → PushDevice → Action S String
asked_sid c d = c.device_id_of d >>= λ n. pure (ok (decimal n))

-- What a subscription reads and writes.
pub record Subscription (C S : Type 0) : Type 0 where
  pub server : PushServer C S
  pub info : EventInfo

module _ {C S : Type 0} (c : EventTools S) (server_id : ℕ)
    (send : PushDevice → String → Value → Action S Value) where
  abbrev pub on_server : {A : Type 0} → Action (PushServer C S) A → Action (Subscription C S) A
  on_server = on (λ s. s.server) (λ x s. record s { server = x })

  abbrev pub on_devices : {A : Type 0} → Action S A → Action (PushServer C S) A
  on_devices = on (λ s. s.devices) (λ x s. record s { devices = x })

  -- `self._event_id = self._event_id + 1`, and the id that is made of it
  unfoldable pub new_event_id : Action (PushServer C S) String
  new_event_id s = (ok (scene_id (suc s.event_id)), record s { event_id = suc s.event_id })

  -- `event_ids.append(event_id)`, if the device agreed
  unfoldable pub subscribed : PushDevice → String → Value → Action (PushServer C S) (Option String)
  subscribed d event_id response =
      if is_ok response
      then (do update_ids (λ ids. append ids (event_id ∷ [])) d; pure (ok (some event_id)))
      else pure (ok none)

  -- A part of the event that is kept where it is there, and is otherwise asked of the device.
  abbrev pub unless_set : {A : Type 0} → Option A → Action S A → Action (Subscription C S) A
  unless_set none ask = on_server (on_devices ask)
  unless_set (some a) ask = pure (ok a)

  abbrev pub change_info : (EventInfo → EventInfo) → Action (Subscription C S) (Unit {0})
  change_info f = modify (λ s. record s { info = f s.info })

  -- the first part of `_construct_event`, which fills in what the event does not say
  unfoldable pub fill_info : PushDevice → Action (Subscription C S) (Unit {0})
  fill_info d = do
    change_info with_event
    given_sid ← get (λ s. s.info.source_sid)
    sid ← unless_set given_sid (asked_sid c d)
    change_info (with_sid sid)
    given_model ← get (λ s. s.info.source_model)
    source_model ← unless_set given_model (c.model_of d)
    change_info (with_model source_model)

  -- `_construct_event`
  unfoldable pub construct_event : PushDevice → String → Action (Subscription C S) String
  construct_event d event_id = do
    fill_info d
    info ← get (λ s. s.info)
    ip ← get (λ s. s.server.server_ip)
    pure (event_payload c server_id info d event_id (text_or_null ip))

  -- what `subscribe_event` does behind its two tests
  unfoldable pub subscribe_registered : PushDevice → Action (Subscription C S) (Option String)
  subscribe_registered d = do
    event_id ← on_server new_event_id
    payload ← construct_event d event_id
    response ← on_server (on_devices (send d "send_data_frame" (data_frame payload)))
    on_server (subscribed d event_id response)

  abbrev pub when_started : Option String → PushDevice → Action (Subscription C S) (Option String)
  when_started none d = pure (ok none)
  when_started (some ip) d = subscribe_registered d

  abbrev pub when_registered :
      Option (Registration C) → PushDevice → Action (Subscription C S) (Option String)
  when_registered none d s = (ok none, s)
  when_registered (some r) d s = when_started s.server.server_ip d s

  -- `subscribe_event`
  unfoldable pub subscribe_event : PushDevice → Action (Subscription C S) (Option String)
  subscribe_event d s = when_registered (registration_of d s.server) d s

abbrev keys : {C : Type 0} → Dict String (Registration C) → List String
keys [] = []
keys ((ip, r) ∷ d) = ip ∷ keys d

-- The server with `_listen_couroutine`, of which only counts whether it is there.
pub record ListeningServer (C S : Type 0) : Type 0 where
  pub listening : Bool
  pub server : PushServer C S

module _ {C S : Type 0} where
  -- `start`, where creating the socket gives the server's address, if the device's is known
  unfoldable pub start : Result (Option String) → Action (ListeningServer C S) (Unit {0})
  start socket s = if s.listening then (ok tt, s) else listen socket s
    where
      listen : Result (Option String) → Action (ListeningServer C S) (Unit {0})
      listen (err e) s = (err e, s)
      listen (ok none) s = (ok tt, record s { listening = true })
      listen (ok (some ip)) s =
          (ok tt, record s { listening = true; server = record s.server { server_ip = some ip } })

  module _ (send : PushDevice → String → Value → Action S Value) where
    -- the loop of `stop` over the addresses that there were
    unfoldable pub unregister_all : List String → Action (PushServer C S) (Unit {0})
    unregister_all [] = pure (ok tt)
    unregister_all (ip ∷ ips) = do
      r ← get (λ s. lookup ip s.registered_devices)
      found ← pure (or_raise r key_error)
      unregister_miio_device send found.device
      unregister_all ips

    -- `stop`
    unfoldable pub stop : Action (ListeningServer C S) (Unit {0})
    stop s =
        if s.listening
        then (do
          on (λ s. s.server) (λ x s. record s { server = x })
              (unregister_all (keys s.server.registered_devices))
          modify (λ s. record s { listening = false }))
            s
        else (ok tt, s)
