-- ===== src/PushServer/Registry.antt =====
-- The registry of `PushServer` in miio/push_server/server.py: `add_method`, `register_miio_device`,
-- `unregister_miio_device` and `unsubscribe_event`. Between two awaits of one call no other call runs.
use python_miio.Base.{
  ℕ, zero, suc, String, Bool, false, Option, none, some, List, [], ◌∷◌, length, get_elem?, str_eq,
  if◌then◌else◌,
}
use python_miio.Python.Value.{Value, arr, cons, nil, str}
use python_miio.Python.Dict.{Dict, text_eq, lookup, insert, erase}
use python_miio.Python.Result.{Result, ok, err, key_error}
use python_miio.Python.Action.{Action, pure, raise, on, modify, ◌>>=◌, ◌>>◌}
use python_miio.Python.Hex.{from_hex}
use python_miio.Protocol.Backend.{Bytes}

-- What the server reads of a `Device`.
pub record PushDevice : Type 0 where
  pub ip : Option String
  pub token : Option String

-- An entry of `_registered_devices`; `C` are the callables: callbacks and methods.
pub record Registration (C : Type 0) : Type 0 where
  pub callback : C
  pub token : Bytes
  pub event_ids : List String
  pub device : PushDevice

-- A method's response: a value to send back, or a callable that makes one.
pub data Response (C : Type 0) : Type 0 where
  fixed : Value → Response C
  computed : C → Response C

-- The attributes that these methods use, and what `device.send` writes.
pub record PushServer (C S : Type 0) : Type 0 where
  pub registered_devices : Dict String (Registration C)
  pub methods : Dict String (Response C)
  pub event_id : ℕ
  pub server_ip : Option String
  pub devices : S

-- `event_ids.remove(event_id)` if it is there: its first occurrence
unfoldable pub remove_id : String → List String → List String
remove_id x [] = []
remove_id x (y ∷ ys) = if str_eq y x then ys else y ∷ remove_id x ys

-- `result == ["ok"]`
unfoldable pub is_ok : Value → Bool
is_ok (arr (cons (str s) nil)) = str_eq s "ok"
is_ok _ = false

abbrev pub none_or_lookup :
    {C : Type 0} → Option String → Dict String (Registration C) → Option (Registration C)
none_or_lookup none d = none
none_or_lookup (some ip) d = lookup ip d

abbrev pub event_ids_of : {C : Type 0} → Option (Registration C) → List String
event_ids_of none = []
event_ids_of (some r) = r.event_ids

module _ {C S : Type 0} where
  -- `_registered_devices.get(device.ip)`: no entry is under `None`
  unfoldable pub registration_of : PushDevice → PushServer C S → Option (Registration C)
  registration_of d s = none_or_lookup d.ip s.registered_devices

  -- `add_method`
  unfoldable pub add_method : String → Response C → Action (PushServer C S) (Unit {0})
  add_method name response = modify (λ s. record s { methods = insert name response s.methods })

  abbrev register_token :
      String → List String → PushDevice → C → Result Bytes → Action (PushServer C S) (Unit {0})
  register_token ip event_ids d callback (err e) s = (err e, s)
  register_token ip event_ids d callback (ok token) s = (
    ok tt,
    record s {
      registered_devices =
          insert ip
            (record { callback = callback; token = token; event_ids = event_ids; device = d })
            s.registered_devices;
    },
  )

  abbrev register_at :
      Option String → Option String → PushDevice → C → Action (PushServer C S) (Unit {0})
  register_at none token d callback s = (ok tt, s)
  register_at (some ip) none d callback s = (ok tt, s)
  register_at (some ip) (some token) d callback s =
      register_token ip (event_ids_of (lookup ip s.registered_devices)) d callback (from_hex token)
        s

  -- `register_miio_device`
  unfoldable pub register_miio_device : PushDevice → C → Action (PushServer C S) (Unit {0})
  register_miio_device d callback s = register_at d.ip d.token d callback s

  -- `self._registered_devices[device.ip]["event_ids"]`, written
  abbrev write_ids :
      (List String → List String)
      → Option String
      → Option (Registration C)
      → Action (PushServer C S) (Unit {0})
  write_ids f (some ip) (some r) s = (
    ok tt,
    record s {
      registered_devices = insert ip (record r { event_ids = f r.event_ids }) s.registered_devices;
    },
  )
  write_ids f _ _ s = (err key_error, s)

  unfoldable pub update_ids :
      (List String → List String) → PushDevice → Action (PushServer C S) (Unit {0})
  unfolding registration_of
  update_ids f d s = write_ids f d.ip (registration_of d s) s

  module _ (send : PushDevice → String → Value → Action S Value) where
    abbrev send_to : PushDevice → String → Value → Action (PushServer C S) Value
    send_to d command parameters =
        on (λ s. s.devices) (λ x s. record s { devices = x }) (send d command parameters)

    -- `unsubscribe_event`
    unfoldable pub unsubscribe_event : PushDevice → String → Action (PushServer C S) Value
    unsubscribe_event d event_id = do
      result ← send_to d "miIO.xdel" (arr (cons (str event_id) nil))
      if is_ok result
          then (do update_ids (remove_id event_id) d; pure (ok result))
          else pure (ok result)

    -- a round of the loop below, and what follows it
    abbrev pub unsubscribe_next :
        PushDevice
        → Action (PushServer C S) (Unit {0})
        → Option String
        → Action (PushServer C S) (Unit {0})
    unsubscribe_next d next none = pure (ok tt)
    unsubscribe_next d next (some event_id) = unsubscribe_event d event_id >>= λ _. next

    -- The loop `for event_id in device_info["event_ids"]`, from position `i` on. A Python loop over a list
    -- keeps a position and reads the list as it then is; the calls in it remove from that same list. Each
    -- round brings the position closer to the end, so as many rounds as there are ids are enough.
    unfoldable pub unsubscribe_from : ℕ → ℕ → PushDevice → Action (PushServer C S) (Unit {0})
    unsubscribe_from zero i d s = (ok tt, s)
    unsubscribe_from (suc fuel) i d s =
        unsubscribe_next d (λ s'. unsubscribe_from fuel (suc i) d s')
          (get_elem? (event_ids_of (registration_of d s)) i) s

    -- `self._registered_devices.pop(device.ip)`
    unfoldable pub pop_registration : Option String → Action (PushServer C S) (Unit {0})
    pop_registration none = raise key_error
    pop_registration (some ip) =
        modify (λ s. record s { registered_devices = erase ip s.registered_devices })

    abbrev unregister_found :
        PushDevice → Option (Registration C) → Action (PushServer C S) (Unit {0})
    unregister_found d none = pure (ok tt)
    unregister_found d (some r) =
        unsubscribe_from (length r.event_ids) 0 d >>= λ _. pop_registration d.ip

    -- `unregister_miio_device`
    unfoldable pub unregister_miio_device : PushDevice → Action (PushServer C S) (Unit {0})
    unregister_miio_device d s = unregister_found d (registration_of d s) s
