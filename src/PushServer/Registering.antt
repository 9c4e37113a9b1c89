-- ===== src/PushServer/Registering.antt =====
-- What registering leaves in the registry.
use python_miio.Base.{◌≡◌, refl, String, some, if◌then◌else◌, str_eq}
use python_miio.Python.Dict.{text_eq, lookup, lookup-insert}
use python_miio.Python.Result.{ok}
use python_miio.Python.Hex.{from_hex}
use python_miio.Protocol.Backend.{Bytes}
use python_miio.PushServer.Registry.{
  PushDevice, PushServer, event_ids_of, registration_of, register_miio_device,
}

module _ {C S : Type 0} where
  -- Registering a device with an address and a token of hex digits writes the entry of that address and
  -- no other. The entry has the new callback, token and device, and keeps the event ids of the entry that
  -- was there, if one was.
  pub register_miio_device_lem :
      (d : PushDevice) (callback : C) (s : PushServer C S) (ip token : String) (key : Bytes)
      (j : String)
      → d.ip ≡ some ip
      → d.token ≡ some token
      → from_hex token ≡ ok key
      → let (r, s') = register_miio_device d callback s in
        (r ≡ ok tt)
        × (lookup j s'.registered_devices ≡ (
            if str_eq ip j
            then some (record {
              callback = callback;
              token = key;
              event_ids = event_ids_of (registration_of d s);
              device = d;
            })
            else lookup j s.registered_devices))
        × (s'.devices ≡ s.devices)
  unfolding register_miio_device registration_of
  register_miio_device_lem d callback s ip token key j hi ht hk =
      rw (hi, ht, hk) (refl, lookup-insert ip j _ s.registered_devices, refl)
