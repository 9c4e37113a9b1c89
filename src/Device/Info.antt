-- ===== src/Device/Info.antt =====
-- miio/deviceinfo.py, and the methods of miio/device.py around `miIO.info` and updates.
use python_miio.Base.{String, Bool, true, false, Option, none, some, if◌then◌else◌}
use python_miio.Base.Int.{pos}
use python_miio.Python.Value.{Value, null, int, str, arr, obj, nil, cons, end, field, lookup_field}
use python_miio.Python.Result.{
  Error, Result, ok, err, attribute_error, payload_decode, device_info_unavailable, is_device_error,
  ◌>>=◌ as and_then,
}
use python_miio.Python.Action.{Action, pure, raise, modify, try_except, on, ◌>>=◌, ◌>>◌}
use python_miio.Device.Transport.{Transport, call, call_with}

-- `self.data`, whatever the device has sent
pub record DeviceInfo : Type 0 where
  pub contents : Value

-- `data.get(k, default)`
unfoldable pub get_field : String → Value → Value → Result Value
get_field k default (obj fs) = elim (lookup_field k fs) [ none ↦ ok default | some v ↦ ok v ]
get_field k default _ = err attribute_error

unfoldable pub network_interface : DeviceInfo → Result Value
network_interface info = get_field "netif" (obj end) info.contents

unfoldable pub accesspoint : DeviceInfo → Result Value
accesspoint info = get_field "ap" (obj end) info.contents

unfoldable pub info_model : DeviceInfo → Result Value
info_model info = get_field "model" null info.contents

unfoldable pub firmware_version : DeviceInfo → Result Value
firmware_version info = get_field "fw_ver" null info.contents

unfoldable pub hardware_version : DeviceInfo → Result Value
hardware_version info = get_field "hw_ver" null info.contents

unfoldable pub mac_address : DeviceInfo → Result Value
mac_address info = get_field "mac" null info.contents

unfoldable pub ip_address : DeviceInfo → Result Value
unfolding network_interface
ip_address info = and_then (network_interface info) (λ netif. get_field "localIp" null netif)

unfoldable pub info_token : DeviceInfo → Result Value
info_token info = get_field "token" null info.contents

-- The attributes of a `Device`, over the state of its transport; its descriptors are a part of their
-- own.
pub record Device (S : Type 0) : Type 0 where
  pub model : Option Value
  pub info : Option DeviceInfo
  pub transport : S

abbrev pub on_transport : {S A : Type 0} → Action S A → Action (Device S) A
on_transport = on (λ d. d.transport) (λ s d. record d { transport = s })

abbrev info_unavailable : Error → Error
info_unavailable payload_decode = device_info_unavailable
info_unavailable e = e

module _ {S : Type 0} (t : Transport S) where
  -- `_fetch_info`
  unfoldable pub fetch_info : Action (Device S) DeviceInfo
  fetch_info =
      try_except
        (do
          contents ← on_transport (call t "miIO.info")
          let devinfo : DeviceInfo = record { contents = contents }
          modify (λ d. record d { info = some devinfo })
          -- the model is read for the log
          pure (info_model devinfo)
          pure (ok devinfo))
        (λ e. raise (info_unavailable e))

  abbrev cached_info : Bool → Option DeviceInfo → Action (Device S) DeviceInfo
  cached_info false (some devinfo) = pure (ok devinfo)
  cached_info skip_cache _ = fetch_info

  -- `info(skip_cache=…)`
  unfoldable pub info : Bool → Action (Device S) DeviceInfo
  info skip_cache d = cached_info skip_cache d.info d

  abbrev known_model : Option Value → Action (Device S) Value
  known_model (some m) = pure (ok m)
  known_model none = do devinfo ← info false; pure (info_model devinfo)

  -- the property `model`
  unfoldable pub model : Action (Device S) Value
  model d = known_model d.model d

  -- `supports_miot`
  unfoldable pub supports_miot : Action (Device S) Bool
  supports_miot =
      try_except
        (do
          on_transport (
              call_with t "get_properties" (
                arr (
                  cons
                    (obj (
                      field "did" (str "dummy")
                        (field "siid" (int (pos 1)) (field "piid" (int (pos 1)) end))))
                    nil)))
          pure (ok true))
        (λ e. if is_device_error e then pure (ok false) else raise e)
