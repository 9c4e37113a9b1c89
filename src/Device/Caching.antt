-- ===== src/Device/Caching.antt =====
-- That `miIO.info` is asked for once.
use python_miio.Base.{◌≡◌, Bool, false, some, arith}
use python_miio.Python.Result.{ok}
use python_miio.Device.Transport.{Transport}
use python_miio.Device.Info.{Device, DeviceInfo, fetch_info, info}

module _ {S : Type 0} (t : Transport S) where
  -- Once `info` has returned, with or without `skip_cache`, what it returned is kept, the model is as it
  -- was, and a call without `skip_cache` returns the same, sends nothing and leaves the device as it is.
  pub info_cached :
      (skip_cache : Bool) (d d' : Device S) (i : DeviceInfo)
      → info t skip_cache d ≡ (ok i, d')
      → (info t false d' ≡ (ok i, d')) × (d'.info ≡ some i) × (d'.model ≡ d.model)
  unfolding info fetch_info
  info_cached skip_cache d d' i h = ground arith
