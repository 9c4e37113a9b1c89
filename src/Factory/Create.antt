-- ===== src/Factory/Create.antt =====
-- `DeviceFactory.create` of miio/devicefactory.py, for a model that may be no text. How a class makes its
-- device is a parameter, as is `GenericMiot`; `S` is what asking a device for its info writes.
use python_miio.Base.{String, Bool, true, false, Option, none, some, List, [], ◌∷◌}
use python_miio.Python.Value.{Value, str, arr, obj}
use python_miio.Python.Result.{Result, ok, err, type_error, attribute_error, device_exception}
use python_miio.Python.Action.{Action, pure, ◌>>=◌}
use python_miio.Device.Info.{DeviceInfo, info_model}
use python_miio.Factory.Registry.{DeviceFactory, wildcard_models, class_for_model}

-- `C` are the classes and `D` the devices. `plain_info` is `Device(host, token).info()`, and
-- `generic_info` the same for a `GenericMiot`.
pub record Makers (C D S : Type 0) : Type 0 where
  pub instantiate : C → Option Value → D
  pub generic_miot : Option Value → D
  pub plain_info : Action S DeviceInfo
  pub generic_info : Option Value → Action S DeviceInfo

module _ {C : Type 0} where
  -- `model.startswith` of what is no text
  abbrev no_match : List (String × C) → Result C
  no_match [] = err device_exception
  no_match (x ∷ xs) = err attribute_error

  -- `class_for_model(model)`
  unfoldable pub class_for_value : Value → DeviceFactory C → Result C
  class_for_value (str m) f = class_for_model m f
  class_for_value (arr _) f = err type_error
  class_for_value (obj _) f = err type_error
  class_for_value _ f = no_match (wildcard_models f.supported_models)

module _ {C D S : Type 0} (k : Makers C D S) (f : DeviceFactory C) where
  abbrev create_for : Value → Action S D
  create_for model = do c ← pure (class_for_value model f); pure (ok (k.instantiate c (some model)))

  abbrev create_detected : Option Value → Action S D
  create_detected (some model) = create_for model
  create_detected none = do
    devinfo ← k.plain_info
    model ← pure (info_model devinfo)
    create_for model

  abbrev create_generic : Option Value → Action S D
  create_generic model = do devinfo ← k.generic_info model; pure (ok (k.generic_miot model))

  -- `create(model=…, force_generic_miot=…)`
  unfoldable pub create : Option Value → (force_generic_miot : Bool) → Action S D
  create model true = create_generic model
  create model false = create_detected model
