-- ===== src/Miot/Device.antt =====
-- `MiotDevice` of miio/miot_device.py, over the transport of a device.
use Prim.Native.String.{◌++◌}
use python_miio.Base.{
  ℕ, String, Bool, true, false, ◌&&◌, ◌||◌, Option, none, some, List, [], ◌∷◌, length, ◌+◌, leb,
  if◌then◌else◌,
}
use python_miio.Base.Text.{codes}
use python_miio.Python.Value.{
  Value, str, arr, obj, bool, cons, nil, Fields, field, end, lookup_field, put_field, merge_fields,
}
use python_miio.Python.Dict.{Dict, text_eq, lookup}
use python_miio.Python.Result.{
  Result, ok, err, device_exception, attribute_error, type_error, key_error, or_raise,
}
use python_miio.Python.Action.{Action, pure, raise, ◌>>=◌}
use python_miio.Device.Transport.{Transport, call_with}
use python_miio.Device.Info.{Device, on_transport, model}
use python_miio.Device.Properties.{get_properties}
use python_miio.Miot.Mapping.{MiotMapping, mapping_requests}

-- The class attributes `_mappings` and `mapping`; the second need not be there. `show` is how Python
-- writes a value into a text.
pub record MiotClass : Type 0 where
  pub mappings : Dict String MiotMapping
  pub mapping : Option MiotMapping
  pub show : Value → String

-- `_mappings.get(model)`: lists and dictionaries cannot be looked up
unfoldable pub mapping_for : Value → Dict String MiotMapping → Result (Option MiotMapping)
mapping_for (str m) mappings = ok (lookup m mappings)
mapping_for (arr _) mappings = err type_error
mapping_for (obj _) mappings = err type_error
mapping_for _ mappings = ok none

abbrev pub found_or : MiotMapping → Option MiotMapping → MiotMapping
found_or first none = first
found_or first (some m) = m

-- `_str2bool`: `x.lower() in ("true", "1")`
abbrev lower : ℕ → ℕ
lower c = if leb b'A' c && leb c b'Z' then c + 32 else c

abbrev lower_all : List ℕ → List ℕ
lower_all [] = []
lower_all (c ∷ cs) = lower c ∷ lower_all cs

abbrev same_codes : List ℕ → List ℕ → Bool
same_codes [] [] = true
same_codes (c ∷ s) (d ∷ t) = leb c d && leb d c && same_codes s t
same_codes _ _ = false

unfoldable pub str2bool : Value → Result Value
str2bool (str x) =
    let s = lower_all (codes x) in
    ok (bool (same_codes s (codes "true") || same_codes s (codes "1")))
str2bool _ = err attribute_error

module _ {S : Type 0} (t : Transport S) (c : MiotClass) where
  abbrev fallback_mapping : Dict String MiotMapping → Action (Device S) MiotMapping
  fallback_mapping [] = pure (or_raise c.mapping attribute_error)
  fallback_mapping ((first_model, first_mapping) ∷ rest) = do
    m ← model t
    found ← pure (mapping_for m ((first_model, first_mapping) ∷ rest))
    pure (ok (found_or first_mapping found))

  -- `_get_mapping`
  unfoldable pub get_mapping : Action (Device S) MiotMapping
  get_mapping = fallback_mapping c.mappings

  -- the rest of `get_properties_for_mapping`, for as many rounds as there are properties
  abbrev pub request_mapping : Option ℕ → MiotMapping → Action (Device S) (Option (List Value))
  request_mapping max_properties mapping =
      let properties = mapping_requests mapping in
      on_transport (get_properties t "get_properties" (length properties) max_properties properties)

  -- `get_properties_for_mapping(max_properties=…)`
  unfoldable pub get_properties_for_mapping : Option ℕ → Action (Device S) (Option (List Value))
  get_properties_for_mapping max_properties = get_mapping >>= request_mapping max_properties

  abbrev params_or_list : Option Value → Value
  params_or_list none = arr nil
  params_or_list (some v) = v

  -- `call_action_by`
  unfoldable pub call_action_by : Value → Value → Option Value → Action (Device S) Value
  call_action_by siid aiid params = on_transport (
      call_with t "action" (
        obj (
          field "did" (str ("call-" ++ (c.show siid ++ ("-" ++ c.show aiid))))
            (field "siid" siid (field "aiid" aiid (field "in" (params_or_list params) end))))))

  abbrev call_found : Option Value → Option Value → Option Value → Action (Device S) Value
  call_found (some siid) (some aiid) params = call_action_by siid aiid params
  call_found _ _ params = raise device_exception

  abbrev call_entry : Option Fields → Option Value → Action (Device S) Value
  call_entry none params = raise device_exception
  call_entry (some action) params =
      call_found (lookup_field "siid" action) (lookup_field "aiid" action) params

  -- `call_action_from_mapping`
  unfoldable pub call_action_from_mapping : String → Option Value → Action (Device S) Value
  call_action_from_mapping name params = do
    mapping ← get_mapping
    call_entry (lookup name mapping) params

  -- `get_property_by`
  unfoldable pub get_property_by : Value → Value → Action (Device S) Value
  get_property_by siid piid = on_transport (
      call_with t "get_properties" (
        arr (
          cons
            (obj (
              field "did" (str (c.show siid ++ ("-" ++ c.show piid)))
                (field "siid" siid (field "piid" piid end))))
            nil)))

  abbrev converted : Option (Value → Result Value) → Value → Result Value
  converted none value = ok value
  converted (some convert) value = convert value

  abbrev name_or_made : Option String → Value → Value → String
  name_or_made (some name) siid piid = name
  name_or_made none siid piid = "set-" ++ (c.show siid ++ ("-" ++ c.show piid))

  -- `set_property_by`; of a value type only its conversion is used
  unfoldable pub set_property_by :
      Value
      → Value
      → Value
      → Option (Value → Result Value)
      → Option String
      → Action (Device S) Value
  set_property_by siid piid value value_type name = do
    value' ← pure (converted value_type value)
    on_transport (
        call_with t "set_properties" (
          arr (
            cons
              (obj (
                field "did" (str (name_or_made name siid piid))
                  (field "siid" siid (field "piid" piid (field "value" value' end)))))
              nil)))

  -- `{"did": property_key, **mapping[property_key], "value": value}`
  unfoldable pub set_request : String → Fields → Value → Value
  set_request property_key entry value =
      obj (put_field "value" value (merge_fields (field "did" (str property_key) end) entry))

  -- `set_property`
  unfoldable pub set_property : String → Value → Action (Device S) Value
  set_property property_key value = do
    mapping ← get_mapping
    entry ← pure (or_raise (lookup property_key mapping) key_error)
    on_transport
        (call_with t "set_properties" (arr (cons (set_request property_key entry value) nil)))
