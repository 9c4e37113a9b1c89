-- ===== src/Miot/Mapping.antt =====
-- The mapping of names to properties and actions in miio/miot_device.py: what of it is requested.
use python_miio.Base.{
  String, Bool, true, false, ◌||◌, Option, none, some, List, [], ◌∷◌, str_eq, if◌then◌else◌,
}
use python_miio.Python.Value.{Value, str, obj, Fields, field, end, lookup_field, merge_fields}
use python_miio.Python.Dict.{Dict}

-- `MiotMapping`, whose entries are dictionaries
abbrev pub MiotMapping : Type 0
MiotMapping = Dict String Fields

-- `k in d`
abbrev pub is_some : {A : Type 0} → Option A → Bool
is_some none = false
is_some (some a) = true

unfoldable pub has_field : String → Fields → Bool
has_field k fs = is_some (lookup_field k fs)

-- `k in ["did", "siid", "piid"]`
abbrev is_request_field : String → Bool
is_request_field k = str_eq k "did" || str_eq k "siid" || str_eq k "piid"

-- `_filter_request_fields`
unfoldable pub filter_request_fields : Fields → Fields
filter_request_fields end = end
filter_request_fields (field k v fs) =
    if is_request_field k then field k v (filter_request_fields fs) else filter_request_fields fs

-- `getattr(prop, "access", None)`: an entry is a dictionary, and dictionaries have no such attribute.
abbrev access_attribute : Fields → Option (List Value)
access_attribute prop = none

-- `"read" in access`
abbrev holds_read : List Value → Bool
holds_read [] = false
holds_read (str s ∷ vs) = str_eq s "read" || holds_read vs
holds_read (_ ∷ vs) = holds_read vs

abbrev allows_read : Option (List Value) → Bool
allows_read none = true
allows_read (some access) = holds_read access

-- `_is_readable_property`
unfoldable pub is_readable_property : Fields → Bool
unfolding has_field
is_readable_property prop =
    if has_field "aiid" prop then false else allows_read (access_attribute prop)

-- `{"did": k, **_filter_request_fields(v)}`
unfoldable pub property_request : String → Fields → Value
property_request k v = obj (merge_fields (field "did" (str k) end) (filter_request_fields v))

-- the list `properties` of `get_properties_for_mapping`
unfoldable pub mapping_requests : MiotMapping → List Value
mapping_requests [] = []
mapping_requests ((k, v) ∷ mapping) =
    if is_readable_property v
    then property_request k v ∷ mapping_requests mapping
    else mapping_requests mapping
