-- ===== src/Miot/Values.antt =====
-- What `get_properties_for_mapping` of miio/miot_device.py asks for.
use python_miio.Base.{ℕ, ◌+◌, ◌*◌, ◌<◌, ◌≤◌, ◌≡◌, refl, ap, String, some, List, [], ◌∷◌, length}
use python_miio.Base.Int.{ℤ}
use python_miio.Python.Value.{Value, str, int, obj, Fields, field, end, lookup_field, merge_fields}
use python_miio.Python.Result.{ok}
use python_miio.Device.Transport.{Transport}
use python_miio.Device.Info.{Device, on_transport}
use python_miio.Device.Slicing.{slices, asked_in_turn, get_properties-slices}
use python_miio.Miot.Mapping.{
  MiotMapping, mapping_requests, is_readable_property, property_request, filter_request_fields,
}
use python_miio.Miot.Device.{MiotClass, get_mapping, get_properties_for_mapping}

-- What a name of a mapping stands for: a property or an action of a service.
pub data Entry : Type 0 where
  readable : ℤ → ℤ → Entry
  callable : ℤ → ℤ → Entry

-- `{"siid": siid, "piid": piid}` and `{"siid": siid, "aiid": aiid}`
abbrev fields_of : Entry → Fields
fields_of (readable siid piid) = field "siid" (int siid) (field "piid" (int piid) end)
fields_of (callable siid aiid) = field "siid" (int siid) (field "aiid" (int aiid) end)

abbrev pub mapping_of : List (String × Entry) → MiotMapping
mapping_of [] = []
mapping_of ((name, entry) ∷ entries) = (name, fields_of entry) ∷ mapping_of entries

-- `{"did": name, "siid": siid, "piid": piid}` for the properties, and nothing for the actions
abbrev pub requests_of : List (String × Entry) → List Value
requests_of [] = []
requests_of ((name, readable siid piid) ∷ entries) =
    obj (field "did" (str name) (field "siid" (int siid) (field "piid" (int piid) end)))
    ∷ requests_of entries
requests_of ((name, callable siid aiid) ∷ entries) = requests_of entries

mapping_requests-mapping_of :
    (entries : List (String × Entry)) → mapping_requests (mapping_of entries) ≡ requests_of entries
unfolding mapping_requests is_readable_property property_request lookup_field merge_fields
    filter_request_fields
mapping_requests-mapping_of [] = refl
mapping_requests-mapping_of ((name, readable siid piid) ∷ entries) =
    ap
      (λ (vs : List Value).
        obj (field "did" (str name) (field "siid" (int siid) (field "piid" (int piid) end))) ∷ vs)
      (mapping_requests-mapping_of entries)
mapping_requests-mapping_of ((name, callable siid aiid) ∷ entries) =
    mapping_requests-mapping_of entries

module _ {S : Type 0} (t : Transport S) (c : MiotClass) where
  -- Where the mapping that is found consists of properties, by a service and a property id, and of
  -- actions, by a service and an action id, `get_properties_for_mapping` asks for its properties alone,
  -- in their order, each by its name and its two ids; an action is never asked for. It does so over
  -- any transport as `get_properties` does with `n` properties to a slice, `n` not 0: `k` slices, just
  -- enough for the properties, are asked for one after the other, their values are appended, and the
  -- first exception ends it.
  pub get_properties_for_mapping_requests :
      (entries : List (String × Entry)) (n k : ℕ) (s s' : Device S)
      → get_mapping t c s ≡ (ok (mapping_of entries), s')
      → 0 < n
      → length (requests_of entries) ≤ k * n
      → k * n < length (requests_of entries) + n
      → get_properties_for_mapping t c (some n) s
        ≡ on_transport (asked_in_turn t "get_properties" (slices n (requests_of entries) 0 k) []) s'
  unfolding get_properties_for_mapping
  get_properties_for_mapping_requests entries n k s s' found pos up low =
      rw
        (
          found,
          mapping_requests-mapping_of entries,
          get_properties-slices t "get_properties" n k (requests_of entries) s'.transport pos up
              low,
        )
        refl
