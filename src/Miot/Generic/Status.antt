-- ===== src/Miot/Generic/Status.antt =====
-- `GenericMiotStatus` of miio/integrations/genericmiot/status.py: what it keeps of a response, and the
-- attributes it has.
use python_miio.Base.{
  ℕ, ◌≡◌, ◌↔◌, String, Bool, true, false, ◌&&◌, Option, none, some, List, [], ◌∷◌, arith, str_eq,
  str_eq_iff, if◌then◌else◌,
}
use python_miio.Base.Int.{ℤ, pos, eq_ℤ}
use python_miio.Base.Split.{split, has_char}
use python_miio.Base.Text.{starts_with, ends_with_char}
use python_miio.Python.Value.{
  Value, obj, arr, str, int, bool, null, Fields, lookup_field, as_number,
}
use python_miio.Python.Dict.{Dict, Key, text_eq, lookup, insert}
use python_miio.Python.Result.{
  Result, ok, err, attribute_error, type_error, key_error, value_error, or_raise, ◌>>=◌,
}
use python_miio.Miot.Mapping.{has_field}
use python_miio.Miot.Schema.{
  integer_eq, eq_ℤ_iff, normalized, MiotProperty, MiotEnumValue, property_name,
}
use python_miio.Miot.Service.{DeviceModel, get_property, get_property_by_siid_piid}

-- What a key of a dictionary is compared by: `True` is the key 1.
pub data Hashed : Type 0 where
  number : ℤ → Hashed
  text : String → Hashed
  nothing : Hashed

unfoldable pub hashed : Value → Result Hashed
hashed (int n) = ok (number n)
hashed (bool b) = ok (number (pos (if b then 1 else 0)))
hashed (str s) = ok (text s)
hashed null = ok nothing
hashed (arr _) = err type_error
hashed (obj _) = err type_error

abbrev pub same_hashed : Hashed → Hashed → Bool
same_hashed (number m) (number n) = eq_ℤ m n
same_hashed (text s) (text t) = str_eq s t
same_hashed nothing nothing = true
same_hashed _ _ = false

pub same_hashed_iff : (a b : Hashed) → (same_hashed a b ≡ true) ↔ (a ≡ b)
same_hashed_iff (number m) (number n) = ground (arith, eq_ℤ_iff m n)
same_hashed_iff (text s) (text t) = ground (arith, str_eq_iff s t)
same_hashed_iff nothing nothing = ground arith
same_hashed_iff (number m) (text t) = ground arith
same_hashed_iff (number m) nothing = ground arith
same_hashed_iff (text s) (number n) = ground arith
same_hashed_iff (text s) nothing = ground arith
same_hashed_iff nothing (number n) = ground arith
same_hashed_iff nothing (text t) = ground arith

abbrev pub same_pair : Hashed × Hashed → Hashed × Hashed → Bool
same_pair (a, b) (c, d) = same_hashed a c && same_hashed b d

pub same_pair_iff : (p q : Hashed × Hashed) → (same_pair p q ≡ true) ↔ (p ≡ q)
same_pair_iff (a, b) (c, d) = ground (arith, same_hashed_iff a c, same_hashed_iff b d)

instance abbrev pub pair_eq : Key (Hashed × Hashed)
pair_eq = record { beq = same_pair; beq_iff = same_pair_iff }

-- `_data`, `_data_by_siid_piid` and `_data_by_normalized_name`. A `did` that is no text raises in
-- `_normalize_name`.
pub record StatusData : Type 0 where
  pub contents : Dict String Value
  pub by_siid_piid : Dict (Hashed × Hashed) Value
  pub by_normalized_name : Dict String Value

-- `code != 0`
abbrev pub is_zero : Option ℤ → Bool
is_zero none = false
is_zero (some n) = eq_ℤ n (pos 0)

-- the tests of `code`: it is there, it is not `None`, it is 0
abbrev pub has_good_code : Option Value → Bool
has_good_code none = false
has_good_code (some v) = is_zero (as_number v)

-- `_is_valid_property_response`
unfoldable pub is_valid_property_response : Fields → Bool
is_valid_property_response elem =
    has_good_code (lookup_field "code" elem)
    && has_field "did" elem
    && has_field "piid" elem
    && has_field "siid" elem
    && has_field "value" elem

-- `self._data[did]`, then the pair, then `_normalize_name(did)`
abbrev pub store_under : Value → Hashed → Hashed → Value → StatusData → Result StatusData
store_under (str did) siid piid value d = ok (record {
  contents = insert did value d.contents;
  by_siid_piid = insert (siid, piid) value d.by_siid_piid;
  by_normalized_name = insert (normalized did) value d.by_normalized_name;
})
store_under _ siid piid value d = err attribute_error

-- what the rest of the loop's body in `_initialize_data` reads: `did`, `value`, `siid` and `piid`
unfoldable pub response_entry : Fields → Result (Value × Value × Hashed × Hashed)
response_entry prop = do
  did ← or_raise (lookup_field "did" prop) key_error
  value ← or_raise (lookup_field "value" prop) key_error
  key ← hashed did
  siid ← or_raise (lookup_field "siid" prop) key_error
  siid' ← hashed siid
  piid ← or_raise (lookup_field "piid" prop) key_error
  piid' ← hashed piid
  ok (did, value, siid', piid')

abbrev pub store_entry : StatusData → Value × Value × Hashed × Hashed → Result StatusData
store_entry d (did, value, siid, piid) = store_under did siid piid value d

unfoldable pub store_response : Fields → StatusData → Result StatusData
store_response prop d = response_entry prop >>= store_entry d

abbrev pub response_or_skip : Value → StatusData → Result StatusData
response_or_skip (obj prop) d =
    if is_valid_property_response prop then store_response prop d else ok d
response_or_skip _ d = err attribute_error

-- `_initialize_data`
unfoldable pub initialize_data : List Value → StatusData → Result StatusData
initialize_data [] d = ok d
initialize_data (prop ∷ response) d = do d' ← response_or_skip prop d; initialize_data response d'

-- `item.startswith("__") and item.endswith("__")`
abbrev ends_with_two : ℕ → String → Bool
ends_with_two k String.[] = false
ends_with_two k (String.◌∷◌ c String.[]) = false
ends_with_two k (String.◌∷◌ c (String.◌∷◌ d String.[])) =
    ends_with_char k (String.◌∷◌ c String.[]) && ends_with_char k (String.◌∷◌ d String.[])
ends_with_two k (String.◌∷◌ c (String.◌∷◌ d (String.◌∷◌ e s))) =
    ends_with_two k (String.◌∷◌ d (String.◌∷◌ e s))

unfoldable pub is_dunder : String → Bool
is_dunder item = starts_with item "__" && ends_with_two b'_' item

-- the first choice with the value
unfoldable pub choice_with_value : Value → List MiotEnumValue → Option String
choice_with_value value [] = none
choice_with_value value (c ∷ cs) =
    let rest = choice_with_value value cs in
    if has_value (as_number value) c.value then some c.description else rest
  where
    has_value : Option ℤ → ℤ → Bool
    has_value none m = false
    has_value (some n) m = eq_ℤ m n

abbrev description_or_value : Option String → Value → Value
description_or_value none value = value
description_or_value (some description) value = str description

abbrev by_choices : Option (List MiotEnumValue) → Value → Value
by_choices none value = value
by_choices (some cs) value = description_or_value (choice_with_value value cs) value

-- `serv, prop = item.split(":")`
abbrev pub two_parts : List String → Result (String × String)
two_parts (serv ∷ prop ∷ []) = ok (serv, prop)
two_parts _ = err value_error

-- the branch of `__getattr__` for a name with a colon
unfoldable pub converted_value : DeviceModel → StatusData → String → Result Value
converted_value m d item = do
  names ← two_parts (split b':' item)
  prop ← get_property m names.0 names.1
  value ← or_raise (lookup item d.contents) key_error
  ok (by_choices prop.choices value)

abbrev pub unless_stored : DeviceModel → StatusData → String → Option Value → Result Value
unless_stored m d item (some v) = ok v
unless_stored m d item none =
    if has_char b':' item
    then converted_value m d item
    else or_raise (lookup item d.contents) key_error

-- `__getattr__`, which Python calls for a name that it finds neither on the status nor on its class,
-- where the methods, `data`, `device` and the like stand; `inherited` is the one of `DeviceStatus`.
unfoldable pub get_attribute :
    (inherited : String → Result Value) → DeviceModel → StatusData → String → Result Value
get_attribute inherited m d item =
    if is_dunder item
    then inherited item
    else unless_stored m d item (lookup (normalized item) d.by_normalized_name)

-- `property_dict`: a text or `None` is no key of the model's dictionaries
abbrev property_at : DeviceModel → Hashed × Hashed → Result MiotProperty
property_at m (number siid, number piid) = get_property_by_siid_piid m siid piid
property_at m _ = err key_error

unfoldable pub collect_properties :
    DeviceModel
    → Dict (Hashed × Hashed) Value
    → Dict String MiotProperty
    → Result (Dict String MiotProperty)
collect_properties m [] res = ok res
collect_properties m ((key, value) ∷ entries) res = do
  prop ← property_at m key
  let prop' = record prop { value = some value }
  collect_properties m entries (insert (property_name prop') prop' res)

unfoldable pub property_dict : DeviceModel → StatusData → Result (Dict String MiotProperty)
property_dict m d = collect_properties m d.by_siid_piid []
