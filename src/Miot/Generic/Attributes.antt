-- ===== src/Miot/Generic/Attributes.antt =====
-- The attributes of `GenericMiotStatus` in miio/integrations/genericmiot/status.py.
use python_miio.Base.{
  ◌≡◌, ◌↔◌, refl, sym, ap, subst, ◌∙◌, String, true, false, Bool-cases, inl, inr, Option, none,
  some, List, [], ◌∷◌, arith, str_eq, str_eq_iff,
}
use python_miio.Base.Split.{split, has_char}
use python_miio.Python.Value.{Value, obj, arr, str, int, bool, null, Fields}
use python_miio.Python.Dict.{text_eq, lookup, lookup-insert, insert}
use python_miio.Python.Result.{Result, ok, or_raise, key_error, >>=-eq-ok, OfValue, OfValue->>=}
use python_miio.Miot.Schema.{normalized}
use python_miio.Miot.Service.{DeviceModel, get_property}
use python_miio.Miot.Generic.Responses.{last_value, or_earlier-none, initialize_data_named}
use python_miio.Miot.Generic.Status.{
  Hashed, StatusData, initialize_data, response_or_skip, response_entry, store_entry,
  store_response, store_under, is_valid_property_response, is_dunder, get_attribute, unless_stored,
  converted_value, two_parts, pair_eq,
}

-- What is stored for a property is found under its normalized name, too.
abbrev IsIndexed : StatusData → Type 0
IsIndexed d =
    (did : String)
    → lookup (normalized did) d.by_normalized_name ≡ none
    → lookup did d.contents ≡ none

stored-IsIndexed :
    (did : String) (value : Value) (d : StatusData)
    → IsIndexed d
    → IsIndexed (record d {
      contents = insert did value d.contents;
      by_normalized_name = insert (normalized did) value d.by_normalized_name;
    })
stored-IsIndexed did value d w key h =
    let named = lookup-insert (normalized did) (normalized key) value d.by_normalized_name in
    elim (Bool-cases (str_eq did key)) [
      | inl hit ↦
          (let same : normalized did ≡ normalized key =
              ap normalized ((str_eq_iff did key).0 hit) in
            let found : str_eq (normalized did) (normalized key) ≡ true =
              (str_eq_iff (normalized did) (normalized key)).1 same in
            ground (arith, named))
      | inr miss ↦ ground (arith, lookup-insert did key value d.contents, named, w key)
    ]

store_under-IsIndexed :
    (did : Value) (siid piid : Hashed) (value : Value) (d : StatusData)
    → IsIndexed d
    → OfValue IsIndexed (store_under did siid piid value d)
store_under-IsIndexed (str did) siid piid value d w = stored-IsIndexed did value d w
store_under-IsIndexed (obj _) siid piid value d w = tt
store_under-IsIndexed (arr _) siid piid value d w = tt
store_under-IsIndexed (int _) siid piid value d w = tt
store_under-IsIndexed (bool _) siid piid value d w = tt
store_under-IsIndexed null siid piid value d w = tt

store_response-IsIndexed :
    (prop : Fields) (d d' : StatusData) → IsIndexed d → store_response prop d ≡ ok d' → IsIndexed d'
unfolding store_response
store_response-IsIndexed prop d d' w h = subst (OfValue IsIndexed) h (
    OfValue->>= IsIndexed (response_entry prop) (store_entry d)
      (λ (did, value, siid, piid). store_under-IsIndexed did siid piid value d w))

response_or_skip-IsIndexed :
    (prop : Value) (d d' : StatusData)
    → IsIndexed d
    → response_or_skip prop d ≡ ok d'
    → IsIndexed d'
response_or_skip-IsIndexed (obj prop) d d' w h =
    elim (Bool-cases (is_valid_property_response prop)) [
      | inl valid ↦
          (let stored : store_response prop d ≡ ok d' = cc in
            store_response-IsIndexed prop d d' w stored)
      | inr skipped ↦ (let same : d ≡ d' = cc in subst IsIndexed same w)
    ]
response_or_skip-IsIndexed (arr _) d d' w h = cc
response_or_skip-IsIndexed (str _) d d' w h = cc
response_or_skip-IsIndexed (int _) d d' w h = cc
response_or_skip-IsIndexed (bool _) d d' w h = cc
response_or_skip-IsIndexed null d d' w h = cc

initialize_data-IsIndexed :
    (response : List Value) (d d' : StatusData)
    → IsIndexed d
    → initialize_data response d ≡ ok d'
    → IsIndexed d'
unfolding initialize_data
initialize_data-IsIndexed [] d d' w h = let same : d ≡ d' = cc in subst IsIndexed same w
initialize_data-IsIndexed (prop ∷ response) d d' w h =
    let (d₁, first, rest) = >>=-eq-ok _ _ h in
    initialize_data-IsIndexed response d₁ d' (response_or_skip-IsIndexed prop d d₁ w first) rest

-- Without an entry under the name, every branch raises.
converted_value_raises :
    (m : DeviceModel) (d : StatusData) (item : String) (v : Value)
    → lookup item d.contents ≡ none
    → converted_value m d item ≡ ok v
    → ⊥
unfolding converted_value
converted_value_raises m d item v gone h = subst (OfValue (λ x. ⊥)) h (
    OfValue->>= (λ x. ⊥) (two_parts (split b':' item)) _
      (λ names. OfValue->>= (λ x. ⊥) (get_property m names.0 names.1) _ (λ prop. rw gone tt)))

unstored_raises :
    (m : DeviceModel) (d : StatusData) (item : String) (v : Value)
    → lookup item d.contents ≡ none
    → unless_stored m d item none ≡ ok v
    → ⊥
unstored_raises m d item v gone h = elim (Bool-cases (has_char b':' item)) [
  | inl colon ↦
      (let converted : converted_value m d item ≡ ok v = cc in
        converted_value_raises m d item v gone converted)
  | inr plain ↦
      (let found : or_raise none key_error ≡ ok v = cc in subst (OfValue (λ x. ⊥)) found tt)
]

unless_stored_lem :
    (m : DeviceModel) (d : StatusData) (item : String) (o : Option Value) (v : Value)
    → (o ≡ none → lookup item d.contents ≡ none)
    → unless_stored m d item o ≡ ok v
    → o ≡ some v
unless_stored_lem m d item (some x) v w h = cc
unless_stored_lem m d item none v w h = absurd (unstored_raises m d item v (w refl) h)

abbrev pub empty : StatusData
empty = record { contents = []; by_siid_piid = []; by_normalized_name = [] }

empty-IsIndexed : IsIndexed empty
unfolding lookup
empty-IsIndexed did missing = refl

get_attribute_plain :
    (inherited : String → Result Value) (m : DeviceModel) (d : StatusData) (item : String)
    → is_dunder item ≡ false
    → get_attribute inherited m d item
      ≡ unless_stored m d item (lookup (normalized item) d.by_normalized_name)
unfolding get_attribute
get_attribute_plain inherited m d item h = rw h

-- The attributes that `__getattr__` gives, which Python asks for a name that it does not find on the
-- status itself, by names that do not stand between double underscores: reading a name gives a value
-- just where the response has one for the normalized name, the value in its last element with the code
-- 0, both ids and a `did` of that normalized name. The value is as it was sent: a choice's description
-- never stands in its place, and a name without a value raises.
pub get_attribute_lem :
    (inherited : String → Result Value) (m : DeviceModel) (response : List Value) (d : StatusData)
    (item : String) (v : Value)
    → initialize_data response empty ≡ ok d
    → is_dunder item ≡ false
    → (get_attribute inherited m d item ≡ ok v) ↔ (last_value (normalized item) response ≡ some v)
unfolding lookup
get_attribute_lem inherited m response d item v made plain =
    let stored : lookup (normalized item) d.by_normalized_name
        ≡ last_value (normalized item) response =
      initialize_data_named (normalized item) response empty d made
      ∙ or_earlier-none (last_value (normalized item) response) in
    let reads : get_attribute inherited m d item
        ≡ unless_stored m d item (lookup (normalized item) d.by_normalized_name) =
      get_attribute_plain inherited m d item plain in
    (
      (λ h.
          sym stored
          ∙ unless_stored_lem m d item (lookup (normalized item) d.by_normalized_name) v
              (initialize_data-IsIndexed response empty d empty-IsIndexed made item)
              (sym reads ∙ h)),
      (λ h. reads ∙ ap (unless_stored m d item) (stored ∙ h)),
    )
