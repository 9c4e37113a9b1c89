-- ===== src/Miot/Generic/Responses.antt =====
-- What a response says of a name, and that it is what `GenericMiotStatus` of
-- miio/integrations/genericmiot/status.py keeps under the normalized name.
use python_miio.Base.{
  ◌≡◌, refl, Bool, ◌&&◌, if◌then◌else◌, sym, ap, subst, ◌∙◌, String, true, false, Bool-cases, inl,
  inr, Option, none, some, List, [], ◌∷◌, arith, str_eq,
}
use python_miio.Python.Value.{
  Value, obj, arr, str, int, bool, null, Fields, lookup_field, as_number,
}
use python_miio.Python.Dict.{text_eq, lookup, lookup-insert, insert}
use python_miio.Python.Result.{ok, or_raise, key_error, >>=-eq-ok, OfValue, OfValue->>=, ◌>>=◌}
use python_miio.Base.Int.{ℤ, pos, eq_ℤ}
use python_miio.Miot.Mapping.{is_some, has_field}
use python_miio.Miot.Schema.{normalized}
use python_miio.Miot.Generic.Status.{
  Hashed, StatusData, initialize_data, response_or_skip, response_entry, store_response,
  store_under, is_valid_property_response, hashed, pair_eq, has_good_code, is_zero,
}

-- What one element of a response says of a name: it has the code 0 and both ids, and its `did` is
-- written that way with `_` for `:` and `-`.
abbrev equals_zero : Option ℤ → Bool
equals_zero none = false
equals_zero (some n) = eq_ℤ n (pos 0)

abbrev is_zero_code : Option Value → Bool
is_zero_code none = false
is_zero_code (some v) = equals_zero (as_number v)

abbrev value_for : String → Option Value → Option Value → Option Value
value_for name (some (str did)) (some v) = if str_eq (normalized did) name then some v else none
value_for name _ _ = none

abbrev value_in : String → Value → Option Value
value_in name (obj prop) =
    if is_zero_code (lookup_field "code" prop)
      && is_some (lookup_field "siid" prop)
      && is_some (lookup_field "piid" prop)
    then value_for name (lookup_field "did" prop) (lookup_field "value" prop)
    else none
value_in name _ = none

abbrev pub or_earlier : Option Value → Option Value → Option Value
or_earlier (some v) earlier = some v
or_earlier none earlier = earlier

-- The value in the last element that says one.
abbrev pub last_value : String → List Value → Option Value
last_value name [] = none
last_value name (v ∷ vs) = or_earlier (last_value name vs) (value_in name v)

or_earlier_assoc :
    (a b c : Option Value) → or_earlier a (or_earlier b c) ≡ or_earlier (or_earlier a b) c
or_earlier_assoc (some a) b c = refl
or_earlier_assoc none b c = refl

pub or_earlier-none : (a : Option Value) → or_earlier a none ≡ a
or_earlier-none (some a) = refl
or_earlier-none none = refl

store_under_named :
    (name : String) (did : Value) (siid piid : Hashed) (value : Value) (d d' : StatusData)
    → store_under did siid piid value d ≡ ok d'
    → lookup name d'.by_normalized_name
      ≡ or_earlier (value_for name (some did) (some value)) (lookup name d.by_normalized_name)
store_under_named name (str did) siid piid value d d' h =
    let same : (record {
      contents = insert did value d.contents;
      by_siid_piid = insert (siid, piid) value d.by_siid_piid;
      by_normalized_name = insert (normalized did) value d.by_normalized_name;
    })
        ≡ d' =
      cc in
    subst
      (λ (x : StatusData).
        lookup name x.by_normalized_name
        ≡ or_earlier (value_for name (some (str did)) (some value))
            (lookup name d.by_normalized_name))
      same
      (inserted (str_eq (normalized did) name)
        (lookup-insert (normalized did) name value d.by_normalized_name))
  where
    inserted :
        (b : Bool)
        → lookup name (insert (normalized did) value d.by_normalized_name)
          ≡ (if b then some value else lookup name d.by_normalized_name)
        → lookup name (insert (normalized did) value d.by_normalized_name)
          ≡ or_earlier (if b then some value else none) (lookup name d.by_normalized_name)
    inserted true h = h
    inserted false h = h
store_under_named name (obj _) siid piid value d d' h = cc
store_under_named name (arr _) siid piid value d d' h = cc
store_under_named name (int _) siid piid value d d' h = cc
store_under_named name (bool _) siid piid value d d' h = cc
store_under_named name null siid piid value d d' h = cc

abbrev IsRead : Option Value → Option Value → Value × Value × Hashed × Hashed → Type 0
IsRead a b (did, value, siid, piid) = (a ≡ some did) × (b ≡ some value)

response_entry_lem :
    (prop : Fields) (did value : Value) (siid piid : Hashed)
    → response_entry prop ≡ ok (did, value, siid, piid)
    → (lookup_field "did" prop ≡ some did) × (lookup_field "value" prop ≡ some value)
unfolding response_entry
response_entry_lem prop did value siid piid h =
    subst (OfValue (IsRead (lookup_field "did" prop) (lookup_field "value" prop))) h
      (read (lookup_field "did" prop) (lookup_field "value" prop))
  where
    read :
        (a b : Option Value)
        → OfValue (IsRead a b) (do
          did ← or_raise a key_error
          value ← or_raise b key_error
          key ← hashed did
          siid ← or_raise (lookup_field "siid" prop) key_error
          siid' ← hashed siid
          piid ← or_raise (lookup_field "piid" prop) key_error
          piid' ← hashed piid
          ok (did, value, siid', piid'))
    read none b = tt
    read (some a) none = tt
    read (some a) (some b) =
        let P = IsRead (some a) (some b) in
        OfValue->>= P (hashed a) _ (λ k.
          OfValue->>= P (or_raise (lookup_field "siid" prop) key_error) _ (λ s.
            OfValue->>= P (hashed s) _ (λ s'.
              OfValue->>= P (or_raise (lookup_field "piid" prop) key_error) _
                (λ q. OfValue->>= P (hashed q) _ (λ q'. (refl, refl))))))

-- A valid element has the code 0 and both ids, and any other says nothing.
valid_value :
    (name : String) (prop : Fields)
    → value_in name (obj prop) ≡ (
        if is_valid_property_response prop
        then value_for name (lookup_field "did" prop) (lookup_field "value" prop)
        else none)
unfolding is_valid_property_response has_field
valid_value name prop = rw (same_code (lookup_field "code" prop)) (
    present (has_good_code (lookup_field "code" prop)) (lookup_field "did" prop)
      (lookup_field "siid" prop) (lookup_field "piid" prop) (lookup_field "value" prop))
  where
    same_code : (code : Option Value) → is_zero_code code ≡ has_good_code code
    same_code none = refl
    same_code (some v) = with_number (as_number v)
      where
        with_number : (n : Option ℤ) → equals_zero n ≡ is_zero n
        with_number none = refl
        with_number (some n) = refl

    present :
        (good : Bool) (did siid piid value : Option Value)
        → (if good && is_some siid && is_some piid then value_for name did value else none) ≡ (
            if good && is_some did && is_some piid && is_some siid && is_some value
            then value_for name did value
            else none)
    present true (some did) (some siid) (some piid) (some value) = refl
    present true none (some siid) (some piid) value = refl
    present true (some did) (some siid) (some piid) none = ground arith
    present true did none none value = ground arith
    present true did none (some piid) value = ground arith
    present true did (some siid) none value = ground arith
    present false did siid piid value = refl

response_or_skip_named :
    (name : String) (v : Value) (d d' : StatusData)
    → response_or_skip v d ≡ ok d'
    → lookup name d'.by_normalized_name
      ≡ or_earlier (value_in name v) (lookup name d.by_normalized_name)
unfolding store_response
response_or_skip_named name (obj prop) d d' h =
    elim (Bool-cases (is_valid_property_response prop)) [
      | inl valid ↦
          (let stored : store_response prop d ≡ ok d' = cc in
            let ((did, value, siid, piid), entry, under) = >>=-eq-ok _ _ stored in
            let (named, sent) = response_entry_lem prop did value siid piid entry in
            rw (valid_value name prop, valid, named, sent)
              (store_under_named name did siid piid value d d' under))
      | inr skipped ↦
          (let same : d ≡ d' = cc in
            rw (valid_value name prop, skipped)
              (ap (λ (x : StatusData). lookup name x.by_normalized_name) (sym same)))
    ]
response_or_skip_named name (arr _) d d' h = cc
response_or_skip_named name (str _) d d' h = cc
response_or_skip_named name (int _) d d' h = cc
response_or_skip_named name (bool _) d d' h = cc
response_or_skip_named name null d d' h = cc

pub initialize_data_named :
    (name : String) (response : List Value) (d d' : StatusData)
    → initialize_data response d ≡ ok d'
    → lookup name d'.by_normalized_name
      ≡ or_earlier (last_value name response) (lookup name d.by_normalized_name)
unfolding initialize_data
initialize_data_named name [] d d' h =
    let same : d ≡ d' = cc in ap (λ (x : StatusData). lookup name x.by_normalized_name) (sym same)
initialize_data_named name (v ∷ response) d d' h =
    let (d₁, first, rest) = >>=-eq-ok _ _ h in
    initialize_data_named name response d₁ d' rest
    ∙ ap (or_earlier (last_value name response)) (response_or_skip_named name v d d₁ first)
    ∙ or_earlier_assoc (last_value name response) (value_in name v)
        (lookup name d.by_normalized_name)
