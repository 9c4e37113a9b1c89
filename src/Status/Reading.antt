-- ===== src/Status/Reading.antt =====
-- Attributes of embedded containers, read through `DeviceStatus.__getattr__`.
use python_miio.Base.{
  clash, ℕ, zero, suc, ◌<◌, ◌≡◌, refl, ap, inl, inr, String, true, false, ◌||◌, Option, none, some,
  Bool-cases, arith, if◌then◌else◌, str_eq, str_eq_iff,
}
use python_miio.Base.Text.{text_length, starts_with}
use python_miio.Python.Dict.{Dict, text_eq, lookup}
use python_miio.Python.Result.{Result, err, attribute_error}
use python_miio.Miot.Generic.Status.{is_dunder}
use python_miio.Status.Names.{
  or_else, split_name, split_name-shorter, split_name-qualified, qualified, is_plain,
}
use python_miio.Status.Store.{
  Store, Attribute, class_of, get_missing, own_or_missing, container_or, read_split, read_embedded,
  get_attribute, get_attribute_within,
}

read_embedded-local :
    (f g : ℕ → String → Result Attribute) (prop : String) (found : Option ℕ)
    → ((other : ℕ) → f other prop ≡ g other prop)
    → read_embedded f prop found ≡ read_embedded g prop found
read_embedded-local f g prop none h = refl
read_embedded-local f g prop (some other) h = h other

read_split-local :
    (f g : ℕ → String → Result Attribute) (embedded : Dict String ℕ) (n : ℕ)
    (parts : Option (String × String))
    → ((q : String × String) → parts ≡ some q → text_length q.1 < n)
    → ((other : ℕ) (prop : String) → text_length prop < n → f other prop ≡ g other prop)
    → read_split f embedded parts ≡ read_split g embedded parts
read_split-local f g embedded n none short h = refl
read_split-local f g embedded n (some (embed, prop)) short h =
    ap
      (λ (r : Result Attribute).
        if str_eq embed "" || str_eq prop "" then err attribute_error else r)
      (read_embedded-local f g prop (lookup embed embedded)
        (λ other. h other prop (short (embed, prop) refl)))

-- A name that begins with two underscores has nothing in front of them.
split_name-start :
    (item : String)
    → starts_with item "__" ≡ true
    → (prop : String) × (split_name item ≡ some ("", prop))
unfolding starts_with split_name
split_name-start String.[] h = absurd (ground arith)
split_name-start (String.◌∷◌ c String.[]) h = absurd (ground arith)
split_name-start (String.◌∷◌ c (String.◌∷◌ d s)) h = (s, ground arith)

qualified-not_dunder :
    (name prop : String)
    → is_plain name ≡ true
    → str_eq name "" ≡ false
    → is_dunder (qualified name prop) ≡ false
unfolding is_dunder
qualified-not_dunder name prop plain named =
    elim (Bool-cases (starts_with (qualified name prop) "__")) [
      | inr plainly ↦ rw plainly
      | inl dunder ↦
          (let (rest, e) = split_name-start (qualified name prop) dunder in
            let same : some (name, prop) ≡ some ("", rest) =
              rw (split_name-qualified name prop plain) at e in
            let empty : name ≡ "" = ap (λ o. (or_else ("", "") o).0) same in
            absurd (clash ((str_eq_iff name "").1 empty) named))
    ]

module _ {M : Type 0} where
  -- `__getattr__` depends on `getattr` at shorter names only.
  get_missing-local :
      (f g : ℕ → String → Result Attribute) (s : Store M) (self : ℕ) (item : String)
      → ((other : ℕ) (prop : String)
          → text_length prop < text_length item
          → f other prop ≡ g other prop)
      → get_missing f s self item ≡ get_missing g s self item
  unfolding get_missing
  get_missing-local f g s self item h =
      ap
        (λ (r : Result Attribute).
          if is_dunder item
          then err attribute_error
          else container_or (lookup item (class_of s self).embedded) r)
        (read_split-local f g (class_of s self).embedded (text_length item) (split_name item)
          (split_name-shorter item) h)

  -- Any two bounds above the length of the name give the same.
  get_attribute_within-enough :
      (m n : ℕ) (s : Store M) (self : ℕ) (item : String)
      → text_length item < m
      → text_length item < n
      → get_attribute_within m s self item ≡ get_attribute_within n s self item
  unfolding get_attribute_within
  get_attribute_within-enough zero n s self item p q = absurd (omega arith)
  get_attribute_within-enough (suc m) zero s self item p q = absurd (omega arith)
  get_attribute_within-enough (suc m) (suc n) s self item p q =
      ap (own_or_missing ((s.statuses self).own item)) (
        get_missing-local (get_attribute_within m s) (get_attribute_within n s) s self item
          (λ other prop less.
            get_attribute_within-enough m n s other prop (omega arith) (omega arith)))

  -- What a container embedded as `name` gives for `prop` is what its host gives for `name__prop`, unless
  -- the host has an attribute or an embedded container of that name itself.
  pub get_attribute-qualified :
      (s : Store M) (self other : ℕ) (name prop : String)
      → is_plain name ≡ true
      → str_eq name "" ≡ false
      → str_eq prop "" ≡ false
      → lookup name (class_of s self).embedded ≡ some other
      → lookup (qualified name prop) (class_of s self).embedded ≡ none
      → (s.statuses self).own (qualified name prop) ≡ err attribute_error
      → get_attribute s self (qualified name prop) ≡ get_attribute s other prop
  unfolding get_attribute get_attribute_within get_missing
  get_attribute-qualified s self other name prop plain named given at_name free absent =
      let split = split_name-qualified name prop plain in
      let less : text_length prop < text_length (qualified name prop) =
        split_name-shorter (qualified name prop) (name, prop) split in
      rw (absent, qualified-not_dunder name prop plain named, free, split, named, given, at_name)
        (get_attribute_within-enough (text_length (qualified name prop)) (suc (text_length prop)) s
          other prop less (omega arith))
