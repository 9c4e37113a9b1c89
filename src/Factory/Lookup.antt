-- ===== src/Factory/Lookup.antt =====
-- Which class is found for a model.
use python_miio.Base.{
  ◌≤◌, ◌≡◌, ◌⊎◌, inl, inr, refl, sym, subst, ◌∙◌, String, true, false, Bool-cases, none, some, List,
  [], ◌∷◌, arith, str_eq, str_eq_iff, if◌then◌else◌,
}
use python_miio.Base.Text.{text_length}
use python_miio.Python.Dict.{
  Dict, text_eq, lookup, contains, insert, lookup-insert, lookup_of_not_contains,
}
use python_miio.Python.Result.{ok}
use python_miio.Factory.Registry.{
  DeviceFactory, is_wildcard, class_for_model, first_match, is_match, register, register_models,
  sorted_by_longest_prefix, wildcard_models,
}
use python_miio.Factory.Sorting.{
  IsDescending, In, In-Below, In-sorted, In-of_sorted, In-wildcard_models, In-of_wildcard_models,
  sorted_by_longest_prefix-IsDescending,
}

module _ {C : Type 0} where
  -- In a descending list the first match is the longest one.
  first_match-longest :
      (model : String) (c : C) (y : String × C) (xs : List (String × C))
      → IsDescending xs
      → first_match model xs ≡ ok c
      → In y xs
      → is_match model y ≡ true
      → (x : String × C) × In x xs
        × (x.1 ≡ c)
        × (is_match model x ≡ true)
        × (text_length y.0 ≤ text_length x.0)
  unfolding first_match
  first_match-longest model c y [] h e m hy = absurd m
  first_match-longest model c y (x ∷ xs) h e m hy = elim (Bool-cases (is_match model x)) [
    | inl hit ↦ (x, inl refl, ok_value (simp hit at e), hit, bound m)
    | inr miss ↦
        later (λ k. first_match-longest model c y xs h.1 (simp miss at e) k hy) (rest miss m)
  ]
    where
      ok_value : {a : C} → ok a ≡ ok c → a ≡ c
      ok_value p = cc

      bound : (y ≡ x) ⊎ In y xs → text_length y.0 ≤ text_length x.0
      bound (inl p) = subst (λ z. text_length y.0 ≤ text_length z.0) p (omega arith)
      bound (inr k) = In-Below (text_length x.0) y xs h.0 k

      rest : is_match model x ≡ false → (y ≡ x) ⊎ In y xs → In y xs
      rest miss (inl p) =
          let hx : is_match model x ≡ true = subst (λ z. is_match model z ≡ true) p hy in
          absurd (ground arith)
      rest miss (inr k) = k

      later :
          (In y xs
            → (z : String × C) × In z xs
              × (z.1 ≡ c)
              × (is_match model z ≡ true)
              × (text_length y.0 ≤ text_length z.0))
          → In y xs
          → (z : String × C) × In z (x ∷ xs)
            × (z.1 ≡ c)
            × (is_match model z ≡ true)
            × (text_length y.0 ≤ text_length z.0)
      later go k = let (z, i, p, q, le) = go k in (z, inr i, p, q, le)

  class_for_model_wildcard :
      (model : String) (f : DeviceFactory C)
      → lookup model f.supported_models ≡ none
      → class_for_model model f
        ≡ first_match model (sorted_by_longest_prefix (wildcard_models f.supported_models))
  unfolding class_for_model
  class_for_model_wildcard model f h = rw h

  -- A class that is found for a model that no class names in full is registered under a wildcard that matches
  -- the model, and no wildcard that matches the model is longer.
  pub class_for_model_longest :
      (model : String) (f : DeviceFactory C) (c : C) (y : String × C)
      → lookup model f.supported_models ≡ none
      → class_for_model model f ≡ ok c
      → In y f.supported_models
      → is_wildcard y ≡ true
      → is_match model y ≡ true
      → (x : String × C) × In x f.supported_models
        × (x.1 ≡ c)
        × (is_wildcard x ≡ true)
        × (is_match model x ≡ true)
        × (text_length y.0 ≤ text_length x.0)
  class_for_model_longest model f c y new found member wild matches =
      let wilds : List (String × C) = wildcard_models f.supported_models in
      let (x, i, p, q, le) =
        first_match-longest model c y (sorted_by_longest_prefix wilds)
          (sorted_by_longest_prefix-IsDescending wilds)
          (sym (class_for_model_wildcard model f new) ∙ found)
          (In-sorted y wilds (In-wildcard_models y f.supported_models member wild)) matches in
      let (there, w) = In-of_wildcard_models x f.supported_models (In-of_sorted x wilds i) in
      (x, there, p, w, q, le)

  none_or_some : {c : C} → none ≡ some c → ⊥
  none_or_some p = cc

  register_models-keeps :
      (c c' : C) (models : List String) (d : Dict String C) (model : String)
      → lookup model d ≡ some c
      → lookup model (register_models c' models d) ≡ some c
  unfolding register_models
  register_models-keeps c c' [] d model h = h
  register_models-keeps c c' (m ∷ models) d model h = elim (Bool-cases (contains m d)) [
    | inl taken ↦ rw taken (register_models-keeps c c' models d model h)
    | inr free ↦ rw free (
        register_models-keeps c c' models (insert m c' d) model
          (lookup-insert m model c' d ∙ kept free (Bool-cases (str_eq m model))))
  ]
    where
      kept :
          contains m d ≡ false
          → (str_eq m model ≡ true) ⊎ (str_eq m model ≡ false)
          → (if str_eq m model then some c' else lookup model d) ≡ some c
      kept free (inl same) =
          let p : m ≡ model = (str_eq_iff m model).0 same in
          let gone : lookup model d ≡ none =
            lookup_of_not_contains model d (subst (λ z. contains z d ≡ false) p free) in
          absurd (none_or_some (sym gone ∙ h))
      kept free (inr other) = rw other h

  -- The first class to name a model keeps it, whatever class is registered later, and `class_for_model`
  -- finds that class.
  pub class_for_model-register :
      (c c' : C) (models : List String) (f : DeviceFactory C) (model : String)
      → lookup model f.supported_models ≡ some c
      → class_for_model model (register c' models f) ≡ ok c
  unfolding class_for_model register
  class_for_model-register c c' models f model h =
      rw (register_models-keeps c c' models f.supported_models model h)
