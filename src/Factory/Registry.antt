-- ===== src/Factory/Registry.antt =====
-- `DeviceFactory` of miio/devicefactory.py: `register` and `class_for_model`. `C` are the
-- device classes. The registry is the class's own state.
use python_miio.Base.{String, Bool, Option, none, some, List, [], ◌∷◌, ◌++◌, leb, if◌then◌else◌}
use python_miio.Base.Text.{starts_with, ends_with_char, rstrip_char, text_length}
use python_miio.Python.Dict.{Dict, text_eq, lookup, contains, insert}
use python_miio.Python.Result.{Result, ok, err, device_exception}

pub record DeviceFactory (C : Type 0) : Type 0 where
  pub integration_classes : List C
  pub supported_models : Dict String C

module _ {C : Type 0} where
  -- the loop over the models of a class
  unfoldable pub register_models : C → List String → Dict String C → Dict String C
  register_models c [] d = d
  register_models c (model ∷ models) d =
      if contains model d
      then register_models c models d
      else register_models c models (insert model c d)

  -- `register`, for a class with its `supported_models`
  unfoldable pub register : C → List String → DeviceFactory C → DeviceFactory C
  register c models f = record f {
    integration_classes = f.integration_classes ++ c ∷ [];
    supported_models = register_models c models f.supported_models;
  }

  -- `m.endswith("*")`
  abbrev pub is_wildcard : String × C → Bool
  is_wildcard (m, c) = ends_with_char 42 m

  unfoldable pub wildcard_models : Dict String C → List (String × C)
  wildcard_models [] = []
  wildcard_models (x ∷ d) = if is_wildcard x then x ∷ wildcard_models d else wildcard_models d

  unfoldable pub insert_by_length : String × C → List (String × C) → List (String × C)
  insert_by_length x [] = x ∷ []
  insert_by_length x (y ∷ ys) =
      if leb (text_length y.0) (text_length x.0) then x ∷ y ∷ ys else y ∷ insert_by_length x ys

  -- `sorted(…, key=lambda item: len(item[0]), reverse=True)`, which keeps the order of equal lengths
  unfoldable pub sorted_by_longest_prefix : List (String × C) → List (String × C)
  sorted_by_longest_prefix [] = []
  sorted_by_longest_prefix (x ∷ xs) = insert_by_length x (sorted_by_longest_prefix xs)

  -- `model.startswith(wildcard_model.rstrip("*"))`
  unfoldable pub is_match : String → String × C → Bool
  is_match model (m, c) = starts_with model (rstrip_char 42 m)

  -- the loop over the sorted wildcards
  unfoldable pub first_match : String → List (String × C) → Result C
  first_match model [] = err device_exception
  first_match model (x ∷ xs) = if is_match model x then ok x.1 else first_match model xs

  abbrev found_or_wildcard : String → Dict String C → Option C → Result C
  found_or_wildcard model d (some c) = ok c
  found_or_wildcard model d none = first_match model (sorted_by_longest_prefix (wildcard_models d))

  -- `class_for_model`
  unfoldable pub class_for_model : String → DeviceFactory C → Result C
  class_for_model model f =
      found_or_wildcard model f.supported_models (lookup model f.supported_models)
