-- ===== src/Examples/Models.antt =====
-- Models, registered and looked up.
use python_miio.Base.{ℕ, ◌≤◌, ◌≡◌, refl, String, true, none, some, [], ◌∷◌, inl}
use python_miio.Base.Text.{starts_with, ends_with_char, rstrip_char, text_length}
use python_miio.Python.Dict.{text_eq, lookup}
use python_miio.Python.Result.{ok}
use python_miio.Factory.Registry.{
  DeviceFactory, class_for_model, first_match, insert_by_length, is_match, is_wildcard,
  sorted_by_longest_prefix, wildcard_models,
}
use python_miio.Factory.Sorting.{In}
use python_miio.Factory.Lookup.{class_for_model_longest}

abbrev factory : DeviceFactory ℕ
factory = record {
  integration_classes = 1 ∷ 2 ∷ [];
  supported_models = ("zhimi.*", 1) ∷ ("zhimi.fan.*", 2) ∷ [];
}

unknown_lem : lookup "zhimi.fan.v9" factory.supported_models ≡ none
unfolding lookup
unknown_lem = refl

found_lem : class_for_model "zhimi.fan.v9" factory ≡ ok 2
unfolding class_for_model lookup first_match insert_by_length is_match sorted_by_longest_prefix
    wildcard_models starts_with ends_with_char rstrip_char text_length
found_lem = refl

abbrev short : String × ℕ
short = ("zhimi.*", 1)

match_lem : is_match "zhimi.fan.v9" short ≡ true
unfolding is_match starts_with rstrip_char
match_lem = refl

class_for_model_longest_example :
    (x : String × ℕ) × In x factory.supported_models
    × (x.1 ≡ 2)
    × (is_wildcard x ≡ true)
    × (is_match "zhimi.fan.v9" x ≡ true)
    × (text_length "zhimi.*" ≤ text_length x.0)
unfolding ends_with_char
class_for_model_longest_example =
    class_for_model_longest "zhimi.fan.v9" factory 2 short unknown_lem found_lem (inl refl) refl
      match_lem

known_lem : lookup "zhimi.*" factory.supported_models ≡ some 1
unfolding lookup
known_lem = refl
