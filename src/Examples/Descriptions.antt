-- ===== src/Examples/Descriptions.antt =====
-- The descriptors of a device with an action, a setting and a sensor.
use python_miio.Base.{
  ℕ, ◌+◌, ◌≡◌, ◌⊎◌, refl, subst, String, Bool, true, false, some, none, List, [], ◌∷◌, ◌++◌, length,
  ◌==◌, if◌then◌else◌,
}
use python_miio.Python.Value.{null}
use python_miio.Python.Dict.{text_eq, contains}
use python_miio.Python.Result.{ok, err, attribute_error}
use python_miio.Descriptors.Defs.{Kind, action, property, unset, Descriptor}
use python_miio.Descriptors.FreeId.{get_free_id, get_free_id_lem, suffixed, TakenFrom}
use python_miio.Descriptors.Collection.{Host, Collection}
use python_miio.Descriptors.Adding.{AddsUpTo}
use python_miio.Descriptors.Objects.{Space, view, add_all}
use python_miio.Descriptors.Seen.{IsApart}
use python_miio.Descriptors.Held.{add_all_lem}
use python_miio.Descriptors.Selection.{DeviceClass, initialize_descriptors}
use python_miio.Descriptors.Initializing.{
  HasOwnObjects, IsReadOnce, fresh_device, initialize_descriptors_lem,
}

abbrev host : Host ℕ
host = record {
  method_named = λ name. ok 7;
  choices_from = λ name. err attribute_error;
  range_from = λ name. err attribute_error;
}

abbrev described : String → Bool → Bool → Kind ℕ → Descriptor ℕ
described id can_read can_write kind = record {
  id = id;
  name = id;
  unit = none;
  status_attribute = none;
  access = record { can_read = can_read; can_write = can_write; can_execute = false };
  kind = kind;
}

abbrev given : List (Descriptor ℕ)
given =
    described "on" false false (action none (some "turn_on"))
    ∷ described "level" true true (property none (some "set_level") unset)
    ∷ described "level" true false (property none none unset)
    ∷ []

abbrev space : Space ℕ
space = record { objects = λ r. object_at r given; entries = [] }
  where
    object_at : ℕ → List (Descriptor ℕ) → Descriptor ℕ
    object_at r [] = described "on" false false (action none (some "turn_on"))
    object_at r (desc ∷ descs) = if r == length descs then desc else object_at r descs

add_all_lem_example :
    AddsUpTo host 3 []
      ((add_all host (2 ∷ 1 ∷ 0 ∷ []) space).0, view (add_all host (2 ∷ 1 ∷ 0 ∷ []) space).1)
    × ((q : ℕ)
        → IsApart q (2 ∷ 1 ∷ 0 ∷ [])
        → (add_all host (2 ∷ 1 ∷ 0 ∷ []) space).1.objects q ≡ space.objects q)
add_all_lem_example =
    add_all_lem host (2 ∷ 1 ∷ 0 ∷ []) space ((refl, (refl, tt)), ((refl, tt), (tt, tt)))
      (tt, (tt, (tt, tt))) (record { unique = tt; stored = tt })

abbrev held : Collection ℕ
held =
    ("on", described "on" false false (action (some 7) (some "turn_on")))
    ∷ ("level", described "level" true true (property (some 7) (some "set_level") unset))
    ∷ ("level-2", described "level-2" true false (property none none unset))
    ∷ []

get_free_id_lem_example :
    (id' : String) × (get_free_id "level" held ≡ some id')
    × (contains id' held ≡ false)
    × (((contains "level" held ≡ false) × (id' ≡ "level"))
        ⊎ ((k : ℕ) × (contains "level" held ≡ true)
            × (id' ≡ suffixed "level" (2 + k))
            × TakenFrom (suffixed "level") 2 k held))
get_free_id_lem_example = get_free_id_lem "level" held

abbrev lamp : DeviceClass ℕ (List ℕ)
lamp = record {
  host = host;
  members = λ log. (ok ((7, 2) ∷ (8, 1) ∷ []), log ++ 1 ∷ []);
  status_own = 0 ∷ [];
  status_members = [];
  invoke = λ m params log. (ok null, log ++ m ∷ []);
}

lamp-HasOwnObjects :
    (members : List (ℕ × ℕ)) → (lamp.members []).0 ≡ ok members → HasOwnObjects lamp members
lamp-HasOwnObjects members h =
    let same : (7, 2) ∷ (8, 1) ∷ [] ≡ members = cc in
    subst (HasOwnObjects lamp) same
      (record { members_differ = ((refl, tt), (tt, tt)); apart = ((refl, (refl, tt)), tt) })

initialize_descriptors_lem_example :
    IsReadOnce lamp
      (lamp.members []).0
      (initialize_descriptors lamp (fresh_device lamp space.objects []))
initialize_descriptors_lem_example =
    initialize_descriptors_lem lamp space.objects [] (tt, tt) lamp-HasOwnObjects
