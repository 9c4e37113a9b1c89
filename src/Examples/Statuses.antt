-- ===== src/Examples/Statuses.antt =====
-- Status containers that the theorems on `DeviceStatus` are applied to.
use python_miio.Base.{
  ℕ, zero, suc, ◌≡◌, refl, String, true, false, none, some, [], ◌∷◌, if◌then◌else◌, str_eq, ◌==◌,
  arith,
}
use python_miio.Base.Int.{pos}
use python_miio.Python.Value.{Value, int, str}
use python_miio.Python.Dict.{text_eq, lookup, contains, HasUniqueKeys}
use python_miio.Python.Result.{Result, ok, err, attribute_error, runtime_error}
use python_miio.Descriptors.Defs.{Descriptor}
use python_miio.Status.Names.{qualified, is_plain}
use python_miio.Status.Decorators.{Function, absent, text, sensor}
use python_miio.Status.Store.{
  Store, StatusClass, class_of, descriptors, embed, evolved, get_attribute,
}
use python_miio.Status.Embedding.{IsSeparate}
use python_miio.Status.Readable.{embed-Readable}
use python_miio.Status.SameClass.{embed-same_class}
use python_miio.Status.Invariant.{AllKeyed, embed-AllKeyed}

abbrev speed_getter : Function
speed_getter = record { name = "speed"; qualname = "FanStatus.speed" }

abbrev speed : Descriptor String
unfolding sensor
speed = sensor "Fan speed" absent (some "%") speed_getter

abbrev mode : Descriptor String
unfolding sensor
mode = sensor "Mode" (text "mode") none (record { name = "mode"; qualname = "MainStatus.mode" })

abbrev main_class : StatusClass String
main_class = record { descriptors = ("mode", mode) ∷ []; embedded = [] }

abbrev fan_class : StatusClass String
fan_class = record { descriptors = ("speed", speed) ∷ []; embedded = [] }

abbrev main_own : String → Result Value
main_own item = if str_eq item "mode" then ok (str "auto") else err attribute_error

abbrev fan_own : String → Result Value
fan_own item = if str_eq item "speed" then ok (int (pos 30)) else err attribute_error

abbrev class_numbered : ℕ → StatusClass String
class_numbered zero = main_class
class_numbered (suc c) = fan_class

-- The class 0 is the main one, and its container is 0; the class 1 is the fan's, with the containers 1
-- and 2.
abbrev store : Store String
store = record {
  classes = class_numbered;
  statuses = λ x. record {
    class_id = if x == 0 then 0 else 1;
    parent = none;
    own = if x == 0 then main_own else fan_own;
  };
}

apart : IsSeparate store 0 1
apart h = ground arith

readable :
    (is_plain "fan" ≡ true)
    × (lookup "speed" (descriptors store 1) ≡ some speed)
    × (lookup (qualified "fan" "speed") (class_of store 0).embedded ≡ none)
    × ((store.statuses 0).own (qualified "fan" "speed") ≡ err attribute_error)
unfolding is_plain lookup qualified
readable = (refl, refl, refl, refl)

keyed_once : HasUniqueKeys (descriptors store 1)
unfolding contains
keyed_once = (refl, tt)

embed-Readable_example :
    let (result, s') = embed "fan" 0 1 store in
    (result ≡ ok tt)
    × (lookup (qualified "fan" "speed") (descriptors s' 0)
        ≡ some (evolved (qualified "fan" "speed") speed))
    × (get_attribute s' 0 (qualified "fan" "speed") ≡ get_attribute s' 1 "speed")
embed-Readable_example =
    embed-Readable "fan" 0 1 store "speed" speed apart readable.0 refl refl keyed_once readable.1
      readable.2 readable.3

new_name : contains (qualified "other" "speed") (descriptors store 1) ≡ false
unfolding contains qualified
new_name = refl

embed-same_class_example :
    let (result, s') = embed "other" 1 2 store in
    (result ≡ err runtime_error)
    × (lookup "other" (class_of s' 1).embedded ≡ some 2)
    × (lookup (qualified "other" "speed") (descriptors s' 1)
        ≡ some (evolved (qualified "other" "speed") speed))
embed-same_class_example = embed-same_class "other" 1 2 "speed" speed [] store refl refl new_name

all_keyed : AllKeyed store
unfolding contains mode speed
all_keyed zero = ((refl, tt), (refl, tt))
all_keyed (suc c) = ((refl, tt), (refl, tt))

embed-AllKeyed_example : AllKeyed (embed "fan" 0 1 store).1
embed-AllKeyed_example = embed-AllKeyed "fan" 0 1 store all_keyed
