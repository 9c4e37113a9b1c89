-- ===== src/Cooker/Status.antt =====
-- `CookerStatus`, over the values that a cooker has sent, and the methods that read a response.
use Prim.Native.String.{String}
use python_miio.Base.{
  ℕ, ◌%◌, Bool, true, false, ◌&&◌, ◌||◌, List, [], ◌∷◌, Option, none, some, length, take, drop, ltb,
  leb, ◌==◌, if◌then◌else◌, str_eq,
}
use python_miio.Base.Int.{ℤ, pos, negsuc}
use python_miio.Base.Text.{codes}
use python_miio.Python.Value.{
  Value, Fields, obj, arr, str, int, bool, null, field, end, nil, cons, to_list,
}
use python_miio.Python.Dict.{Dict, text_eq, lookup}
use python_miio.Python.Number.{to_int, to_int16}
use python_miio.Python.Result.{
  Result, ok, err, type_error, value_error, attribute_error, index_error, key_error, ◌>>=◌,
}
use python_miio.Python.Action.{Action, pure, ◌>>=◌ as and_then}
use python_miio.Device.Transport.{Transport, call, call_with}
use python_miio.Cooker.Containers.{time, temperature_history, interaction_timeouts, customizations}
use python_miio.Cooker.Settings.{cooker_settings}

-- `properties` of `status`
abbrev pub properties : List String
properties =
    "func" ∷ "menu" ∷ "stage" ∷ "temp" ∷ "t_func" ∷ "t_precook" ∷ "t_cook" ∷ "setting" ∷ "delay"
    ∷ "version" ∷ "favorite" ∷ "custom" ∷ []

-- `zip(properties, values)`; the names differ
unfoldable pub zipped : List String → List Value → Dict String Value
zipped [] values = []
zipped (p ∷ names) [] = []
zipped (p ∷ names) (v ∷ values) = (p, v) ∷ zipped names values

abbrev pub or_null : Option Value → Value
or_null none = null
or_null (some v) = v

-- `self.data[name]` of the dictionary whose default is `None`
unfoldable pub data_of : Dict String Value → String → Value
data_of d name = or_null (lookup name d)

abbrev field_keys : Fields → List Value
field_keys end = []
field_keys (field k v fs) = str k ∷ field_keys fs

abbrev characters : String → List Value
characters String.[] = []
characters (String.◌∷◌ c s) = str (String.◌∷◌ c String.[]) ∷ characters s

-- what an iteration over a value gives; its length is `len(v)`
unfoldable pub values_of : Value → Result (List Value)
values_of (arr vs) = ok (to_list vs)
values_of (str s) = ok (characters s)
values_of (obj fs) = ok (field_keys fs)
values_of _ = err type_error

-- `int(v)` and `int(v, 16)`
abbrev pub int_of : Value → Result ℤ
int_of (str s) = to_int s
int_of (int n) = ok n
int_of (bool b) = ok (pos (if b then 1 else 0))
int_of _ = err type_error

abbrev pub int16_of : Value → Result ℤ
int16_of (str s) = to_int16 (codes s)
int16_of _ = err type_error

-- `int(v[start:stop], 16)`, of the place and the length of the part
abbrev pub int16_part : ℕ → ℕ → Value → Result ℤ
int16_part start size (str s) = to_int16 (take size (drop start (codes s)))
int16_part start size _ = err type_error

-- a container of octets, of a value that may be no text
abbrev octets_of : (String → Result (List ℤ)) → Value → Result (List ℤ)
octets_of read (str s) = read s
octets_of read v = do vs ← values_of v; if length vs == 0 then ok [] else err type_error

-- `value.isdigit()` and `int(value)`
abbrev all_digits : List ℕ → Bool
all_digits [] = true
all_digits (c ∷ s) = leb b'0' c && leb c b'9' && all_digits s

abbrev digits_of : Value → Result (Option ℤ)
digits_of (str s) = if all_digits (codes s) then (do n ← to_int s; ok (some n)) else ok none
digits_of _ = err attribute_error

-- the values of `OperationMode`
abbrev pub operation_modes : List String
operation_modes =
    "running" ∷ "waiting" ∷ "autokeepwarm" ∷ "cooking" ∷ "finish" ∷ "finisha" ∷ "keepwarm"
    ∷ "keep_temp" ∷ "notice" ∷ "offline" ∷ "online" ∷ "precook" ∷ "resume" ∷ "resumep" ∷ "start"
    ∷ "startp" ∷ "Отмена" ∷ []

abbrev is_one_of : String → List String → Bool
is_one_of s [] = false
is_one_of s (t ∷ texts) = str_eq s t || is_one_of s texts

abbrev pub mode_of : Value → Result String
mode_of (str s) = if is_one_of s operation_modes then ok s else err value_error
mode_of _ = err value_error

module _ (d : Dict String Value) where
  unfoldable pub mode : Result String
  mode = mode_of (data_of d "func")

  unfoldable pub menu : Result ℤ
  menu = int16_of (data_of d "menu")

  unfoldable pub stage : Result (Option Value)
  stage = do
    let v = data_of d "stage"
    vs ← values_of v
    ok (if length vs == 10 then some v else none)

  unfoldable pub temperature : Result (Option ℤ)
  temperature = do
    let v = data_of d "temp"
    vs ← values_of v
    if length vs == 2 then digits_of v else ok none

  unfoldable pub start_time : Result (Option (ℕ × ℕ))
  start_time = do
    let v = data_of d "temp"
    vs ← values_of v
    let read : Result (Option (ℕ × ℕ)) = (do
      hour ← int16_part 4 2 v
      minute ← int16_part 6 2 v
      t ← time hour minute
      ok (some t))
    if length vs == 8 then read else ok none

  unfoldable pub remaining : Result ℤ
  remaining = int_of (data_of d "t_func")

  unfoldable pub cooking_delayed : Result (Option ℤ)
  cooking_delayed = do delay ← int_of (data_of d "t_precook"); ok (not_negative delay)
    where
      not_negative : ℤ → Option ℤ
      not_negative (pos n) = some (pos n)
      not_negative (negsuc n) = none

  unfoldable pub duration : Result ℤ
  duration = int_of (data_of d "t_cook")

  abbrev given_or : Result (List ℤ) → (String → Result (List ℤ)) → Value → Result (List ℤ)
  given_or default read null = default
  given_or default read v = octets_of read v

  unfoldable pub status_settings : Result (List ℤ)
  status_settings =
      given_or (cooker_settings none) (λ s. cooker_settings (some s)) (data_of d "setting")

  unfoldable pub status_timeouts : Result (List ℤ)
  status_timeouts =
      given_or (interaction_timeouts none) (λ s. interaction_timeouts (some s)) (data_of d "delay")

  unfoldable pub hardware_version : Result ℤ
  hardware_version = int16_part 0 4 (data_of d "version")

  unfoldable pub firmware_version : Result ℤ
  firmware_version = int16_part 4 4 (data_of d "version")

  unfoldable pub favorite : Result ℤ
  favorite = int16_of (data_of d "favorite")

  unfoldable pub custom : Result (Option (List ℤ))
  custom = do
    let v = data_of d "custom"
    vs ← values_of v
    let read : Result (Option (List ℤ)) = (do c ← octets_of customizations v; ok (some c))
    if ltb 31 (length vs) then read else ok none

-- `data[0]`
abbrev first_of : Value → Result Value
first_of (arr nil) = err index_error
first_of (arr (cons v vs)) = ok v
first_of (str String.[]) = err index_error
first_of (str (String.◌∷◌ c s)) = ok (str (String.◌∷◌ c String.[]))
first_of (obj fs) = err key_error
first_of _ = err type_error

-- `TemperatureHistory` of a value that may be no text
abbrev history_of : Value → Result (List ℤ)
history_of (str s) = temperature_history s
history_of v = do
  vs ← values_of v
  if length vs % 2 == 0 then octets_of temperature_history v else ok []

module _ {S : Type 0} (t : Transport S) where
  -- `status`; how many values there are is only logged
  unfoldable pub status : Action S (Dict String Value)
  unfolding zipped
  status =
      and_then (call_with t "get_prop" (arr (cons (str "all") nil)))
        (λ answer. pure (do values ← values_of answer; ok (zipped properties values)))

  unfoldable pub get_temperature_history : Action S (List ℤ)
  get_temperature_history =
      and_then (call t "get_temp_history") (λ answer. pure (do v ← first_of answer; history_of v))
