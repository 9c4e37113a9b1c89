-- ===== src/Cooker/Containers.antt =====
-- `TemperatureHistory`, `CookerCustomizations`, `CookingStage` and `InteractionTimeouts`.
use Prim.Native.Char.{Char}
use Prim.Native.String.{◌++◌}
use python_miio.Base.{
  ℕ, zero, suc, ◌/◌, ◌%◌, String, ◌&&◌, List, [], ◌∷◌, Option, none, some, length, get_elem?, take,
  drop, ltb, ◌==◌, if◌then◌else◌,
}
use python_miio.Base.Int.{ℤ, pos, negsuc, leb_ℤ}
use python_miio.Base.Text.{codes}
use python_miio.Python.Dict.{Dict, number_eq, lookup}
use python_miio.Python.Number.{to_int16}
use python_miio.Python.Result.{Result, ok, err, value_error, index_error, or_raise, ◌>>=◌}
use python_miio.PushServer.Events.{nth_char}

-- `[int(s[i : i + 2], 16) for i in range(0, len(s), 2)]`
unfoldable pub octets : List ℕ → Result (List ℤ)
octets [] = ok []
octets (c ∷ []) = do n ← to_int16 (c ∷ []); ok (n ∷ [])
octets (c ∷ d ∷ s) = do n ← to_int16 (c ∷ d ∷ []); rest ← octets s; ok (n ∷ rest)

abbrev pub digit_char : ℕ → Char
digit_char = nth_char "0123456789abcdef"

-- `f"{n:x}"` of a number, in front of digits. On fuel: one step more than the number is enough.
unfoldable pub hex_number : ℕ → ℕ → String → String
hex_number zero n digits = digits
hex_number (suc fuel) n digits =
    let rest = hex_number fuel (n / 16) (String.◌∷◌ (digit_char (n % 16)) digits) in
    if ltb n 16 then String.◌∷◌ (digit_char n) digits else rest

-- `f"{value:x}"`
unfoldable pub hex_of : ℤ → String
unfolding hex_number
hex_of (pos n) = hex_number (suc n) n ""
hex_of (negsuc n) = "-" ++ hex_number (suc (suc n)) (suc n) ""

-- `f"{value:02x}"`: the sign counts as a character
unfoldable pub octet_text : ℤ → String
unfolding hex_of
octet_text (pos n) = if ltb n 16 then String.◌∷◌ "0" (hex_of (pos n)) else hex_of (pos n)
octet_text (negsuc n) = hex_of (negsuc n)

-- `"".join([f"{value:02x}" for value in values])`
unfoldable pub octets_text : List ℤ → String
octets_text [] = ""
octets_text (v ∷ values) = octet_text v ++ octets_text values

-- `TemperatureHistory.data`: a text of odd length has none
unfoldable pub temperature_history : String → Result (List ℤ)
unfolding octets
temperature_history text = if length (codes text) % 2 == 0 then octets (codes text) else ok []

-- `time(hour=hour, minute=minute)`, which raises out of range
unfoldable pub time : ℤ → ℤ → Result (ℕ × ℕ)
time (pos hour) (pos minute) =
    if ltb hour 24 && ltb minute 60 then ok (hour, minute) else err value_error
time _ _ = err value_error

-- `CookerCustomizations.custom`
unfoldable pub customizations : String → Result (List ℤ)
unfolding octets
customizations custom = octets (codes custom)

-- the six times of `CookerCustomizations`, by the place of their hour
unfoldable pub time_at : ℕ → List ℤ → Result (ℕ × ℕ)
unfolding time
time_at place custom = do
  hour ← or_raise (get_elem? custom place) index_error
  minute ← or_raise (get_elem? custom (suc place)) index_error
  time hour minute

abbrev pub jingzhu_appointment : List ℤ → Result (ℕ × ℕ)
jingzhu_appointment = time_at 0

abbrev pub kuaizhu_appointment : List ℤ → Result (ℕ × ℕ)
kuaizhu_appointment = time_at 2

abbrev pub zhuzhou_appointment : List ℤ → Result (ℕ × ℕ)
zhuzhou_appointment = time_at 4

abbrev pub zhuzhou_cooking : List ℤ → Result (ℕ × ℕ)
zhuzhou_cooking = time_at 6

abbrev pub favorite_appointment : List ℤ → Result (ℕ × ℕ)
favorite_appointment = time_at 8

abbrev pub favorite_cooking : List ℤ → Result (ℕ × ℕ)
favorite_cooking = time_at 10

-- `CookingStage`: `state`, `rice_id` and `taste`
unfoldable pub stage_state : String → Result ℤ
stage_state stage = to_int16 (take 2 (codes stage))

unfoldable pub rice_id : String → Result ℤ
rice_id stage = to_int16 (take 4 (drop 2 (codes stage)))

unfoldable pub taste : String → Result ℤ
taste stage = to_int16 (take 2 (drop 6 (codes stage)))

-- `int(taste / 33)`, which drops the fraction of a negative number too
abbrev thirds : ℤ → ℤ
thirds (pos n) = pos (n / 33)
thirds (negsuc n) = negative (suc n / 33)
  where
    negative : ℕ → ℤ
    negative zero = pos 0
    negative (suc m) = negsuc m

unfoldable pub taste_phase : String → Result ℤ
unfolding taste
taste_phase stage = do n ← taste stage; ok (if leb_ℤ (thirds n) (pos 2) then thirds n else pos 2)

-- `COOKING_STAGES`
abbrev pub cooking_stages : Dict ℕ (String × String)
cooking_stages =
    (0, ("Quickly preheat", "Increase temperature in a controlled manner to soften rice gradually"))
    ∷ (1, ("Water-absorbing", "Increase temperature, to flesh grains with water"))
    ∷ (2, ("Boiling", "Last high heating, to cook rice evenly"))
    ∷ (3, ("Gelantinizing", "Steaming under high temperature, to bring sweetness to grains"))
    ∷ (4, ("Braising", "Absorb water at moderate temperature"))
    ∷ (5, ("Boiling", "Operate at full load to boil rice"))
    ∷ (7, ("Boiling", "Operate at full load to boil rice"))
    ∷ (
      8,
      (
        "Warm up rice",
        "Temperature control adjustment and cyclic heating achieve combination of taste, dolor and nutrition",
      ),
    )
    ∷ (
      10,
      (
        "High temperature gelatinization",
        "High-temperature steam generates crystal clear rice g...",
      ),
    )
    ∷ (16, ("Cooking finished", ""))
    ∷ []

abbrev stage_at : ℤ → Option (String × String)
stage_at (pos n) = lookup n cooking_stages
stage_at (negsuc n) = none

abbrev name_in : Option (String × String) → String
name_in none = "Unknown stage"
name_in (some (name, _)) = name

abbrev description_in : Option (String × String) → String
description_in none = ""
description_in (some (_, description)) = description

unfoldable pub stage_name : String → Result String
unfolding stage_state
stage_name stage = do n ← stage_state stage; ok (name_in (stage_at n))

unfoldable pub stage_description : String → Result String
unfolding stage_state
stage_description stage = do n ← stage_state stage; ok (description_in (stage_at n))

-- `InteractionTimeouts.timeouts`
unfoldable pub interaction_timeouts : Option String → Result (List ℤ)
unfolding octets
interaction_timeouts none = ok (pos 5 ∷ pos 4 ∷ pos 15 ∷ [])
interaction_timeouts (some timeouts) = octets (codes timeouts)

-- `led_off`, `lid_open` and `lid_open_warning`, by their places 0, 1 and 2
unfoldable pub timeout : ℕ → List ℤ → Result ℤ
timeout place timeouts = or_raise (get_elem? timeouts place) index_error

-- `values[place] = value`
unfoldable pub store : ℕ → ℤ → List ℤ → Result (List ℤ)
store place value [] = err index_error
store zero value (v ∷ values) = ok (value ∷ values)
store (suc place) value (v ∷ values) = do rest ← store place value values; ok (v ∷ rest)
