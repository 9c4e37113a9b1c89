-- ===== src/Examples/Cooking.antt =====
-- The settings and the status of a cooker.
use python_miio.Base.{String, ◌≡◌, ◌≢◌, refl, true, some, List, [], ◌∷◌, map, get_elem?, arith}
use python_miio.Base.Int.{ℤ, pos}
use python_miio.Python.Result.{ok}
use python_miio.Cooker.Containers.{
  octets_text, interaction_timeouts, customizations, temperature_history,
}
use python_miio.Cooker.Settings.{Flag, cooker_settings, get_flag, set_flag, octet_of}
use python_miio.Cooker.Flags.{set_flag_lem}
use python_miio.Python.Value.{Value, arr, str, of_list}
use python_miio.Python.Dict.{Dict}
use python_miio.Device.Transport.{Transport}
use python_miio.Cooker.Status.{status}
use python_miio.Cooker.Reading.{IsReadByPlace, status_lem}
use python_miio.Cooker.Printed.{octets_text-read}

-- 1407
abbrev stored_flags : List ℤ
stored_flags = pos 20 ∷ pos 7 ∷ []

led_octet : get_elem? stored_flags (octet_of Flag.led_on) ≡ some (pos 20)
unfolding octet_of
led_octet = refl

set_flag_lem_example :
    (after : List ℤ) × (set_flag Flag.led_on true stored_flags ≡ ok after)
    × (get_flag Flag.led_on after ≡ ok true)
    × ((g : Flag) → Flag.led_on ≢ g → get_flag g after ≡ get_flag g stored_flags)
set_flag_lem_example = set_flag_lem Flag.led_on true stored_flags 20 led_octet (omega arith)

octets_text-read_example :
    let text = octets_text (map pos (20 ∷ 7 ∷ [])) in
    (cooker_settings (some text) ≡ ok (map pos (20 ∷ 7 ∷ [])))
    × (interaction_timeouts (some text) ≡ ok (map pos (20 ∷ 7 ∷ [])))
    × (customizations text ≡ ok (map pos (20 ∷ 7 ∷ [])))
    × (temperature_history text ≡ ok (map pos (20 ∷ 7 ∷ [])))
octets_text-read_example = octets_text-read (20 ∷ 7 ∷ []) (omega arith, (omega arith, tt))

abbrev cooker : Transport (List (List Value))
cooker = record { send = λ command parameters retries extra s. (ok answer, s) }
  where
    answer : Value
    answer = arr (of_list (str "waiting" ∷ str "0001" ∷ []))

status_lem_example :
    (d : Dict String Value) × (status cooker [] ≡ (ok d, []))
    × IsReadByPlace (str "waiting" ∷ str "0001" ∷ []) d
status_lem_example = status_lem cooker (str "waiting" ∷ str "0001" ∷ []) [] [] refl
