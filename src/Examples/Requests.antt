-- ===== src/Examples/Requests.antt =====
-- Properties and info, asked for over a transport that answers.
use python_miio.Base.{◌≡◌, some, List, [], ◌∷◌, arith}
use python_miio.Python.Value.{Value, str}
use python_miio.Device.Transport.{Transport}
use python_miio.Device.Properties.{get_properties}
use python_miio.Device.Slicing.{recorder, slices, asked_in_turn, get_properties-slices}

-- A device that answers with the names of the properties.
abbrev echo : Value → Value
echo v = v

abbrev echoes : Transport (List (List Value))
echoes = recorder echo

abbrev three : List Value
three = str "power" ∷ str "mode" ∷ str "speed" ∷ []

get_properties-slices_example :
    get_properties echoes "get_prop" 3 (some 2) three []
    ≡ asked_in_turn echoes "get_prop" (slices 2 three 0 2) [] []
get_properties-slices_example =
    get_properties-slices echoes "get_prop" 2 2 three [] (omega arith) (omega arith) (omega arith)
