-- ===== src/Device/Properties.antt =====
-- `Device.get_properties`: the requested properties are sent in slices. The comparison of the two
-- counts at its end only logs, and is left out.
use python_miio.Base.{ℕ, zero, suc, String, Option, none, some, List, [], ◌∷◌, ◌++◌, take, drop}
use python_miio.Python.Value.{Value, arr, of_list}
use python_miio.Python.Result.{ok}
use python_miio.Python.Action.{Action, pure, ◌>>=◌}
use python_miio.Device.Transport.{Transport, call_with}
use python_miio.Device.Sequence.{iterate}

-- `_props[:max_properties]`
abbrev pub slice : Option ℕ → List Value → List Value
slice none props = props
slice (some n) props = take n props

module _ {S : Type 0} (t : Transport S) (property_getter : String) where
  -- `values.extend(self.send(property_getter, _props[:max_properties]))`
  unfoldable pub request_slice : List Value → List Value → Action S (List Value)
  request_slice props values = do
    answer ← call_with t property_getter (arr (of_list props))
    more ← pure (iterate answer)
    pure (ok (values ++ more))

  -- The loop `while _props`. On fuel: `none` says that it is not over after as many rounds.
  unfoldable pub collect : ℕ → Option ℕ → List Value → List Value → Action S (Option (List Value))
  collect fuel max_properties [] values = pure (ok (some values))
  collect zero max_properties (p ∷ props) values = pure (ok none)
  collect (suc fuel) none (p ∷ props) values = do
    values' ← request_slice (p ∷ props) values
    pure (ok (some values'))
  collect (suc fuel) (some n) (p ∷ props) values = do
    values' ← request_slice (take n (p ∷ props)) values
    collect fuel (some n) (drop n (p ∷ props)) values'

  -- `get_properties(properties, property_getter=…, max_properties=…)` for at most `fuel` rounds
  unfoldable pub get_properties : ℕ → Option ℕ → List Value → Action S (Option (List Value))
  get_properties fuel max_properties props = collect fuel max_properties props []
