-- ===== src/Simulator/Runs.antt =====
-- Sequences of calls of the simulator in miio/devtools/simulators/miotsimulator.py.
use python_miio.Base.{◌≡◌, refl, ap, ◌∙◌, String, List, [], ◌∷◌}
use python_miio.Python.Value.{Value, Fields}
use python_miio.Python.Result.{Error, Result}
use python_miio.Python.Action.{Action}
use python_miio.Simulator.Property.{Builtins}
use python_miio.Simulator.State.{SimulatorState, get_properties, set_properties}
use python_miio.Simulator.View.{View, view, view_get_properties, view_set_properties}
use python_miio.Simulator.Refinement.{Refines, get_properties-Refines, set_properties-Refines}

-- the methods that the simulator's server is given, with a payload
pub data Call : Type 0 where
  get_call set_call : Value → Call

module _ (describe : Error → Fields → String) (b : Builtins) where
  unfoldable pub handle : Call → Action SimulatorState Value
  handle (get_call payload) = get_properties describe payload
  handle (set_call payload) = set_properties b payload

  abbrev view_handle : Call → Action View Value
  view_handle (get_call payload) = view_get_properties describe payload
  view_handle (set_call payload) = view_set_properties b payload

  -- what the calls return or raise, one after the other
  unfoldable pub responses : List Call → SimulatorState → List (Result Value)
  responses [] s = []
  responses (call ∷ calls) s = (handle call s).0 ∷ responses calls (handle call s).1

  abbrev pub view_responses : List Call → View → List (Result Value)
  view_responses [] v = []
  view_responses (call ∷ calls) v =
      (view_handle call v).0 ∷ view_responses calls (view_handle call v).1

  handle-Refines : (call : Call) → Refines (handle call) (view_handle call)
  unfolding handle
  handle-Refines (get_call payload) = get_properties-Refines describe payload
  handle-Refines (set_call payload) = set_properties-Refines b payload

  -- Whatever calls of `get_properties` and `set_properties` the simulator is sent, with whatever payloads,
  -- it answers each, and raises, as a map from siid and piid to properties would: entries that it makes
  -- while looking up show in no answer.
  pub responses_refined :
      (calls : List Call) (s : SimulatorState) → responses calls s ≡ view_responses calls (view s)
  unfolding responses
  responses_refined [] s = refl
  responses_refined (call ∷ calls) s =
      ap (λ rest. (handle call s).0 ∷ rest) (responses_refined calls (handle call s).1)
      ∙ ap (λ out. out.0 ∷ view_responses calls out.1) ((handle-Refines call).sees s)
