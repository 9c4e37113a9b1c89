-- ===== src/Simulator/Refinement.antt =====
-- The simulator of miio/devtools/simulators/miotsimulator.py against a map of properties.
use python_miio.Base.{
  ◌≡◌, refl, ap, subst, ◌∙◌, Bool-cases, Option-cases, none, some, inl, inr, List, [], ◌∷◌,
  if◌then◌else◌,
}
use python_miio.Python.Value.{Value, Fields, obj, arr, str, int, bool, null}
use python_miio.Python.Dict.{lookup, insert, lookup-insert}
use python_miio.Python.Result.{Error, Result, ok, err, key_error, or_raise, map_ok}
use python_miio.Python.Action.{Action, pure, modify, resume, ◌>>=◌}
use python_miio.Base.{String}
use python_miio.Miot.Generic.Status.{Hashed, same_hashed, same_hashed_iff, hashed}
use python_miio.Simulator.Property.{Builtins, SimulatedMiotProperty, assign}
use python_miio.Simulator.State.{
  SimulatorState, hashed_eq, found_or_empty, touched, located, put_property, get_one, get_all,
  get_properties, set_one, set_all, set_properties, request_field, params_of, hashed_field,
}
use python_miio.Simulator.View.{
  View, view, view_located, put_view, view_get_one, view_get_all, view_get_properties, view_set_one,
  view_set_all, view_set_properties, view_answered,
}

-- What a step on the state is to a client: its result, and the view of what it leaves.
abbrev pub seen : {A : Type 0} → Result A × SimulatorState → Result A × View
seen (r, s) = (r, view s)

pub record Refines {A : Type 0} (m : Action SimulatorState A) (v : Action View A) : Type 0 where
  pub sees : (s : SimulatorState) → seen (m s) ≡ v (view s)

pure-Refines : {A : Type 0} (r : Result A) → Refines (pure r) (pure r)
pure-Refines r = record { sees = λ s. refl }

>>=-Refines :
    {A B : Type 0} (m : Action SimulatorState A) (v : Action View A)
    (f : A → Action SimulatorState B) (g : A → Action View B)
    → Refines m v
    → ((a : A) → Refines (f a) (g a))
    → Refines (m >>= f) (v >>= g)
>>=-Refines {A} {B} m v f g first rest = record {
  sees = λ s. after (m s).0 (m s).1 ∙ ap (λ out. resume out.0 g out.1) (first.sees s);
}
  where
    after : (r : Result A) (s' : SimulatorState) → seen (resume r f s') ≡ resume r g (view s')
    after (ok a) s' = (rest a).sees s'
    after (err e) s' = refl

-- Looking a siid up shows nothing.
touched_same :
    (siid : Hashed) (s : SimulatorState) (i j : Hashed)
    → view (touched siid (lookup siid s) s) i j ≡ view s i j
unfolding lookup
touched_same siid s i j = elim (Option-cases (lookup siid s)) [
  | inl new ↦ elim (Bool-cases (same_hashed siid i)) [
    | inl same ↦
        (let gone : lookup i s ≡ none =
            subst (λ k. lookup k s ≡ none) ((same_hashed_iff siid i).0 same) new in
          rw (new, lookup-insert siid i [] s, same, gone) refl)
    | inr other ↦ rw (new, lookup-insert siid i [] s, other)
  ]
  | inr (props, there) ↦ rw there refl
]

-- Writing a property is seen at its place only.
put_seen :
    (siid piid : Hashed) (prop : SimulatedMiotProperty) (s : SimulatorState) (i j : Hashed)
    → view (put_property siid piid prop s) i j ≡ put_view siid piid prop (view s) i j
put_seen siid piid prop s i j = elim (Bool-cases (same_hashed siid i)) [
  | inl same ↦
      rw
        (
          lookup-insert siid i (insert piid prop (found_or_empty (lookup siid s))) s,
          same,
          lookup-insert piid j prop (found_or_empty (lookup siid s)),
        )
        (ap (λ k. if same_hashed piid j then some prop else lookup j (found_or_empty (lookup k s)))
          ((same_hashed_iff siid i).0 same))
  | inr other ↦
      rw (lookup-insert siid i (insert piid prop (found_or_empty (lookup siid s))) s, other) refl
]

view-touched : (siid : Hashed) (s : SimulatorState) → view (touched siid (lookup siid s) s) ≡ view s
view-touched siid s k i j = touched_same siid s i j k

put_view_lem :
    (siid piid : Hashed) (prop : SimulatedMiotProperty)
    → Refines (modify (put_property siid piid prop)) (modify (put_view siid piid prop))
put_view_lem siid piid prop = record {
  sees = λ s k. (ok tt, λ i j. put_seen siid piid prop s i j k);
}

located-Refines : (siid piid : Result Hashed) → Refines (located siid piid) (view_located siid piid)
unfolding located
located-Refines (err e) piid = record { sees = λ s. refl }
located-Refines (ok siid) (err e) = record { sees = λ s k. (err e, view-touched siid s k) }
located-Refines (ok siid) (ok piid) = record {
  sees = λ s k. (
    map_ok (λ prop. (siid, piid, prop)) (or_raise (view s siid piid) key_error),
    view-touched siid s k,
  );
}

module _ (describe : Error → Fields → String) where
  get_one-Refines : (p : Value) → Refines (get_one describe p) (view_get_one describe p)
  unfolding get_one
  get_one-Refines (obj p) =
      let found =
        located-Refines (hashed_field describe "siid" p) (hashed_field describe "piid" p) in
      record { sees = λ s. ap (view_answered describe p) (found.sees s) }
  get_one-Refines (arr _) = record { sees = λ s. refl }
  get_one-Refines (str _) = record { sees = λ s. refl }
  get_one-Refines (int _) = record { sees = λ s. refl }
  get_one-Refines (bool _) = record { sees = λ s. refl }
  get_one-Refines null = record { sees = λ s. refl }

  get_all-Refines :
      (params : List Value) → Refines (get_all describe params) (view_get_all describe params)
  unfolding get_all
  get_all-Refines [] = pure-Refines (ok [])
  get_all-Refines (p ∷ params) = >>=-Refines _ _ _ _ (get_one-Refines p) (λ res.
      >>=-Refines _ _ _ _ (get_all-Refines params) (λ response. pure-Refines (ok (res ∷ response))))

  pub get_properties-Refines :
      (payload : Value)
      → Refines (get_properties describe payload) (view_get_properties describe payload)
  unfolding get_properties
  get_properties-Refines payload =
      >>=-Refines _ _ _ _ (pure-Refines (params_of payload))
        (λ params. >>=-Refines _ _ _ _ (get_all-Refines params) (λ response. pure-Refines _))

module _ (b : Builtins) where
  set_one-Refines : (param : Value) → Refines (set_one b param) (view_set_one b param)
  unfolding set_one
  set_one-Refines param = >>=-Refines _ _ _ _ (pure-Refines (request_field "siid" param)) (λ siid.
      >>=-Refines _ _ _ _ (pure-Refines (request_field "piid" param)) (λ piid.
        >>=-Refines _ _ _ _ (pure-Refines (request_field "value" param)) (λ value.
          >>=-Refines _ _ _ _ (located-Refines (hashed siid) (hashed piid)) (λ found.
            >>=-Refines _ _ _ _ (pure-Refines (assign b found.2 value))
              (λ prop. put_view_lem found.0 found.1 prop)))))

  set_all-Refines : (params : List Value) → Refines (set_all b params) (view_set_all b params)
  unfolding set_all
  set_all-Refines [] = pure-Refines (ok tt)
  set_all-Refines (param ∷ params) =
      >>=-Refines _ _ _ _ (set_one-Refines param) (λ done. set_all-Refines params)

  pub set_properties-Refines :
      (payload : Value) → Refines (set_properties b payload) (view_set_properties b payload)
  unfolding set_properties
  set_properties-Refines payload =
      >>=-Refines _ _ _ _ (pure-Refines (params_of payload))
        (λ params. >>=-Refines _ _ _ _ (set_all-Refines params) (λ done. pure-Refines _))
