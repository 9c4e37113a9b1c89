-- ===== src/Miot/Generic/Spec.antt =====
-- What `GenericMiot` should make of a model: the descriptors of its services, one after the other, and the
-- requests for what can be read.
use python_miio.Base.{List, [], ◌∷◌, ◌++◌, if◌then◌else◌}
use python_miio.Base.Int.{pos, eq_ℤ}
use python_miio.Python.Value.{Value}
use python_miio.Python.Result.{Result, ok, err, map_ok}
use python_miio.Descriptors.Defs.{Descriptor}
use python_miio.Miot.Schema.{MiotProperty, MiotAction, read, has_access}
use python_miio.Miot.Describe.{property_descriptor}
use python_miio.Miot.Service.{MiotService}
use python_miio.Miot.Generic.{
  Bound, Schemas, status_request, is_skipped, with_setter, create_action,
}

abbrev pub both : {A : Type 0} → Result (List A) → Result (List A) → Result (List A)
both (err e) second = err e
both (ok xs) (err e) = err e
both (ok xs) (ok ys) = ok (xs ++ ys)

abbrev pub one : {A : Type 0} → Result A → Result (List A)
one (err e) = err e
one (ok x) = ok (x ∷ [])

module _ (c : Schemas) where
  abbrev pub described_actions :
      List (MiotAction (List MiotProperty)) → Result (List (Descriptor Bound))
  described_actions [] = ok []
  described_actions (act ∷ acts) = both (one (create_action c act)) (described_actions acts)

  abbrev pub described_property : MiotProperty → Result (List (Descriptor Bound))
  described_property prop =
      if is_skipped prop.access
      then ok []
      else one (map_ok (with_setter prop) (property_descriptor c.make_enum prop))

  abbrev pub described_properties : List MiotProperty → Result (List (Descriptor Bound))
  described_properties [] = ok []
  described_properties (prop ∷ props) = both (described_property prop) (described_properties props)

  abbrev pub described_service : MiotService → Result (List (Descriptor Bound))
  described_service serv =
      if eq_ℤ serv.siid (pos 1)
      then ok []
      else both (described_actions serv.actions) (described_properties serv.properties)

  abbrev pub described_services : List MiotService → Result (List (Descriptor Bound))
  described_services [] = ok []
  described_services (serv ∷ servs) = both (described_service serv) (described_services servs)

abbrev pub property_queries : MiotProperty → List Value
property_queries prop = if has_access read prop.access then status_request prop ∷ [] else []

abbrev pub readable : List MiotProperty → List Value
readable [] = []
readable (prop ∷ props) = property_queries prop ++ readable props

abbrev pub service_queries : MiotService → List Value
service_queries serv = if eq_ℤ serv.siid (pos 1) then [] else readable serv.properties

abbrev pub queries : List MiotService → List Value
queries [] = []
queries (serv ∷ servs) = service_queries serv ++ queries servs
