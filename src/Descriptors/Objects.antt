-- ===== src/Descriptors/Objects.antt =====
-- miio/descriptorcollection.py: `DescriptorCollection` over descriptor objects. A decorator makes one
-- object for the class, and adding writes that object, whoever else holds it.
use python_miio.Base.{ℕ, String, Option, none, some, List, [], ◌∷◌, ◌++◌, ◌==◌, if◌then◌else◌}
use python_miio.Python.Dict.{Dict, text_eq, insert}
use python_miio.Python.Result.{Result, ok, err, runtime_error}
use python_miio.Python.Action.{Action, pure, ◌>>=◌}
use python_miio.Descriptors.Defs.{Kind, plain, action, property, Descriptor}
use python_miio.Descriptors.FreeId.{get_free_id}
use python_miio.Descriptors.Collection.{Host, Collection, handle_kind}

-- `self.data` holds references; `objects` are all the descriptor objects there are.
pub record Space (M : Type 0) : Type 0 where
  pub objects : ℕ → Descriptor M
  pub entries : Dict String ℕ

abbrev pub entry_refs : Dict String ℕ → List ℕ
entry_refs [] = []
entry_refs ((k, r) ∷ entries) = r ∷ entry_refs entries

module _ {M : Type 0} where
  abbrev pub seen : (ℕ → Descriptor M) → Dict String ℕ → Collection M
  seen objects [] = []
  seen objects ((k, r) ∷ entries) = (k, objects r) ∷ seen objects entries

  -- the collection as its users see it
  abbrev pub view : Space M → Collection M
  view s = seen s.objects s.entries

  abbrev pub write : ℕ → Descriptor M → Space M → Space M
  write r desc s = record s { objects = λ q. if q == r then desc else s.objects q }

  -- `prop_desc.method = method`
  abbrev pub with_method : M → Descriptor M → Descriptor M
  with_method m desc = elim desc.kind [
    | action method method_name ↦ record desc { kind = action (some m) method_name }
    | plain ↦ desc
    | property setter setter_name constraint ↦ desc
  ]

  -- the loop over the members with a descriptor, in the order of `getmembers`
  unfoldable pub bind_methods : List (M × ℕ) → Space M → Space M
  bind_methods [] s = s
  bind_methods ((m, r) ∷ members) s = bind_methods members (write r (with_method m (s.objects r)) s)

  abbrev pub member_refs : List (M × ℕ) → List ℕ
  member_refs [] = []
  member_refs ((m, r) ∷ members) = r ∷ member_refs members

  -- `self.data[descriptor.id] = descriptor`, unless binding has raised
  abbrev pub store_reference : String → ℕ → Result (Unit {0}) → Action (Space M) (Unit {0})
  store_reference id' r (err e) s = (err e, s)
  store_reference id' r (ok u) s = (ok tt, record s { entries = insert id' r s.entries })

  -- `descriptor.id = …`, and what the handlers have written
  abbrev pub bind_object : ℕ → String → Result (Unit {0}) × Kind M → Action (Space M) (Unit {0})
  bind_object r id' (result, kind') s =
      store_reference id' r result (write r (record (s.objects r) { id = id'; kind = kind' }) s)

module _ {M : Type 0} (host : Host M) where
  -- A search without an end would be `runtime_error`; there is none.
  abbrev pub add_under : ℕ → Option String → Action (Space M) (Unit {0})
  add_under r none s = (err runtime_error, s)
  add_under r (some id') s =
      bind_object r id' (handle_kind host (s.objects r).access (s.objects r).kind) s

  -- `add_descriptor`
  unfoldable pub add_descriptor : ℕ → Action (Space M) (Unit {0})
  add_descriptor r s = add_under r (get_free_id (s.objects r).id s.entries) s

  -- the loop at the end of `descriptors_from_object`
  unfoldable pub add_all : List ℕ → Action (Space M) (Unit {0})
  add_all [] = pure (ok tt)
  add_all (r ∷ refs) = add_descriptor r >>= λ _. add_all refs

  -- `descriptors_from_object`, from the values of the object's `_descriptors` and from its members that
  -- carry a descriptor
  unfoldable pub descriptors_from_object : List ℕ → List (M × ℕ) → Action (Space M) (Unit {0})
  descriptors_from_object own members s =
      add_all (own ++ member_refs members) (bind_methods members s)
