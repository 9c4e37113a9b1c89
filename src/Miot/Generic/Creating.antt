-- ===== src/Miot/Generic/Creating.antt =====
-- What creating the descriptors of a `GenericMiot` leaves.
use python_miio.Base.{
  ◌≡◌, refl, sym, ap, ◌∙◌, false, none, some, List, [], ◌∷◌, ◌++◌, append_assoc, append-nil,
}
use python_miio.Python.Value.{Value}
use python_miio.Python.Dict.{text_eq}
use python_miio.Python.Result.{Result, ok, err}
use python_miio.Python.Action.{Action, pure, resume, ◌>>=◌}
use python_miio.Descriptors.Defs.{
  AccessFlags, Constraint, unset, range, choice, Kind, plain, action, property, Descriptor,
}
use python_miio.Descriptors.FreeId.{get_free_id_lem}
use python_miio.Descriptors.Collection.{
  Host, Collection, lacks_setter, handle_kind, prepare_descriptor, add_fresh, add_all_fresh, bind,
  handle_constraints,
}
use python_miio.Miot.Generic.{Bound, Schemas, GenericMiot, add_created}
use python_miio.Miot.Generic.Spec.{both}

-- A constraint that names no attribute of the device.
abbrev pub IsOwn : Constraint → Type 0
IsOwn unset = Unit
IsOwn (range r none) = Unit
IsOwn (range r (some attribute)) = ⊥
IsOwn (choice none attribute) = ⊥
IsOwn (choice (some cs) none) = Unit
IsOwn (choice (some cs) (some attribute)) = ⊥

module _ {M : Type 0} where
  -- A kind that needs nothing of the device any more.
  abbrev pub IsComplete : AccessFlags → Kind M → Type 0
  IsComplete access plain = ⊥
  IsComplete access (action (some m) none) = Unit
  IsComplete access (action none name) = ⊥
  IsComplete access (action (some m) (some name)) = ⊥
  IsComplete access (property setter none constraint) =
      (lacks_setter access setter ≡ false) × IsOwn constraint
  IsComplete access (property setter (some name) constraint) = ⊥

  handle_complete :
      (host : Host M) (access : AccessFlags) (kind : Kind M)
      → IsComplete access kind
      → handle_kind host access kind ≡ (ok tt, kind)
  unfolding handle_kind handle_constraints bind
  handle_complete host access (action (some m) none) w = refl
  handle_complete host access plain w = absurd w
  handle_complete host access (action none name) w = absurd w
  handle_complete host access (action (some m) (some name)) w = absurd w
  handle_complete host access (property setter (some name) constraint) w = absurd w
  handle_complete host access (property setter none (range r (some attribute))) (h, w) = absurd w
  handle_complete host access (property setter none (choice none attribute)) (h, w) = absurd w
  handle_complete host access (property setter none (choice (some cs) (some attribute))) (h, w) =
      absurd w
  handle_complete host access (property setter none unset) (h, w) = rw h
  handle_complete host access (property setter none (range r none)) (h, w) = rw h
  handle_complete host access (property setter none (choice (some cs) none)) (h, w) = rw h

  -- A complete descriptor is always added.
  add_complete :
      (host : Host M) (desc : Descriptor M) (d : Collection M)
      → IsComplete desc.access desc.kind
      → (add_fresh host desc d).0 ≡ ok tt
  unfolding add_fresh prepare_descriptor
  add_complete host desc d w =
      let (id', found, _, _) = get_free_id_lem desc.id d in
      rw (found, handle_complete host desc.access desc.kind w)

  add_all_one :
      (host : Host M) (desc : Descriptor M) (d : Collection M)
      → (add_fresh host desc d).0 ≡ ok tt
      → add_all_fresh host (desc ∷ []) d ≡ (ok tt, (add_fresh host desc d).1)
  unfolding add_all_fresh
  add_all_one host desc d h = rw h refl

  add_all_fresh-append :
      (host : Host M) (xs ys : List (Descriptor M)) (d d' : Collection M)
      → add_all_fresh host xs d ≡ (ok tt, d')
      → add_all_fresh host (xs ++ ys) d ≡ add_all_fresh host ys d'
  unfolding add_all_fresh
  add_all_fresh-append host [] ys d d' h = ap (λ p. add_all_fresh host ys p.1) h
  add_all_fresh-append host (x ∷ xs) ys d d' h =
      later (add_fresh host x d).0 (add_fresh host x d).1
        (λ d₁ k. add_all_fresh-append host xs ys d₁ d' k) h
    where
      later :
          (r : Result (Unit {0})) (d₁ : Collection M)
          → ((d₂ : Collection M)
              → add_all_fresh host xs d₂ ≡ (ok tt, d')
              → add_all_fresh host (xs ++ ys) d₂ ≡ add_all_fresh host ys d')
          → resume r (λ _. add_all_fresh host xs) d₁ ≡ (ok tt, d')
          → resume r (λ _. add_all_fresh host (xs ++ ys)) d₁ ≡ add_all_fresh host ys d'
      later (ok tt) d₁ ih k = ih d₁ k
      later (err e) d₁ ih k = cc

module _ {S : Type 0} (c : Schemas) where
  -- What is left when the given descriptors were added and the given requests appended.
  pub record IsCreated (descs : List (Descriptor Bound)) (asked : List Value) (s : GenericMiot S)
      (out : Result (Unit {0}) × GenericMiot S) : Type 0 where
    pub returns : out.0 ≡ ok tt
    pub added : add_all_fresh c.host descs s.descriptors ≡ (ok tt, out.1.descriptors)
    pub queried : out.1.status_query ≡ s.status_query ++ asked
    pub same_device : out.1.device ≡ s.device
    pub same_model : out.1.miot_model ≡ s.miot_model

  abbrev pub Outcome :
      Result (List (Descriptor Bound))
      → List Value
      → GenericMiot S
      → Result (Unit {0}) × GenericMiot S
      → Type 0
  Outcome (ok descs) asked s out = IsCreated descs asked s out
  Outcome (err e) asked s out = out.0 ≡ err e

  abbrev pub Creates :
      Result (List (Descriptor Bound)) → List Value → Action (GenericMiot S) (Unit {0}) → Type 0
  Creates r asked m = (s : GenericMiot S) → Outcome r asked s (m s)

  pub Creates-nothing : Creates (ok []) [] (pure (ok tt))
  unfolding add_all_fresh
  Creates-nothing s = record {
    returns = refl;
    added = refl;
    queried = sym (append-nil s.status_query);
    same_device = refl;
    same_model = refl;
  }

  pub Creates-both :
      (r r' : Result (List (Descriptor Bound))) (asked asked' : List Value)
      (m m' : Action (GenericMiot S) (Unit {0}))
      → Creates r asked m
      → Creates r' asked' m'
      → Creates (both r r') (asked ++ asked') (m >>= λ _. m')
  Creates-both (err e) r' asked asked' m m' h h' s = rw (h s) refl
  Creates-both (ok xs) (err e) asked asked' m m' h h' s = rw (h s).returns (h' (m s).1)
  Creates-both (ok xs) (ok ys) asked asked' m m' h h' s =
      let a = h s in
      let b = h' (m s).1 in
      rw a.returns (record {
        returns = b.returns;
        added =
            add_all_fresh-append c.host xs ys s.descriptors (m s).1.descriptors a.added ∙ b.added;
        queried =
            b.queried
            ∙ ap (λ qs. qs ++ asked') a.queried
            ∙ append_assoc s.status_query asked asked';
        same_device = b.same_device ∙ a.same_device;
        same_model = b.same_model ∙ a.same_model;
      })

  pub Creates-one :
      (desc : Descriptor Bound)
      → IsComplete desc.access desc.kind
      → Creates (ok (desc ∷ [])) [] (add_created c desc)
  unfolding add_created
  Creates-one desc w s =
      let done = add_complete c.host desc s.descriptors w in
      record {
        returns = done;
        added = add_all_one c.host desc s.descriptors done;
        queried = sym (append-nil s.status_query);
        same_device = refl;
        same_model = refl;
      }
