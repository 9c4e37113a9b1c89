-- ===== src/Descriptors/Initializing.antt =====
-- What the first reading of the descriptors by `_initialize_descriptors` of miio/device.py leaves.
use python_miio.Base.{
  ℕ, ◌+◌, length, length-append, arith, ap, String, ◌≡◌, ◌⊎◌, refl, sym, subst, ◌∙◌, inl, inr, true,
  false, List, [], ◌∷◌, ◌++◌, All,
}
use python_miio.Python.Dict.{Dict}
use python_miio.Python.Result.{Error, Result, ok, err}
use python_miio.Python.Action.{modify, resume, ◌>>=◌ as and_then}
use python_miio.Descriptors.Defs.{Descriptor}
use python_miio.Descriptors.Collection.{Host, Collection}
use python_miio.Descriptors.Objects.{
  Space, view, entry_refs, write, with_method, bind_methods, member_refs, add_all,
  descriptors_from_object,
}
use python_miio.Descriptors.Adding.{IsWellFormed, AddsUpTo}
use python_miio.Descriptors.Seen.{IsApart, AreDistinct, seen-write}
use python_miio.Descriptors.Sharing.{AreApart, add_all-copies}
use python_miio.Descriptors.Held.{add_all_lem}
use python_miio.Descriptors.Selection.{
  DescribedDevice, DeviceClass, on_collection, initialize_descriptors, read_classes, read_status,
}

-- What holds of a whole list holds of its second part.
right_of : (P : ℕ → Type 0) (xs ys : List ℕ) → All P (xs ++ ys) → All P ys
right_of P [] ys a = a
right_of P (x ∷ xs) ys (h, a) = right_of P xs ys a

module _ {M : Type 0} where
  bind_methods-entries :
      (members : List (M × ℕ)) (s : Space M) → (bind_methods members s).entries ≡ s.entries
  unfolding bind_methods
  bind_methods-entries [] s = refl
  bind_methods-entries ((m, r) ∷ members) s = bind_methods-entries members _

  bind_methods-view :
      (members : List (M × ℕ)) (s : Space M)
      → AreApart (member_refs members) s.entries
      → view (bind_methods members s) ≡ view s
  unfolding bind_methods
  bind_methods-view [] s a = refl
  bind_methods-view ((m, r) ∷ members) s (h, a) =
      bind_methods-view members (write r (with_method m (s.objects r)) s) a
      ∙ seen-write r (with_method m (s.objects r)) s.objects s.entries h

length-AddsUpTo :
    {M : Type 0} (host : Host M) (n : ℕ) (d : Collection M) (out : Result (Unit {0}) × Collection M)
    → AddsUpTo host n d out
    → out.0 ≡ ok tt
    → length out.1 ≡ length d + n
length-AddsUpTo host n d out (w, m, (added, whole, count), inl (done, all)) returned =
    rw (whole, length-append d added) (omega arith)
length-AddsUpTo host n d out (w, m, grown, inr (e, raised, fewer)) returned = cc

module _ {M : Type 0} (host : Host M) (own : List ℕ) (members : List (M × ℕ)) (s : Space M) where
  abbrev read_refs : List ℕ
  read_refs = own ++ member_refs members

  -- Reading an object whose descriptors the collection does not hold yet.
  descriptors_from_object_lem :
      AreDistinct read_refs
      → AreApart read_refs s.entries
      → IsWellFormed (view s)
      → let out = descriptors_from_object host own members s in
        IsWellFormed (view out.1)
        × (out.0 ≡ ok tt → length (view out.1) ≡ length (view s) + length read_refs)
        × ((q : ℕ)
            → IsApart q read_refs
            → IsApart q (entry_refs s.entries)
            → IsApart q (entry_refs out.1.entries))
  unfolding descriptors_from_object
  descriptors_from_object_lem distinct apart w =
      let bound : Space M = bind_methods members s in
      let entries : bound.entries ≡ s.entries = bind_methods-entries members s in
      let looks : view bound ≡ view s =
        bind_methods-view members s
          (right_of (λ r. IsApart r (entry_refs s.entries)) own (member_refs members) apart) in
      let still : AreApart read_refs bound.entries =
        subst (AreApart read_refs) (sym entries) apart in
      let adds =
        (add_all_lem host read_refs bound distinct still (subst IsWellFormed (sym looks) w)).0 in
      let (_, _, _, others) = add_all-copies host read_refs bound distinct still in
      (
        adds.0,
        (λ returned.
            length-AddsUpTo host (length read_refs) (view bound)
              ((add_all host read_refs bound).0, view (add_all host read_refs bound).1) adds
              returned
            ∙ ap (λ (d : Collection M). length d + length read_refs) looks),
        (λ q h a. others q h (subst (λ es. IsApart q (entry_refs es)) (sym entries) a)),
      )

module _ {M S : Type 0} (c : DeviceClass M S) where
  abbrev pub status_refs : List ℕ
  status_refs = c.status_own ++ member_refs c.status_members

  -- No object is a descriptor of two members of the device and the status class.
  pub record HasOwnObjects (members : List (M × ℕ)) : Type 0 where
    pub members_differ : AreDistinct (member_refs members)
    pub apart : All (λ q. IsApart q (member_refs members)) status_refs

  -- What the first reading of the descriptors of a device promises.
  abbrev pub IsReadOnce : Result (List (M × ℕ)) → Result (Unit {0}) × DescribedDevice M S → Type 0
  IsReadOnce read out =
      IsWellFormed (view out.1.collection)
      × (((out.0 ≡ ok tt)
            × (initialize_descriptors c out.1 ≡ (ok tt, out.1))
            × (members : List (M × ℕ)) × (read ≡ ok members)
            × (length (view out.1.collection) ≡ length (member_refs members) + length status_refs))
          ⊎ ((e : Error) × (out.0 ≡ err e) × (out.1.initialized ≡ false)))

  initialize_descriptors_done :
      (s : DescribedDevice M S) → s.initialized ≡ true → initialize_descriptors c s ≡ (ok tt, s)
  unfolding initialize_descriptors
  initialize_descriptors_done s h = rw h

  marked :
      (members : List (M × ℕ)) (s : DescribedDevice M S) (r : Result (Unit {0})) (d : Space M)
      → s.initialized ≡ false
      → IsWellFormed (view d)
      → (r ≡ ok tt → length (view d) ≡ length (member_refs members) + length status_refs)
      → IsReadOnce (ok members) (
          resume r
            (λ _. modify (λ x. record x { initialized = true }))
            (record s { collection = d }))
  marked members s (ok u) d new w count =
      (w, inl (refl, initialize_descriptors_done _ refl, members, refl, count refl))
  marked members s (err e) d new w count = (w, inr (e, refl, new))

  then_status :
      (members : List (M × ℕ)) (s : DescribedDevice M S) (r : Result (Unit {0})) (d : Space M)
      → s.initialized ≡ false
      → IsWellFormed (view d)
      → (r ≡ ok tt → length (view d) ≡ length (member_refs members))
      → AreDistinct status_refs
      → AreApart status_refs d.entries
      → IsReadOnce (ok members) (
          resume r
            (λ _. and_then (read_status c) (λ _. modify (λ x. record x { initialized = true })))
            (record s { collection = d }))
  then_status members s (ok u) d new w count distinct apart =
      let (r', d') = descriptors_from_object c.host c.status_own c.status_members d in
      let (formed, more, _) =
        descriptors_from_object_lem c.host c.status_own c.status_members d distinct apart w in
      marked members s r' d' new formed
        (λ returned. more returned ∙ ap (λ (n : ℕ). n + length status_refs) (count refl))
  then_status members s (err e) d new w count distinct apart = (w, inr (e, refl, new))

  -- a device that has just been made: its collection is empty
  abbrev pub fresh_device : (ℕ → Descriptor M) → S → DescribedDevice M S
  fresh_device objects rest = record {
    initialized = false;
    collection = record { objects = objects; entries = [] };
    rest = rest;
  }

  apart_from_none : (refs : List ℕ) → AreApart refs []
  apart_from_none [] = tt
  apart_from_none (r ∷ refs) = (tt, apart_from_none refs)

  apart_after :
      (refs : List ℕ) (before : List ℕ) (entries : Dict String ℕ)
      → ((q : ℕ) → IsApart q before → IsApart q (entry_refs entries))
      → All (λ q. IsApart q before) refs
      → AreApart refs entries
  apart_after [] before entries h a = tt
  apart_after (r ∷ refs) before entries h (b, a) = (h r b, apart_after refs before entries h a)

  after_members :
      (objects : ℕ → Descriptor M) (rest : S) (read : Result (List (M × ℕ)))
      → AreDistinct status_refs
      → ((members : List (M × ℕ)) → read ≡ ok members → HasOwnObjects members)
      → let s = fresh_device objects rest in
        let (r, s') =
          resume read (λ members. on_collection c (descriptors_from_object c.host [] members)) s in
        IsReadOnce read (
          resume r
            (λ _. and_then (read_status c) (λ _. modify (λ x. record x { initialized = true })))
            s')
  after_members objects rest (err e) distinct h = (no_entries, inr (e, refl, refl))
    where
      no_entries : IsWellFormed {M = M} []
      no_entries = record { unique = tt; stored = tt }
  after_members objects rest (ok members) distinct h =
      let s = fresh_device objects rest in
      let own = h members refl in
      let (r, d) = descriptors_from_object c.host [] members s.collection in
      let none_before : 0 + length (member_refs members) ≡ length (member_refs members) =
        omega arith in
      let (formed, more, others) =
        descriptors_from_object_lem c.host [] members s.collection own.members_differ
          (apart_from_none (member_refs members)) (record { unique = tt; stored = tt }) in
      then_status members s r d refl formed (λ returned. more returned ∙ none_before) distinct
        (apart_after status_refs (member_refs members) d.entries (λ q h. others q h tt) own.apart)

  -- The first reading of the descriptors of a device that has just been made, whether it returns or
  -- raises and whatever reading its members sends, leaves a well-formed collection: each descriptor is
  -- bound and stored under its own id, and no id is used twice. If it returns, there is one
  -- descriptor for each of the members found on the device and each of the status class, and a further
  -- reading returns at once and changes nothing; if it raises the descriptors are not marked as read. The
  -- condition is that each of the members found on the device and of the descriptors of the status
  -- class has a descriptor object of its own.
  pub initialize_descriptors_lem :
      (objects : ℕ → Descriptor M) (rest : S)
      → AreDistinct status_refs
      → ((members : List (M × ℕ)) → (c.members rest).0 ≡ ok members → HasOwnObjects members)
      → IsReadOnce (c.members rest).0 (initialize_descriptors c (fresh_device objects rest))
  unfolding initialize_descriptors read_classes
  initialize_descriptors_lem objects rest distinct h =
      after_members objects (c.members rest).1 (c.members rest).0 distinct h
