-- ===== src/Descriptors/Sharing.antt =====
-- Adding descriptor objects to a collection that does not hold them yet, seen from outside.
use python_miio.Base.{
  ℕ, ◌≡◌, refl, sym, ap, ◌∙◌, String, Bool, false, Option, none, some, List, [], ◌∷◌, All, ◌==◌,
  ==_refl, ==_iff, if◌then◌else◌, arith,
}
use python_miio.Python.Dict.{Dict, text_eq, insert}
use python_miio.Python.Result.{Result, ok, err, runtime_error, or_raise, ◌>>=◌}
use python_miio.Python.Action.{resume}
use python_miio.Descriptors.Defs.{Kind, Descriptor}
use python_miio.Descriptors.FreeId.{get_free_id}
use python_miio.Descriptors.Collection.{
  Host, Collection, handle_kind, handled, prepare_descriptor, store, add_fresh, add_all_fresh,
}
use python_miio.Descriptors.Objects.{
  Space, seen, view, entry_refs, write, add_descriptor, add_under, bind_object, add_all,
}
use python_miio.Descriptors.Seen.{
  IsApart, AreDistinct, get_free_id-seen, insert-seen, seen-write, entry_refs-insert,
}

-- What writing one object leaves: the collection looks as it does after adding a fresh copy of the
-- object, the other objects are as they were, and no other reference comes in.
pub record IsAdding {M : Type 0} (r : ℕ) (s : Space M) (out : Result (Unit {0}) × Space M)
    (fresh : Result (Unit {0}) × Collection M) : Type 0 where
  pub result : out.0 ≡ fresh.0
  pub looks : view out.1 ≡ fresh.1
  pub spared : (q : ℕ) → (q == r) ≡ false → out.1.objects q ≡ s.objects q
  pub held :
      (q : ℕ)
      → (r == q) ≡ false
      → IsApart q (entry_refs s.entries)
      → IsApart q (entry_refs out.1.entries)

module _ {M : Type 0} (host : Host M) (r : ℕ) (s : Space M)
    (apart : IsApart r (entry_refs s.entries)) where
  spared_by_write :
      (desc : Descriptor M) (q : ℕ) → (q == r) ≡ false → (write r desc s).objects q ≡ s.objects q
  spared_by_write desc q h = ap (λ (b : Bool). if b then desc else s.objects q) h

  bind_object-IsAdding :
      (id' : String) (bound : Result (Unit {0}) × Kind M)
      → IsAdding r s (bind_object r id' bound s) (
          store
            (handled bound >>= λ kind'. ok (record (s.objects r) { id = id'; kind = kind' }))
            (view s))
  bind_object-IsAdding id' (err e, kind') = record {
    result = refl;
    looks = seen-write r _ s.objects s.entries apart;
    spared = spared_by_write _;
    held = λ q h w. w;
  }
  bind_object-IsAdding id' (ok u, kind') =
      let desc : Descriptor M = record (s.objects r) { id = id'; kind = kind' } in
      let here : (if r == r then desc else s.objects r) ≡ desc =
        ap (λ (b : Bool). if b then desc else s.objects r) (==_refl r) in
      record {
        result = refl;
        looks =
            insert-seen (write r desc s).objects id' r s.entries
            ∙ ap (λ (x : Descriptor M). insert id' x (seen (write r desc s).objects s.entries)) here
            ∙ ap (λ (d : Collection M). insert id' desc d)
                (seen-write r desc s.objects s.entries apart);
        spared = spared_by_write desc;
        held = λ q h w. entry_refs-insert q r id' s.entries h w;
      }

  add_under-IsAdding :
      (found : Option String)
      → IsAdding r s (add_under host r found s) (
          store
            (or_raise found runtime_error >>= λ id'.
              handled (handle_kind host (s.objects r).access (s.objects r).kind) >>= λ kind'.
              ok (record (s.objects r) { id = id'; kind = kind' }))
            (view s))
  add_under-IsAdding none = record {
    result = refl;
    looks = refl;
    spared = λ q h. refl;
    held = λ q h w. w;
  }
  add_under-IsAdding (some id') =
      bind_object-IsAdding id' (handle_kind host (s.objects r).access (s.objects r).kind)

  pub add_descriptor-IsAdding :
      IsAdding r s (add_descriptor host r s) (add_fresh host (s.objects r) (view s))
  unfolding add_descriptor add_fresh prepare_descriptor
  add_descriptor-IsAdding =
      rw (get_free_id-seen s.objects (s.objects r).id s.entries)
        (add_under-IsAdding (get_free_id (s.objects r).id s.entries))

abbrev pub AreApart : List ℕ → Dict String ℕ → Type 0
AreApart refs entries = All (λ r. IsApart r (entry_refs entries)) refs

test_sym : (q r : ℕ) → (q == r) ≡ false → (r == q) ≡ false
test_sym q r h = ground (arith, ==_iff q r, ==_iff r q)

still_apart :
    (r : ℕ) (refs : List ℕ) (entries entries' : Dict String ℕ)
    → ((q : ℕ)
        → (r == q) ≡ false
        → IsApart q (entry_refs entries)
        → IsApart q (entry_refs entries'))
    → IsApart r refs
    → AreApart refs entries
    → AreApart refs entries'
still_apart r [] entries entries' held w a = tt
still_apart r (q ∷ refs) entries entries' held (h, w) (b, a) =
    (held q (test_sym q r h) b, still_apart r refs entries entries' held w a)

module _ {M : Type 0} where
  -- the descriptors that the references lead to
  abbrev pub copies : (ℕ → Descriptor M) → List ℕ → List (Descriptor M)
  copies objects [] = []
  copies objects (r ∷ refs) = objects r ∷ copies objects refs

  copies-spared :
      (r : ℕ) (objects objects' : ℕ → Descriptor M) (refs : List ℕ)
      → ((q : ℕ) → (q == r) ≡ false → objects' q ≡ objects q)
      → IsApart r refs
      → copies objects' refs ≡ copies objects refs
  copies-spared r objects objects' [] same w = refl
  copies-spared r objects objects' (q ∷ refs) same (h, w) =
      rw (same q h, copies-spared r objects objects' refs same w)

module _ {M : Type 0} (host : Host M) where
  -- What adding the objects of `refs` comes to.
  abbrev pub AddsCopies :
      List ℕ → Space M → Result (Unit {0}) × Space M → Result (Unit {0}) × Collection M → Type 0
  AddsCopies refs s out fresh =
      (out.0 ≡ fresh.0)
      × (view out.1 ≡ fresh.1)
      × ((q : ℕ) → IsApart q refs → out.1.objects q ≡ s.objects q)
      × ((q : ℕ)
          → IsApart q refs
          → IsApart q (entry_refs s.entries)
          → IsApart q (entry_refs out.1.entries))

  pub add_all-copies :
      (refs : List ℕ) (s : Space M)
      → AreDistinct refs
      → AreApart refs s.entries
      → AddsCopies refs s
          (add_all host refs s)
          (add_all_fresh host (copies s.objects refs) (view s))
  unfolding add_all add_all_fresh
  add_all-copies [] s distinct apart = (refl, refl, (λ q h. refl), (λ q h w. w))
  add_all-copies (r ∷ refs) s (other, distinct) (first, apart) =
      let added = add_descriptor-IsAdding host r s first in
      let fresh : add_fresh host (s.objects r) (view s)
          ≡ ((add_descriptor host r s).0, view (add_descriptor host r s).1) =
        sym (ap2_pair added.result added.looks) in
      rw fresh (
        after (add_descriptor host r s).0 (add_descriptor host r s).1 added.spared added.held
          (λ s'. add_all-copies refs s' distinct))
    where
      ap2_pair :
          {o : Result (Unit {0}) × Collection M} {a : Result (Unit {0})} {d : Collection M}
          → a ≡ o.0
          → d ≡ o.1
          → (a, d) ≡ o
      ap2_pair {o = (x, y)} h k = rw (h, k) refl

      after :
          (result : Result (Unit {0})) (s' : Space M)
          → ((q : ℕ) → (q == r) ≡ false → s'.objects q ≡ s.objects q)
          → ((q : ℕ)
              → (r == q) ≡ false
              → IsApart q (entry_refs s.entries)
              → IsApart q (entry_refs s'.entries))
          → ((t : Space M)
              → AreApart refs t.entries
              → AddsCopies refs t
                  (add_all host refs t)
                  (add_all_fresh host (copies t.objects refs) (view t)))
          → AddsCopies
              (r ∷ refs)
              s
              (resume result (λ _. add_all host refs) s')
              (resume result (λ _. add_all_fresh host (copies s.objects refs)) (view s'))
      after (err e) s' spared held rest =
          (refl, refl, (λ q (h, w). spared q (test_sym r q h)), (λ q (h, w) a. held q h a))
      after (ok u) s' spared held rest =
          let (result, looks, kept, others) =
            rest s' (still_apart r refs s.entries s'.entries held other apart) in
          let same : copies s'.objects refs ≡ copies s.objects refs =
            copies-spared r s.objects s'.objects refs spared other in
          (
            result
                ∙ ap (λ (descs : List (Descriptor M)). (add_all_fresh host descs (view s')).0) same,
            looks
                ∙ ap (λ (descs : List (Descriptor M)). (add_all_fresh host descs (view s')).1) same,
            (λ q (h, w). kept q w ∙ spared q (test_sym r q h)),
            (λ q (h, w) a. others q w (held q h a)),
          )
