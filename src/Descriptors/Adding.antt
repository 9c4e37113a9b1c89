-- ===== src/Descriptors/Adding.antt =====
-- What adding descriptors does to a collection.
use python_miio.Base.{
  ℕ, suc, ◌+◌, ◌<◌, ◌⊎◌, inl, inr, ◌≡◌, refl, sym, ap, subst, ◌∙◌, String, Bool, true, false, not,
  none, some, List, [], ◌∷◌, ◌++◌, append-nil, append_assoc, length, length-append, All, All-append,
  arith,
}
use python_miio.Python.Dict.{
  text_eq, insert, insert_new, contains, HasUniqueKeys, insert-HasUniqueKeys,
}
use python_miio.Python.Result.{Error, Result, ok, err, or_raise-eq-ok, >>=-eq-ok, Result-cases}
use python_miio.Descriptors.Defs.{Kind, plain, action, property, Descriptor, AccessFlags}
use python_miio.Descriptors.FreeId.{get_free_id, get_free_id_lem}
use python_miio.Descriptors.Collection.{
  Host, Collection, handle_kind, lacks_setter, handled, bind, prepare_descriptor, add_fresh,
  add_all_fresh,
}

-- An action has its method, and a property that can be written its setter.
abbrev pub is_bound : {M : Type 0} → AccessFlags → Kind M → Bool
is_bound access plain = true
is_bound access (action none name) = false
is_bound access (action (some m) name) = true
is_bound access (property setter name constraint) = not (lacks_setter access setter)

-- Every descriptor is stored under its own id, and is bound; no id is used twice.
abbrev pub IsStored : {M : Type 0} → String × Descriptor M → Type 0
IsStored (k, desc) = (desc.id ≡ k) × (is_bound desc.access desc.kind ≡ true)

pub record IsWellFormed {M : Type 0} (d : Collection M) : Type 0 where
  pub unique : HasUniqueKeys d
  pub stored : All IsStored d

module _ {M : Type 0} (host : Host M) where
  handle_kind-is_bound :
      (access : AccessFlags) (kind kind' : Kind M)
      → handled (handle_kind host access kind) ≡ ok kind'
      → is_bound access kind' ≡ true
  unfolding handle_kind bind
  handle_kind-is_bound access plain kind' h = ground arith
  handle_kind-is_bound access (action method name) kind' h = ground arith
  handle_kind-is_bound access (property setter name constraint) kind' h = ground arith

  prepare_descriptor_lem :
      (desc desc' : Descriptor M) (d : Collection M)
      → prepare_descriptor host desc d ≡ ok desc'
      → (get_free_id desc.id d ≡ some desc'.id) × (is_bound desc'.access desc'.kind ≡ true)
  unfolding prepare_descriptor
  prepare_descriptor_lem desc desc' d h =
      let (id', found, h₁) = >>=-eq-ok _ _ h in
      let (kind', handled, h₂) = >>=-eq-ok _ _ h₁ in
      let free : get_free_id desc.id d ≡ some id' = or_raise-eq-ok _ _ found in
      let result : record desc { id = id'; kind = kind' } ≡ desc' = cc in
      (
        free ∙ ap (λ x. some x.id) result,
        subst (λ x. is_bound x.access x.kind ≡ true) result
            (handle_kind-is_bound desc.access desc.kind kind' handled),
      )

  free_id-not_taken :
      (id id' : String) (d : Collection M) → get_free_id id d ≡ some id' → contains id' d ≡ false
  free_id-not_taken id id' d h =
      let (found, eq, free, _) = get_free_id_lem id d in
      let same : found ≡ id' = cc in subst (λ x. contains x d ≡ false) same free

  -- The collection keeps its entries and their order, and the new ones stand behind them.
  abbrev pub HasGrown : Collection M → Collection M → ℕ → Type 0
  HasGrown d d' n = (added : List (String × Descriptor M)) × (d' ≡ d ++ added) × (length added ≡ n)

  add_fresh-eq-ok :
      (desc desc' : Descriptor M) (d : Collection M)
      → IsWellFormed d
      → prepare_descriptor host desc d ≡ ok desc'
      → IsWellFormed (insert desc'.id desc' d) × HasGrown d (insert desc'.id desc' d) 1
  add_fresh-eq-ok desc desc' d w h =
      let (free, bound) = prepare_descriptor_lem desc desc' d h in
      let behind : insert desc'.id desc' d ≡ d ++ (desc'.id, desc') ∷ [] =
        insert_new desc'.id desc' d (free_id-not_taken desc.id desc'.id d free) in
      (
        record {
          unique = insert-HasUniqueKeys desc'.id desc' d w.unique;
          stored =
              rw behind
                (All-append IsStored d ((desc'.id, desc') ∷ []) w.stored ((refl, bound), tt));
        },
        ((desc'.id, desc') ∷ [], behind, refl),
      )

  HasGrown-trans :
      (d d' d'' : Collection M) (m n : ℕ)
      → HasGrown d d' m
      → HasGrown d' d'' n
      → HasGrown d d'' (m + n)
  HasGrown-trans d d' d'' m n (xs, ex, lx) (ys, ey, ly) =
      (xs ++ ys, rw (ey, ex, append_assoc d xs ys), rw (length-append xs ys, lx, ly))

  -- Where a loop over `n` descriptors has come to: all are added, or one that is not has raised.
  abbrev pub AddsUpTo : ℕ → Collection M → Result (Unit {0}) × Collection M → Type 0
  AddsUpTo n d out =
      IsWellFormed out.1
      × (m : ℕ) × HasGrown d out.1 m
      × (((out.0 ≡ ok tt) × (m ≡ n)) ⊎ ((e : Error) × (out.0 ≡ err e) × (m < n)))

  -- Adding descriptors to a well-formed collection, where it returns and where it raises, keeps the
  -- collection well-formed: no id is used twice, each descriptor is stored under its own id and is
  -- bound. The old entries stay as they are and where they are. If it returns there is one new entry
  -- for each descriptor, and if it raises there are fewer.
  pub add_all_fresh_lem :
      (descs : List (Descriptor M)) (d : Collection M)
      → IsWellFormed d
      → AddsUpTo (length descs) d (add_all_fresh host descs d)
  unfolding add_all_fresh add_fresh
  add_all_fresh_lem [] d w = (w, 0, ([], sym (append-nil d), refl), inl (refl, refl))
  add_all_fresh_lem (desc ∷ descs) d w = elim (Result-cases (prepare_descriptor host desc d)) [
    | inl (desc', h) ↦
        (let (w', g) = add_fresh-eq-ok desc desc' d w h in
          rw h (
            after desc' (insert desc'.id desc' d) g
              (add_all_fresh_lem descs (insert desc'.id desc' d) w')))
    | inr (e, h) ↦ rw h (w, 0, ([], sym (append-nil d), refl), inr (e, refl, omega arith))
  ]
    where
      after :
          (desc' : Descriptor M) (d' : Collection M)
          → HasGrown d d' 1
          → AddsUpTo (length descs) d' (add_all_fresh host descs d')
          → AddsUpTo (suc (length descs)) d (add_all_fresh host descs d')
      after desc' d' g (w, m, g', last) = (
        w,
        suc m,
        counted m (HasGrown-trans d d' (add_all_fresh host descs d').1 1 m g g'),
        later m _ (length descs) last,
      )
        where
          counted :
              (m : ℕ)
              → HasGrown d (add_all_fresh host descs d').1 (1 + m)
              → HasGrown d (add_all_fresh host descs d').1 (suc m)
          counted m (xs, ex, lx) = (xs, ex, omega arith)

          later :
              (m : ℕ) (r : Result (Unit {0})) (n : ℕ)
              → ((r ≡ ok tt) × (m ≡ n)) ⊎ ((e : Error) × (r ≡ err e) × (m < n))
              → ((r ≡ ok tt) × (suc m ≡ suc n)) ⊎ ((e : Error) × (r ≡ err e) × (suc m < suc n))
          later m r n (inl (h, k)) = inl (h, ap suc k)
          later m r n (inr (e, h, k)) = inr (e, h, omega arith)
