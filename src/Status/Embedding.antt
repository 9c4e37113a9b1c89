-- ===== src/Status/Embedding.antt =====
-- What `DeviceStatus.embed` leaves: the descriptors of the embedded container join those of the class,
-- under qualified names.
use python_miio.Base.{
  ℕ, zero, suc, ◌≡◌, ◌≢◌, refl, ap, ◌∙◌, String, Bool, false, [], ◌∷◌, ==_refl, arith,
  if◌then◌else◌, ◌==◌, drop, length,
}
use python_miio.Python.Dict.{text_eq, insert}
use python_miio.Python.Result.{Result, ok, err, runtime_error}
use python_miio.Descriptors.Defs.{Descriptor}
use python_miio.Descriptors.Collection.{Collection}
use python_miio.Status.Names.{qualified}
use python_miio.Status.Store.{
  Store, StatusClass, class_of, descriptors, write_class, store_descriptor, evolved, embed_entries,
}

pub test_of_ne : {a b : ℕ} → a ≢ b → (a == b) ≡ false
test_of_ne h = ground (arith, h)

module _ {M : Type 0} where
  -- the descriptors with those of a container embedded as `name`
  unfoldable pub add_embedded : String → Collection M → Collection M → Collection M
  add_embedded name [] d = d
  add_embedded name ((k, prop) ∷ ds) d =
      add_embedded name ds (insert (qualified name k) (evolved (qualified name k) prop) d)

  -- The loop ends, and has changed nothing but the descriptors of the class of `self`.
  abbrev pub IsAdding : String → ℕ → Collection M → Store M → Result (Unit {0}) × Store M → Type 0
  IsAdding name self ds s out =
      (out.0 ≡ ok tt)
      × (out.1.statuses ≡ s.statuses)
      × (out.1.classes (s.statuses self).class_id
          ≡ record (class_of s self) { descriptors = add_embedded name ds (descriptors s self) })
      × ((c : ℕ) → c ≢ (s.statuses self).class_id → out.1.classes c ≡ s.classes c)

  abbrev pub IsSeparate : Store M → ℕ → ℕ → Type 0
  IsSeparate s self other = (s.statuses other).class_id ≢ (s.statuses self).class_id

  drop_more :
      (i : ℕ) (xs : Collection M) (x : String × Descriptor M) (ys : Collection M)
      → drop i xs ≡ x ∷ ys
      → drop (suc i) xs ≡ ys
  drop_more zero [] x ys h = absurd (ground arith)
  drop_more zero (z ∷ xs) x ys h = cc
  drop_more (suc i) [] x ys h = absurd (ground arith)
  drop_more (suc i) (z ∷ xs) x ys h = drop_more i xs x ys h

  pub store_descriptor_self :
      (name : String) (self : ℕ) (k : String) (prop : Descriptor M) (s : Store M)
      → class_of (store_descriptor name self (k, prop) s) self ≡ record (class_of s self) {
        descriptors =
            insert (qualified name k) (evolved (qualified name k) prop) (descriptors s self);
      }
  store_descriptor_self name self k prop s =
      ap (λ (b : Bool). if b then written else class_of s self) (==_refl (s.statuses self).class_id)
    where
      written : StatusClass M
      written = record (class_of s self) {
        descriptors =
            insert (qualified name k) (evolved (qualified name k) prop) (descriptors s self);
      }

  pub written_same : (c : ℕ) (k : StatusClass M) (s : Store M) → (write_class c k s).classes c ≡ k
  written_same c k s = ap (λ (b : Bool). if b then k else s.classes c) (==_refl c)

  -- a class that is not the one of `self`
  pub written_ne :
      (c : ℕ) (self : ℕ) (k : StatusClass M) (s : Store M)
      → c ≢ (s.statuses self).class_id
      → (write_class (s.statuses self).class_id k s).classes c ≡ s.classes c
  written_ne c self k s ne = ap (λ (b : Bool). if b then k else s.classes c) (test_of_ne ne)

  IsAdding-step :
      (name : String) (self : ℕ) (k : String) (prop : Descriptor M) (ds : Collection M)
      (s : Store M) (out : Result (Unit {0}) × Store M)
      → IsAdding name self ds (store_descriptor name self (k, prop) s) out
      → IsAdding name self ((k, prop) ∷ ds) s out
  unfolding add_embedded
  IsAdding-step name self k prop ds s out (r, same, at, off) = (
    r,
    same,
    at
        ∙ ap (λ (c : StatusClass M). record c { descriptors = add_embedded name ds c.descriptors })
            (store_descriptor_self name self k prop s),
    λ c ne. off c ne ∙ written_ne c self _ s ne,
  )

  pub embed_entries_lem :
      (name : String) (self other start i : ℕ) (ds : Collection M) (s : Store M)
      → IsSeparate s self other
      → length (descriptors s other) ≡ start
      → drop i (descriptors s other) ≡ ds
      → IsAdding name self ds s (embed_entries name self other start (length ds) i s)
  unfolding embed_entries add_embedded
  embed_entries_lem name self other start i [] s apart size h =
      rw (size, ==_refl start) (refl, refl, refl, λ c ne. refl)
  embed_entries_lem name self other start i ((k, prop) ∷ ds) s apart size h =
      let s' = store_descriptor name self (k, prop) s in
      let kept : descriptors s' other ≡ descriptors s other =
        ap (λ (c : StatusClass M). c.descriptors)
          (written_ne (s.statuses other).class_id self _ s apart) in
      let rest =
        embed_entries_lem name self other start (suc i) ds s' apart (ap length kept ∙ size)
          (ap (drop (suc i)) kept ∙ drop_more i (descriptors s other) (k, prop) ds h) in
      rw (size, ==_refl start, h) (IsAdding-step name self k prop ds s _ rest)

  -- A dictionary that has grown ends the iteration.
  pub embed_entries_grown :
      (name : String) (self other start rest i : ℕ) (s : Store M)
      → length (descriptors s other) ≡ suc start
      → embed_entries name self other start rest i s ≡ (err runtime_error, s)
  unfolding embed_entries
  embed_entries_grown name self other start zero i s h =
      let miss : (suc start == start) ≡ false = ground arith in rw (h, miss)
  embed_entries_grown name self other start (suc rest) i s h =
      let miss : (suc start == start) ≡ false = ground arith in rw (h, miss)
