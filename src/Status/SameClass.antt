-- ===== src/Status/SameClass.antt =====
-- `DeviceStatus.embed` of a container of the host's own class.
use python_miio.Base.{
  ℕ, suc, ◌≡◌, ap, sym, ◌∙◌, String, false, some, ◌∷◌, [], ◌++◌, arith, ==_refl, length,
  length-append,
}
use python_miio.Python.Dict.{text_eq, lookup, insert, contains, insert_new, lookup-insert_self}
use python_miio.Python.Result.{Result, err, runtime_error}
use python_miio.Descriptors.Defs.{Descriptor}
use python_miio.Descriptors.Collection.{Collection}
use python_miio.Status.Names.{qualified}
use python_miio.Status.Store.{
  Store, StatusClass, class_of, descriptors, store_embedded, store_parent, store_descriptor,
  evolved, embed_entries, embed,
}
use python_miio.Status.Embedding.{embed_entries_grown, store_descriptor_self, written_same}

module _ {M : Type 0} where
  -- the first step of the loop, which always finds the dictionary at its size
  embed_entries_first :
      (name : String) (self other n : ℕ) (e : String × Descriptor M) (ds : Collection M)
      (s : Store M)
      → length (descriptors s other) ≡ suc n
      → descriptors s other ≡ e ∷ ds
      → embed_entries name self other (suc n) (suc n) 0 s
        ≡ embed_entries name self other (suc n) n 1 (store_descriptor name self e s)
  unfolding embed_entries
  embed_entries_first name self other n e ds s size h = rw (size, ==_refl (suc n), h)

  -- The class of both, with one more descriptor.
  length-stored :
      (name : String) (self other : ℕ) (k : String) (prop : Descriptor M) (ds : Collection M)
      (s : Store M)
      → (s.statuses other).class_id ≡ (s.statuses self).class_id
      → descriptors s other ≡ (k, prop) ∷ ds
      → contains (qualified name k) (descriptors s other) ≡ false
      → length (descriptors (store_descriptor name self (k, prop) s) other) ≡ suc (suc (length ds))
  length-stored name self other k prop ds s same listed new =
      let q = qualified name k in
      let shared : descriptors s self ≡ (k, prop) ∷ ds =
        ap (λ (c : ℕ). (s.classes c).descriptors) (sym same) ∙ listed in
      let at_self =
        ap (λ (c : StatusClass M). length c.descriptors)
          (store_descriptor_self name self k prop s) in
      let at_other =
        ap (λ (c : ℕ). length ((store_descriptor name self (k, prop) s).classes c).descriptors)
          same in
      let grown : insert q (evolved q prop) (descriptors s self)
          ≡ ((k, prop) ∷ ds) ++ (q, evolved q prop) ∷ [] =
        rw shared (insert_new q (evolved q prop) ((k, prop) ∷ ds) (rw listed at new)) in
      at_other
      ∙ at_self
      ∙ ap length grown
      ∙ length-append ((k, prop) ∷ ds) ((q, evolved q prop) ∷ [])
      ∙ omega arith

  -- Embedding a container of the host's own class, as `name`, raises once the first descriptor has a new
  -- name: the loop writes the dictionary that it reads. What it has written stays.
  pub embed-same_class :
      (name : String) (self other : ℕ) (k : String) (prop : Descriptor M) (ds : Collection M)
      (s : Store M)
      → (s.statuses other).class_id ≡ (s.statuses self).class_id
      → descriptors s other ≡ (k, prop) ∷ ds
      → contains (qualified name k) (descriptors s other) ≡ false
      → let (result, s') = embed name self other s in
        (result ≡ err runtime_error)
        × (lookup name (class_of s' self).embedded ≡ some other)
        × (lookup (qualified name k) (descriptors s' self) ≡ some (evolved (qualified name k) prop))
  unfolding embed
  embed-same_class name self other k prop ds s same listed new =
      let q = qualified name k in
      let s1 = store_parent self other (store_embedded name self other s) in
      let k1 = record (class_of s self) {
        embedded = insert name other (class_of s self).embedded;
      } in
      let host : class_of s1 self ≡ k1 = written_same (s.statuses self).class_id k1 s in
      let kept : descriptors s1 other ≡ descriptors s other =
        ap (λ (c : ℕ). (s1.classes c).descriptors) same
        ∙ ap (λ (c : StatusClass M). c.descriptors) host
        ∙ ap (λ (c : ℕ). (s.classes c).descriptors) (sym same) in
      let whole =
        ap (λ (n : ℕ). embed_entries name self other n n 0 s1) (ap length (kept ∙ listed))
        ∙ embed_entries_first name self other (length ds) (k, prop) ds s1
            (ap length (kept ∙ listed)) (kept ∙ listed)
        ∙ embed_entries_grown name self other (suc (length ds)) (length ds) 1
            (store_descriptor name self (k, prop) s1)
            (length-stored name self other k prop ds s1 same (kept ∙ listed) (rw kept new)) in
      let stored = store_descriptor_self name self k prop s1 in
      (
        ap (λ o. o.0) whole,
        ap (λ (o : Result (Unit {0}) × Store M). lookup name (class_of o.1 self).embedded) whole
            ∙ ap (λ (c : StatusClass M). lookup name c.embedded) stored
            ∙ ap (λ (c : StatusClass M). lookup name c.embedded) host
            ∙ lookup-insert_self name other (class_of s self).embedded,
        ap (λ (o : Result (Unit {0}) × Store M). lookup q (descriptors o.1 self)) whole
            ∙ ap (λ (c : StatusClass M). lookup q c.descriptors) stored
            ∙ lookup-insert_self q (evolved q prop) (descriptors s1 self),
      )
