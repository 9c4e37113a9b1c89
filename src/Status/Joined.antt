-- ===== src/Status/Joined.antt =====
-- The descriptors and attributes of a container once `DeviceStatus.embed` has run.
use python_miio.Base.{ℕ, ◌≡◌, ◌≢◌, refl, ap, ◌∙◌, String, length}
use python_miio.Python.Dict.{text_eq, insert}
use python_miio.Python.Result.{Result, ok}
use python_miio.Descriptors.Collection.{Collection}
use python_miio.Status.Store.{
  Store, StatusClass, class_of, descriptors, store_embedded, store_parent, embed,
}
use python_miio.Status.Embedding.{
  add_embedded, IsSeparate, embed_entries_lem, written_ne, written_same,
}

module _ {M : Type 0} where
  -- What `embed` has written.
  abbrev pub IsEmbedded : String → ℕ → ℕ → Store M → Result (Unit {0}) × Store M → Type 0
  IsEmbedded name self other s out =
      (out.0 ≡ ok tt)
      × (out.1.classes (s.statuses self).class_id ≡ record {
        descriptors = add_embedded name (descriptors s other) (descriptors s self);
        embedded = insert name other (class_of s self).embedded;
      })
      × ((c : ℕ) → c ≢ (s.statuses self).class_id → out.1.classes c ≡ s.classes c)
      × (out.1.statuses ≡ (store_parent self other s).statuses)

  -- Embedding a container of another class returns, and writes the descriptors and the container into
  -- the class of `self`, the parent into `other`, and nothing else.
  pub embed_lem :
      (name : String) (self other : ℕ) (s : Store M)
      → IsSeparate s self other
      → IsEmbedded name self other s (embed name self other s)
  unfolding embed
  embed_lem name self other s apart =
      let k = record (class_of s self) {
        embedded = insert name other (class_of s self).embedded;
      } in
      let s1 = store_embedded name self other s in
      let same_other : descriptors s1 other ≡ descriptors s other =
        ap (λ (c : StatusClass M). c.descriptors)
          (written_ne (s.statuses other).class_id self k s apart) in
      let (r, same, at, off) =
        embed_entries_lem name self other (length (descriptors s1 other)) 0 (descriptors s1 other)
          (store_parent self other s1) apart refl refl in
      (
        r,
        at
            ∙ ap
                (λ (c : StatusClass M). record c {
                  descriptors = add_embedded name (descriptors s1 other) c.descriptors;
                })
                (written_same (s.statuses self).class_id k s)
            ∙ ap
                (λ (ds : Collection M). record k {
                  descriptors = add_embedded name ds (descriptors s self);
                })
                same_other,
        λ c ne. off c ne ∙ written_ne c self k s ne,
        same,
      )
