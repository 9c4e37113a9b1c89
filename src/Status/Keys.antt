-- ===== src/Status/Keys.antt =====
-- The descriptors that an embedded container adds, looked up by name.
use python_miio.Base.{
  ◌≡◌, ◌≢◌, refl, ap, sym, ◌∙◌, inl, inr, String, true, false, some, [], ◌∷◌, Bool-cases, arith,
  str_eq, str_eq_iff, All,
}
use python_miio.Python.Dict.{
  text_eq, lookup, contains, lookup-insert_self, lookup-insert_ne, HasUniqueKeys,
  insert-HasUniqueKeys,
}
use python_miio.Descriptors.Defs.{Descriptor}
use python_miio.Descriptors.Collection.{Collection}
use python_miio.Status.Names.{qualified, is_plain, split_name, split_name-qualified, or_else}
use python_miio.Status.Store.{evolved}
use python_miio.Status.Embedding.{add_embedded}

-- A plain name is told from what follows it.
pub qualified-ne :
    (name : String)
    → is_plain name ≡ true
    → (j k : String) → j ≢ k
    → qualified name j ≢ qualified name k
qualified-ne name plain j k ne e =
    let pairs : some (name, j) ≡ some (name, k) =
      sym (split_name-qualified name j plain)
      ∙ ap split_name e
      ∙ split_name-qualified name k plain in
    ne (ap (λ o. (or_else ("", "") o).1) pairs)

missing_first :
    {M : Type 0} (k j : String) (prop : Descriptor M) (ds : Collection M)
    → contains k ((j, prop) ∷ ds) ≡ false
    → (j ≢ k) × (contains k ds ≡ false)
unfolding contains
missing_first k j prop ds h = elim (Bool-cases (str_eq j k)) [
  | inl hit ↦ absurd (ground arith)
  | inr miss ↦ (λ e. ground (arith, str_eq_iff j k), ground arith)
]

module _ {M : Type 0} where
  module _ (name : String) (plain : is_plain name ≡ true) where
    -- Names that are not of the container keep their descriptors.
    pub lookup-add_embedded_ne :
        (j : String) (ds d : Collection M)
        → All (λ e. j ≢ qualified name e.0) ds
        → lookup j (add_embedded name ds d) ≡ lookup j d
    unfolding add_embedded
    lookup-add_embedded_ne j [] d h = refl
    lookup-add_embedded_ne j ((k, prop) ∷ ds) d (h, hs) =
        lookup-add_embedded_ne j ds _ hs
        ∙ lookup-insert_ne (qualified name k) j _ d (λ e. h (sym e))

    absent_ne :
        (k : String) (ds : Collection M)
        → contains k ds ≡ false
        → All (λ e. qualified name k ≢ qualified name e.0) ds
    unfolding contains
    absent_ne k [] h = tt
    absent_ne k ((j, prop) ∷ ds) h =
        let (ne, h') = missing_first k j prop ds h in
        (qualified-ne name plain k j (λ e. ne (sym e)), absent_ne k ds h')

    pub lookup-add_embedded :
        (k : String) (prop : Descriptor M) (ds d : Collection M)
        → HasUniqueKeys ds
        → lookup k ds ≡ some prop
        → lookup (qualified name k) (add_embedded name ds d)
          ≡ some (evolved (qualified name k) prop)
    unfolding add_embedded lookup
    lookup-add_embedded k prop [] d u h = absurd (ground arith)
    lookup-add_embedded k prop ((j, p) ∷ ds) d (new, u) h = elim (Bool-cases (str_eq j k)) [
      | inl hit ↦
          (let same : j ≡ k = (str_eq_iff j k).0 hit in
            let found : some p ≡ some prop = rw hit at h in
            let value : p ≡ prop = cc in
            rw (sym same, sym value)
              (lookup-add_embedded_ne (qualified name j) ds _ (absent_ne j ds new)
                ∙ lookup-insert_self (qualified name j) (evolved (qualified name j) p) d))
      | inr miss ↦ lookup-add_embedded k prop ds _ u (rw miss at h)
    ]

    pub add_embedded-HasUniqueKeys :
        (ds d : Collection M) → HasUniqueKeys d → HasUniqueKeys (add_embedded name ds d)
    unfolding add_embedded
    add_embedded-HasUniqueKeys [] d h = h
    add_embedded-HasUniqueKeys ((k, prop) ∷ ds) d h =
        add_embedded-HasUniqueKeys ds _ (insert-HasUniqueKeys (qualified name k) _ d h)
