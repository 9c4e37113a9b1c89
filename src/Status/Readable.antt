-- ===== src/Status/Readable.antt =====
-- Sensors of an embedded container, found and read through the container it is embedded in.
use python_miio.Base.{ℕ, ◌≡◌, ap, ◌∙◌, String, true, false, none, some, str_eq}
use python_miio.Python.Dict.{
  text_eq, lookup, insert, HasUniqueKeys, lookup-insert_self, lookup-insert_ne,
}
use python_miio.Python.Result.{ok, err, attribute_error}
use python_miio.Descriptors.Defs.{Descriptor}
use python_miio.Status.Names.{qualified, is_plain, qualified-ne_plain}
use python_miio.Status.Store.{
  Store, Status, StatusClass, class_of, descriptors, embed, evolved, get_attribute,
}
use python_miio.Status.Embedding.{IsSeparate, add_embedded}
use python_miio.Status.Joined.{embed_lem}
use python_miio.Status.Keys.{lookup-add_embedded}
use python_miio.Status.Reading.{get_attribute-qualified}

module _ {M : Type 0} (name : String) (self other : ℕ) (s : Store M) where
  -- `embed` of a container of another class returns. If the name is a plain one, the names of the
  -- container's descriptors are unique, and the host has nothing of its own under the qualified name,
  -- then a descriptor of the container is found in the host under that name, says so in its
  -- `status_attribute`, and reading that attribute of the host gives what the container gives.
  pub embed-Readable :
      (k : String) (prop : Descriptor M)
      → IsSeparate s self other
      → is_plain name ≡ true
      → str_eq name "" ≡ false
      → str_eq k "" ≡ false
      → HasUniqueKeys (descriptors s other)
      → lookup k (descriptors s other) ≡ some prop
      → lookup (qualified name k) (class_of s self).embedded ≡ none
      → (s.statuses self).own (qualified name k) ≡ err attribute_error
      → let (result, s') = embed name self other s in
        (result ≡ ok tt)
        × (lookup (qualified name k) (descriptors s' self) ≡ some (evolved (qualified name k) prop))
        × (get_attribute s' self (qualified name k) ≡ get_attribute s' other k)
  embed-Readable k prop apart plain named given unique found free absent =
      let (r, at, off, statuses) = embed_lem name self other s apart in
      let s' : Store M = (embed name self other s).1 in
      let there : class_of s' self ≡ record {
        descriptors = add_embedded name (descriptors s other) (descriptors s self);
        embedded = insert name other (class_of s self).embedded;
      } =
        ap (λ (f : ℕ → Status). s'.classes (f self).class_id) statuses ∙ at in
      let listed = ap (λ (c : StatusClass M). lookup (qualified name k) c.descriptors) there in
      let at_name = ap (λ (c : StatusClass M). lookup name c.embedded) there in
      let at_final = ap (λ (c : StatusClass M). lookup (qualified name k) c.embedded) there in
      let own : (s'.statuses self).own (qualified name k) ≡ err attribute_error =
        ap (λ (f : ℕ → Status). (f self).own (qualified name k)) statuses ∙ absent in
      (
        r,
        listed ∙ lookup-add_embedded name plain k prop (descriptors s other) _ unique found,
        get_attribute-qualified s' self other name k plain named given
            (at_name ∙ lookup-insert_self name other (class_of s self).embedded)
            (at_final
              ∙ lookup-insert_ne name (qualified name k) other (class_of s self).embedded
                  (qualified-ne_plain name k plain)
              ∙ free)
            own,
      )
