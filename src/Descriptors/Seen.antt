-- ===== src/Descriptors/Seen.antt =====
-- The collection of descriptor objects as it is seen from outside.
use python_miio.Base.{
  ℕ, zero, suc, ◌≡◌, refl, ap, String, false, List, [], ◌∷◌, length, All, ◌==◌, if◌then◌else◌,
  arith,
}
use python_miio.Python.Dict.{Dict, text_eq, insert, contains}
use python_miio.Descriptors.Defs.{Descriptor}
use python_miio.Descriptors.FreeId.{get_free_id, free_suffix, suffixed}
use python_miio.Descriptors.Objects.{seen, entry_refs}

-- `r` is none of the references.
abbrev pub IsApart : ℕ → List ℕ → Type 0
IsApart r refs = All (λ q. (q == r) ≡ false) refs

abbrev pub AreDistinct : List ℕ → Type 0
AreDistinct [] = Unit
AreDistinct (r ∷ refs) = IsApart r refs × AreDistinct refs

pub entry_refs-insert :
    (q r : ℕ) (k : String) (entries : Dict String ℕ)
    → (r == q) ≡ false
    → IsApart q (entry_refs entries)
    → IsApart q (entry_refs (insert k r entries))
unfolding insert
entry_refs-insert q r k [] h w = (h, tt)
entry_refs-insert q r k ((j, p) ∷ entries) h (w, ws) =
    ground (arith, entry_refs-insert q r k entries h ws)

module _ {M : Type 0} where
  contains-seen :
      (objects : ℕ → Descriptor M) (k : String) (entries : Dict String ℕ)
      → contains k (seen objects entries) ≡ contains k entries
  unfolding contains
  contains-seen objects k [] = refl
  contains-seen objects k ((j, r) ∷ entries) = rw (contains-seen objects k entries)

  length-seen :
      (objects : ℕ → Descriptor M) (entries : Dict String ℕ)
      → length (seen objects entries) ≡ length entries
  length-seen objects [] = refl
  length-seen objects ((j, r) ∷ entries) = ap suc (length-seen objects entries)

  pub insert-seen :
      (objects : ℕ → Descriptor M) (k : String) (r : ℕ) (entries : Dict String ℕ)
      → seen objects (insert k r entries) ≡ insert k (objects r) (seen objects entries)
  unfolding insert
  insert-seen objects k r [] = refl
  insert-seen objects k r ((j, q) ∷ entries) = ground (arith, insert-seen objects k r entries)

  pub seen-write :
      (r : ℕ) (desc : Descriptor M) (objects : ℕ → Descriptor M) (entries : Dict String ℕ)
      → IsApart r (entry_refs entries)
      → seen (λ q. if q == r then desc else objects q) entries ≡ seen objects entries
  seen-write r desc objects [] w = refl
  seen-write r desc objects ((k, q) ∷ entries) (h, w) = rw (seen-write r desc objects entries w, h)

  free_suffix-seen :
      (objects : ℕ → Descriptor M) (key : ℕ → String) (fuel suffix : ℕ) (entries : Dict String ℕ)
      → free_suffix key fuel suffix (seen objects entries) ≡ free_suffix key fuel suffix entries
  unfolding free_suffix
  free_suffix-seen objects key zero suffix entries = refl
  free_suffix-seen objects key (suc fuel) suffix entries = rw (
    contains-seen objects (key suffix) entries,
    free_suffix-seen objects key fuel (suc suffix) entries,
  )

  pub get_free_id-seen :
      (objects : ℕ → Descriptor M) (id : String) (entries : Dict String ℕ)
      → get_free_id id (seen objects entries) ≡ get_free_id id entries
  unfolding get_free_id
  get_free_id-seen objects id entries = rw (
    contains-seen objects id entries,
    length-seen objects entries,
    free_suffix-seen objects (suffixed id) (suc (length entries)) 2 entries,
  )
