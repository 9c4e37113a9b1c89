-- ===== src/Descriptors/Held.antt =====
-- What adding descriptor objects does to a collection that does not hold them yet.
use python_miio.Base.{ℕ, suc, ◌≡◌, refl, ap, List, [], ◌∷◌, length}
use python_miio.Descriptors.Defs.{Descriptor}
use python_miio.Descriptors.Collection.{Host}
use python_miio.Descriptors.Objects.{Space, view, add_all}
use python_miio.Descriptors.Adding.{IsWellFormed, AddsUpTo, add_all_fresh_lem}
use python_miio.Descriptors.Seen.{IsApart, AreDistinct}
use python_miio.Descriptors.Sharing.{AreApart, copies, add_all-copies}

module _ {M : Type 0} (host : Host M) where
  length-copies :
      (objects : ℕ → Descriptor M) (refs : List ℕ) → length (copies objects refs) ≡ length refs
  length-copies objects [] = refl
  length-copies objects (r ∷ refs) = ap suc (length-copies objects refs)

  -- Adding the descriptor objects of `refs` to a well-formed collection, where no object is given twice
  -- and the collection holds none of them, keeps the collection well-formed, where it returns and
  -- where it raises: no id is used twice, each descriptor is stored under its own id and is bound. The
  -- old entries stay as they are and where they are. If it returns there is one new entry for each
  -- object, and if it raises there are fewer. Every object that is not given is as before.
  pub add_all_lem :
      (refs : List ℕ) (s : Space M)
      → AreDistinct refs
      → AreApart refs s.entries
      → IsWellFormed (view s)
      → AddsUpTo host (length refs) (view s) ((add_all host refs s).0, view (add_all host refs s).1)
        × ((q : ℕ) → IsApart q refs → (add_all host refs s).1.objects q ≡ s.objects q)
  add_all_lem refs s distinct apart w =
      let (result, looks, kept, others) = add_all-copies host refs s distinct apart in
      (
        rw (result, looks, ← length-copies s.objects refs)
            (add_all_fresh_lem host (copies s.objects refs) (view s) w),
        kept,
      )
