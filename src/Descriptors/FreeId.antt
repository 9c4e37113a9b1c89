-- ===== src/Descriptors/FreeId.antt =====
-- `_get_free_id` of `DescriptorCollection.add_descriptor`: an identifier that is not taken.
use Prim.Native.String.{◌++◌}
use text.Mathlib.TextLemmas.{append_cancel_left}
use python_miio.Base.{
  ℕ, zero, suc, ◌+◌, ◌<◌, ◌≤◌, ◌≡◌, ◌⊎◌, refl, sym, ◌∙◌, inl, inr, Bool-cases, String, true, false,
  Option, none, some, length, arith, if◌then◌else◌,
}
use python_miio.Base.Decimal.{decimal, decimal_injective}
use python_miio.Python.Dict.{Dict, text_eq, contains, erase, contains-erase_ne, length-erase}

-- `f"{id_}-{suffix}"`
unfoldable pub suffixed : String → ℕ → String
suffixed id suffix = id ++ ("-" ++ decimal suffix)

abbrev pub named : String → Option ℕ → Option String
named id none = none
named id (some suffix) = some (suffixed id suffix)

module _ {V : Type 0} where
  -- The loop `while f"{id_}-{suffix}" in self.data: suffix += 1`, for at most `fuel` tests.
  unfoldable pub free_suffix : (ℕ → String) → ℕ → ℕ → Dict String V → Option ℕ
  free_suffix key zero suffix d = none
  free_suffix key (suc fuel) suffix d =
      let next = free_suffix key fuel (suc suffix) d in
      if contains (key suffix) d then next else some suffix

  -- `_get_free_id(id_)`. One test more than there are keys is enough: see `free_id_lem`.
  unfoldable pub get_free_id : String → Dict String V → Option String
  get_free_id id d =
      if contains id d then named id (free_suffix (suffixed id) (suc (length d)) 2 d) else some id

suffixed_injective : (id : String) (m n : ℕ) → suffixed id m ≡ suffixed id n → m ≡ n
unfolding suffixed
suffixed_injective id m n e =
    decimal_injective m n (append_cancel_left "-" _ _ (append_cancel_left id _ _ e))

-- `k` names in a row are taken, from the one with the number `suffix` on.
abbrev pub TakenFrom : {V : Type 0} → (ℕ → String) → ℕ → ℕ → Dict String V → Type 0
TakenFrom key suffix zero d = Unit
TakenFrom key suffix (suc k) d = (contains (key suffix) d ≡ true) × TakenFrom key (suc suffix) k d

module _ {V : Type 0} (key : ℕ → String) (key_injective : (m n : ℕ) → key m ≡ key n → m ≡ n) where
  -- The loop depends only on which of the later names are taken.
  free_suffix_congr :
      (fuel suffix : ℕ) (d d' : Dict String V)
      → ((n : ℕ) → suffix ≤ n → contains (key n) d ≡ contains (key n) d')
      → free_suffix key fuel suffix d ≡ free_suffix key fuel suffix d'
  unfolding free_suffix
  free_suffix_congr zero suffix d d' h = refl
  free_suffix_congr (suc fuel) suffix d d' h =
      rw (
        h suffix (omega arith),
        free_suffix_congr fuel (suc suffix) d d' (λ n le. h n (omega arith)),
      )

  TakenFrom-congr :
      (k suffix : ℕ) (d d' : Dict String V)
      → ((n : ℕ) → suffix ≤ n → contains (key n) d ≡ contains (key n) d')
      → TakenFrom key suffix k d'
      → TakenFrom key suffix k d
  TakenFrom-congr zero suffix d d' h t = tt
  TakenFrom-congr (suc k) suffix d d' h t = (
    h suffix (omega arith) ∙ t.0,
    TakenFrom-congr k (suc suffix) d d' (λ n le. h n (omega arith)) t.1,
  )

  -- The search finds the first name that is not taken, if it may make more tests than there are names.
  free_suffix_lem :
      (fuel suffix : ℕ) (d : Dict String V)
      → length d < fuel
      → (k : ℕ) × (free_suffix key fuel suffix d ≡ some (suffix + k))
        × (contains (key (suffix + k)) d ≡ false)
        × TakenFrom key suffix k d
  unfolding free_suffix
  free_suffix_lem zero suffix d h = absurd (omega arith)
  free_suffix_lem (suc fuel) suffix d h = elim (Bool-cases (contains (key suffix) d)) [
    | inl taken ↦
        (let d' : Dict String V = erase (key suffix) d in
          let kept : (n : ℕ) → suc suffix ≤ n → contains (key n) d ≡ contains (key n) d' = λ n le.
            sym (contains-erase_ne (key suffix) (key n) d (λ e. absurd (apart suffix n le e))) in
          let (k, found, free, before) =
            free_suffix_lem fuel (suc suffix) d'
              (omega (arith, length-erase (key suffix) d taken)) in
          let shift : suffix + suc k ≡ suc suffix + k = omega arith in
          (
            suc k,
            rw (shift, taken, free_suffix_congr fuel (suc suffix) d d' kept) found,
            rw shift (kept (suc suffix + k) (omega arith) ∙ free),
            (taken, TakenFrom-congr k (suc suffix) d d' kept before),
          ))
    | inr free ↦
        (let shift : suffix + 0 ≡ suffix = omega arith in (0, rw (shift, free), rw shift free, tt))
  ]
    where
      apart : (m n : ℕ) → suc m ≤ n → key m ≡ key n → ⊥
      apart m n le e = let same : m ≡ n = key_injective m n e in omega arith

-- Some id is always found, and it is not taken. It is the wanted one if that is not taken, and
-- otherwise the wanted one with a number behind it, the least from 2 on for which it is not taken.
pub get_free_id_lem :
    {V : Type 0} (id : String) (d : Dict String V)
    → (id' : String) × (get_free_id id d ≡ some id')
      × (contains id' d ≡ false)
      × (((contains id d ≡ false) × (id' ≡ id))
          ⊎ ((k : ℕ) × (contains id d ≡ true)
              × (id' ≡ suffixed id (2 + k))
              × TakenFrom (suffixed id) 2 k d))
unfolding get_free_id
get_free_id_lem id d = elim (Bool-cases (contains id d)) [
  | inl taken ↦
      (let (k, found, free, before) =
          free_suffix_lem (suffixed id) (suffixed_injective id) (suc (length d)) 2 d
            (omega arith) in
        (suffixed id (2 + k), rw (taken, found), free, inr (k, taken, refl, before)))
  | inr free ↦ (id, rw free, free, inl (free, refl))
]
