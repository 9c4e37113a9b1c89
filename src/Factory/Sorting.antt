-- ===== src/Factory/Sorting.antt =====
-- What sorting and filtering keep of the registered models.
use python_miio.Base.{
  ℕ, ◌≤◌, ◌≡◌, ◌⊎◌, inl, inr, sym, subst, String, true, Bool-cases, List, [], ◌∷◌, All, arith, leb,
}
use python_miio.Base.Text.{text_length}
use python_miio.Python.Dict.{text_eq}
use python_miio.Factory.Registry.{
  is_wildcard, insert_by_length, sorted_by_longest_prefix, wildcard_models,
}

module _ {C : Type 0} where
  -- No entry is longer than `n`.
  abbrev pub Below : ℕ → List (String × C) → Type 0
  Below n xs = All (λ x. text_length x.0 ≤ n) xs

  abbrev pub IsDescending : List (String × C) → Type 0
  IsDescending [] = Unit
  IsDescending (x ∷ xs) = Below (text_length x.0) xs × IsDescending xs

  Below-weaken : (m n : ℕ) (xs : List (String × C)) → m ≤ n → Below m xs → Below n xs
  Below-weaken m n [] le h = tt
  Below-weaken m n (x ∷ xs) le h = (omega (arith, h.0), Below-weaken m n xs le h.1)

  insert_by_length-Below :
      (n : ℕ) (x : String × C) (xs : List (String × C))
      → text_length x.0 ≤ n
      → Below n xs
      → Below n (insert_by_length x xs)
  unfolding insert_by_length
  insert_by_length-Below n x [] le h = (le, tt)
  insert_by_length-Below n x (y ∷ ys) le h =
      elim (Bool-cases (leb (text_length y.0) (text_length x.0))) [
        | inl before ↦ rw before (le, h)
        | inr behind ↦ rw behind (h.0, insert_by_length-Below n x ys le h.1)
      ]

  insert_by_length-IsDescending :
      (x : String × C) (xs : List (String × C))
      → IsDescending xs
      → IsDescending (insert_by_length x xs)
  unfolding insert_by_length
  insert_by_length-IsDescending x [] h = (tt, tt)
  insert_by_length-IsDescending x (y ∷ ys) h =
      elim (Bool-cases (leb (text_length y.0) (text_length x.0))) [
        | inl before ↦ rw before (
          (ground arith, Below-weaken (text_length y.0) (text_length x.0) ys (ground arith) h.0),
          h,
        )
        | inr behind ↦ rw behind (
          insert_by_length-Below (text_length y.0) x ys (ground arith) h.0,
          insert_by_length-IsDescending x ys h.1,
        )
      ]

  pub sorted_by_longest_prefix-IsDescending :
      (xs : List (String × C)) → IsDescending (sorted_by_longest_prefix xs)
  unfolding sorted_by_longest_prefix
  sorted_by_longest_prefix-IsDescending [] = tt
  sorted_by_longest_prefix-IsDescending (x ∷ xs) =
      insert_by_length-IsDescending x _ (sorted_by_longest_prefix-IsDescending xs)

  -- a member of a list
  abbrev pub In : String × C → List (String × C) → Type 0
  In y [] = ⊥
  In y (x ∷ xs) = (y ≡ x) ⊎ In y xs

  pub In-Below :
      (n : ℕ) (y : String × C) (xs : List (String × C)) → Below n xs → In y xs → text_length y.0 ≤ n
  In-Below n y [] h m = absurd m
  In-Below n y (x ∷ xs) h (inl e) = subst (λ z. text_length z.0 ≤ n) (sym e) h.0
  In-Below n y (x ∷ xs) h (inr m) = In-Below n y xs h.1 m

  In-insert_by_length :
      (y x : String × C) (xs : List (String × C)) → (y ≡ x) ⊎ In y xs → In y (insert_by_length x xs)
  unfolding insert_by_length
  In-insert_by_length y x [] m = m
  In-insert_by_length y x (z ∷ zs) m = elim (Bool-cases (leb (text_length z.0) (text_length x.0))) [
    | inl before ↦ rw before m
    | inr behind ↦ rw behind (swapped (λ k. In-insert_by_length y x zs k) m)
  ]
    where
      swapped :
          ((y ≡ x) ⊎ In y zs → In y (insert_by_length x zs))
          → (y ≡ x) ⊎ ((y ≡ z) ⊎ In y zs)
          → (y ≡ z) ⊎ In y (insert_by_length x zs)
      swapped go (inl e) = inr (go (inl e))
      swapped go (inr (inl e)) = inl e
      swapped go (inr (inr m)) = inr (go (inr m))

  In-of_insert_by_length :
      (y x : String × C) (xs : List (String × C)) → In y (insert_by_length x xs) → (y ≡ x) ⊎ In y xs
  unfolding insert_by_length
  In-of_insert_by_length y x [] m = m
  In-of_insert_by_length y x (z ∷ zs) m =
      elim (Bool-cases (leb (text_length z.0) (text_length x.0))) [
        | inl before ↦ simp before at m
        | inr behind ↦ swapped (λ k. In-of_insert_by_length y x zs k) (simp behind at m)
      ]
    where
      swapped :
          (In y (insert_by_length x zs) → (y ≡ x) ⊎ In y zs)
          → (y ≡ z) ⊎ In y (insert_by_length x zs)
          → (y ≡ x) ⊎ ((y ≡ z) ⊎ In y zs)
      swapped go (inl e) = inr (inl e)
      swapped go (inr m) = elim (go m) [ inl e ↦ inl e | inr k ↦ inr (inr k) ]

  pub In-sorted :
      (y : String × C) (xs : List (String × C)) → In y xs → In y (sorted_by_longest_prefix xs)
  unfolding sorted_by_longest_prefix
  In-sorted y [] m = m
  In-sorted y (x ∷ xs) (inl e) = In-insert_by_length y x _ (inl e)
  In-sorted y (x ∷ xs) (inr m) = In-insert_by_length y x _ (inr (In-sorted y xs m))

  pub In-of_sorted :
      (y : String × C) (xs : List (String × C)) → In y (sorted_by_longest_prefix xs) → In y xs
  unfolding sorted_by_longest_prefix
  In-of_sorted y [] m = m
  In-of_sorted y (x ∷ xs) m = elim (In-of_insert_by_length y x _ m) [
    | inl e ↦ inl e
    | inr k ↦ inr (In-of_sorted y xs k)
  ]

  pub In-wildcard_models :
      (y : String × C) (d : List (String × C))
      → In y d
      → is_wildcard y ≡ true
      → In y (wildcard_models d)
  unfolding wildcard_models
  In-wildcard_models y [] m h = m
  In-wildcard_models y (x ∷ d) (inl e) h = rw (subst (λ z. is_wildcard z ≡ true) e h) (inl e)
  In-wildcard_models y (x ∷ d) (inr m) h = elim (Bool-cases (is_wildcard x)) [
    | inl kept ↦ rw kept (inr (In-wildcard_models y d m h))
    | inr dropped ↦ rw dropped (In-wildcard_models y d m h)
  ]

  pub In-of_wildcard_models :
      (y : String × C) (d : List (String × C))
      → In y (wildcard_models d)
      → In y d × (is_wildcard y ≡ true)
  unfolding wildcard_models
  In-of_wildcard_models y [] m = absurd m
  In-of_wildcard_models y (x ∷ d) m = elim (Bool-cases (is_wildcard x)) [
    | inl kept ↦ here (λ k. In-of_wildcard_models y d k) kept (simp kept at m)
    | inr dropped ↦ (let (k, w) = In-of_wildcard_models y d (simp dropped at m) in (inr k, w))
  ]
    where
      here :
          (In y (wildcard_models d) → In y d × (is_wildcard y ≡ true))
          → is_wildcard x ≡ true
          → (y ≡ x) ⊎ In y (wildcard_models d)
          → In y (x ∷ d) × (is_wildcard y ≡ true)
      here go kept (inl e) = (inl e, subst (λ z. is_wildcard z ≡ true) (sym e) kept)
      here go kept (inr k) = let (i, w) = go k in (inr i, w)
