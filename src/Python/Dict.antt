-- ===== src/Python/Dict.antt =====
-- Python's `dict` as a list of entries in insertion order, over any keys that can be compared.
use python_miio.Base.{
  length, suc, ℕ, String, ◌≡◌, refl, ◌≢◌, ◌↔◌, Bool, true, false, Option, none, some, List, [], ◌∷◌,
  ◌++◌, arith, str_eq, str_eq_iff, if◌then◌else◌, ◌==◌ as nat_eq, ==_iff, subst, inl, inr,
  Bool-cases,
}

-- What can be a key: keys are found by `==`.
pub record Key {ℓ} (K : Type ℓ) : Type ℓ where
  pub beq : K → K → Bool
  pub beq_iff : (j k : K) → (beq j k ≡ true) ↔ (j ≡ k)

instance abbrev pub number_eq : Key ℕ
number_eq = record { beq = nat_eq; beq_iff = ==_iff }

instance abbrev pub text_eq : Key String
text_eq = record { beq = str_eq; beq_iff = str_eq_iff }

pub beq_refl {ℓ} : {K : Type ℓ} ⦃e : Key K⦄ (k : K) → e.beq k k ≡ true
beq_refl ⦃e⦄ k = (e.beq_iff k k).1 refl

abbrev pub Dict {ℓ κ} : Type ℓ → Type κ → Type (ℓ ⊔ κ)
Dict K V = List (K × V)

module _ {ℓ κ} {K : Type ℓ} {V : Type κ} ⦃e : Key K⦄ where
  -- `d.get(k)`
  unfoldable pub lookup : K → Dict K V → Option V
  lookup k [] = none
  lookup k ((j, v) ∷ d) = if e.beq j k then some v else lookup k d

  -- `k in d`
  unfoldable pub contains : K → Dict K V → Bool
  contains k [] = false
  contains k ((j, v) ∷ d) = if e.beq j k then true else contains k d

  -- `d[k] = v`: an old key keeps its place
  unfoldable pub insert : K → V → Dict K V → Dict K V
  insert k v [] = (k, v) ∷ []
  insert k v ((j, w) ∷ d) = if e.beq j k then (j, v) ∷ d else (j, w) ∷ insert k v d

  -- `d.pop(k)` of a key that is there, `del d[k]`
  unfoldable pub erase : K → Dict K V → Dict K V
  erase k [] = []
  erase k ((j, v) ∷ d) = if e.beq j k then d else (j, v) ∷ erase k d

  pub lookup-insert :
      (k j : K) (v : V) (d : Dict K V)
      → lookup j (insert k v d) ≡ (if e.beq k j then some v else lookup j d)
  unfolding lookup insert
  lookup-insert k j v [] = refl
  lookup-insert k j v ((i, w) ∷ d) =
      ground (arith, e.beq_iff k j, e.beq_iff i k, e.beq_iff i j, lookup-insert k j v d)

  pub lookup-insert_ne :
      (k j : K) (v : V) (d : Dict K V) → k ≢ j → lookup j (insert k v d) ≡ lookup j d
  lookup-insert_ne k j v d ne =
      let miss : e.beq k j ≡ false = ground (arith, ne, e.beq_iff k j) in
      rw (lookup-insert k j v d, miss)

  pub contains-insert :
      (k j : K) (v : V) (d : Dict K V)
      → contains j (insert k v d) ≡ (if e.beq k j then true else contains j d)
  unfolding contains insert
  contains-insert k j v [] = refl
  contains-insert k j v ((i, w) ∷ d) =
      ground (arith, e.beq_iff k j, e.beq_iff i k, e.beq_iff i j, contains-insert k j v d)

  pub lookup_of_not_contains : (k : K) (d : Dict K V) → contains k d ≡ false → lookup k d ≡ none
  unfolding contains lookup
  lookup_of_not_contains k [] h = refl
  lookup_of_not_contains k ((j, v) ∷ d) h = ground (arith, lookup_of_not_contains k d)

  -- A new key goes to the end.
  pub insert_new :
      (k : K) (v : V) (d : Dict K V) → contains k d ≡ false → insert k v d ≡ d ++ (k, v) ∷ []
  unfolding contains insert
  insert_new k v [] h = refl
  insert_new k v ((j, w) ∷ d) h = ground (arith, insert_new k v d)

  pub lookup-erase_ne : (k j : K) (d : Dict K V) → k ≢ j → lookup j (erase k d) ≡ lookup j d
  unfolding lookup erase
  lookup-erase_ne k j [] h = refl
  lookup-erase_ne k j ((i, v) ∷ d) h =
      ground (arith, h, e.beq_iff i k, e.beq_iff i j, lookup-erase_ne k j d h)

  pub contains-erase_ne : (k j : K) (d : Dict K V) → k ≢ j → contains j (erase k d) ≡ contains j d
  unfolding contains erase
  contains-erase_ne k j [] h = refl
  contains-erase_ne k j ((i, v) ∷ d) h =
      ground (arith, h, e.beq_iff i k, e.beq_iff i j, contains-erase_ne k j d h)

  pub length-erase :
      (k : K) (d : Dict K V) → contains k d ≡ true → length d ≡ suc (length (erase k d))
  unfolding contains erase
  length-erase k [] h = cc
  length-erase k ((j, v) ∷ d) h = ground (arith, length-erase k d)

  -- No key is listed twice.
  abbrev pub HasUniqueKeys : Dict K V → Type 0
  HasUniqueKeys [] = Unit
  HasUniqueKeys ((k, v) ∷ d) = (contains k d ≡ false) × HasUniqueKeys d

  pub insert-HasUniqueKeys :
      (k : K) (v : V) (d : Dict K V) → HasUniqueKeys d → HasUniqueKeys (insert k v d)
  unfolding insert contains
  insert-HasUniqueKeys k v [] h = (refl, tt)
  insert-HasUniqueKeys k v ((j, w) ∷ d) h =
      ground
        (arith, e.beq_iff j k, e.beq_iff k j, insert-HasUniqueKeys k v d, contains-insert k j v d)

  pub lookup-insert_self : (k : K) (v : V) (d : Dict K V) → lookup k (insert k v d) ≡ some v
  lookup-insert_self k v d = rw (lookup-insert k k v d, beq_refl k)

  pub insert-insert_self :
      (k : K) (v w : V) (d : Dict K V) → insert k w (insert k v d) ≡ insert k w d
  unfolding insert
  insert-insert_self k v w [] = rw (beq_refl k)
  insert-insert_self k v w ((j, x) ∷ d) = ground (arith, insert-insert_self k v w d)

  pub erase-insert_self : (k : K) (v : V) (d : Dict K V) → erase k (insert k v d) ≡ erase k d
  unfolding insert erase
  erase-insert_self k v [] = rw (beq_refl k)
  erase-insert_self k v ((j, x) ∷ d) = ground (arith, erase-insert_self k v d)

  -- Writing what is there changes nothing.
  pub insert_present : (k : K) (v : V) (d : Dict K V) → lookup k d ≡ some v → insert k v d ≡ d
  unfolding insert lookup
  insert_present k v [] h = cc
  insert_present k v ((j, x) ∷ d) h = ground (arith, insert_present k v d)

  pub lookup-erase_self : (k : K) (d : Dict K V) → HasUniqueKeys d → lookup k (erase k d) ≡ none
  unfolding lookup erase
  lookup-erase_self k [] h = refl
  lookup-erase_self k ((j, v) ∷ d) h =
      ground (arith, e.beq_iff j k, lookup_of_not_contains j d, lookup-erase_self k d)

abbrev pub keep {κ} : {V : Type κ} → (V → Bool) → Option V → Option V
keep p none = none
keep p (some v) = if p v then some v else none

module _ {ℓ κ} {K : Type ℓ} {V : Type κ} where
  -- `{k: v for k, v in d.items() if p(v)}`
  unfoldable pub filter_values : (V → Bool) → Dict K V → Dict K V
  filter_values p [] = []
  filter_values p ((k, v) ∷ d) = if p v then (k, v) ∷ filter_values p d else filter_values p d

module _ {ℓ κ} {K : Type ℓ} {V : Type κ} ⦃e : Key K⦄ where
  -- With unique keys, the entry of a key in the filtered dictionary is its entry, if the test keeps it.
  pub lookup-filter_values :
      (p : V → Bool) (k : K) (d : Dict K V)
      → HasUniqueKeys d
      → lookup k (filter_values p d) ≡ keep p (lookup k d)
  unfolding lookup filter_values
  lookup-filter_values p k [] u = refl
  lookup-filter_values p k ((j, v) ∷ d) (new, u) = elim (Bool-cases (e.beq j k)) [
    | inl hit ↦
        (let same : j ≡ k = (e.beq_iff j k).0 hit in
          let gone : lookup k d ≡ none =
            lookup_of_not_contains k d (subst (λ x. contains x d ≡ false) same new) in
          elim (Bool-cases (p v)) [
            | inl kept ↦ rw (kept, hit, kept)
            | inr dropped ↦ rw (dropped, hit, lookup-filter_values p k d u, gone, dropped)
          ])
    | inr miss ↦ elim (Bool-cases (p v)) [
      | inl kept ↦ rw (kept, miss, lookup-filter_values p k d u)
      | inr dropped ↦ rw (dropped, miss, lookup-filter_values p k d u)
    ]
  ]

pub ruleset dict_laws = (lookup-insert, contains-insert, beq_refl)
