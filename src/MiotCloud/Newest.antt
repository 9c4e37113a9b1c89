-- ===== src/MiotCloud/Newest.antt =====
-- Which release `info_for_model` of miio/miot_cloud.py gives.
use python_miio.Base.{
  ◌≡◌, refl, sym, ap, subst, ◌∙◌, ◌⊎◌, inl, inr, Bool, true, false, Bool-cases, String, List, [],
  ◌∷◌, All, arith, str_eq, str_eq_iff, if◌then◌else◌,
}
use python_miio.Base.Int.{ℤ, ◌≤ℤ◌, leb_ℤ}
use python_miio.Python.Result.{ok}
use python_miio.MiotCloud.Releases.{ReleaseInfo, releases_of, newest, newest_of, info_for_model}

abbrev NotNewer : ReleaseInfo → ReleaseInfo → Type 0
NotNewer best r = r.version ≤ℤ best.version

≤ℤ-trans : (a b c : ℤ) → a ≤ℤ b → b ≤ℤ c → a ≤ℤ c
≤ℤ-trans a b c h k = omega arith

leb_ℤ→≤ℤ : (a b : ℤ) → leb_ℤ a b ≡ true → a ≤ℤ b
leb_ℤ→≤ℤ a b h = ground arith

not_leb_ℤ→≤ℤ : (a b : ℤ) → leb_ℤ a b ≡ false → b ≤ℤ a
not_leb_ℤ→≤ℤ a b h = ground arith

abbrev pub IsListed : ReleaseInfo → List ReleaseInfo → Type 0
IsListed r [] = ⊥
IsListed r (x ∷ xs) = (r ≡ x) ⊎ IsListed r xs

-- The newest of a list whose first is `best`.
abbrev IsNewest : ReleaseInfo → List ReleaseInfo → ReleaseInfo → Type 0
IsNewest best rs n =
    (best.version ≤ℤ n.version) × All (NotNewer n) rs × ((n ≡ best) ⊎ IsListed n rs)

newest_older :
    (best r : ReleaseInfo) (rs : List ReleaseInfo)
    → leb_ℤ r.version best.version ≡ true
    → newest best (r ∷ rs) ≡ newest best rs
unfolding newest
newest_older best r rs h = ap (λ (older : Bool). newest (if older then best else r) rs) h

newest_newer :
    (best r : ReleaseInfo) (rs : List ReleaseInfo)
    → leb_ℤ r.version best.version ≡ false
    → newest best (r ∷ rs) ≡ newest r rs
unfolding newest
newest_newer best r rs h = ap (λ (older : Bool). newest (if older then best else r) rs) h

step_older :
    (best r : ReleaseInfo) (rs : List ReleaseInfo) (n : ReleaseInfo)
    → r.version ≤ℤ best.version
    → IsNewest best rs n
    → IsNewest best (r ∷ rs) n
step_older best r rs n h (least, others, inl same) =
    (least, (≤ℤ-trans r.version best.version n.version h least, others), inl same)
step_older best r rs n h (least, others, inr later) =
    (least, (≤ℤ-trans r.version best.version n.version h least, others), inr (inr later))

step_newer :
    (best r : ReleaseInfo) (rs : List ReleaseInfo) (n : ReleaseInfo)
    → best.version ≤ℤ r.version
    → IsNewest r rs n
    → IsNewest best (r ∷ rs) n
step_newer best r rs n h (least, others, found) =
    (≤ℤ-trans best.version r.version n.version h least, (least, others), inr found)

newest-IsNewest : (best : ReleaseInfo) (rs : List ReleaseInfo) → IsNewest best rs (newest best rs)
unfolding newest
newest-IsNewest best [] = (omega arith, tt, inl refl)
newest-IsNewest best (r ∷ rs) = elim (Bool-cases (leb_ℤ r.version best.version)) [
  | inl older ↦ subst (IsNewest best (r ∷ rs)) (sym (newest_older best r rs older)) (
      step_older best r rs (newest best rs) (leb_ℤ→≤ℤ r.version best.version older)
        (newest-IsNewest best rs))
  | inr newer ↦ subst (IsNewest best (r ∷ rs)) (sym (newest_newer best r rs newer)) (
      step_newer best r rs (newest r rs) (not_leb_ℤ→≤ℤ r.version best.version newer)
        (newest-IsNewest r rs))
]

-- A release of another model, or one that is not newer.
abbrev pub NotNewerFor : String → ReleaseInfo → ReleaseInfo → Type 0
NotNewerFor model n r = (str_eq r.release_model model ≡ false) ⊎ (r.version ≤ℤ n.version)

releases_same :
    (model : String) (r : ReleaseInfo) (rs : List ReleaseInfo)
    → str_eq r.release_model model ≡ true
    → releases_of model (r ∷ rs) ≡ r ∷ releases_of model rs
unfolding releases_of
releases_same model r rs h = rw h refl

releases_other :
    (model : String) (r : ReleaseInfo) (rs : List ReleaseInfo)
    → str_eq r.release_model model ≡ false
    → releases_of model (r ∷ rs) ≡ releases_of model rs
unfolding releases_of
releases_other model r rs h = rw h refl

All-among :
    (model : String) (n : ReleaseInfo) (rs : List ReleaseInfo)
    → All (NotNewer n) (releases_of model rs)
    → All (NotNewerFor model n) rs
All-among model n [] w = tt
All-among model n (r ∷ rs) w = elim (Bool-cases (str_eq r.release_model model)) [
  | inl same ↦
      (let (first, rest) = subst (All (NotNewer n)) (releases_same model r rs same) w in
        (inr first, All-among model n rs rest))
  | inr other ↦ (
    inl other,
    All-among model n rs (subst (All (NotNewer n)) (releases_other model r rs other) w),
  )
]

abbrev IsFound : String → List ReleaseInfo → ReleaseInfo → Type 0
IsFound model rs n = (n.release_model ≡ model) × IsListed n rs

further :
    (model : String) (n r : ReleaseInfo) (rs : List ReleaseInfo)
    → IsFound model rs n
    → IsFound model (r ∷ rs) n
further model n r rs (of_model, listed) = (of_model, inr listed)

listed_of_model :
    (model : String) (n : ReleaseInfo) (rs : List ReleaseInfo)
    → IsListed n (releases_of model rs)
    → IsFound model rs n
unfolding releases_of
listed_of_model model n [] w = absurd w
listed_of_model model n (r ∷ rs) w = elim (Bool-cases (str_eq r.release_model model)) [
  | inl same ↦
      first same (λ later. listed_of_model model n rs later)
        (subst (IsListed n) (releases_same model r rs same) w)
  | inr other ↦
      further model n r rs
        (listed_of_model model n rs (subst (IsListed n) (releases_other model r rs other) w))
]
  where
    first :
        str_eq r.release_model model ≡ true
        → (IsListed n (releases_of model rs) → IsFound model rs n)
        → IsListed n (r ∷ releases_of model rs)
        → IsFound model (r ∷ rs) n
    first same ih (inl e) =
        (ap (λ x. x.release_model) e ∙ (str_eq_iff r.release_model model).0 same, inl e)
    first same ih (inr later) = further model n r rs (ih later)

newest_of_lem :
    (model : String) (listed all : List ReleaseInfo) (n : ReleaseInfo)
    → listed ≡ releases_of model all
    → newest_of listed ≡ ok n
    → IsFound model all n × All (NotNewerFor model n) all
newest_of_lem model [] all n e h = cc
newest_of_lem model (r ∷ rs) all n e h =
    let same : newest r rs ≡ n = cc in
    let (least, others, found) = subst (IsNewest r rs) same (newest-IsNewest r rs) in
    (
      listed_of_model model n all (subst (IsListed n) e found),
      All-among model n all (subst (All (NotNewer n)) e (least, others)),
    )

-- The release that is found for a model is one of the list that is for this model, and no release of the
-- list for the same model has a higher version.
pub info_for_model_lem :
    (model : String) (releases : List ReleaseInfo) (n : ReleaseInfo)
    → info_for_model model releases ≡ ok n
    → (n.release_model ≡ model) × IsListed n releases × All (NotNewerFor model n) releases
unfolding info_for_model
info_for_model_lem model releases n h =
    let ((of_model, listed), others) =
      newest_of_lem model (releases_of model releases) releases n refl h in
    (of_model, listed, others)
