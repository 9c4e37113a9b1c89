-- ===== src/MiotCloud/Caching.antt =====
-- What a call of `get_device_model` in miio/miot_cloud.py leaves in the cache.
use python_miio.Base.{
  ◌≡◌, refl, subst, inl, inr, ◌+◌, ◌*◌, arith, lt→ltb, String, true, Bool-cases, Option, none, some,
  List,
}
use python_miio.Python.Value.{Value}
use python_miio.Python.Dict.{text_eq, lookup, lookup-insert_self}
use python_miio.Python.Result.{Result, Result-cases, ok, err, value_error, or_raise}
use python_miio.Python.Action.{Action, pure, resume, recover_with, try_except, ◌>>=◌}
use python_miio.Miot.Service.{DeviceModel}
use python_miio.MiotCloud.Releases.{ReleaseInfo, info_for_model}
use python_miio.MiotCloud.Newest.{info_for_model_lem}
use python_miio.MiotCloud.Cache.{
  File, CacheDir, Specs, model_file, valid_cache, fresh_contents, file_from_cache, written,
  write_to_cache, on_file_not_found, get_release_list, spec_of_release, get_model_schema,
  get_device_model, parsed_model, fetch_spec, is_file_not_found,
}

-- Where a step returns, what it leaves.
abbrev Leaves : {A : Type 0} → (A → CacheDir → Type 0) → Result A × CacheDir → Type 0
Leaves Q (ok a, s) = Q a s
Leaves Q (err e, s) = Unit

Leaves->>= :
    {A B : Type 0} (P : A → CacheDir → Type 0) (Q : B → CacheDir → Type 0) (m : Action CacheDir A)
    (f : A → Action CacheDir B) (s : CacheDir)
    → Leaves P (m s)
    → ((a : A) (s' : CacheDir) → P a s' → Leaves Q (f a s'))
    → Leaves Q ((m >>= f) s)
Leaves->>= {A} P Q m f s first rest = after (m s).0 (m s).1 first
  where
    after : (r : Result A) (s' : CacheDir) → Leaves P (r, s') → Leaves Q (resume r f s')
    after (ok a) s' w = rest a s' w
    after (err e) s' w = tt

Leaves-try :
    {A : Type 0} (Q : A → CacheDir → Type 0) (m h : Action CacheDir A) (s : CacheDir)
    → Leaves Q (m s)
    → ((s' : CacheDir) → Leaves Q (h s'))
    → Leaves Q (try_except m (on_file_not_found h) s)
Leaves-try {A} Q m h s first other = after (m s).0 (m s).1 first
  where
    after :
        (r : Result A) (s' : CacheDir)
        → Leaves Q (r, s')
        → Leaves Q (recover_with r (on_file_not_found h) s')
    after (ok a) s' w = w
    after (err e) s' w = elim (Bool-cases (is_file_not_found e)) [
      | inl missing ↦ rw missing (other s')
      | inr passed ↦ rw passed tt
    ]

-- What is read stands in the file, and the file is fresh.
abbrev pub IsFresh : String → Value → CacheDir → Type 0
IsFresh file spec s =
    (f : File) × (lookup file s.files ≡ some f)
    × (f.contents ≡ some spec)
    × (valid_cache f s.now ≡ true)

read-IsFresh :
    (file : String) (s : CacheDir) (o : Option File)
    → lookup file s.files ≡ o
    → Leaves (IsFresh file) (fresh_contents o s.now, s)
read-IsFresh file s none h = tt
read-IsFresh file s (some f) h = elim (Bool-cases (valid_cache f s.now)) [
  | inl fresh ↦ rw fresh (loaded f.contents refl fresh)
  | inr stale ↦ rw stale tt
]
  where
    loaded :
        (contents : Option Value)
        → f.contents ≡ contents
        → valid_cache f s.now ≡ true
        → Leaves (IsFresh file) (or_raise contents value_error, s)
    loaded none k fresh = tt
    loaded (some spec) k fresh = (f, h, k, fresh)

file_from_cache-IsFresh :
    (file : String) (s : CacheDir) → Leaves (IsFresh file) (file_from_cache file s)
unfolding file_from_cache
file_from_cache-IsFresh file s = read-IsFresh file s (lookup file s.files) refl

written-IsFresh :
    (file : String) (spec : Value) (s : CacheDir) → IsFresh file spec (written file spec s)
unfolding valid_cache
written-IsFresh file spec s = (
  record { contents = some spec; modified = s.now },
  lookup-insert_self file _ s.files,
  refl,
  lt→ltb s.now (s.now + 6 * 3600) (omega arith),
)

module _ (c : Specs) where
  fetch_spec-IsFresh :
      (file : String) (r : ReleaseInfo) (s : CacheDir)
      → Leaves (IsFresh file) (fetch_spec c file r s)
  unfolding write_to_cache
  fetch_spec-IsFresh file r s = fetched (c.get_spec_for_urn r.release_type)
    where
      fetched :
          (spec : Result Value)
          → Leaves
              (IsFresh file)
              (resume spec (λ x. write_to_cache file x >>= λ done. pure (ok x)) s)
      fetched (ok spec) = written-IsFresh file spec s
      fetched (err e) = tt

  spec_of_release-IsFresh :
      (r : ReleaseInfo) (s : CacheDir)
      → Leaves (IsFresh (model_file r.release_model)) (spec_of_release c r s)
  spec_of_release-IsFresh r s =
      Leaves-try (IsFresh (model_file r.release_model))
        (file_from_cache (model_file r.release_model)) (fetch_spec c (model_file r.release_model) r)
        s (file_from_cache-IsFresh (model_file r.release_model) s)
        (λ s'. fetch_spec-IsFresh (model_file r.release_model) r s')

  any_list : (out : Result (List ReleaseInfo) × CacheDir) → Leaves (λ releases s. Unit) out
  any_list (ok releases, s) = tt
  any_list (err e, s) = tt

  release_found :
      (model : String) (releases : List ReleaseInfo) (s : CacheDir)
      → Leaves (λ r s'. r.release_model ≡ model) (info_for_model model releases, s)
  release_found model releases s = elim (Result-cases (info_for_model model releases)) [
    | inl (r, found) ↦ rw found (info_for_model_lem model releases r found).0
    | inr (e, missing) ↦ rw missing tt
  ]

  get_model_schema-IsFresh :
      (model : String) (s : CacheDir)
      → Leaves (IsFresh (model_file model)) (get_model_schema c model s)
  unfolding get_model_schema
  get_model_schema-IsFresh model s =
      Leaves->>= (λ releases s'. Unit) (IsFresh (model_file model)) (get_release_list c) _ s
        (any_list (get_release_list c s))
        (λ releases s' u.
          Leaves->>= (λ r s''. r.release_model ≡ model) (IsFresh (model_file model))
            (pure (info_for_model model releases)) (spec_of_release c) s'
            (release_found model releases s')
            (λ r s'' same.
              subst (λ m. Leaves (IsFresh (model_file m)) (spec_of_release c r s'')) same
                (spec_of_release-IsFresh r s'')))

  -- What the specification in the file is parsed to.
  abbrev IsParsed : String → DeviceModel → CacheDir → Type 0
  IsParsed file m s = (spec : Value) × IsFresh file spec s × (c.parse_device_model spec ≡ ok m)

  parsed :
      (file : String) (spec : Value) (s : CacheDir)
      → IsFresh file spec s
      → Leaves (IsParsed file) (c.parse_device_model spec, s)
  parsed file spec s w = elim (Result-cases (c.parse_device_model spec)) [
    | inl (m, read) ↦ rw read (spec, w, read)
    | inr (e, failed) ↦ rw failed tt
  ]

  get_device_model-IsParsed :
      (model : String) (s : CacheDir)
      → Leaves (IsParsed (model_file model)) (get_device_model c model s)
  unfolding get_device_model
  get_device_model-IsParsed model s =
      Leaves-try (IsParsed (model_file model)) (parsed_model c (file_from_cache (model_file model)))
        (parsed_model c (get_model_schema c model)) s
        (read_parsed (file_from_cache (model_file model)) s
          (file_from_cache-IsFresh (model_file model) s))
        (λ s'. read_parsed (get_model_schema c model) s' (get_model_schema-IsFresh model s'))
    where
      read_parsed :
          (m : Action CacheDir Value) (s₁ : CacheDir)
          → Leaves (IsFresh (model_file model)) (m s₁)
          → Leaves (IsParsed (model_file model)) (parsed_model c m s₁)
      read_parsed m s₁ w =
          Leaves->>= (IsFresh (model_file model)) (IsParsed (model_file model)) m _ s₁ w
            (λ spec s₂ k. parsed (model_file model) spec s₂ k)

  -- With such a file in the cache nothing else is asked.
  get_device_model_of_parsed :
      (model : String) (m : DeviceModel) (s : CacheDir)
      → IsParsed (model_file model) m s
      → get_device_model c model s ≡ (ok m, s)
  unfolding get_device_model file_from_cache
  get_device_model_of_parsed model m s (spec, (f, there, loaded, fresh), read) =
      rw (there, fresh, loaded, read) refl

-- Where a model is returned, a second call before time goes on returns the same model out of the cache and
-- changes nothing, whatever the cloud would answer by then.
pub get_device_model_again :
    (c : Specs) (model : String) (s : CacheDir) (m : DeviceModel) (specs : Result Value)
    (spec_for_urn : String → Result Value)
    → (get_device_model c model s).0 ≡ ok m
    → get_device_model
        (record c { get_specs = specs; get_spec_for_urn = spec_for_urn })
        model
        (get_device_model c model s).1
      ≡ (ok m, (get_device_model c model s).1)
get_device_model_again c model s m specs spec_for_urn h =
    get_device_model_of_parsed (record c { get_specs = specs; get_spec_for_urn = spec_for_urn })
      model m (get_device_model c model s).1
      (subst (λ r. Leaves (IsParsed c (model_file model)) (r, (get_device_model c model s).1)) h
        (get_device_model-IsParsed c model s))
