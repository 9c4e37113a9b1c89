-- ===== src/Python/Result.antt =====
-- Exceptions as values, and the calls that touch no object and may raise.
use python_miio.Base.{
  ◌≡◌, refl, subst, ◌⊎◌, inl, inr, Bool, true, false, if◌then◌else◌, Option, none, some,
}
use python_miio.Python.Value.{Value}

-- The exceptions that the program raises, catches or lets through: those of `exceptions.py`, those
-- of Python, and the two of `construct` between which the program tells.
pub data Error : Type 0 where
  device_exception invalid_token payload_decode device_info_unavailable : Error
  device_error recoverable_error : Option Value → Option Value → Error
  os_error timeout_error key_error type_error value_error attribute_error index_error : Error
  not_implemented stop_iteration runtime_error : Error
  checksum_error construct_error : Error
  cloud_exception file_not_found exception : Error

-- `isinstance(ex, DeviceException)`, by the class hierarchy of `exceptions.py`
abbrev pub is_device_exception : Error → Bool
is_device_exception device_exception = true
is_device_exception invalid_token = true
is_device_exception payload_decode = true
is_device_exception device_info_unavailable = true
is_device_exception (device_error _ _) = true
is_device_exception (recoverable_error _ _) = true
is_device_exception _ = false

-- `isinstance(ex, DeviceError)`
abbrev pub is_device_error : Error → Bool
is_device_error (device_error _ _) = true
is_device_error (recoverable_error _ _) = true
is_device_error _ = false

-- `isinstance(ex, OSError)`: `socket.timeout` is one too
abbrev pub is_os_error : Error → Bool
is_os_error os_error = true
is_os_error timeout_error = true
is_os_error file_not_found = true
is_os_error _ = false

pub data Result {ℓ} (R : Type ℓ) : Type ℓ where
  err : Error → Result R
  ok : R → Result R

-- What a chain does with the value of its first step; an exception skips the rest.
infixl 5 ◌>>=◌
abbrev pub ◌>>=◌ {ℓ κ} : {R : Type ℓ} {S : Type κ} → Result R → (R → Result S) → Result S
err raised >>= next = err raised
ok value >>= next = next value

-- A value that has to be there, or the exception that its absence raises.
abbrev pub or_raise {ℓ} : {A : Type ℓ} → Option A → Error → Result A
or_raise none e = err e
or_raise (some a) e = ok a

-- `if not test: raise e`
abbrev pub require : Bool → Error → Result (Unit {0})
require holds raised = if holds then ok tt else err raised

-- A step whose value is not used.
infixl 5 ◌>>◌
abbrev pub ◌>>◌ {ℓ} : {S : Type ℓ} → Result (Unit {0}) → Result S → Result S
first >> second = first >>= λ done. second

abbrev pub map_ok {ℓ κ} : {R : Type ℓ} {S : Type κ} → (R → S) → Result R → Result S
map_ok f (err raised) = err raised
map_ok f (ok value) = ok (f value)

-- A chain that returns has first steps that return.
pub >>=-eq-ok {ℓ κ} :
    {R : Type ℓ} {S : Type κ} (first : Result R) (next : R → Result S) {value : S}
    → (first >>= next) ≡ ok value
    → (x : R) × (first ≡ ok x) × (next x ≡ ok value)
>>=-eq-ok (err raised) next returns = cc
>>=-eq-ok (ok x) next returns = (x, refl, returns)

pub Result-cases {ℓ} :
    {A : Type ℓ} (r : Result A) → ((a : A) × (r ≡ ok a)) ⊎ ((e : Error) × (r ≡ err e))
Result-cases (ok a) = inl (a, refl)
Result-cases (err e) = inr (e, refl)

-- The exceptions of a chain are those of its steps.
pub >>=-errors {ℓ κ} :
    {A : Type ℓ} {B : Type κ} (P : Error → Type 0) (m : Result A) (f : A → Result B)
    → ((e : Error) → m ≡ err e → P e)
    → ((a : A) (e : Error) → f a ≡ err e → P e)
    → (e : Error) → (m >>= f) ≡ err e
    → P e
>>=-errors P (ok a) f hm hf e h = hf a e h
>>=-errors P (err x) f hm hf e h = let same : x ≡ e = cc in subst P same (hm x refl)

pub or_raise-eq-ok {ℓ} :
    {A : Type ℓ} (m : Option A) (e : Error) {a : A} → or_raise m e ≡ ok a → m ≡ some a
or_raise-eq-ok none e h = cc
or_raise-eq-ok (some a) e h = cc

-- What holds of the value of a call that returns.
abbrev pub OfValue {ℓ} : {A : Type ℓ} → (A → Type 0) → Result A → Type 0
OfValue P (err e) = Unit
OfValue P (ok a) = P a

pub OfValue->>= {ℓ κ} :
    {A : Type ℓ} {B : Type κ} (P : B → Type 0) (m : Result A) (f : A → Result B)
    → ((a : A) → OfValue P (f a))
    → OfValue P (m >>= f)
OfValue->>= P (ok a) f h = h a
OfValue->>= P (err e) f h = tt

pub OfValue-map_ok {ℓ κ} :
    {A : Type ℓ} {B : Type κ} (P : A → Type 0) (Q : B → Type 0) (f : A → B) (m : Result A)
    → OfValue P m
    → ((a : A) → P a → Q (f a))
    → OfValue Q (map_ok f m)
OfValue-map_ok P Q f (ok a) h k = k a h
OfValue-map_ok P Q f (err e) h k = tt

pub OfValue-chain {ℓ κ} :
    {A : Type ℓ} {B : Type κ} (P : A → Type 0) (Q : B → Type 0) (m : Result A) (f : A → Result B)
    → OfValue P m
    → ((a : A) → P a → OfValue Q (f a))
    → OfValue Q (m >>= f)
OfValue-chain P Q (ok a) f h k = k a h
OfValue-chain P Q (err e) f h k = tt

pub OfValue-all {ℓ} :
    {A : Type ℓ} (P : A → Type 0) (m : Result A) → ((a : A) → m ≡ ok a → P a) → OfValue P m
OfValue-all P (ok a) h = h a refl
OfValue-all P (err e) h = tt
