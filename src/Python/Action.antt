-- ===== src/Python/Action.antt =====
-- A method that writes an object and may raise. What was written before a raise stays written, so
-- the object comes back beside an exception too.
pub mod Raises
pub mod Counts
use python_miio.Python.Result.{Error, Result, ok, err}

abbrev pub Action {ℓ κ} : Type ℓ → Type κ → Type (ℓ ⊔ κ)
Action S A = S → Result A × S

-- a part of a method that reads and writes nothing
abbrev pub pure {ℓ κ} : {S : Type ℓ} {A : Type κ} → Result A → Action S A
pure r s = (r, s)

abbrev pub raise {ℓ κ} : {S : Type ℓ} {A : Type κ} → Error → Action S A
raise e s = (err e, s)

abbrev pub modify {ℓ} : {S : Type ℓ} → (S → S) → Action S (Unit {0})
modify f s = (ok tt, f s)

abbrev pub get {ℓ κ} : {S : Type ℓ} {A : Type κ} → (S → A) → Action S A
get f s = (ok (f s), s)

-- what follows a step that has returned or raised
abbrev pub resume {ℓ κ λ'} :
    {S : Type ℓ} {A : Type κ} {B : Type λ'} → Result A → (A → Action S B) → Action S B
resume (ok a) f s = f a s
resume (err e) f s = (err e, s)

infixl 5 ◌>>=◌ ◌>>◌
abbrev pub ◌>>=◌ {ℓ κ λ'} :
    {S : Type ℓ} {A : Type κ} {B : Type λ'} → Action S A → (A → Action S B) → Action S B
◌>>=◌ m f s = let (r, s') = m s in resume r f s'

abbrev pub ◌>>◌ {ℓ κ λ'} :
    {S : Type ℓ} {A : Type κ} {B : Type λ'} → Action S A → Action S B → Action S B
m >> k = m >>= λ _. k

-- what a handler makes of a step that has returned or raised
abbrev pub recover_with {ℓ κ} :
    {S : Type ℓ} {A : Type κ} → Result A → (Error → Action S A) → Action S A
recover_with (ok a) handler s = (ok a, s)
recover_with (err e) handler s = handler e s

-- `try: m except ex: handler(ex)`, where the handler raises again what it does not catch
abbrev pub try_except {ℓ κ} :
    {S : Type ℓ} {A : Type κ} → Action S A → (Error → Action S A) → Action S A
try_except m handler s = let (r, s') = m s in recover_with r handler s'

-- a method of an object that is a field of another: `self.part.method()`
abbrev pub on {ℓ κ λ'} :
    {S : Type ℓ} {T : Type κ} {A : Type λ'} → (T → S) → (S → T → T) → Action S A → Action T A
on part update m t = let (r, s) = m (part t) in (r, update s t)
