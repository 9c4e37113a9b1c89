-- ===== src/Python/Action/Counts.antt =====
-- By how much an action may raise a number of its object, one rule for each way to build an action.
use python_miio.Base.{ℕ, ◌+◌, ◌≤◌, arith}
use python_miio.Python.Result.{Error, Result, ok, err}
use python_miio.Python.Action.{Action, try_except, resume, recover_with, ◌>>=◌}

-- Whether it returns or raises, `m` adds at most `k` to the measure.
pub record Adds {ℓ κ} {S : Type ℓ} {A : Type κ} (measure : S → ℕ) (k : ℕ) (m : Action S A)
    : Type (ℓ ⊔ κ) where
  pub at : (s : S) → measure (m s).1 ≤ measure s + k

module _ {ℓ κ} {S : Type ℓ} {A : Type κ} {measure : S → ℕ} where
  pub Adds-pure : (f : S → Result A) → Adds measure 0 (λ s. (f s, s))
  Adds-pure f = record { at = λ s. omega arith }

  pub Adds-weaken : {j : ℕ} (k : ℕ) (m : Action S A) → Adds measure j m → j ≤ k → Adds measure k m
  Adds-weaken k m h le = record { at = λ s. omega (arith, h.at s) }

  Adds-recover_with :
      (j k n : ℕ) (r : Result A) (s : S) (handler : Error → Action S A)
      → measure s ≤ n + j
      → ((e : Error) → Adds measure k (handler e))
      → measure (recover_with r handler s).1 ≤ n + (j + k)
  Adds-recover_with j k n (ok a) s handler h hh = omega arith
  Adds-recover_with j k n (err e) s handler h hh = omega (arith, (hh e).at s)

  pub Adds-try_except :
      {j k : ℕ} (m : Action S A) (handler : Error → Action S A)
      → Adds measure j m
      → ((e : Error) → Adds measure k (handler e))
      → Adds measure (j + k) (try_except m handler)
  Adds-try_except {j} {k} m handler hm hh = record {
    at = λ s. Adds-recover_with j k (measure s) (m s).0 (m s).1 handler (hm.at s) hh;
  }

module _ {ℓ κ λ'} {S : Type ℓ} {A : Type κ} {B : Type λ'} {measure : S → ℕ} where
  Adds-resume :
      (j k n : ℕ) (r : Result A) (s : S) (f : A → Action S B)
      → measure s ≤ n + j
      → ((a : A) → Adds measure k (f a))
      → measure (resume r f s).1 ≤ n + (j + k)
  Adds-resume j k n (ok a) s f h hf = omega (arith, (hf a).at s)
  Adds-resume j k n (err e) s f h hf = omega arith

  pub Adds-bind :
      {j k : ℕ} (m : Action S A) (f : A → Action S B)
      → Adds measure j m
      → ((a : A) → Adds measure k (f a))
      → Adds measure (j + k) (m >>= f)
  Adds-bind {j} {k} m f hm hf = record {
    at = λ s. Adds-resume j k (measure s) (m s).0 (m s).1 f (hm.at s) hf;
  }
