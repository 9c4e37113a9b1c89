-- ===== src/Python/Action/Raises.antt =====
-- Which exceptions an action may raise, one rule for each way to build an action.
use python_miio.Base.{◌≡◌, refl, Bool, true, false, if◌then◌else◌, arith}
use python_miio.Python.Result.{Error, Result, ok, err}
use python_miio.Python.Action.{
  Action, raise, modify, get, on, try_except, resume, recover_with, ◌>>=◌,
}

-- Every exception of `m` passes the test.
pub record Raises {ℓ κ} {S : Type ℓ} {A : Type κ} (test : Error → Bool) (m : Action S A)
    : Type (ℓ ⊔ κ) where
  pub at : (s : S) (e : Error) → (m s).0 ≡ err e → test e ≡ true

module _ {ℓ κ} {S : Type ℓ} {A : Type κ} {test : Error → Bool} where
  pub Raises-raise : (e : Error) → test e ≡ true → Raises {S = S} {A = A} test (raise e)
  Raises-raise e h = record { at = λ s e' p. ground (arith, h) }

  pub Raises-ok : (f : S → A) (g : S → S) → Raises test (λ s. (ok (f s), g s))
  Raises-ok f g = record { at = λ s e p. cc }

  pub Raises-if :
      (b : Bool) (m n : Action S A)
      → Raises test m
      → Raises test n
      → Raises test (if b then m else n)
  Raises-if true m n hm hn = hm
  Raises-if false m n hm hn = hn

module _ {ℓ κ} {S : Type ℓ} {A : Type κ} {test : Error → Bool} where
  pub Raises-get : (f : S → A) → Raises test (get f)
  Raises-get f = record { at = λ s e p. cc }

module _ {ℓ} {S : Type ℓ} {test : Error → Bool} where
  pub Raises-modify : (f : S → S) → Raises test (modify f)
  Raises-modify f = record { at = λ s e p. cc }

module _ {ℓ κ λ'} {S : Type ℓ} {A : Type κ} {B : Type λ'} {test : Error → Bool} where
  Raises-resume :
      (r : Result A) (s : S) (f : A → Action S B)
      → ((e : Error) → r ≡ err e → test e ≡ true)
      → ((a : A) → Raises test (f a))
      → (e : Error) → (resume r f s).0 ≡ err e
      → test e ≡ true
  Raises-resume (ok a) s f h hf e p = (hf a).at s e p
  Raises-resume (err x) s f h hf e p = h e (ground arith)

  pub Raises-bind :
      (m : Action S A) (f : A → Action S B)
      → Raises test m
      → ((a : A) → Raises test (f a))
      → Raises test (m >>= f)
  Raises-bind m f hm hf = record { at = λ s. Raises-resume (m s).0 (m s).1 f (hm.at s) (λ a. hf a) }

module _ {ℓ κ} {S : Type ℓ} {A : Type κ} {test inner : Error → Bool} where
  Raises-recover_with :
      (r : Result A) (s : S) (handler : Error → Action S A)
      → ((e : Error) → r ≡ err e → inner e ≡ true)
      → ((e : Error) → inner e ≡ true → Raises test (handler e))
      → (e : Error) → (recover_with r handler s).0 ≡ err e
      → test e ≡ true
  Raises-recover_with (ok a) s handler h hh e p = cc
  Raises-recover_with (err x) s handler h hh e p = (hh x (h x refl)).at s e p

  -- A handler is run only on what the body raises.
  pub Raises-try_except :
      (m : Action S A) (handler : Error → Action S A)
      → Raises inner m
      → ((e : Error) → inner e ≡ true → Raises test (handler e))
      → Raises test (try_except m handler)
  Raises-try_except m handler hm hh = record {
    at = λ s. Raises-recover_with (m s).0 (m s).1 handler (hm.at s) hh;
  }

module _ {ℓ κ λ'} {S : Type ℓ} {T : Type κ} {A : Type λ'} {test : Error → Bool} where
  pub Raises-on :
      (part : T → S) (update : S → T → T) (m : Action S A)
      → Raises test m
      → Raises test (on part update m)
  Raises-on part update m h = record { at = λ t. h.at (part t) }

pub ruleset raises_rules =
    (Raises-raise, Raises-ok, Raises-if, Raises-bind, Raises-try_except, Raises-on)
