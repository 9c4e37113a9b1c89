-- ===== src/Device/Slicing.antt =====
-- That `get_properties` of miio/device.py ends, and which slices it asks for.
use python_miio.Base.{
  ℕ, zero, suc, ◌+◌, ◌-◌, ◌≤◌, ◌<◌, ◌≡◌, refl, sym, ap, ◌∙◌, String, Option, some, List, [], ◌∷◌,
  ◌++◌, map, length, length-drop, ◌*◌, take, drop, arith,
}
use python_miio.Python.Value.{Value, arr, of_list, to_list}
use python_miio.Python.Result.{Result, ok, err}
use python_miio.Python.Action.{Action, pure, resume, ◌>>=◌}
use python_miio.Device.Transport.{Transport, call_with}
use python_miio.Device.Sequence.{iterate}
use python_miio.Device.Properties.{request_slice, collect, get_properties}

-- The slices `props[i * n:(i + 1) * n]` for `k` places from `i` on.
abbrev pub slices : ℕ → List Value → ℕ → ℕ → List (List Value)
slices n ps i zero = []
slices n ps i (suc k) = take n (drop (i * n) ps) ∷ slices n ps (suc i) k

drop-nil : (n : ℕ) → drop {A = Value} n [] ≡ []
drop-nil zero = refl
drop-nil (suc n) = refl

drop-drop : (m n : ℕ) (ps : List Value) → drop n (drop m ps) ≡ drop (m + n) ps
drop-drop zero n ps = ap (λ (m : ℕ). drop m ps) (omega arith)
drop-drop (suc m) n [] = drop-nil n ∙ sym (drop-nil (suc m + n))
drop-drop (suc m) n (p ∷ ps) = drop-drop m n ps ∙ ap (λ (i : ℕ). drop i (p ∷ ps)) (the_same m n)
  where
    the_same : (m n : ℕ) → suc (m + n) ≡ suc m + n
    the_same m n = omega arith

module _ {S : Type 0} (t : Transport S) (getter : String) where
  -- Asking for one list of properties after the other: the first exception ends it, and the values of
  -- each answer stand behind those of the answers before it.
  abbrev pub asked_in_turn : List (List Value) → List Value → Action S (Option (List Value))
  asked_in_turn [] values = pure (ok (some values))
  asked_in_turn (r ∷ rs) values = do
    answer ← call_with t getter (arr (of_list r))
    more ← pure (iterate answer)
    asked_in_turn rs (values ++ more)

  -- One round, whatever follows it.
  answered :
      (r : Result Value) (values : List Value) (k k' : List Value → Action S (Option (List Value)))
      (s : S)
      → ((vs : List Value) (s : S) → k vs s ≡ k' vs s)
      → (resume r (λ answer. pure (iterate answer) >>= λ more. pure (ok (values ++ more))) >>= k) s
        ≡ resume r (λ answer. pure (iterate answer) >>= λ more. k' (values ++ more)) s
  answered (err e) values k k' s same = refl
  answered (ok v) values k k' s same = iterated (iterate v)
    where
      iterated :
          (vs : Result (List Value))
          → (resume vs (λ more. pure (ok (values ++ more))) >>= k) s
            ≡ resume vs (λ more. k' (values ++ more)) s
      iterated (err e) = refl
      iterated (ok more) = same (values ++ more) s

  collect-slices :
      (k fuel n i : ℕ) (ps props values : List Value) (s : S)
      → drop (i * n) ps ≡ props
      → length props ≤ fuel
      → 0 < n
      → length props ≤ k * n
      → k * n < length props + n
      → collect t getter fuel (some n) props values s ≡ asked_in_turn (slices n ps i k) values s
  unfolding collect request_slice
  collect-slices zero fuel n i ps [] values s at enough pos up low = refl
  collect-slices zero fuel n i ps (p ∷ props) values s at enough pos up low = absurd (omega arith)
  collect-slices (suc k) fuel n i ps [] values s at enough pos up low = absurd (omega arith)
  collect-slices (suc k) zero n i ps (p ∷ props) values s at enough pos up low =
      absurd (omega arith)
  collect-slices (suc k) (suc fuel) n i ps (p ∷ props) values s at enough pos up low =
      let len : length (drop n (p ∷ props)) ≡ suc (length props) - n = length-drop n (p ∷ props) in
      let next : drop (suc i * n) ps ≡ drop n (p ∷ props) =
        ap (λ (m : ℕ). drop m ps) (omega arith)
        ∙ sym (drop-drop (i * n) n ps)
        ∙ ap (λ (qs : List Value). drop n qs) at in
      rw at (
        answered (call_with t getter (arr (of_list (take n (p ∷ props)))) s).0 values
          (collect t getter fuel (some n) (drop n (p ∷ props)))
          (asked_in_turn (slices n ps (suc i) k))
          (call_with t getter (arr (of_list (take n (p ∷ props)))) s).1
          (λ vs s'.
            collect-slices k fuel n (suc i) ps (drop n (p ∷ props)) vs s' next (omega arith) pos
              (omega arith) (omega arith)))

  -- `get_properties` with `n` properties to a slice, `n` not 0, over any transport and in any state:
  -- where `k` slices of `n` are just enough for the properties, it asks for the slices
  -- `props[i * n:(i + 1) * n]` for `i` from 0 up to `k`, one after the other, and appends the values of
  -- each answer to those before. The first exception ends it, and what was sent until then stays
  -- sent. As many rounds as there are properties are enough.
  pub get_properties-slices :
      (n k : ℕ) (ps : List Value) (s : S)
      → 0 < n
      → length ps ≤ k * n
      → k * n < length ps + n
      → get_properties t getter (length ps) (some n) ps s ≡ asked_in_turn (slices n ps 0 k) [] s
  unfolding get_properties
  get_properties-slices n k ps s pos up low =
      let none_yet : 0 * n ≡ 0 = omega arith in
      let first : drop (0 * n) ps ≡ ps = ap (λ (m : ℕ). drop m ps) none_yet in
      collect-slices k (length ps) n 0 ps ps [] s first (omega arith) pos up low

-- A transport that answers, and keeps the lists of properties that it was asked for.
abbrev requested : Option Value → List Value
requested (some (arr vs)) = to_list vs
requested _ = []

abbrev pub recorder : (Value → Value) → Transport (List (List Value))
recorder f = record {
  send = λ command parameters retry_count extra log.
      (ok (arr (of_list (map f (requested parameters)))), log ++ requested parameters ∷ []);
}
