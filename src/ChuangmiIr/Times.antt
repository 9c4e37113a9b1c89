-- ===== src/ChuangmiIr/Times.antt =====
-- The table of times that `pronto_to_raw` sorts, and the indices into it.
use python_miio.Base.{
  ℕ, zero, suc, ◌<◌, ◌≤◌, ◌≡◌, refl, ap, sym, inl, inr, Bool, true, false, ◌||◌, ◌==◌, ltb, List,
  [], ◌∷◌, ◌++◌, some, length, get_elem?, Bool-cases, ==_refl, ==_iff, arith, All, All-append,
  All-left, All-right,
}
use python_miio.ChuangmiIr.Pronto.{Pair, ProntoData}
use python_miio.ChuangmiIr.Signal.{
  add_time, add_times, index_of, repeated, times_sorted, pairs_played,
}

-- Every time is below those behind it.
abbrev pub IsAscending : List ℕ → Type 0
IsAscending [] = Unit
IsAscending (t ∷ times) = All (λ u. t < u) times × IsAscending times

-- `t in times`
unfoldable pub member : ℕ → List ℕ → Bool
member t [] = false
member t (u ∷ times) = t == u || member t times

All-lower : (m n : ℕ) (times : List ℕ) → m ≤ n → All (λ u. n < u) times → All (λ u. m < u) times
All-lower m n [] le h = tt
All-lower m n (u ∷ times) le (h, hs) = (omega arith, All-lower m n times le hs)

add_time-All :
    (m t : ℕ) (times : List ℕ)
    → m < t
    → All (λ u. m < u) times
    → All (λ u. m < u) (add_time t times)
unfolding add_time
add_time-All m t [] lt h = (lt, tt)
add_time-All m t (u ∷ times) lt (h, hs) = elim (Bool-cases (ltb t u)) [
  | inl below ↦ rw below (lt, (h, hs))
  | inr above ↦ elim (Bool-cases (t == u)) [
    | inl hit ↦ rw (above, hit) (h, hs)
    | inr miss ↦ rw (above, miss) (h, add_time-All m t times lt hs)
  ]
]

pub add_time-IsAscending :
    (t : ℕ) (times : List ℕ) → IsAscending times → IsAscending (add_time t times)
unfolding add_time
add_time-IsAscending t [] h = (tt, tt)
add_time-IsAscending t (u ∷ times) (h, hs) = elim (Bool-cases (ltb t u)) [
  | inl below ↦ rw below ((ground arith, All-lower t u times (ground arith) h), (h, hs))
  | inr above ↦ elim (Bool-cases (t == u)) [
    | inl hit ↦ rw (above, hit) (h, hs)
    | inr miss ↦
        rw (above, miss) (add_time-All u t times (ground arith) h, add_time-IsAscending t times hs)
  ]
]

pub member-add_time :
    (s t : ℕ) (times : List ℕ) → member s (add_time t times) ≡ (s == t || member s times)
unfolding member add_time
member-add_time s t [] = refl
member-add_time s t (u ∷ times) = ground (arith, member-add_time s t times)

-- A time of the table is found at its index.
pub index_of-member :
    (t : ℕ) (times : List ℕ)
    → member t times ≡ true
    → (i : ℕ) × (index_of t times ≡ some i) × (get_elem? times i ≡ some t) × (i < length times)
unfolding member index_of
index_of-member t [] h = absurd (ground arith)
index_of-member t (u ∷ times) h = elim (Bool-cases (t == u)) [
  | inl hit ↦ (0, rw hit, ap some (sym ((==_iff t u).0 hit)), omega arith)
  | inr miss ↦
      (let (i, found, there, less) = index_of-member t times (ground arith) in
        (suc i, rw (miss, found), there, omega arith))
]

pub add_times-IsAscending :
    (pairs : List Pair) (times : List ℕ) → IsAscending times → IsAscending (add_times pairs times)
unfolding add_times
add_times-IsAscending [] times h = h
add_times-IsAscending (pair ∷ pairs) times h =
    add_times-IsAscending pairs _
      (add_time-IsAscending pair.gap _ (add_time-IsAscending pair.pulse times h))

add_times_keeps :
    (t : ℕ) (pairs : List Pair) (times : List ℕ)
    → member t times ≡ true
    → member t (add_times pairs times) ≡ true
unfolding add_times
add_times_keeps t [] times h = h
add_times_keeps t (pair ∷ pairs) times h = add_times_keeps t pairs _ (
    ground (
      arith,
      member-add_time t pair.gap (add_time pair.pulse times),
      member-add_time t pair.pulse times,
    ))

-- Both times of the pair are in the table.
abbrev pub IsListed : List ℕ → Pair → Type 0
IsListed times pair = (member pair.pulse times ≡ true) × (member pair.gap times ≡ true)

pub add_times-IsListed :
    (pairs : List Pair) (times : List ℕ) → All (IsListed (add_times pairs times)) pairs
unfolding add_times
add_times-IsListed [] times = tt
add_times-IsListed (pair ∷ pairs) times =
    let start = add_time pair.gap (add_time pair.pulse times) in
    (
      (
        add_times_keeps pair.pulse pairs start (
            ground (
              arith,
              member-add_time pair.pulse pair.gap (add_time pair.pulse times),
              member-add_time pair.pulse pair.pulse times,
              ==_refl pair.pulse,
            )),
        add_times_keeps pair.gap pairs start (
            ground (
              arith,
              member-add_time pair.gap pair.gap (add_time pair.pulse times),
              ==_refl pair.gap,
            )),
      ),
      add_times-IsListed pairs start,
    )

pub All-repeated :
    (P : Pair → Type 0) (n : ℕ) (pairs : List Pair) → All P pairs → All P (repeated n pairs)
unfolding repeated
All-repeated P zero pairs h = tt
All-repeated P (suc n) pairs h = All-append P pairs (repeated n pairs) h (All-repeated P n pairs h)

-- What is played has all its times in the table.
pub played-IsListed :
    (p : ProntoData) (repeats : ℕ)
    → All (IsListed (times_sorted p repeats)) (pairs_played p repeats)
unfolding times_sorted pairs_played repeated
played-IsListed p zero = add_times-IsListed (p.intro ++ []) []
played-IsListed p (suc n) =
    let P = IsListed (add_times (p.intro ++ (p.repeat ++ [])) []) in
    let all = add_times-IsListed (p.intro ++ (p.repeat ++ [])) [] in
    All-append P p.intro (repeated (suc n) p.repeat) (All-left P p.intro (p.repeat ++ []) all) (
      All-repeated P (suc n) p.repeat
        (All-left P p.repeat [] (All-right P p.intro (p.repeat ++ []) all)))
