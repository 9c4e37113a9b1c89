-- ===== src/Protocol/ByteScan.antt =====
-- The methods of `bytes` that the quirks of `EncryptionAdapter._decode` call.
use python_miio.Base.{
  ℕ, zero, suc, ◌-◌, Bool, true, false, ◌&&◌, Option, none, some, [], ◌∷◌, ◌++◌, ◌==◌, length,
  if◌then◌else◌, ◌≡◌, ◌≢◌, All, arith,
}
use python_miio.Protocol.Backend.{Bytes}

-- `s.startswith(p)`
unfoldable pub has_prefix : Bytes → Bytes → Bool
has_prefix s [] = true
has_prefix [] (d ∷ p) = false
has_prefix (c ∷ s) (d ∷ p) = c == d && has_prefix s p

-- The rest of `s.replace(old, new)`, with `skip` bytes of a match still to pass over.
unfoldable pub replace_from : Bytes → Bytes → ℕ → Bytes → Bytes
unfolding has_prefix
replace_from old new skip [] = []
replace_from old new (suc k) (c ∷ s) = replace_from old new k s
replace_from old new zero (c ∷ s) =
    let hit : Bool = has_prefix (c ∷ s) old in
    let rest : Bytes = replace_from old new (if hit then length old - 1 else 0) s in
    if hit then new ++ rest else c ∷ rest

-- `s.replace(old, new)` for a non-empty `old`: matches are taken from the left, and do not overlap.
unfoldable pub replace : Bytes → Bytes → Bytes → Bytes
unfolding replace_from
replace old new s = replace_from old new 0 s

-- `s[:s.rfind(k)]` for a byte `k`, if it occurs
unfoldable pub before_last : ℕ → Bytes → Option Bytes
before_last k [] = none
before_last k (c ∷ s) = elim (before_last k s) [
  | some p ↦ some (c ∷ p)
  | none ↦ if c == k then some [] else none
]

-- puts a byte back before what `rstrip` left
abbrev keep_byte : ℕ → ℕ → Bytes → Bytes
keep_byte k c [] = if c == k then [] else c ∷ []
keep_byte k c (d ∷ s) = c ∷ d ∷ s

-- `s.rstrip(k)` for a byte `k`
unfoldable pub rstrip : ℕ → Bytes → Bytes
rstrip k [] = []
rstrip k (c ∷ s) = keep_byte k c (rstrip k s)

-- A last byte `k` is stripped, and nothing before it if `k` does not occur there.
pub rstrip-append : (k : ℕ) (s : Bytes) → All (λ c. c ≢ k) s → rstrip k (s ++ k ∷ []) ≡ s
unfolding rstrip
rstrip-append k [] h = ground arith
rstrip-append k (c ∷ []) h = ground arith
rstrip-append k (c ∷ d ∷ s) h = ground (arith, rstrip-append k (d ∷ s))
