-- ===== src/Client/Ids.antt =====
-- The running message id: its range, and how it moves on.
use python_miio.Base.{ℕ, ◌+◌, ◌≤◌, ◌≡◌, ◌⊎◌, inl, inr, Bool-cases, some, arith, leb, if◌then◌else◌}
use python_miio.Base.Int.{pos, ◌+ℤ◌}
use python_miio.Python.Value.{int, as_number}
use python_miio.Python.Result.{ok}
use python_miio.Client.State.{Client}
use python_miio.Client.Request.{add_id, next_id}

-- The number after `k`, and 1 after 9998 and whatever is above.
unfoldable pub successor : ℕ → ℕ
successor k = if leb 9999 (k + 1) then 1 else k + 1

-- From an id of 0 or more, whoever set it, `_id` returns a number from 1 to 9998, keeps it as the new
-- id, and changes nothing else. Up to 9997 it is the next number, and from there on it is 1.
pub next_id_range :
    (c : Client) (k : ℕ)
    → as_number c.id ≡ some (pos k)
    → (n : ℕ) × (next_id c ≡ (ok (pos n), record c { id = int (pos n) }))
      × (1 ≤ n)
      × (n ≤ 9998)
      × (((k ≤ 9997) × (n ≡ k + 1)) ⊎ ((9998 ≤ k) × (n ≡ 1)))
unfolding next_id add_id ◌+ℤ◌ successor
next_id_range c k h = (
  successor k,
  ground (arith, h),
  ground arith,
  ground arith,
  elim (Bool-cases (leb 9999 (k + 1))) [
    | inl wraps ↦ inr (ground arith, ground arith)
    | inr goes_on ↦ inl (ground arith, ground arith)
  ],
)
