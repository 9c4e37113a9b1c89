-- ===== src/Cooker/Flags.antt =====
-- The flags of `CookerSettings` do not disturb each other.
use python_miio.Base.{
  ℕ, zero, suc, ◌+◌, ◌*◌, ◌/◌, ◌%◌, ◌<◌, ◌≡◌, ◌≢◌, refl, ap, sym, ◌∙◌, inl, inr, Bool, true, false,
  List, [], ◌∷◌, some, get_elem?, ◌==◌, arith, Bool-cases, ==_refl, ==_iff, if◌then◌else◌,
}
use python_miio.Base.Int.{ℤ, pos}
use python_miio.Python.Result.{ok}
use python_miio.Cooker.Containers.{store}
use python_miio.Cooker.Settings.{
  Flag, has_bit, with_bit, without_bit, and_bit, or_bit, and_not_bit, octet_of, bit_of, get_flag,
  set_flag,
}

suc_test : (j k : ℕ) → (suc j == suc k) ≡ (j == k)
suc_test j k = ground arith

has_bit-with_bit : (j k n : ℕ) → has_bit j (with_bit k n) ≡ (if j == k then true else has_bit j n)
unfolding has_bit with_bit
has_bit-with_bit zero zero n = ground arith
has_bit-with_bit zero (suc k) n = ground arith
has_bit-with_bit (suc j) zero n =
    let half : (n / 2 * 2 + 1) / 2 ≡ n / 2 = omega arith in
    let miss : (suc j == 0) ≡ false = ground arith in rw (half, miss)
has_bit-with_bit (suc j) (suc k) n =
    let half : (with_bit k (n / 2) * 2 + n % 2) / 2 ≡ with_bit k (n / 2) = omega arith in
    rw (half, suc_test j k) (has_bit-with_bit j k (n / 2))

has_bit-without_bit :
    (j k n : ℕ) → has_bit j (without_bit k n) ≡ (if j == k then false else has_bit j n)
unfolding has_bit without_bit
has_bit-without_bit zero zero n = ground arith
has_bit-without_bit zero (suc k) n = ground arith
has_bit-without_bit (suc j) zero n =
    let half : n / 2 * 2 / 2 ≡ n / 2 = omega arith in
    let miss : (suc j == 0) ≡ false = ground arith in rw (half, miss)
has_bit-without_bit (suc j) (suc k) n =
    let half : (without_bit k (n / 2) * 2 + n % 2) / 2 ≡ without_bit k (n / 2) = omega arith in
    rw (half, suc_test j k) (has_bit-without_bit j k (n / 2))

-- what a setter writes into a byte
unfoldable written : ℕ → Bool → ℤ → ℤ
written k on v = if on then or_bit k v else and_not_bit k v

and_bit-written :
    (j k n : ℕ) (on : Bool)
    → n < 256
    → and_bit j (written k on (pos n)) ≡ (if j == k then on else and_bit j (pos n))
unfolding written and_bit or_bit and_not_bit
and_bit-written j k n true h = has_bit-with_bit j k n
and_bit-written j k n false h =
    let low : n % 256 ≡ n = omega arith in rw low (has_bit-without_bit j k n)

store_lem :
    (p : ℕ) (v : ℤ) (xs : List ℤ) (x : ℤ)
    → get_elem? xs p ≡ some x
    → (ys : List ℤ) × (store p v xs ≡ ok ys)
      × ((q : ℕ) → get_elem? ys q ≡ (if p == q then some v else get_elem? xs q))
unfolding store
store_lem p v [] x h = absurd (ground arith)
store_lem zero v (y ∷ xs) x h = (v ∷ xs, refl, at)
  where
    at : (q : ℕ) → get_elem? (v ∷ xs) q ≡ (if 0 == q then some v else get_elem? (y ∷ xs) q)
    at zero = refl
    at (suc q) = let miss : (0 == suc q) ≡ false = ground arith in rw miss
store_lem (suc p) v (y ∷ xs) x h =
    let (ys, stored, entries) = store_lem p v xs x h in (y ∷ ys, rw stored, at ys entries)
  where
    at :
        (ys : List ℤ)
        → ((q : ℕ) → get_elem? ys q ≡ (if p == q then some v else get_elem? xs q))
        → (q : ℕ) → get_elem? (y ∷ ys) q ≡ (if suc p == q then some v else get_elem? (y ∷ xs) q)
    at ys entries zero = let miss : (suc p == 0) ≡ false = ground arith in rw miss
    at ys entries (suc q) = rw (suc_test p q) (entries q)

-- Flags are told apart by their place.
abbrev place : Flag → ℕ
place f = octet_of f * 8 + bit_of f

flag_at : ℕ → Flag
flag_at zero = Flag.pressure_supported
flag_at (suc zero) = Flag.led_on
flag_at (suc (suc zero)) = Flag.auto_keep_warm
flag_at (suc (suc (suc zero))) = Flag.lid_open_warning
flag_at (suc (suc (suc (suc (suc (suc (suc (suc zero)))))))) = Flag.jingzhu_auto_keep_warm
flag_at (suc (suc (suc (suc (suc (suc (suc (suc (suc zero))))))))) = Flag.kuaizhu_auto_keep_warm
flag_at (suc (suc (suc (suc (suc (suc (suc (suc (suc (suc zero)))))))))) =
    Flag.zhuzhou_auto_keep_warm
flag_at (suc (suc (suc (suc (suc (suc (suc (suc (suc (suc (suc zero))))))))))) =
    Flag.favorite_auto_keep_warm
flag_at _ = Flag.lid_open_warning_delayed

flag_at-place : (f : Flag) → flag_at (place f) ≡ f
unfolding flag_at octet_of bit_of
flag_at-place Flag.pressure_supported = refl
flag_at-place Flag.led_on = refl
flag_at-place Flag.auto_keep_warm = refl
flag_at-place Flag.lid_open_warning = refl
flag_at-place Flag.lid_open_warning_delayed = refl
flag_at-place Flag.jingzhu_auto_keep_warm = refl
flag_at-place Flag.kuaizhu_auto_keep_warm = refl
flag_at-place Flag.zhuzhou_auto_keep_warm = refl
flag_at-place Flag.favorite_auto_keep_warm = refl

same_flag : (f g : Flag) → octet_of f ≡ octet_of g → bit_of f ≡ bit_of g → f ≡ g
same_flag f g e h =
    sym (flag_at-place f)
    ∙ ap flag_at (ap (λ (o : ℕ). o * 8 + bit_of f) e ∙ ap (λ (b : ℕ). octet_of g * 8 + b) h)
    ∙ flag_at-place g

read_known :
    (g : Flag) (settings : List ℤ) (v : ℤ)
    → get_elem? settings (octet_of g) ≡ some v
    → get_flag g settings ≡ ok (and_bit (bit_of g) v)
unfolding get_flag
read_known g settings v at = rw at

module _ (f : Flag) (on : Bool) (settings after : List ℤ) (n : ℕ) (small : n < 256)
    (entries : (q : ℕ)
      → get_elem? after q ≡ (
          if octet_of f == q
          then some (written (bit_of f) on (pos n))
          else get_elem? settings q)) where
  read_byte :
      (g : Flag)
      → octet_of f ≡ octet_of g
      → get_flag g after ≡ ok (if bit_of g == bit_of f then on else and_bit (bit_of g) (pos n))
  unfolding get_flag
  read_byte g e =
      let hit : (octet_of f == octet_of g) ≡ true = (==_iff (octet_of f) (octet_of g)).1 e in
      rw (entries (octet_of g), hit, and_bit-written (bit_of g) (bit_of f) n on small)

  read_other_byte :
      (g : Flag) → (octet_of f == octet_of g) ≡ false → get_flag g after ≡ get_flag g settings
  unfolding get_flag
  read_other_byte g miss = rw (entries (octet_of g), miss)

  read_same_byte :
      (g : Flag)
      → octet_of f ≡ octet_of g
      → get_elem? settings (octet_of f) ≡ some (pos n)
      → (bit_of g == bit_of f) ≡ false
      → get_flag g after ≡ get_flag g settings
  read_same_byte g e there miss =
      let before : get_flag g settings ≡ ok (and_bit (bit_of g) (pos n)) =
        read_known g settings (pos n) (ap (get_elem? settings) (sym e) ∙ there) in
      rw (read_byte g e, miss, before)

-- A setter of `CookerSettings` on a byte returns. Its getter then gives what was set, and every other
-- getter what it gave before.
pub set_flag_lem :
    (f : Flag) (on : Bool) (settings : List ℤ) (n : ℕ)
    → get_elem? settings (octet_of f) ≡ some (pos n)
    → n < 256
    → (after : List ℤ) × (set_flag f on settings ≡ ok after)
      × (get_flag f after ≡ ok on)
      × ((g : Flag) → f ≢ g → get_flag g after ≡ get_flag g settings)
unfolding set_flag written
set_flag_lem f on settings n there small =
    let (after, stored, entries) =
      store_lem (octet_of f) (written (bit_of f) on (pos n)) settings (pos n) there in
    let own = read_byte f on settings after n small entries f refl in
    (
      after,
      rw (there, stored),
      rw (==_refl (bit_of f)) at own,
      λ g ne. elim (Bool-cases (octet_of f == octet_of g)) [
        | inr miss ↦ read_other_byte f on settings after n small entries g miss
        | inl hit ↦
            (let e = (==_iff (octet_of f) (octet_of g)).0 hit in
              elim (Bool-cases (bit_of g == bit_of f)) [
                | inl same ↦
                    absurd (ne (same_flag f g e (sym ((==_iff (bit_of g) (bit_of f)).0 same))))
                | inr miss ↦ read_same_byte f on settings after n small entries g e there miss
              ])
      ],
    )
