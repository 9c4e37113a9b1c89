-- ===== src/Base/Split.antt =====
-- `s.split(k)` and `k.join(parts)` for a single character `k`, given by its code, and `s.replace` of one
-- character by another.
use Prim.Native.Nat.{ℕ}
use Prim.Native.Char.{Char, code}
use Prim.Native.String.{String, ◌++◌}
use mathlib.Core.Path.{◌≡◌, refl, ap, ◌∙◌}
use mathlib.Core.Bool.{Bool, true, false}
use mathlib.Core.List.{List, [], ◌∷◌}
use native.Mathlib.Omega.{arith}
use text.Mathlib.TextLemmas.{nil-append, cons-append}
use python_miio.Base.Tests.{◌==◌, ==_refl, if◌then◌else◌}

abbrev put_first : Char → List String → List String
put_first c [] = String.◌∷◌ c String.[] ∷ []
put_first c (x ∷ xs) = String.◌∷◌ c x ∷ xs

unfoldable pub split : ℕ → String → List String
split k String.[] = String.[] ∷ []
split k (String.◌∷◌ c s) = if code c == k then String.[] ∷ split k s else put_first c (split k s)

-- the parts with `c` between two of them
unfoldable pub join : Char → List String → String
join c [] = String.[]
join c (x ∷ []) = x
join c (x ∷ y ∷ xs) = x ++ String.◌∷◌ c (join c (y ∷ xs))

-- `k in s`
unfoldable pub has_char : ℕ → String → Bool
has_char k String.[] = false
has_char k (String.◌∷◌ c s) = if code c == k then true else has_char k s

-- `s.replace(k, c)`
unfoldable pub replace_char : ℕ → Char → String → String
replace_char k c String.[] = String.[]
replace_char k c (String.◌∷◌ d s) = String.◌∷◌ (if code d == k then c else d) (replace_char k c s)

abbrev pub LacksAll : ℕ → List String → Type 0
LacksAll k [] = Unit
LacksAll k (x ∷ xs) = (has_char k x ≡ false) × LacksAll k xs

-- A text without the separator is one part.
pub split_one : (k : ℕ) (s : String) → has_char k s ≡ false → split k s ≡ s ∷ []
unfolding split has_char
split_one k String.[] h = refl
split_one k (String.◌∷◌ c s) h = ground (arith, split_one k s)

lacks_cons :
    (k : ℕ) (c : Char) (s : String)
    → has_char k (String.◌∷◌ c s) ≡ false
    → ((code c == k) ≡ false) × (has_char k s ≡ false)
unfolding has_char
lacks_cons k c s h = ground arith

-- The part in front of a separator, and the parts of the rest.
pub split_first :
    (c : Char) (x s : String)
    → has_char (code c) x ≡ false
    → split (code c) (x ++ String.◌∷◌ c s) ≡ x ∷ split (code c) s
unfolding split has_char
split_first c String.[] s h = rw (nil-append (String.◌∷◌ c s), ==_refl (code c))
split_first c (String.◌∷◌ d x) s h =
    let (miss, h') = lacks_cons (code c) d x h in
    rw (cons-append d x (String.◌∷◌ c s), miss, split_first c x s h')

pub split-join :
    (c : Char) (x : String) (xs : List String)
    → LacksAll (code c) (x ∷ xs)
    → split (code c) (join c (x ∷ xs)) ≡ x ∷ xs
unfolding join
split-join c x [] (h, _) = split_one (code c) x h
split-join c x (y ∷ xs) (h, hs) =
    split_first c x (join c (y ∷ xs)) h ∙ ap (λ t. x ∷ t) (split-join c y xs hs)

-- The part in front of a separator that is a text of its own.
pub one-append : (c : Char) (s : String) → String.◌∷◌ c String.[] ++ s ≡ String.◌∷◌ c s
one-append c s = cons-append c String.[] s ∙ ap (λ t. String.◌∷◌ c t) (nil-append s)

has_char-append_right : (c : Char) (x s : String) → has_char (code c) (x ++ String.◌∷◌ c s) ≡ true
unfolding has_char
has_char-append_right c String.[] s = rw (nil-append (String.◌∷◌ c s), ==_refl (code c))
has_char-append_right c (String.◌∷◌ d x) s =
    rw (cons-append d x (String.◌∷◌ c s)) (ground (arith, has_char-append_right c x s))

-- Two parts or more have the separator between them.
pub has_char-join :
    (c : Char) (x y : String) (xs : List String) → has_char (code c) (join c (x ∷ y ∷ xs)) ≡ true
unfolding join
has_char-join c x y xs = has_char-append_right c x (join c (y ∷ xs))
