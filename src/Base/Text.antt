-- ===== src/Base/Text.antt =====
-- Python's `str` as the native text: the methods that the program calls, walked character by
-- character.
use Prim.Native.Nat.{ℕ, suc}
use Prim.Native.Char.{code}
use Prim.Native.String.{String}
use mathlib.Core.Bool.{Bool, true, false, ◌&&◌, ◌||◌}
use mathlib.Core.List.{List, [], ◌∷◌}
use python_miio.Base.Tests.{◌==◌, if◌then◌else◌}

-- `s.startswith(p)`
unfoldable pub starts_with : String → String → Bool
starts_with s String.[] = true
starts_with String.[] (String.◌∷◌ d p) = false
starts_with (String.◌∷◌ c s) (String.◌∷◌ d p) = (code c == code d) && starts_with s p

-- `s.endswith(k)` for a single character `k`
unfoldable pub ends_with_char : ℕ → String → Bool
ends_with_char k String.[] = false
ends_with_char k (String.◌∷◌ c String.[]) = code c == k
ends_with_char k (String.◌∷◌ c (String.◌∷◌ d s)) = ends_with_char k (String.◌∷◌ d s)

-- puts a character back before what `rstrip` left
abbrev keep_char : ℕ → (c : Prim.Native.Char.Char) → String → String
keep_char k c String.[] = if code c == k then String.[] else String.◌∷◌ c String.[]
keep_char k c (String.◌∷◌ d t) = String.◌∷◌ c (String.◌∷◌ d t)

-- `s.rstrip(k)` for a single character `k`
unfoldable pub rstrip_char : ℕ → String → String
rstrip_char k String.[] = String.[]
rstrip_char k (String.◌∷◌ c s) = keep_char k c (rstrip_char k s)

-- `len(s)`
unfoldable pub text_length : String → ℕ
text_length String.[] = 0
text_length (String.◌∷◌ c s) = suc (text_length s)

-- The bytes of an ASCII text.
abbrev pub codes : String → List ℕ
codes String.[] = []
codes (String.◌∷◌ c s) = code c ∷ codes s

-- `p in s`
unfoldable pub has_substring : String → String → Bool
unfolding starts_with
has_substring p String.[] = starts_with String.[] p
has_substring p (String.◌∷◌ c s) = starts_with (String.◌∷◌ c s) p || has_substring p s
