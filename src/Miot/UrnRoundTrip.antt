-- ===== src/Miot/UrnRoundTrip.antt =====
-- Writing a URN of miio/miot_models.py and parsing it.
use Prim.Native.String.{String, ◌++◌}
use mathlib.Core.Path.{◌≡◌, refl, sym}
use text.Mathlib.TextLemmas.{append_assoc, cons-append}
use python_miio.Base.{ap, Option, none, some, List, [], ◌∷◌}
use python_miio.Base.Int.{ℤ}
use python_miio.Base.Split.{join, has_char-join, one-append, split-join, LacksAll}
use python_miio.Python.Value.{str}
use python_miio.Python.Result.{Result, ok}
use python_miio.Miot.Urn.{Urn, HasParts, validate, of_parts, urn_string, show_int, parts_with}

colon-append : (s : String) → ":" ++ s ≡ String.◌∷◌ ":" s
colon-append s = one-append ":" s

colon_cons-append : (s t : String) → String.◌∷◌ ":" s ++ t ≡ String.◌∷◌ ":" (s ++ t)
colon_cons-append s t = cons-append ":" s t

urn-append : (s : String) → "urn:" ++ s ≡ "urn" ++ (":" ++ s)
urn-append s = append_assoc "urn" ":" s

-- The text joins its parts.
urn_string-none : (u : Urn) → u.unexpected ≡ none → urn_string u ≡ join ":" (parts_with u [])
unfolding urn_string join
urn_string-none u h = rw h (simp (urn-append, colon-append))

urn_string-some :
    (u : Urn) (x : String) (xs : List String)
    → u.unexpected ≡ some (x ∷ xs)
    → urn_string u ≡ join ":" (parts_with u (x ∷ xs))
unfolding urn_string join
urn_string-some u x xs h = rw h (simp (urn-append, colon-append, colon_cons-append, append_assoc))

-- A text that joins parts is a URN if it has enough of them, whose version is a number.
validate_joined :
    (parse_int : String → Result ℤ) (u : Urn) (xs : List String)
    → LacksAll b':' (parts_with u xs)
    → validate parse_int (str (join ":" (parts_with u xs))) ≡ of_parts parse_int (parts_with u xs)
unfolding validate
validate_joined parse_int u xs h =
    rw (has_char-join ":" "urn" u.namespace _, split-join ":" "urn" _ h)

read_back :
    (parse_int : String → Result ℤ) (u : Urn) (o : Option (List String))
    → u.unexpected ≡ o
    → HasParts u o
    → parse_int (show_int u.version) ≡ ok u.version
    → validate parse_int (str (urn_string u)) ≡ ok u
unfolding of_parts
read_back parse_int u none e h n =
    rw (urn_string-none u e, validate_joined parse_int u [] h, n)
      (ap (λ o. ok (record u { unexpected = o })) (sym e))
read_back parse_int u (some (x ∷ xs)) e h n =
    rw (urn_string-some u x xs e, validate_joined parse_int u (x ∷ xs) h, n)
      (ap (λ o. ok (record u { unexpected = o })) (sym e))
read_back parse_int u (some []) e h n = absurd h

-- `URN.validate` of what `urn_string` prints is the URN, if no part has a colon, the list of unexpected
-- parts is not empty where there is one, and the number that the version prints as is read as that
-- number.
pub validate-urn_string :
    (parse_int : String → Result ℤ) (u : Urn)
    → HasParts u u.unexpected
    → parse_int (show_int u.version) ≡ ok u.version
    → validate parse_int (str (urn_string u)) ≡ ok u
validate-urn_string parse_int u h n = read_back parse_int u u.unexpected refl h n
