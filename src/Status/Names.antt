-- ===== src/Status/Names.antt =====
-- The names of `DeviceStatus`: an attribute of an embedded container is called by the container's name,
-- two underscores and its own name.
use Prim.Native.Char.{Char, code}
use Prim.Native.String.{◌++◌}
use text.Mathlib.TextLemmas.{nil-append, cons-append}
use python_miio.Base.{
  not, ◌≢◌, suc, ◌<◌, ◌≡◌, refl, ap, sym, ◌∙◌, inl, inr, String, Bool, true, false, ◌&&◌, Option,
  none, some, Bool-cases, ◌==◌, arith, if◌then◌else◌,
}
use python_miio.Base.Text.{text_length}

abbrev pub or_else : String × String → Option (String × String) → String × String
or_else p none = p
or_else p (some q) = q

abbrev put_before : Char → Option (String × String) → Option (String × String)
put_before c none = none
put_before c (some (embed, prop)) = some (String.◌∷◌ c embed, prop)

-- `item.split("__", maxsplit=1)` of a text with two underscores in it; none of one without
unfoldable pub split_name : String → Option (String × String)
split_name String.[] = none
split_name (String.◌∷◌ c String.[]) = none
split_name (String.◌∷◌ c (String.◌∷◌ d s)) =
    let rest = split_name (String.◌∷◌ d s) in
    if (code c == b'_') && (code d == b'_') then some ("", s) else put_before c rest

-- `f"{name}__{descriptor_name}"`
unfoldable pub qualified : String → String → String
qualified name descriptor_name = name ++ ("__" ++ descriptor_name)

-- a name that no two underscores stand in and none ends
unfoldable pub is_plain : String → Bool
is_plain String.[] = true
is_plain (String.◌∷◌ c String.[]) = not (code c == b'_')
is_plain (String.◌∷◌ c (String.◌∷◌ d s)) =
    not ((code c == b'_') && (code d == b'_')) && is_plain (String.◌∷◌ d s)

abbrev underscores : String → String
underscores p = String.◌∷◌ "_" (String.◌∷◌ "_" p)

underscores-append : (p : String) → "__" ++ p ≡ underscores p
underscores-append p =
    cons-append "_" "_" p
    ∙ ap (String.◌∷◌ "_") (cons-append "_" "" p ∙ ap (String.◌∷◌ "_") (nil-append p))

-- A plain name is what stands before the first two underscores.
split_plain :
    (name p : String) → is_plain name ≡ true → split_name (name ++ underscores p) ≡ some (name, p)
unfolding split_name is_plain
split_plain String.[] p h = rw (nil-append (underscores p))
split_plain (String.◌∷◌ c String.[]) p h =
    let miss : (code c == b'_') ≡ false = ground arith in
    rw (cons-append c "" (underscores p), nil-append (underscores p), miss)
split_plain (String.◌∷◌ c (String.◌∷◌ d s)) p h =
    let miss : ((code c == b'_') && (code d == b'_')) ≡ false = ground arith in
    let rest : split_name (String.◌∷◌ d s ++ underscores p) ≡ some (String.◌∷◌ d s, p) =
      split_plain (String.◌∷◌ d s) p (ground arith) in
    let rest' = rw (cons-append d s (underscores p)) at rest in
    rw
      (cons-append c (String.◌∷◌ d s) (underscores p), cons-append d s (underscores p), miss, rest')

pub split_name-qualified :
    (name p : String) → is_plain name ≡ true → split_name (qualified name p) ≡ some (name, p)
unfolding qualified
split_name-qualified name p h = rw (underscores-append p) (split_plain name p h)

-- A plain name has no part behind two underscores.
split_name-none : (name : String) → is_plain name ≡ true → split_name name ≡ none
unfolding split_name is_plain
split_name-none String.[] h = refl
split_name-none (String.◌∷◌ c String.[]) h = refl
split_name-none (String.◌∷◌ c (String.◌∷◌ d s)) h = ground (arith, split_name-none (String.◌∷◌ d s))

pub qualified-ne_plain : (name p : String) → is_plain name ≡ true → name ≢ qualified name p
qualified-ne_plain name p h e =
    let no_parts : split_name name ≡ none = split_name-none name h in
    let parts : split_name name ≡ some (name, p) =
      ap split_name e ∙ split_name-qualified name p h in
    cc

-- The second part is shorter than the text.
pub split_name-shorter :
    (item : String) (parts : String × String)
    → split_name item ≡ some parts
    → text_length parts.1 < text_length item
unfolding split_name text_length
split_name-shorter String.[] parts h = absurd (ground arith)
split_name-shorter (String.◌∷◌ c String.[]) parts h = absurd (ground arith)
split_name-shorter (String.◌∷◌ c (String.◌∷◌ d s)) parts h =
    elim (Bool-cases ((code c == b'_') && (code d == b'_'))) [
      | inl hit ↦
          (let same : some ("", s) ≡ some parts = rw hit at h in
            let short : parts.1 ≡ s = ap (λ o. (or_else ("", "") o).1) (sym same) in
            rw short (omega arith))
      | inr miss ↦
          longer (split_name (String.◌∷◌ d s)) (split_name-shorter (String.◌∷◌ d s)) (rw miss at h)
    ]
  where
    longer :
        (rest : Option (String × String))
        → ((q : String × String) → rest ≡ some q → text_length q.1 < suc (text_length s))
        → put_before c rest ≡ some parts
        → text_length parts.1 < suc (suc (text_length s))
    longer none less h' = absurd (ground arith)
    longer (some (embed, prop)) less h' =
        let short : parts.1 ≡ prop = ap (λ o. (or_else ("", "") o).1) (sym h') in
        rw short (omega (arith, less (embed, prop) refl))
