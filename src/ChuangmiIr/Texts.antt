-- ===== src/ChuangmiIr/Texts.antt =====
-- The Pronto commands that `ChuangmiIr.play` tells from others: `PRONTO_RE.match`, on ASCII characters.
use python_miio.Base.{
  ℕ, suc, String, Bool, true, false, ◌&&◌, ◌||◌, List, [], ◌∷◌, Option, none, some, leb, ◌==◌,
  if◌then◌else◌,
}
use python_miio.Base.Text.{codes}
use python_miio.Python.Hex.{hex_value}

-- `\s`
unfoldable pub is_whitespace : ℕ → Bool
is_whitespace c = c == 32 || (leb 9 c && leb c 13) || (leb 28 c && leb c 31)

-- `[\da-f]` without regard to case
abbrev is_some : Option ℕ → Bool
is_some none = false
is_some (some n) = true

unfoldable pub is_hex : ℕ → Bool
is_hex c = is_some (hex_value c)

-- How many groups of four digits a text has, if it is such groups with at most one white space between
-- two of them; the end may have a line break, as for `$`.
unfoldable pub count_groups : List ℕ → Option ℕ
count_groups (a ∷ b ∷ c ∷ d ∷ []) =
    if is_hex a && is_hex b && is_hex c && is_hex d then some 1 else none
count_groups (a ∷ b ∷ c ∷ d ∷ e ∷ s) =
    let spaced = count_groups s in
    let joined = count_groups (e ∷ s) in
    if is_hex a && is_hex b && is_hex c && is_hex d
    then (if is_line_end e s
        then some 1
        else if is_whitespace e
        then one_more spaced
        else one_more joined)
    else none
  where
    one_more : Option ℕ → Option ℕ
    one_more none = none
    one_more (some n) = some (suc n)

    is_line_end : ℕ → List ℕ → Bool
    is_line_end e [] = e == 10
    is_line_end e (_ ∷ _) = false
count_groups _ = none

abbrev at_least_four : Option ℕ → Bool
at_least_four none = false
at_least_four (some n) = leb 4 n

-- `PRONTO_RE.match(command)`: three groups or more, and the last one
unfoldable pub is_pronto : String → Bool
is_pronto command = at_least_four (count_groups (codes command))
