-- ===== src/Prelude/Words.antt =====
-- Texts as lists of character codes: search, case and splitting.
use Prim.Native.Nat.{ℕ, ◌+◌}
use Prim.Native.Char.{code}
use Prim.Native.String.{String}
use mathlib.Core.Bool.{Bool, true, false, ◌&&◌, ◌||◌}
use mathlib.Core.Option.{Option, none, some}
use mathlib.Core.List.{List, [], ◌∷◌}
use threadlens.Prelude.Tests.{leb, if◌then◌else◌}
use threadlens.Prelude.Codes.{eq_ℕ}

unfoldable pub starts_with : List ℕ → List ℕ → Bool
starts_with s [] = true
starts_with [] (b ∷ t) = false
starts_with (a ∷ s) (b ∷ t) = eq_ℕ a b && starts_with s t

-- `word in text`
unfoldable pub search : List ℕ → List ℕ → Bool
unfolding starts_with
search t [] = starts_with [] t
search t (a ∷ s) = starts_with (a ∷ s) t || search t s

lower_code : ℕ → ℕ
lower_code c = if leb 65 c && leb c 90 then c + 32 else c

-- `text.lower()` on the letters of ASCII
unfoldable pub lower : String → List ℕ
unfolding lower_code
lower String.[] = []
lower (String.◌∷◌ c s) = lower_code (code c) ∷ lower s

prepend : ℕ → List (List ℕ) → List (List ℕ)
prepend c [] = (c ∷ []) ∷ []
prepend c (part ∷ parts) = (c ∷ part) ∷ parts

-- `text.split(separator)`, on codes
unfoldable pub split : ℕ → List ℕ → List (List ℕ)
unfolding prepend
split separator [] = [] ∷ []
split separator (c ∷ cs) =
    let rest = split separator cs in if eq_ℕ c separator then [] ∷ rest else prepend c rest

-- what IGNORECASE does to the letters of ASCII: the capitals, and the four other letters that match
-- one of them
fold_code : ℕ → ℕ
fold_code c =
    if leb 65 c && leb c 90
    then c + 32
    else if eq_ℕ c 304 || eq_ℕ c 305
    then 105
    else if eq_ℕ c 383
    then 115
    else if eq_ℕ c 8490
    then 107
    else c

unfoldable pub folded : String → List ℕ
unfolding fold_code
folded String.[] = []
folded (String.◌∷◌ c s) = fold_code (code c) ∷ folded s

-- The rest behind a word at the start.
unfoldable pub behind : List ℕ → List ℕ → Option (List ℕ)
behind [] s = some s
behind (b ∷ t) [] = none
behind (b ∷ t) (a ∷ s) = let rest = behind t s in if eq_ℕ a b then rest else none
