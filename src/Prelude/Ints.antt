-- ===== src/Prelude/Ints.antt =====
-- `int(text)` and `int(text, 0)` of Python, for the results that are natural numbers: white space
-- around, a sign, digits with single underscores between them. Of the digits those of ASCII are
-- read, and of the negative results only zero.
use Prim.Native.Nat.{ℕ, zero, ◌+◌, ◌-◌, ◌*◌}
use Prim.Native.Char.{code}
use Prim.Native.String.{String}
use mathlib.Core.Bool.{Bool, true, false, ◌&&◌, ◌||◌, not}
use mathlib.Core.Option.{Option, none, some}
use mathlib.Core.List.{List, [], ◌∷◌, reverse}
use threadlens.Prelude.Tests.{leb, ltb, if◌then◌else◌}
use threadlens.Prelude.Codes.{eq_ℕ, strip, is_space}

unfoldable pub codes : String → List ℕ
codes String.[] = []
codes (String.◌∷◌ c s) = code c ∷ codes s

-- the value of a digit, 36 for a character that is none
unfoldable pub digit_value : ℕ → ℕ
digit_value c =
    if leb 48 c && leb c 57
    then c - 48
    else if leb 97 c && leb c 122
    then c - 87
    else if leb 65 c && leb c 90
    then c - 55
    else 36

-- The digits left, with the value so far. An underscore may stand only where `gap` says so, and not
-- at the end.
unfoldable pub digits : ℕ → Bool → ℕ → List ℕ → Option ℕ
unfolding digit_value
digits base gap acc [] = if gap then some acc else none
digits base gap acc (c ∷ cs) =
    let skip = eq_ℕ c 95 in
    let rest = digits base (not skip) (if skip then acc else acc * base + digit_value c) cs in
    if (skip && gap) || (not skip && ltb (digit_value c) base) then rest else none

-- behind a sign
unsigned : List ℕ → Option ℕ
unfolding digits
unsigned cs = digits 10 false 0 cs

only_zero : Option ℕ → Option ℕ
only_zero (some zero) = some zero
only_zero _ = none

signed : List ℕ → Option ℕ
unfolding unsigned only_zero
signed [] = none
signed (c ∷ cs) =
    if eq_ℕ c 43
    then unsigned cs
    else if eq_ℕ c 45
    then only_zero (unsigned cs)
    else unsigned (c ∷ cs)

-- `int(text)`, and the same on codes
unfoldable pub parse_int : String → Option ℕ
unfolding strip codes signed
parse_int s = signed (codes (strip s))

drop_spaces : List ℕ → List ℕ
unfolding is_space
drop_spaces [] = []
drop_spaces (c ∷ cs) = let rest = drop_spaces cs in if is_space c then rest else c ∷ cs

unfoldable pub parse_codes : List ℕ → Option ℕ
unfolding signed drop_spaces
parse_codes cs = signed (reverse (drop_spaces (reverse (drop_spaces cs))))

-- behind `0x`
prefixed : List ℕ → Option ℕ
unfolding digits
prefixed (z ∷ x ∷ c ∷ cs) = digits 16 true 0 (c ∷ cs)
prefixed _ = none

-- `text.lower().startswith("0x")`
unfoldable pub is_prefixed : List ℕ → Bool
is_prefixed (z ∷ x ∷ cs) = eq_ℕ z 48 && (eq_ℕ x 120 || eq_ℕ x 88)
is_prefixed _ = false

-- `int(text, 0)` of a text that starts with `0x`
unfoldable pub parse_hex : String → Option ℕ
unfolding strip codes prefixed
parse_hex s = prefixed (codes (strip s))
