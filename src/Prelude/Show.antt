-- ===== src/Prelude/Show.antt =====
-- `str` and `repr` of JSON values, as Python prints them. A character beyond ASCII is taken as
-- printable.
use Prim.Native.Nat.{ℕ, ◌/◌, ◌%◌}
use Prim.Native.Char.{Char, code}
use Prim.Native.String.{String}
use mathlib.Core.Bool.{Bool, false, not, ◌&&◌, ◌||◌}
use mathlib.Core.List.{[], ◌∷◌}
use threadlens.Prelude.Tests.{ltb, if◌then◌else◌}
use threadlens.Prelude.Codes.{eq_ℕ}
use threadlens.Prelude.Format.{join, show_ℕ}
use threadlens.Prelude.Json.{
  Json, Items, Fields, nil, cons, end, field, null, flag, number, real, str, array, object,
}

-- one hexadecimal digit
unfoldable pub hex_digit : ℕ → String
unfolding show_ℕ
hex_digit n =
    if eq_ℕ n 10
    then "a"
    else if eq_ℕ n 11
    then "b"
    else if eq_ℕ n 12
    then "c"
    else if eq_ℕ n 13
    then "d"
    else if eq_ℕ n 14
    then "e"
    else if eq_ℕ n 15
    then "f"
    else show_ℕ n

has_code : ℕ → String → Bool
has_code n String.[] = false
has_code n (String.◌∷◌ c s) = eq_ℕ (code c) n || has_code n s

-- a character within a literal that is quoted by `quote`
escaped : ℕ → Char → String
unfolding hex_digit join
escaped quote c =
    if eq_ℕ (code c) 92
    then "\\\\"
    else if eq_ℕ (code c) quote
    then String.◌∷◌ "\\" (String.◌∷◌ c "")
    else if eq_ℕ (code c) 10
    then "\\n"
    else if eq_ℕ (code c) 13
    then "\\r"
    else if eq_ℕ (code c) 9
    then "\\t"
    else if ltb (code c) 32 || eq_ℕ (code c) 127
    then join ("\\x" ∷ hex_digit (code c / 16) ∷ hex_digit (code c % 16) ∷ [])
    else String.◌∷◌ c ""

escaped_all : ℕ → String → String
unfolding escaped join
escaped_all quote String.[] = ""
escaped_all quote (String.◌∷◌ c s) = join (escaped quote c ∷ escaped_all quote s ∷ [])

unfoldable pub repr_text : String → String
unfolding has_code escaped_all join
repr_text s =
    if has_code 39 s && not (has_code 34 s)
    then join ("\"" ∷ escaped_all 34 s ∷ "\"" ∷ [])
    else join ("'" ∷ escaped_all 39 s ∷ "'" ∷ [])

unfoldable mutual
  unfolding repr_text show_ℕ join

  pub repr : Json → String
  repr null = "None"
  repr (flag b) = if b then "True" else "False"
  repr (number n) = show_ℕ n
  repr (real s) = s
  repr (str s) = repr_text s
  repr (array items) = join ("[" ∷ repr_items items ∷ "]" ∷ [])
  repr (object fields) = join ("{" ∷ repr_fields fields ∷ "}" ∷ [])

  pub repr_items : Items → String
  repr_items nil = ""
  repr_items (cons v nil) = repr v
  repr_items (cons v (cons w items)) = join (repr v ∷ ", " ∷ repr_items (cons w items) ∷ [])

  pub repr_fields : Fields → String
  repr_fields end = ""
  repr_fields (field k v end) = join (repr_text k ∷ ": " ∷ repr v ∷ [])
  repr_fields (field k v (field l w fields)) =
      join (repr_text k ∷ ": " ∷ repr v ∷ ", " ∷ repr_fields (field l w fields) ∷ [])

unfoldable pub show : Json → String
unfolding repr
show (str s) = s
show null = repr null
show (flag b) = repr (flag b)
show (number n) = repr (number n)
show (real s) = repr (real s)
show (array items) = repr (array items)
show (object fields) = repr (object fields)
