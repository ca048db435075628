-- ===== src/Ids.antt =====
-- The hexadecimal identifiers of threadlens/utils/ids.py: extended PAN ids, extended addresses and
-- MAC addresses.
pub mod Laws
use Prim.Native.Char.{Char, code}
use Prim.Native.String
use threadlens.Prelude.{
  ℕ, suc, Bool, true, false, ◌&&◌, ◌||◌, String, Option, none, some, leb, if◌then◌else◌, join, List,
  [], ◌∷◌,
}
use threadlens.Prelude.Codes.{eq_ℕ, length, strip}

-- `[0-9a-fA-F]`
unfoldable pub is_hex : ℕ → Bool
is_hex c = (leb 48 c && leb c 57) || ((leb 65 c && leb c 70) || (leb 97 c && leb c 102))

-- `.lower()` on a hexadecimal digit
unfoldable pub lower_hex : Char → Char
lower_hex c =
    if eq_ℕ (code c) 65
    then "a"
    else if eq_ℕ (code c) 66
    then "b"
    else if eq_ℕ (code c) 67
    then "c"
    else if eq_ℕ (code c) 68
    then "d"
    else if eq_ℕ (code c) 69
    then "e"
    else if eq_ℕ (code c) 70
    then "f"
    else c

-- `_HEX_ONLY.sub("", value).lower()`
unfoldable pub compact : String → String
unfolding is_hex lower_hex
compact String.[] = ""
compact (String.◌∷◌ c s) =
    let rest = compact s in if is_hex (code c) then String.◌∷◌ (lower_hex c) rest else rest

-- `cleaned[2:] if cleaned.lower().startswith("0x") else cleaned`
unfoldable pub drop_prefix : String → String
drop_prefix (String.◌∷◌ c (String.◌∷◌ d s)) =
    if eq_ℕ (code c) 48 && (eq_ℕ (code d) 120 || eq_ℕ (code d) 88)
    then s
    else String.◌∷◌ c (String.◌∷◌ d s)
drop_prefix s = s

unfoldable pub strip_hex_prefix : String → String
unfolding drop_prefix strip
strip_hex_prefix value = drop_prefix (strip value)

abbrev pub of_length : ℕ → String → Option String
of_length n s = if eq_ℕ (length s) n then some s else none

unfoldable pub normalize_ext_pan_id : Option String → Option String
unfolding compact strip_hex_prefix
normalize_ext_pan_id none = none
normalize_ext_pan_id (some value) = of_length 16 (compact (strip_hex_prefix value))

unfoldable pub normalize_extended_address : Option String → Option String
unfolding compact strip_hex_prefix
normalize_extended_address none = none
normalize_extended_address (some value) = of_length 16 (compact (strip_hex_prefix value))

-- `":".join(compact[i : i + 2] for i in range(0, 12, 2))` of twelve digits
unfoldable pub colon_pairs : String → String
colon_pairs (String.◌∷◌ a (String.◌∷◌ b String.[])) = String.◌∷◌ a (String.◌∷◌ b String.[])
colon_pairs (String.◌∷◌ a (String.◌∷◌ b (String.◌∷◌ c s))) =
    String.◌∷◌ a (String.◌∷◌ b (String.◌∷◌ ":" (colon_pairs (String.◌∷◌ c s))))
colon_pairs s = s

abbrev pub paired : Option String → Option String
paired none = none
paired (some digits) = some (colon_pairs digits)

unfoldable pub normalize_mac_address : Option String → Option String
unfolding compact strip_hex_prefix colon_pairs
normalize_mac_address none = none
normalize_mac_address (some value) = paired (of_length 12 (compact (strip_hex_prefix value)))
