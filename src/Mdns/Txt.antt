-- ===== src/Mdns/Txt.antt =====
-- threadlens/collectors/mdns_txt.py
use Prim.Native.Nat.{◌/◌}
use Prim.Native.Char.{code}
use threadlens.Prelude.{
  ℕ, ◌+◌, ◌%◌, ◌≡◌, refl, Bool, true, false, ◌&&◌, ◌||◌, String, Option, none, some, List, [], ◌∷◌,
  leb, length, join, ◌==◌, if◌then◌else◌,
}
use threadlens.Prelude.Codes.{eq_ℕ, strip}
use threadlens.Prelude.Dict.{Dict, lookup}
use threadlens.Ids.{normalize_ext_pan_id, normalize_extended_address}

-- `s.lower()`, read character by character, as far as ASCII goes: no other character has a
-- lower case that occurs in the service type below.
codes_lower : String → List ℕ
codes_lower String.[] = []
codes_lower (String.◌∷◌ c s) =
    (if leb 65 (code c) && leb (code c) 90 then code c + 32 else code c) ∷ codes_lower s

-- `.rstrip(".")`
keep : ℕ → List ℕ → List ℕ
keep c [] = if eq_ℕ c 46 then [] else c ∷ []
keep c (d ∷ ds) = c ∷ d ∷ ds

rstrip_dots : List ℕ → List ℕ
unfolding keep
rstrip_dots [] = []
rstrip_dots (c ∷ cs) = keep c (rstrip_dots cs)

eq_codes : List ℕ → List ℕ → Bool
eq_codes [] [] = true
eq_codes (a ∷ s) (b ∷ t) = eq_ℕ a b && eq_codes s t
eq_codes _ _ = false

ends_with : List ℕ → List ℕ → Bool
ends_with [] t = eq_codes [] t
ends_with (c ∷ s) t = eq_codes (c ∷ s) t || ends_with s t

-- "_trel._udp.local"
trel_type : List ℕ
unfolding codes_lower
trel_type = codes_lower "_trel._udp.local"

unfoldable pub is_trel_service_type : String → Bool
unfolding codes_lower rstrip_dots eq_codes ends_with trel_type strip
is_trel_service_type service_type =
    let normalised = rstrip_dots (codes_lower (strip service_type)) in
    eq_codes normalised trel_type || ends_with normalised (46 ∷ trel_type)

-- The keys and the values of zeroconf's properties.
pub data RawKey : Type 0 where
  text : String → RawKey
  bytes : String → RawKey

pub data RawValue : Type 0 where
  null : RawValue
  text : String → RawValue
  bytes : List ℕ → RawValue

abbrev pub RawProperties : Type 0
RawProperties = List (RawKey × RawValue)

same_key : RawKey → RawKey → Bool
same_key (RawKey.text s) (RawKey.text t) = s == t
same_key (RawKey.bytes s) (RawKey.bytes t) = s == t
same_key _ _ = false

-- `properties.get(key)`; a missing key and a value `None` are both `null`
raw_get : RawKey → RawProperties → RawValue
raw_get k [] = RawValue.null
raw_get k ((j, v) ∷ props) = if same_key k j then v else raw_get k props

-- `a or b`
raw_or : RawValue → RawValue → RawValue
raw_or RawValue.null b = b
raw_or (RawValue.text s) b = if s == "" then b else RawValue.text s
raw_or (RawValue.bytes []) b = b
raw_or (RawValue.bytes (c ∷ cs)) b = RawValue.bytes (c ∷ cs)

nibble : ℕ → String
nibble n =
    if eq_ℕ n 0
    then "0"
    else if eq_ℕ n 1
    then "1"
    else if eq_ℕ n 2
    then "2"
    else if eq_ℕ n 3
    then "3"
    else if eq_ℕ n 4
    then "4"
    else if eq_ℕ n 5
    then "5"
    else if eq_ℕ n 6
    then "6"
    else if eq_ℕ n 7
    then "7"
    else if eq_ℕ n 8
    then "8"
    else if eq_ℕ n 9
    then "9"
    else if eq_ℕ n 10
    then "a"
    else if eq_ℕ n 11
    then "b"
    else if eq_ℕ n 12
    then "c"
    else if eq_ℕ n 13
    then "d"
    else if eq_ℕ n 14
    then "e"
    else "f"

-- `raw.hex()`
hex : List ℕ → String
unfolding nibble join
hex [] = ""
hex (b ∷ bs) = join (nibble (b / 16) ∷ nibble (b % 16) ∷ hex bs ∷ [])

-- `raw.hex()` of eight bytes, if that is what is there
eight_bytes : RawValue → Option String
unfolding hex
eight_bytes (RawValue.bytes bs) = if eq_ℕ (length bs) 8 then some (hex bs) else none
eight_bytes _ = none

from_raw : String → Option RawProperties → Option String
unfolding same_key raw_get raw_or eight_bytes
from_raw key none = none
from_raw key (some props) =
    eight_bytes (raw_or (raw_get (RawKey.text key) props) (raw_get (RawKey.bytes key) props))

unfoldable pub ext_pan_id_from_txt : Dict String → Option RawProperties → Option String
unfolding from_raw normalize_ext_pan_id lookup
ext_pan_id_from_txt txt_records raw = elim (from_raw "xp" raw) [
  | some hex ↦ normalize_ext_pan_id (some hex)
  | none ↦ normalize_ext_pan_id (lookup "xp" txt_records)
]

unfoldable pub ext_address_from_txt : Dict String → Option RawProperties → Option String
unfolding from_raw normalize_extended_address lookup
ext_address_from_txt txt_records raw = elim (from_raw "xa" raw) [
  | some hex ↦ normalize_extended_address (some hex)
  | none ↦ normalize_extended_address (lookup "xa" txt_records)
]

trel_suffix : is_trel_service_type " _TREL._udp.local. " ≡ true
unfolding is_trel_service_type
trel_suffix = refl
