-- ===== src/Ids/Laws.antt =====
-- What the normalised identifiers are, and that they are normal.
use Prim.Native.Char.{Char, code}
use threadlens.Prelude.{
  ℕ, ◌≡◌, refl, sym, ap, ◌∙◌, Bool, true, false, ◌&&◌, ◌||◌, String, Option, none, some, leb, arith,
  Bool-cases, Option-cases, inl, inr,
}
use threadlens.Prelude.Codes.{eq_ℕ, length, is_space, lstrip, rstrip}
use threadlens.Ids.{
  is_hex, lower_hex, compact, drop_prefix, strip_hex_prefix, of_length, normalize_ext_pan_id,
  colon_pairs, paired, normalize_mac_address,
}

-- A lowercase hexadecimal digit.
abbrev pub is_lower_hex : ℕ → Bool
is_lower_hex c = (leb 48 c && leb c 57) || (leb 97 c && leb c 102)

-- Each character is a lowercase hexadecimal digit.
abbrev pub IsCompact : String → Type 0
IsCompact String.[] = Unit
IsCompact (String.◌∷◌ c s) = (is_lower_hex (code c) ≡ true) × IsCompact s

lower_hex-lower : (c : Char) → is_hex (code c) ≡ true → is_lower_hex (code (lower_hex c)) ≡ true
unfolding is_hex lower_hex
lower_hex-lower c h = elim (Bool-cases (eq_ℕ (code c) 65)) [
  | inl e ↦ rw e refl
  | inr e65 ↦ rw e65 (elim (Bool-cases (eq_ℕ (code c) 66)) [
    | inl e ↦ rw e refl
    | inr e66 ↦ rw e66 (elim (Bool-cases (eq_ℕ (code c) 67)) [
      | inl e ↦ rw e refl
      | inr e67 ↦ rw e67 (elim (Bool-cases (eq_ℕ (code c) 68)) [
        | inl e ↦ rw e refl
        | inr e68 ↦ rw e68 (elim (Bool-cases (eq_ℕ (code c) 69)) [
          | inl e ↦ rw e refl
          | inr e69 ↦ rw e69 (elim (Bool-cases (eq_ℕ (code c) 70)) [
            | inl e ↦ rw e refl
            | inr e70 ↦ rw e70 (ground arith)
          ])
        ])
      ])
    ])
  ])
]

pub compact-IsCompact : (s : String) → IsCompact (compact s)
unfolding compact
compact-IsCompact String.[] = tt
compact-IsCompact (String.◌∷◌ c s) = elim (Bool-cases (is_hex (code c))) [
  | inl hex ↦ rw hex (lower_hex-lower c hex, compact-IsCompact s)
  | inr other ↦ rw other (compact-IsCompact s)
]

lower_hex_fixed : (c : Char) → is_lower_hex (code c) ≡ true → lower_hex c ≡ c
unfolding lower_hex
lower_hex_fixed c h = elim (Bool-cases (eq_ℕ (code c) 65)) [
  | inl e ↦ rw e (absurd (ground (arith, e)))
  | inr e65 ↦ rw e65 (elim (Bool-cases (eq_ℕ (code c) 66)) [
    | inl e ↦ rw e (absurd (ground (arith, e)))
    | inr e66 ↦ rw e66 (elim (Bool-cases (eq_ℕ (code c) 67)) [
      | inl e ↦ rw e (absurd (ground (arith, e)))
      | inr e67 ↦ rw e67 (elim (Bool-cases (eq_ℕ (code c) 68)) [
        | inl e ↦ rw e (absurd (ground (arith, e)))
        | inr e68 ↦ rw e68 (elim (Bool-cases (eq_ℕ (code c) 69)) [
          | inl e ↦ rw e (absurd (ground (arith, e)))
          | inr e69 ↦ rw e69 (elim (Bool-cases (eq_ℕ (code c) 70)) [
            | inl e ↦ rw e (absurd (ground (arith, e)))
            | inr e70 ↦ rw e70 (refl)
          ])
        ])
      ])
    ])
  ])
]

lower_is_hex : (c : Char) → is_lower_hex (code c) ≡ true → is_hex (code c) ≡ true
unfolding is_hex
lower_is_hex c h = ground arith

compact_fixed : (s : String) → IsCompact s → compact s ≡ s
unfolding compact
compact_fixed String.[] h = refl
compact_fixed (String.◌∷◌ c s) h =
    rw (lower_is_hex c h.0, compact_fixed s h.1, lower_hex_fixed c h.0)

-- Each character is a lowercase hexadecimal digit or a colon.
abbrev is_tidy : ℕ → Bool
is_tidy c = is_lower_hex c || eq_ℕ c 58

abbrev IsTidy : String → Type 0
IsTidy String.[] = Unit
IsTidy (String.◌∷◌ c s) = (is_tidy (code c) ≡ true) × IsTidy s

IsTidy-of_compact : (s : String) → IsCompact s → IsTidy s
IsTidy-of_compact String.[] h = tt
IsTidy-of_compact (String.◌∷◌ c s) h = (ground arith, IsTidy-of_compact s h.1)

tidy_not_space : (c : Char) → is_tidy (code c) ≡ true → is_space (code c) ≡ false
unfolding is_space
tidy_not_space c h = ground arith

tidy_not_x :
    (c d : Char)
    → is_tidy (code d) ≡ true
    → (eq_ℕ (code c) 48 && (eq_ℕ (code d) 120 || eq_ℕ (code d) 88)) ≡ false
tidy_not_x c d h = ground arith

lstrip_fixed : (s : String) → IsTidy s → lstrip s ≡ s
unfolding lstrip
lstrip_fixed String.[] h = refl
lstrip_fixed (String.◌∷◌ c s) h = rw (tidy_not_space c h.0)

rstrip_fixed : (s : String) → IsTidy s → rstrip s ≡ s
unfolding rstrip
rstrip_fixed String.[] h = refl
rstrip_fixed (String.◌∷◌ c s) h = rw (rstrip_fixed s h.1, tidy_not_space c h.0)

drop_prefix_fixed : (s : String) → IsTidy s → drop_prefix s ≡ s
unfolding drop_prefix
drop_prefix_fixed String.[] h = refl
drop_prefix_fixed (String.◌∷◌ c String.[]) h = refl
drop_prefix_fixed (String.◌∷◌ c (String.◌∷◌ d s)) h = rw (tidy_not_x c d h.1.0)

strip_hex_prefix_fixed : (s : String) → IsTidy s → strip_hex_prefix s ≡ s
unfolding strip_hex_prefix
strip_hex_prefix_fixed s h =
    ap (λ t. drop_prefix (rstrip t)) (lstrip_fixed s h)
    ∙ ap drop_prefix (rstrip_fixed s h)
    ∙ drop_prefix_fixed s h

some_inj : (s t : String) → some s ≡ some t → s ≡ t
some_inj s t h = cc

none_ne_some : (s : String) → none ≡ some s → ⊥
none_ne_some s h = cc

of_length_lem : (n : ℕ) (s id : String) → of_length n s ≡ some id → (id ≡ s) × (length id ≡ n)
of_length_lem n s id h = elim (Bool-cases (eq_ℕ (length s) n)) [
  | inl fits ↦ let e : s ≡ id = some_inj s id (rw fits at h) in (sym e, rw (← e) (ground arith))
  | inr other ↦ absurd (none_ne_some id (rw other at h))
]

of_length_fixed : (n : ℕ) (s : String) → length s ≡ n → of_length n s ≡ some s
of_length_fixed n s h = let fits : eq_ℕ (length s) n ≡ true = ground arith in rw fits

-- A normalised network id is 16 lowercase hexadecimal digits.
pub normalize_ext_pan_id-form :
    (value : Option String) (id : String)
    → normalize_ext_pan_id value ≡ some id
    → IsCompact id × (length id ≡ 16)
unfolding normalize_ext_pan_id
normalize_ext_pan_id-form none id h = cc
normalize_ext_pan_id-form (some v) id h =
    let (e, n) = of_length_lem 16 (compact (strip_hex_prefix v)) id h in
    (rw e (compact-IsCompact (strip_hex_prefix v)), n)

-- Normalising a normalised network id gives it back.
pub normalize_ext_pan_id_idem :
    (value : Option String) (id : String)
    → normalize_ext_pan_id value ≡ some id
    → normalize_ext_pan_id (some id) ≡ some id
normalize_ext_pan_id_idem value id h =
    let (c, n) = normalize_ext_pan_id-form value id h in
    unfold normalize_ext_pan_id in
    rw (strip_hex_prefix_fixed id (IsTidy-of_compact id c), compact_fixed id c)
      (of_length_fixed 16 id n)

IsTidy-colon_pairs : (s : String) → IsCompact s → IsTidy (colon_pairs s)
unfolding colon_pairs
IsTidy-colon_pairs String.[] h = tt
IsTidy-colon_pairs (String.◌∷◌ a String.[]) h = (ground arith, tt)
IsTidy-colon_pairs (String.◌∷◌ a (String.◌∷◌ b String.[])) h = (ground arith, (ground arith, tt))
IsTidy-colon_pairs (String.◌∷◌ a (String.◌∷◌ b (String.◌∷◌ c s))) h =
    (ground arith, (ground arith, (refl, IsTidy-colon_pairs (String.◌∷◌ c s) h.1.1)))

compact-colon_pairs : (s : String) → IsCompact s → compact (colon_pairs s) ≡ s
unfolding colon_pairs compact
compact-colon_pairs String.[] h = refl
compact-colon_pairs (String.◌∷◌ a String.[]) h = rw (lower_is_hex a h.0, lower_hex_fixed a h.0)
compact-colon_pairs (String.◌∷◌ a (String.◌∷◌ b String.[])) h =
    rw (lower_is_hex a h.0, lower_is_hex b h.1.0, lower_hex_fixed a h.0, lower_hex_fixed b h.1.0)
compact-colon_pairs (String.◌∷◌ a (String.◌∷◌ b (String.◌∷◌ c s))) h =
    rw (lower_is_hex a h.0, lower_is_hex b h.1.0, lower_hex_fixed a h.0, lower_hex_fixed b h.1.0)
      (ap (λ t. String.◌∷◌ a (String.◌∷◌ b t)) (compact-colon_pairs (String.◌∷◌ c s) h.1.1))

normalize_mac_eq :
    (v : String)
    → normalize_mac_address (some v) ≡ paired (of_length 12 (compact (strip_hex_prefix v)))
unfolding normalize_mac_address
normalize_mac_eq v = refl

mac_form :
    (v mac : String)
    → normalize_mac_address (some v) ≡ some mac
    → (d : String) × (mac ≡ colon_pairs d) × IsCompact d × (length d ≡ 12)
mac_form v mac h =
    let digits = compact (strip_hex_prefix v) in
    elim (Option-cases (of_length 12 digits)) [
      | inl none_left ↦
          absurd (none_ne_some mac (sym (ap paired none_left) ∙ sym (normalize_mac_eq v) ∙ h))
      | inr (d, e) ↦
          let (same, n) = of_length_lem 12 digits d e in
          (
            d,
            some_inj mac (colon_pairs d) (sym h ∙ normalize_mac_eq v ∙ ap paired e),
            rw same (compact-IsCompact (strip_hex_prefix v)),
            n,
          )
    ]

mac_again :
    (d : String)
    → IsCompact d
    → length d ≡ 12
    → normalize_mac_address (some (colon_pairs d)) ≡ some (colon_pairs d)
mac_again d c n =
    normalize_mac_eq (colon_pairs d)
    ∙ ap (λ s. paired (of_length 12 (compact s)))
        (strip_hex_prefix_fixed (colon_pairs d) (IsTidy-colon_pairs d c))
    ∙ ap (λ s. paired (of_length 12 s)) (compact-colon_pairs d c)
    ∙ ap paired (of_length_fixed 12 d n)

-- Normalising a normalised MAC address gives it back: the colons go and come again.
pub normalize_mac_address_idem :
    (value : Option String) (mac : String)
    → normalize_mac_address value ≡ some mac
    → normalize_mac_address (some mac) ≡ some mac
normalize_mac_address_idem none mac h =
    absurd (none_ne_some mac (unfold normalize_mac_address in h))
normalize_mac_address_idem (some v) mac h =
    let (d, e, c, n) = mac_form v mac h in rw e (mac_again d c n)
