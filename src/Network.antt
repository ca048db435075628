-- ===== src/Network.antt =====
-- threadlens/utils/network.py. `compressed` stands for the standard library: for a text that is an
-- IPv6 address its compressed form in small letters, and nothing for any other text.
use threadlens.Prelude.{
  Bool, true, false, ◌&&◌, ◌||◌, not, String, Option, none, some, ◌==◌, if◌then◌else◌,
}
use threadlens.Prelude.Codes.{eq_ℕ, strip, is_empty}
use threadlens.Prelude.Json.{Json, Items, Fields, null, end, field}

-- `bool(value)`
unfoldable pub truthy : Json → Bool
truthy null = false
truthy (Json.flag b) = b
truthy (Json.number n) = not (eq_ℕ n 0)
truthy (Json.real s) = not (s == "0.0" || s == "-0.0")
truthy (Json.str s) = not (is_empty s)
truthy (Json.array Items.nil) = false
truthy (Json.array (Items.cons v items)) = true
truthy (Json.object end) = false
truthy (Json.object (field k v fields)) = true

module _ (compressed : String → Option String) where
  unfoldable pub normalize_ipv6 : Option String → Option String
  unfolding strip
  normalize_ipv6 none = none
  normalize_ipv6 (some s) =
      if is_empty (strip s) || strip s == "::" then none else compressed (strip s)

  unfoldable pub first_address : Fields → Option String
  unfolding truthy normalize_ipv6
  first_address end = none
  first_address (field address ok fields) =
      let rest = first_address fields in
      elim (normalize_ipv6 (some address)) [
        | none ↦ rest
        | some a ↦ if truthy ok && not (is_empty a) then some a else rest
      ]

  unfoldable pub extract_ping_ipv6 : Json → Option String
  unfolding first_address
  extract_ping_ipv6 (Json.object fields) = first_address fields
  extract_ping_ipv6 _ = none
