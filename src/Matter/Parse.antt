-- ===== src/Matter/Parse.antt =====
-- threadlens/collectors/matter_parse.py
use threadlens.Prelude.{ℕ, Bool, String, Option, none, some, if◌then◌else◌, or_text}
use threadlens.Prelude.Codes.{strip, is_empty}
use threadlens.Prelude.Ints.{codes, is_prefixed, parse_int, parse_hex}
use threadlens.Prelude.Show.{show}
use threadlens.Prelude.Json.{Json, Fields, null, end, get_or_null}

pub record ParsedMatterNode : Type 0 where
  pub node_id : ℕ
  pub available : Option Bool
  pub node_label : Option String
  pub vendor : Option String
  pub vendor_id : Option ℕ
  pub product : Option String
  pub product_id : Option ℕ
  pub serial : Option String
  pub firmware : Option String

-- a text that is not empty
abbrev pub filled : Option String → Option String
filled none = none
filled (some s) = if is_empty s then none else some s

unfoldable pub friendly_name : ParsedMatterNode → Option String
friendly_name p = or_text p.node_label (filled p.serial)

unfoldable pub clean_str : Json → Option String
unfolding strip show
clean_str null = none
clean_str v = filled (some (strip (show v)))

unfoldable pub clean_int : Json → Option ℕ
unfolding codes is_prefixed parse_int parse_hex
clean_int (Json.number n) = some n
clean_int (Json.str s) = if is_prefixed (codes s) then parse_hex s else parse_int s
clean_int _ = none

-- `payload.get("available")`, where it is there and a Boolean
unfoldable pub availability : Fields → Option Bool
unfolding get_or_null
availability payload = elim (get_or_null "available" payload) [ Json.flag b ↦ some b | _ ↦ none ]

-- `attributes` where they are a dictionary, and the empty one in its place
unfoldable pub attributes : Fields → Option Fields
unfolding get_or_null
attributes payload = elim (get_or_null "attributes" payload) [ Json.object a ↦ some a | _ ↦ none ]

abbrev pub or_empty : Option Fields → Fields
or_empty none = end
or_empty (some a) = a

unfoldable pub firmware : Fields → Option String
unfolding clean_str get_or_null
firmware attrs = elim (clean_str (get_or_null "0/40/10" attrs)) [
  | some s ↦ some s
  | none ↦ clean_str (get_or_null "0/40/9" attrs)
]

-- the parsed node for an id
unfoldable pub parsed_with : ℕ → Fields → Fields → ParsedMatterNode
unfolding availability clean_str clean_int get_or_null firmware
parsed_with node_id payload attrs = record {
  node_id = node_id;
  available = availability payload;
  node_label = clean_str (get_or_null "0/40/5" attrs);
  vendor = clean_str (get_or_null "0/40/1" attrs);
  vendor_id = clean_int (get_or_null "0/40/2" attrs);
  product = clean_str (get_or_null "0/40/3" attrs);
  product_id = clean_int (get_or_null "0/40/4" attrs);
  serial = clean_str (get_or_null "0/40/15" attrs);
  firmware = firmware attrs;
}

unfoldable pub parse_matter_node : Fields → Option ParsedMatterNode
unfolding clean_int get_or_null parsed_with attributes
parse_matter_node payload = elim (clean_int (get_or_null "node_id" payload)) [
  | none ↦ none
  | some node_id ↦ some (parsed_with node_id payload (or_empty (attributes payload)))
]
