-- ===== src/Mdns/Record.antt =====
-- The records of threadlens/collectors/mdns.py and the states made from them.
pub mod Laws
use Prim.Native.Nat.{Ordering}
use Prim.Native.String.{compare}
use threadlens.Prelude.{
  ℕ, ◌+◌, Bool, true, false, ◌&&◌, not, String, Option, none, some, List, [], ◌∷◌, ◌==◌, length,
  if◌then◌else◌,
}
use threadlens.Prelude.Codes.{eq_ℕ}
use threadlens.Prelude.Dict.{Dict, lookup}
use threadlens.Model.State.{MdnsServiceState, TrelServiceState}
use threadlens.Mdns.Txt.{RawProperties, ext_pan_id_from_txt, ext_address_from_txt}

pub record NormalizedMdnsRecord : Type 0 where
  pub service_id : String
  pub service_type : String
  pub instance_name : String
  pub hostname : Option String
  pub addresses : List String
  pub port : Option ℕ
  pub txt_records : Dict String
  pub raw_properties : Option RawProperties

-- `previous.first_seen if previous and previous.first_seen else now`
abbrev pub or_now : Option ℕ → ℕ → Option ℕ
or_now none now = some now
or_now (some t) now = some t

abbrev pub bump_if : Bool → ℕ → ℕ
bump_if changed n = if changed then n + 1 else n

abbrev pub now_if : Bool → ℕ → Option ℕ → Option ℕ
now_if changed now t = if changed then some now else t

-- The fields that `previous` hands on; `None` where there is no previous state.
build_mdns_from :
    NormalizedMdnsRecord → Option ℕ → ℕ → Option ℕ → ℕ → Bool → Bool → MdnsServiceState
build_mdns_from r first_seen change_count last_changed now visible changed = record {
  service_id = r.service_id;
  service_type = r.service_type;
  instance_name = r.instance_name;
  hostname = r.hostname;
  addresses = r.addresses;
  port = r.port;
  txt_records = r.txt_records;
  currently_visible = visible;
  first_seen = or_now first_seen now;
  last_seen = some now;
  last_changed = now_if changed now last_changed;
  change_count = bump_if changed change_count;
  flaps_1h = none;
  flaps_24h = none;
}

unfoldable pub build_mdns_state :
    NormalizedMdnsRecord → Option MdnsServiceState → ℕ → Bool → Bool → MdnsServiceState
unfolding build_mdns_from
build_mdns_state r none now visible changed = build_mdns_from r none 0 none now visible changed
build_mdns_state r (some p) now visible changed =
    build_mdns_from r p.first_seen p.change_count p.last_changed now visible changed

build_trel_from :
    MdnsServiceState
    → NormalizedMdnsRecord
    → Option ℕ
    → ℕ
    → Option ℕ
    → ℕ
    → Bool
    → Bool
    → TrelServiceState
unfolding ext_pan_id_from_txt ext_address_from_txt
build_trel_from m r first_seen change_count last_changed now visible changed = record {
  service_id = m.service_id;
  instance_name = m.instance_name;
  hostname = m.hostname;
  addresses = m.addresses;
  port = m.port;
  txt_records = m.txt_records;
  ext_pan_id = ext_pan_id_from_txt m.txt_records r.raw_properties;
  ext_address = ext_address_from_txt m.txt_records r.raw_properties;
  currently_visible = visible;
  is_foreign = none;
  network_classification = none;
  first_seen = or_now first_seen now;
  last_seen = some now;
  last_changed = now_if changed now last_changed;
  change_count = bump_if changed change_count;
  flaps_1h = none;
  flaps_24h = none;
}

unfoldable pub build_trel_state :
    MdnsServiceState
    → NormalizedMdnsRecord
    → Option TrelServiceState
    → ℕ
    → Bool
    → Bool
    → TrelServiceState
unfolding build_trel_from
build_trel_state m r none now visible changed = build_trel_from m r none 0 none now visible changed
build_trel_state m r (some p) now visible changed =
    build_trel_from m r p.first_seen p.change_count p.last_changed now visible changed

-- `sorted(addresses)`
insert_text : String → List String → List String
insert_text s [] = s ∷ []
insert_text s (t ∷ ts) = elim (compare s t) [ Ordering.gt ↦ t ∷ insert_text s ts | _ ↦ s ∷ t ∷ ts ]

unfoldable pub sort_texts : List String → List String
unfolding insert_text
sort_texts [] = []
sort_texts (s ∷ ss) = insert_text s (sort_texts ss)

eq_texts : List String → List String → Bool
eq_texts [] [] = true
eq_texts (s ∷ ss) (t ∷ ts) = s == t && eq_texts ss ts
eq_texts _ _ = false

eq_opt_text : Option String → Option String → Bool
eq_opt_text none none = true
eq_opt_text (some s) (some t) = s == t
eq_opt_text _ _ = false

eq_opt_ℕ : Option ℕ → Option ℕ → Bool
eq_opt_ℕ none none = true
eq_opt_ℕ (some m) (some n) = eq_ℕ m n
eq_opt_ℕ _ _ = false

-- Two dictionaries are equal if they are of one size and each item of the one is in the other.
items_in : Dict String → Dict String → Bool
items_in [] e = true
items_in ((k, v) ∷ d) e = eq_opt_text (some v) (lookup k e) && items_in d e

eq_dict : Dict String → Dict String → Bool
unfolding items_in eq_opt_text
eq_dict d e = eq_ℕ (length d) (length e) && items_in d e

-- `_meaningful_snapshot(previous) != _meaningful_snapshot(candidate)`
unfoldable pub record_changed : MdnsServiceState → NormalizedMdnsRecord → Bool
unfolding sort_texts eq_texts eq_opt_text eq_opt_ℕ eq_dict
record_changed p r = not (
    eq_opt_text p.hostname r.hostname
    && (eq_texts (sort_texts p.addresses) (sort_texts r.addresses)
        && (eq_opt_ℕ p.port r.port && eq_dict p.txt_records r.txt_records)))
