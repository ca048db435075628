-- ===== src/Mdns/Record/Laws.antt =====
-- A record does not differ from the state that was made from it.
use threadlens.Prelude.{
  ℕ, ◌≡◌, refl, Bool, true, false, String, Option, none, some, List, [], ◌∷◌, arith, eq_refl,
  eq_iff, contains, IsDistinct,
}
use threadlens.Prelude.Dict.{Dict, lookup, keys}
use threadlens.Model.State.{MdnsServiceState}
use threadlens.Mdns.Record.{
  NormalizedMdnsRecord, build_mdns_state, eq_texts, eq_opt_text, eq_opt_ℕ, items_in, eq_dict,
  record_changed, sort_texts,
}

eq_texts_refl : (ss : List String) → eq_texts ss ss ≡ true
unfolding eq_texts
eq_texts_refl [] = refl
eq_texts_refl (s ∷ ss) = rw (eq_refl s, eq_texts_refl ss)

eq_opt_text_refl : (o : Option String) → eq_opt_text o o ≡ true
unfolding eq_opt_text
eq_opt_text_refl none = refl
eq_opt_text_refl (some s) = eq_refl s

eq_opt_ℕ_refl : (o : Option ℕ) → eq_opt_ℕ o o ≡ true
unfolding eq_opt_ℕ
eq_opt_ℕ_refl none = refl
eq_opt_ℕ_refl (some n) = ground arith

items_in_cons :
    (k v : String) (d e : Dict String)
    → contains k (keys d) ≡ false
    → items_in d ((k, v) ∷ e) ≡ items_in d e
unfolding items_in lookup
items_in_cons k v [] e h = refl
items_in_cons k v ((j, w) ∷ d) e h = ground (arith, items_in_cons k v d e, eq_iff j k, eq_iff k j)

items_in_refl : (d : Dict String) → IsDistinct (keys d) → items_in d d ≡ true
unfolding items_in lookup
items_in_refl [] h = refl
items_in_refl ((k, v) ∷ d) h =
    rw (eq_refl k, eq_opt_text_refl (some v), items_in_cons k v d d h.0, items_in_refl d h.1)

eq_dict_refl : (d : Dict String) → IsDistinct (keys d) → eq_dict d d ≡ true
unfolding eq_dict
eq_dict_refl d h = ground (arith, items_in_refl d h)

-- Whatever the state before, a state that was just made from a record shows no change against it.
pub record_changed-build :
    (r : NormalizedMdnsRecord) (previous : Option MdnsServiceState) (now : ℕ)
    (visible changed : Bool)
    → IsDistinct (keys r.txt_records)
    → record_changed (build_mdns_state r previous now visible changed) r ≡ false
unfolding record_changed build_mdns_state
record_changed-build r none now visible changed h = rw (
  eq_opt_text_refl r.hostname,
  eq_texts_refl (sort_texts r.addresses),
  eq_opt_ℕ_refl r.port,
  eq_dict_refl r.txt_records h,
)
record_changed-build r (some p) now visible changed h = rw (
  eq_opt_text_refl r.hostname,
  eq_texts_refl (sort_texts r.addresses),
  eq_opt_ℕ_refl r.port,
  eq_dict_refl r.txt_records h,
)
