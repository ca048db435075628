-- ===== src/Otbr/Collector/Counters.antt =====
-- What an event of the collector of threadlens/collectors/otbr_rest.py leaves as it was.
use threadlens.Prelude.{ℕ, ◌≡◌, refl, Bool, true, false, arith}
use threadlens.Model.Events.{Event}
use threadlens.Otbr.Collector.{Collector, emit, emit_if}

-- what no step of a poll changes, but its own count
abbrev pub counters : Collector → Bool × Bool × ℕ × ℕ
counters c =
    (c.use_legacy_node_fallback, c.allow_read_only_actions, c.reachable_count, c.unreachable_count)

pub emit-counters : (e : Event) (now : ℕ) (c : Collector) → counters (emit e now c) ≡ counters c
unfolding emit
emit-counters e now c = ground arith

pub emit_if-counters :
    (b : Bool) (e : Event) (now : ℕ) (c : Collector) → counters (emit_if b e now c) ≡ counters c
unfolding emit_if
emit_if-counters true e now c = emit-counters e now c
emit_if-counters false e now c = refl
