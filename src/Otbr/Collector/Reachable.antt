-- ===== src/Otbr/Collector/Reachable.antt =====
-- `_apply_reachable_state` of threadlens/collectors/otbr_rest.py, with the events it emits.
use threadlens.Prelude.{
  ℕ, Bool, true, false, ◌&&◌, ◌||◌, not, String, Option, none, some, [], ◌∷◌, join, is_some,
}
use threadlens.Prelude.Dict.{lookup}
use threadlens.Prelude.Codes.{eq_ℕ}
use threadlens.Config.{OtbrConfig}
use threadlens.Model.Capabilities.{OtbrRestCapabilities}
use threadlens.Model.Events.{Event, EventSeverity, Datum}
use threadlens.Model.State.{OtbrState}
use threadlens.Otbr.Snapshot.{OtbrReconciliationResult, differ}
use threadlens.Otbr.Collector.{Collector, emit, emit_if, otbr_event, store_otbr, reachable_state}

-- `a != b`, for two numbers that may be missing
abbrev differ_ℕ : Option ℕ → Option ℕ → Bool
differ_ℕ none none = false
differ_ℕ (some m) (some n) = not (eq_ℕ m n)
differ_ℕ _ _ = true

unfoldable pub dataset_changed : OtbrState → OtbrState → Bool
dataset_changed previous current =
    differ previous.ext_pan_id current.ext_pan_id
    || (differ_ℕ previous.channel current.channel
        || (differ previous.network_name current.network_name
            || differ previous.pan_id current.pan_id))

abbrev text_of : Option String → String
text_of none = "None"
text_of (some s) = s

abbrev pub reachable_event : OtbrConfig → ℕ → Event
reachable_event config =
    otbr_event "otbr.reachable" config.id (join ("OTBR " ∷ config.name ∷ " is reachable" ∷ []))
      EventSeverity.info []

abbrev pub role_event : OtbrConfig → OtbrState → OtbrState → ℕ → Event
role_event config previous state =
    otbr_event "otbr.role_changed" config.id
      (join ("OTBR " ∷ config.name ∷ " role changed to " ∷ text_of state.role ∷ []))
      EventSeverity.info
      (("previous_role", Datum.opt_text previous.role) ∷ ("role", Datum.opt_text state.role) ∷ [])

abbrev pub dataset_event : OtbrConfig → OtbrState → OtbrState → ℕ → Event
dataset_event config previous state =
    otbr_event "otbr.dataset_changed" config.id
      (join ("OTBR " ∷ config.name ∷ " dataset/network changed" ∷ [])) EventSeverity.warning
      (("previous_ext_pan_id", Datum.opt_text previous.ext_pan_id)
        ∷ ("ext_pan_id", Datum.opt_text state.ext_pan_id)
        ∷ ("previous_channel", Datum.opt_number previous.channel)
        ∷ ("channel", Datum.opt_number state.channel)
        ∷ [])

-- The events of a border router that answered, in the order in which the code emits them.
unfoldable pub report_reachable :
    OtbrConfig → Option OtbrState → OtbrState → ℕ → Collector → Collector
unfolding emit emit_if dataset_changed
report_reachable config none state now c = emit (reachable_event config now) now c
report_reachable config (some p) state now c =
    let back = emit_if (not p.reachable) (reachable_event config now) now c in
    let moved =
      emit_if (p.reachable && (differ p.role state.role && is_some state.role))
        (role_event config p state now) now back in
    emit_if (p.reachable && dataset_changed p state) (dataset_event config p state now) now moved

unfoldable pub apply_reachable_state :
    OtbrConfig
    → OtbrReconciliationResult
    → OtbrRestCapabilities
    → Option String
    → ℕ
    → Collector
    → OtbrState × Collector
unfolding store_otbr reachable_state report_reachable
apply_reachable_state config r capabilities last_error now c =
    let previous = lookup config.id c.known_otbrs in
    let state = reachable_state config previous r capabilities last_error now in
    (state, report_reachable config previous state now (store_otbr config.id state c))
