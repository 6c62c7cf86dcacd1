-- ===== src/Service/Presets.antt =====
-- command-service.ts: `applyPreset`, which makes the same requests as single clicks.
use desk_control.Common.{
  ℕ, ◌+◌, String, List, [], ◌∷◌, ◌++◌, map, Option, none, some, values, contains, find, ◌==◌,
  string_eq, if◌then◌else◌,
}
use desk_control.Domain.Preset.{
  Preset, PresetIntent, PresetSkip, PresetSkipReason, Target, PlanContext, plan_preset,
}
use desk_control.Domain.State.{StateOrigin}
use desk_control.Store.{DeskStore, touch}
use desk_control.Service.{Env, Stamp, ServiceState, IssueResult, accepted, rejected, with_store}
use desk_control.Service.Monitors.{Skipped, Batch, set_monitor_source}
use desk_control.Service.Peripherals.{set_peripheral_owner_request}

abbrev pub skip_text : PresetSkipReason → String
skip_text PresetSkipReason.monitor_unknown = "monitor-unknown"
skip_text PresetSkipReason.peripheral_unknown = "peripheral-unknown"
skip_text PresetSkipReason.computer_not_wired = "computer-not-wired"
skip_text PresetSkipReason.already_desired = "already-desired"

abbrev pub skipped_of : PresetSkip → Skipped
skipped_of s = record { target_id = s.target_id; reason = skip_text s.reason }

-- The request that an intent makes.
unfoldable pub request_intent :
    Env → ServiceState → Stamp → String → Target → PresetIntent → ServiceState × IssueResult
request_intent env st stamp preset_id Target.monitor i = set_monitor_source env st stamp (record {
  monitor_id = i.target_id;
  source_computer_id = i.computer_id;
  origin = StateOrigin.preset;
  preset_id = some preset_id;
  command_id = none;
})
request_intent env st stamp preset_id Target.peripheral i =
    set_peripheral_owner_request env st stamp (record {
      peripheral_id = i.target_id;
      owner_computer_id = i.computer_id;
      origin = StateOrigin.preset;
      preset_id = some preset_id;
      command_id = none;
    })

-- Peripherals that share a channel collapse onto one command.
abbrev pub note_intent : String → IssueResult → Batch → Batch
note_intent target_id (accepted id) b = record b {
  command_ids = if contains b.command_ids id then b.command_ids else b.command_ids ++ id ∷ [];
}
note_intent target_id (rejected code message) b = record b {
  skipped = b.skipped ++ record { target_id = target_id; reason = code } ∷ [];
}

-- The loop over the intents; round n takes the stamp n.
unfoldable pub request_each :
    Env → ServiceState → (ℕ → Stamp) → ℕ → String → List PresetIntent → Batch → ServiceState × Batch
request_each env st stamps n preset_id [] b = (st, b)
request_each env st stamps n preset_id (i ∷ is) b =
    let (st', result) = request_intent env st (stamps n) preset_id i.target i in
    request_each env st' stamps (n + 1) preset_id is (note_intent i.target_id result b)

-- The plan is made without the optional callbacks, as the source makes it.
unfoldable pub preset_context : DeskStore → PlanContext
preset_context s = record {
  monitors = values s.monitors;
  peripherals = s.config.peripherals;
  current_desired_monitor_source = none;
  current_desired_peripheral_owner = none;
}

abbrev pub activate : String → ServiceState → ServiceState
activate preset_id st = with_store st (
    touch (record (st.store) {
      desired = record (st.store.desired) { active_preset_id = some preset_id };
    }))

-- `none` is the rejection of an unknown preset.
unfoldable pub apply_preset :
    Env → ServiceState → (ℕ → Stamp) → String → ServiceState × Option Batch
unfolding request_each preset_context
apply_preset env st stamps preset_id =
    elim (find (λ (p : Preset). p.id == preset_id) st.store.config.presets) [
      | none ↦ (st, none)
      | some preset ↦
          let plan = plan_preset preset (preset_context st.store) in
          let (st', b) =
            request_each env st stamps 0 preset_id plan.intents
              (record { command_ids = []; skipped = map skipped_of plan.skipped }) in
          (activate preset_id st', some b)
    ]
