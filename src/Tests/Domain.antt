-- ===== src/Tests/Domain.antt =====
-- Concrete runs of the domain's theorems.
use desk_control.Common.{
  String, Bool, true, [], ◌∷◌, none, some, lookup, Dict, ◌≡◌, ◌↔◌, refl, All, contains, map, ◌≢◌,
  string_eq,
}
use desk_control.Domain.Command.{CommandPayload, command_target_key, set_peripheral_owner}
use desk_control.Domain.Command.Targets.{
  Feature, monitor_target, command_target_key_iff, switch_keys_collide,
}
use desk_control.Domain.Monitor.{Monitor, select_control_path}
use desk_control.Domain.Monitor.Selection.{IsBestChoice, select_control_path-IsBestChoice}
use desk_control.Domain.Preset.{PlanContext, plan_preset, capture_desk_state}
use desk_control.Domain.Preset.Capture.{capture_desk_state-sources_iff}
use desk_control.Domain.Preset.Planning.{
  IsJustified, IsExcused, plan_preset-IsJustified, plan_preset-IsExcused,
}
use desk_control.Domain.Reconcile.{SyncStatus, resolve_monitor_state, aggregate_status}
use desk_control.Domain.Reconcile.Headline.{IsWorst, aggregate_status-IsWorst}
use desk_control.Domain.Reconcile.Meaning.{Means, resolve_monitor_state-Means}
use desk_control.Domain.State.{ObservedMonitorState, Reachability}
use desk_control.Tests.Desk.{panel, work, shown, wanted, stale_command, order_on}

abbrev everyone : String → Bool
everyone id = true

select_control_path-IsBestChoice_example :
    IsBestChoice
      (some "dp-1")
      everyone
      (panel "left")
      (select_control_path (panel "left") (some "dp-1") everyone)
select_control_path-IsBestChoice_example =
    select_control_path-IsBestChoice (some "dp-1") everyone (panel "left")

resolve_monitor_state-Means_example :
    ((resolve_monitor_state (some wanted) (some (shown "mac")) (some stale_command)).status
      ≡ SyncStatus.drifted)
    ↔ Means (some wanted) (some (shown "mac")) (some stale_command) SyncStatus.drifted
resolve_monitor_state-Means_example =
    resolve_monitor_state-Means (some wanted) (some (shown "mac")) (some stale_command)
      SyncStatus.drifted

aggregate_status-IsWorst_example :
    IsWorst
      (aggregate_status (SyncStatus.in_sync ∷ SyncStatus.failed ∷ SyncStatus.drifted ∷ []))
      (SyncStatus.in_sync ∷ SyncStatus.failed ∷ SyncStatus.drifted ∷ [])
aggregate_status-IsWorst_example =
    aggregate_status-IsWorst SyncStatus.in_sync (SyncStatus.failed ∷ SyncStatus.drifted ∷ [])

abbrev context : PlanContext
context = record {
  monitors = panel "left" ∷ panel "right" ∷ [];
  peripherals = [];
  current_desired_monitor_source = none;
  current_desired_peripheral_owner = none;
}

plan_preset-IsJustified_example : All (IsJustified work context) (plan_preset work context).intents
plan_preset-IsJustified_example = plan_preset-IsJustified work context

plan_preset-IsExcused_example : All (IsExcused work context) (plan_preset work context).skipped
plan_preset-IsExcused_example = plan_preset-IsExcused work context

abbrev readings : Dict String ObservedMonitorState
readings = ("left", shown "mac") ∷ []

capture_desk_state-sources_iff_example :
    (lookup "left"
        (capture_desk_state (panel "left" ∷ []) [] readings []).assignments.monitor_sources
      ≡ some "mac")
    ↔ ((contains (map (λ (m : Monitor). m.id) (panel "left" ∷ [])) "left" ≡ true)
        × ((s : ObservedMonitorState) × (lookup "left" readings ≡ some s)
            × (s.reachability ≡ Reachability.reachable)
            × (s.active_source_computer_id ≡ some "mac")
            × (◌≢◌ {A = String} "mac" "")))
capture_desk_state-sources_iff_example =
    capture_desk_state-sources_iff (panel "left" ∷ []) [] readings [] "left" "mac"

abbrev dim : CommandPayload
dim = CommandPayload.set_monitor_brightness "left" 40

abbrev switch_off : CommandPayload
switch_off = CommandPayload.set_monitor_input "left" "dp-1" none

dim_target : monitor_target dim ≡ some (Feature.brightness, "left")
unfolding monitor_target
dim_target = refl

command_target_key_iff_example :
    (command_target_key switch_off ≡ command_target_key dim)
    ↔ (monitor_target switch_off ≡ some (Feature.brightness, "left"))
command_target_key_iff_example =
    command_target_key_iff dim switch_off Feature.brightness "left" dim_target

switch_keys_collide_example :
    command_target_key (set_peripheral_owner (order_on "a" "b:c"))
    ≡ command_target_key (set_peripheral_owner (order_on "a:b" "c"))
switch_keys_collide_example =
    switch_keys_collide "a" "b" "c" (order_on "a" "b:c") (order_on "a:b" "c") refl refl refl refl
