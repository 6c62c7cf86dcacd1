-- ===== src/Service/Monitors.antt =====
-- command-service.ts: the requests for a monitor, `setMonitorSource`, `setMonitorBrightness`,
-- `setMonitorPower` and `setAllMonitorsPower`.
use desk_control.Common.{
  ℕ, ◌+◌, String, true, ◌&&◌, List, [], ◌∷◌, ◌++◌, Option, none, some, lookup, insert, values, ◌<>◌,
  string_eq, if◌then◌else◌, truthy,
}
use desk_control.Domain.Capability.{MonitorCapability, has_capability, monitor_capability_eq}
use desk_control.Domain.Command.{
  CommandPayload, CommandError, MonitorPowerState, DeskCommand, set_monitor_input, kind_name,
}
use desk_control.Domain.Monitor.{
  Monitor, MonitorInput, MonitorControlPath, find_input_for_computer, select_control_path,
}
use desk_control.Domain.State.{StateOrigin}
use desk_control.Store.{DeskStore, or_else}
use desk_control.Store.Agents.{agent_supports_command}
use desk_control.Store.Editing.{label}
use desk_control.Store.Observations.{best_known_active_input}
use desk_control.Service.{
  Env, Stamp, ServiceState, IssueResult, accepted, rejected, with_store, new_command,
  create_command, dispatch, fail_command,
}

pub record MonitorRequest : Type 0 where
  pub monitor_id : String
  pub source_computer_id : String
  pub origin : StateOrigin
  pub preset_id : Option String
  pub command_id : Option String

abbrev pub no_control_path : String → CommandError
no_control_path message = record { code = "NO_CONTROL_PATH"; message = message; retryable = true }

abbrev pub unreachable_message : String
unreachable_message =
    "No online agent can reach this monitor over DDC right now. The desk has not been changed."

abbrev pub uncarried_message : String
uncarried_message =
    "No online agent can carry out this command for that monitor right now. The desk has not been changed."

-- What follows the choice of a path, in both requests.
unfoldable pub carry_out :
    Env → ServiceState → ℕ → DeskCommand → String → Option MonitorControlPath → ServiceState
carry_out env st now c message none = fail_command st now c.id (no_control_path message)
carry_out env st now c message (some path) = dispatch env st now c path.agent_id

abbrev pub input_payload : Monitor → MonitorInput → String → CommandPayload
input_payload m input source = set_monitor_input m.id input.id (some source)

-- `this.store.desired.monitorSources[monitor.id] = …`
unfoldable pub desire_source : DeskStore → MonitorRequest → String → DeskCommand → DeskStore
desire_source s args monitor_id c = record s {
  desired = record (s.desired) {
    monitor_sources =
        insert monitor_id
          (record {
            monitor_id = monitor_id;
            source_computer_id = args.source_computer_id;
            requested_at = c.issued_at;
            origin = args.origin;
            command_id = some c.id;
            preset_id = args.preset_id;
          })
          s.desired.monitor_sources;
  };
}

-- The part of `setMonitorSource` behind its checks.
unfoldable pub issue_input :
    Env → ServiceState → Stamp → MonitorRequest → Monitor → MonitorInput → ServiceState
unfolding carry_out desire_source
issue_input env st stamp args monitor input =
    let payload = input_payload monitor input args.source_computer_id in
    let c = new_command env stamp payload args.origin args.preset_id args.command_id in
    let created = create_command env st stamp payload args.origin args.preset_id args.command_id in
    let desired = with_store created (desire_source created.store args monitor.id c) in
    carry_out env desired stamp.now c unreachable_message (
      select_control_path monitor (best_known_active_input desired.store monitor.id)
        (env.dispatcher.is_online desired.store.agents))

unfoldable pub set_monitor_source :
    Env → ServiceState → Stamp → MonitorRequest → ServiceState × IssueResult
unfolding issue_input
set_monitor_source env st stamp args = elim (lookup args.monitor_id st.store.monitors) [
  | none ↦ (st, rejected "UNKNOWN_TARGET" ("Unknown monitor " <> args.monitor_id))
  | some monitor ↦
      let issued : ServiceState × IssueResult =
        elim (find_input_for_computer monitor args.source_computer_id) [
          | none ↦ (
            st,
            rejected "UNKNOWN_TARGET" (
                label st.store args.source_computer_id
                <> (" is not wired to " <> label st.store monitor.id)),
          )
          | some input ↦ (
            issue_input env st stamp args monitor input,
            accepted (or_else args.command_id stamp.uuid),
          )
        ] in
      if has_capability monitor.capabilities MonitorCapability.input_switch then issued else (
        st,
        rejected "CAPABILITY_UNSUPPORTED" (monitor.detected_name <> " cannot switch inputs"),
      )
]

pub record FeatureRequest : Type 0 where
  pub monitor_id : String
  pub capability : MonitorCapability
  pub capability_message : String
  pub payload : CommandPayload
  pub origin : StateOrigin
  pub command_id : Option String

-- The part of `issueMonitorFeature` behind its checks.
unfoldable pub issue_feature : Env → ServiceState → Stamp → FeatureRequest → Monitor → ServiceState
unfolding carry_out
issue_feature env st stamp args monitor =
    let c = new_command env stamp args.payload args.origin none args.command_id in
    let created = create_command env st stamp args.payload args.origin none args.command_id in
    carry_out env created stamp.now c uncarried_message (
      select_control_path monitor (best_known_active_input created.store monitor.id) (λ agent_id.
        env.dispatcher.is_online created.store.agents agent_id
        && agent_supports_command created.store agent_id (kind_name args.payload)))

unfoldable pub issue_monitor_feature :
    Env → ServiceState → Stamp → FeatureRequest → ServiceState × IssueResult
unfolding issue_feature
issue_monitor_feature env st stamp args = elim (lookup args.monitor_id st.store.monitors) [
  | none ↦ (st, rejected "UNKNOWN_TARGET" ("Unknown monitor " <> args.monitor_id))
  | some monitor ↦
      if has_capability monitor.capabilities args.capability
      then (issue_feature env st stamp args monitor, accepted (or_else args.command_id stamp.uuid))
      else (
        st,
        rejected "CAPABILITY_UNSUPPORTED"
            (label st.store monitor.id <> (" " <> args.capability_message)),
      )
]

-- `commandId` is passed on only where it is truthy.
unfoldable pub set_monitor_brightness :
    Env
    → ServiceState
    → Stamp
    → String
    → ℕ
    → StateOrigin
    → Option String
    → ServiceState × IssueResult
unfolding issue_monitor_feature
set_monitor_brightness env st stamp monitor_id brightness origin command_id =
    issue_monitor_feature env st stamp (record {
      monitor_id = monitor_id;
      capability = MonitorCapability.brightness;
      capability_message = "cannot set brightness";
      payload = CommandPayload.set_monitor_brightness monitor_id brightness;
      origin = origin;
      command_id = truthy command_id;
    })

unfoldable pub set_monitor_power :
    Env
    → ServiceState
    → Stamp
    → String
    → MonitorPowerState
    → StateOrigin
    → Option String
    → ServiceState × IssueResult
unfolding issue_monitor_feature
set_monitor_power env st stamp monitor_id power_state origin command_id =
    issue_monitor_feature env st stamp (record {
      monitor_id = monitor_id;
      capability = MonitorCapability.power;
      capability_message = "cannot be powered on or off";
      payload = CommandPayload.set_monitor_power monitor_id power_state;
      origin = origin;
      command_id = truthy command_id;
    })

pub record Skipped : Type 0 where
  pub target_id : String
  pub reason : String

pub record Batch : Type 0 where
  pub command_ids : List String
  pub skipped : List Skipped

abbrev pub note_power : String → IssueResult → Batch → Batch
note_power monitor_id (accepted id) b = record b { command_ids = b.command_ids ++ id ∷ [] }
note_power monitor_id (rejected code message) b = record b {
  skipped = b.skipped ++ record { target_id = monitor_id; reason = code } ∷ [];
}

-- The loop of `setAllMonitorsPower`, over the monitors' ids; round n takes the stamp n.
unfoldable pub power_each :
    Env
    → ServiceState
    → (ℕ → Stamp)
    → ℕ
    → MonitorPowerState
    → List Monitor
    → Batch
    → ServiceState × Batch
power_each env st stamps n power_state [] b = (st, b)
power_each env st stamps n power_state (m ∷ ms) b =
    let (st', result) =
      set_monitor_power env st (stamps n) m.id power_state StateOrigin.user none in
    power_each env st' stamps (n + 1) power_state ms (note_power m.id result b)

unfoldable pub set_all_monitors_power :
    Env → ServiceState → (ℕ → Stamp) → MonitorPowerState → ServiceState × Batch
unfolding power_each set_monitor_power
set_all_monitors_power env st stamps power_state =
    power_each env st stamps 0 power_state (values st.store.monitors)
      (record { command_ids = []; skipped = [] })
