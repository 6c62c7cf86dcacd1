-- ===== src/Domain/Reconcile.antt =====
-- packages/domain/src/reconcile.ts: the one place where what was asked for and what was observed
-- are compared.
pub mod Meaning
pub mod Headline
use desk_control.Common.{
  String, Bool, true, List, [], ◌∷◌, Option, none, some, Eq, ◌==◌, contains, all, string_eq,
  option_eq, if◌then◌else◌, ◌<>◌,
}
use desk_control.Domain.Command.{CommandStatus, DeskCommand, is_in_flight}
use desk_control.Domain.State.{
  DesiredMonitorSource, DesiredPeripheralOwner, ObservedMonitorState, ObservedPeripheralState,
  ObservationError, PowerState, Reachability,
}

pub data SyncStatus : Type 0 where
  unknown in_sync switching failed unreachable drifted : SyncStatus

sync_status_discrete : Discrete SyncStatus
sync_status_discrete = hlevel

instance unfoldable pub sync_status_eq : Eq SyncStatus
unfolding sync_status_discrete
sync_status_eq = record { dec = sync_status_discrete }

pub record MonitorResolution : Type 0 where
  pub status : SyncStatus
  pub desired_source_computer_id : Option String
  pub observed_source_computer_id : Option String
  pub in_flight_command_id : Option String
  pub error : Option ObservationError

abbrev pub desired_source : Option DesiredMonitorSource → Option String
desired_source none = none
desired_source (some d) = some d.source_computer_id

abbrev pub observed_source : Option ObservedMonitorState → Option String
observed_source none = none
observed_source (some o) = o.active_source_computer_id

-- `input.command && isInFlight(input.command.status)`, with the command.
abbrev pub in_flight_command : Option DeskCommand → Option DeskCommand
in_flight_command none = none
in_flight_command (some c) = if is_in_flight c.status then some c else none

abbrev pub status_name : CommandStatus → String
status_name CommandStatus.pending = "pending"
status_name CommandStatus.dispatched = "dispatched"
status_name CommandStatus.acked = "acked"
status_name CommandStatus.succeeded = "succeeded"
status_name CommandStatus.failed = "failed"
status_name CommandStatus.timed_out = "timed-out"
status_name CommandStatus.superseded = "superseded"

-- The `error` of a command that ended badly, and `none` for any other command.
abbrev pub failure : DeskCommand → CommandStatus → Option ObservationError
failure c CommandStatus.failed = elim c.error [
  | some e ↦ some (record { code = e.code; message = e.message })
  | none ↦
      some (record {
        code = "COMMAND_FAILED";
        message = "Command " <> status_name CommandStatus.failed;
      })
]
failure c CommandStatus.timed_out = elim c.error [
  | some e ↦ some (record { code = e.code; message = e.message })
  | none ↦ some (record {
    code = "COMMAND_FAILED";
    message = "Command " <> status_name CommandStatus.timed_out;
  })
]
failure c _ = none

abbrev pub command_failure : Option DeskCommand → Option ObservationError
command_failure none = none
command_failure (some c) = failure c c.status

-- `desired === null || desired === observed`
unfoldable pub reached_target : Option String → Option String → Bool
reached_target none observed = true
reached_target (some desired) observed = some desired == observed

unfoldable pub resolve_monitor_state :
    Option DesiredMonitorSource
    → Option ObservedMonitorState
    → Option DeskCommand
    → MonitorResolution
unfolding reached_target
resolve_monitor_state desired observed command =
    let base =
      λ (status : SyncStatus) (in_flight : Option String) (error : Option ObservationError).
        let r : MonitorResolution = record {
          status = status;
          desired_source_computer_id = desired_source desired;
          observed_source_computer_id = observed_source observed;
          in_flight_command_id = in_flight;
          error = error;
        } in
        r in
    elim (in_flight_command command) [
      | some c ↦ base switching (some c.id) none
      | none ↦ elim observed [
        | none ↦ base unknown none none
        | some o ↦ elim o.reachability [
          | Reachability.unknown ↦ base unknown none none
          | Reachability.unreachable ↦ base unreachable none o.last_error
          | Reachability.reachable ↦
              if reached_target (desired_source desired) o.active_source_computer_id
              then base in_sync none none
              else elim (command_failure command) [
                | some e ↦ base failed none (some e)
                | none ↦ base drifted none none
              ]
        ]
      ]
    ]

pub record PeripheralResolution : Type 0 where
  pub status : SyncStatus
  pub desired_owner_computer_id : Option String
  pub observed_owner_computer_id : Option String
  pub in_flight_command_id : Option String
  pub error : Option ObservationError

abbrev pub desired_as_monitor : DesiredPeripheralOwner → DesiredMonitorSource
desired_as_monitor d = record {
  monitor_id = d.peripheral_id;
  source_computer_id = d.owner_computer_id;
  requested_at = d.requested_at;
  origin = d.origin;
  command_id = d.command_id;
  preset_id = d.preset_id;
}

abbrev pub observed_as_monitor : ObservedPeripheralState → ObservedMonitorState
observed_as_monitor o = record {
  monitor_id = o.peripheral_id;
  active_input_id = none;
  active_source_computer_id = o.owner_computer_id;
  power_state = PowerState.unknown;
  brightness = none;
  reachability = o.reachability;
  observed_at = o.observed_at;
  reported_by_agent_id = none;
  last_error = o.last_error;
}

abbrev pub map_option {ℓ κ} : {A : Type ℓ} {B : Type κ} → (A → B) → Option A → Option B
map_option f none = none
map_option f (some a) = some (f a)

unfoldable pub resolve_peripheral_state :
    Option DesiredPeripheralOwner
    → Option ObservedPeripheralState
    → Option DeskCommand
    → PeripheralResolution
unfolding resolve_monitor_state
resolve_peripheral_state desired observed command =
    let monitor_like =
      resolve_monitor_state (map_option desired_as_monitor desired)
        (map_option observed_as_monitor observed) command in
    record {
      status = monitor_like.status;
      desired_owner_computer_id = monitor_like.desired_source_computer_id;
      observed_owner_computer_id = monitor_like.observed_source_computer_id;
      in_flight_command_id = monitor_like.in_flight_command_id;
      error = monitor_like.error;
    }

unfoldable pub aggregate_status : List SyncStatus → SyncStatus
aggregate_status [] = unknown
aggregate_status (s ∷ ss) =
    let statuses = s ∷ ss in
    if contains statuses switching
    then switching
    else if contains statuses failed
    then failed
    else if contains statuses unreachable
    then unreachable
    else if contains statuses drifted
    then drifted
    else if all (λ status. status == in_sync) statuses
    then in_sync
    else unknown
