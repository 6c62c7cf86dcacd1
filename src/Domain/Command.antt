-- ===== src/Domain/Command.antt =====
-- packages/domain/src/command.ts: commands, their life cycle and the target that each acts on.
pub mod Targets
use desk_control.Common.{ℕ, String, Bool, List, [], ◌∷◌, Option, Eq, contains, ◌<>◌}
use desk_control.Domain.State.{StateOrigin}

pub data CommandStatus : Type 0 where
  pending dispatched acked succeeded failed timed_out superseded : CommandStatus

command_status_discrete : Discrete CommandStatus
command_status_discrete = hlevel

instance unfoldable pub command_status_eq : Eq CommandStatus
unfolding command_status_discrete
command_status_eq = record { dec = command_status_discrete }

abbrev pub in_flight_statuses : List CommandStatus
in_flight_statuses = pending ∷ dispatched ∷ acked ∷ []

abbrev pub terminal_statuses : List CommandStatus
terminal_statuses = succeeded ∷ failed ∷ timed_out ∷ superseded ∷ []

unfoldable pub is_in_flight : CommandStatus → Bool
unfolding command_status_eq
is_in_flight status = contains in_flight_statuses status

unfoldable pub is_terminal : CommandStatus → Bool
unfolding command_status_eq
is_terminal status = contains terminal_statuses status

pub data MonitorPowerState : Type 0 where
  on standby off : MonitorPowerState

pub record PeripheralOrder : Type 0 where
  pub switch_id : String
  pub channel_id : String
  pub port_id : String
  pub peripheral_ids : List String
  pub owner_computer_id : String

pub data CommandPayload : Type 0 where
  -- the monitor, the input, and the source computer for logs
  set_monitor_input : (monitor_id input_id : String) → Option String → CommandPayload
  set_monitor_brightness : (monitor_id : String) (brightness : ℕ) → CommandPayload
  set_monitor_power : (monitor_id : String) → MonitorPowerState → CommandPayload
  set_peripheral_owner : PeripheralOrder → CommandPayload

unfoldable pub kind_name : CommandPayload → String
kind_name (set_monitor_input m i c) = "set-monitor-input"
kind_name (set_monitor_brightness m b) = "set-monitor-brightness"
kind_name (set_monitor_power m p) = "set-monitor-power"
kind_name (set_peripheral_owner o) = "set-peripheral-owner"

pub record CommandError : Type 0 where
  pub code : String
  pub message : String
  pub retryable : Bool

pub record DeskCommand : Type 0 where
  pub id : String
  pub payload : CommandPayload
  pub status : CommandStatus
  pub origin : StateOrigin
  pub preset_id : Option String
  pub agent_id : Option String
  pub issued_at : ℕ
  pub updated_at : ℕ
  pub deadline_at : ℕ
  pub attempts : ℕ
  pub error : Option CommandError

unfoldable pub command_target_key : CommandPayload → String
command_target_key (set_monitor_input m i c) = "monitor:" <> (m <> ":input")
command_target_key (set_monitor_brightness m b) = "monitor:" <> (m <> ":brightness")
command_target_key (set_monitor_power m p) = "monitor:" <> (m <> ":power")
command_target_key (set_peripheral_owner o) = "switch:" <> (o.switch_id <> (":" <> o.channel_id))
