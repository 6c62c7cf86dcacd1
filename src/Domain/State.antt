-- ===== src/Domain/State.antt =====
-- packages/domain/src/state.ts: what was asked for, and what agents report.
use desk_control.Common.{ℕ, String, [], Option, none, Dict}

pub data StateOrigin : Type 0 where
  user preset restore startup : StateOrigin

pub record DesiredMonitorSource : Type 0 where
  pub monitor_id : String
  pub source_computer_id : String
  pub requested_at : ℕ
  pub origin : StateOrigin
  pub command_id : Option String
  pub preset_id : Option String

pub record DesiredPeripheralOwner : Type 0 where
  pub peripheral_id : String
  pub owner_computer_id : String
  pub requested_at : ℕ
  pub origin : StateOrigin
  pub command_id : Option String
  pub preset_id : Option String

pub record DesiredState : Type 0 where
  pub monitor_sources : Dict String DesiredMonitorSource
  pub peripheral_owners : Dict String DesiredPeripheralOwner
  pub active_preset_id : Option String

pub data PowerState : Type 0 where
  on standby off unknown : PowerState

pub data Reachability : Type 0 where
  reachable unreachable unknown : Reachability

pub record ObservationError : Type 0 where
  pub code : String
  pub message : String

pub record ObservedMonitorState : Type 0 where
  pub monitor_id : String
  pub active_input_id : Option String
  pub active_source_computer_id : Option String
  pub power_state : PowerState
  pub brightness : Option ℕ
  pub reachability : Reachability
  pub observed_at : ℕ
  pub reported_by_agent_id : Option String
  pub last_error : Option ObservationError

pub data PeripheralEvidence : Type 0 where
  usb_enumeration switch_report unknown : PeripheralEvidence

pub record ObservedPeripheralState : Type 0 where
  pub peripheral_id : String
  pub owner_computer_id : Option String
  pub evidence : PeripheralEvidence
  pub reachability : Reachability
  pub observed_at : ℕ
  pub last_error : Option ObservationError

abbrev pub empty_desired_state : DesiredState
empty_desired_state = record {
  monitor_sources = [];
  peripheral_owners = [];
  active_preset_id = none;
}
