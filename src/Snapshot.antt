-- ===== src/Snapshot.antt =====
-- apps/controller/src/snapshot.ts: the payload that every client renders.
pub mod Faithful
use desk_control.Common.{
  ℕ, String, Bool, List, [], ◌∷◌, Option, none, some, Dict, lookup, insert, values, truthy, take,
  sort_by, string_eq, ltb, pos_part, neg_part, ◌+◌,
}
use desk_control.Domain.Command.{DeskCommand}
use desk_control.Domain.Device.{Agent, Computer, ControllerInfo}
use desk_control.Domain.Monitor.{DeskLayout, Monitor}
use desk_control.Domain.Peripheral.{Peripheral, PeripheralSwitch}
use desk_control.Domain.Preset.{Preset}
use desk_control.Domain.Reconcile.{
  SyncStatus, PeripheralResolution, resolve_monitor_state, resolve_peripheral_state,
}
use desk_control.Domain.State.{
  DesiredState, ObservationError, ObservedMonitorState, ObservedPeripheralState,
}
use desk_control.Store.{DeskStore}
use desk_control.Store.Commands.{list_commands}
use desk_control.Store.Observations.{observed_monitors, last_known_source_computer_id}
use desk_control.Store.Usb.{observed_peripherals}

pub record MonitorView : Type 0 where
  pub status : SyncStatus
  pub in_flight_command_id : Option String
  pub error : Option ObservationError
  pub desired_source_computer_id : Option String
  pub observed_source_computer_id : Option String
  pub last_known_source_computer_id : Option String

pub record DeskSnapshot : Type 0 where
  pub revision : ℕ
  pub updated_at : ℕ
  pub controller : ControllerInfo
  pub layout : DeskLayout
  pub computers : List Computer
  pub agents : List Agent
  pub monitors : List Monitor
  pub peripherals : List Peripheral
  pub peripheral_switches : List PeripheralSwitch
  pub presets : List Preset
  pub desired : DesiredState
  pub observed_monitors : Dict String ObservedMonitorState
  pub observed_peripherals : Dict String ObservedPeripheralState
  pub commands : List DeskCommand
  pub monitor_resolutions : Dict String MonitorView
  pub peripheral_resolutions : Dict String PeripheralResolution

-- `desired?.commandId ? store.commands.get(desired.commandId) : undefined`
unfoldable pub command_of : DeskStore → Option String → Option DeskCommand
command_of s command_id = elim (truthy command_id) [ none ↦ none | some id ↦ lookup id s.commands ]

abbrev pub join {ℓ} : {A : Type ℓ} → Option (Option A) → Option A
join none = none
join (some o) = o

abbrev pub lift {ℓ κ} : {A : Type ℓ} {B : Type κ} → (A → B) → Option A → Option B
lift f none = none
lift f (some a) = some (f a)

unfoldable pub view_monitor : DeskStore → Dict String ObservedMonitorState → Monitor → MonitorView
unfolding command_of
view_monitor s observed monitor =
    let desired = lookup monitor.id s.desired.monitor_sources in
    let resolution =
      resolve_monitor_state desired (lookup monitor.id observed)
        (command_of s (join (lift (λ d. d.command_id) desired))) in
    record {
      status = resolution.status;
      in_flight_command_id = resolution.in_flight_command_id;
      error = resolution.error;
      desired_source_computer_id = resolution.desired_source_computer_id;
      observed_source_computer_id = resolution.observed_source_computer_id;
      last_known_source_computer_id = last_known_source_computer_id s monitor.id;
    }

unfoldable pub view_monitors :
    DeskStore
    → Dict String ObservedMonitorState
    → List Monitor
    → Dict String MonitorView
    → Dict String MonitorView
view_monitors s observed [] result = result
view_monitors s observed (m ∷ ms) result =
    view_monitors s observed ms (insert m.id (view_monitor s observed m) result)

unfoldable pub view_peripheral :
    DeskStore → Dict String ObservedPeripheralState → Peripheral → PeripheralResolution
unfolding command_of
view_peripheral s observed p =
    let desired = lookup p.id s.desired.peripheral_owners in
    resolve_peripheral_state desired (lookup p.id observed)
      (command_of s (join (lift (λ d. d.command_id) desired)))

unfoldable pub view_peripherals :
    DeskStore
    → Dict String ObservedPeripheralState
    → List Peripheral
    → Dict String PeripheralResolution
    → Dict String PeripheralResolution
view_peripherals s observed [] result = result
view_peripherals s observed (p ∷ ps) result =
    view_peripherals s observed ps (insert p.id (view_peripheral s observed p) result)

abbrev order_before : Preset → Preset → Bool
order_before a b =
    ltb (pos_part a.sort_order + neg_part b.sort_order)
      (pos_part b.sort_order + neg_part a.sort_order)

unfoldable pub build_snapshot : DeskStore → ℕ → ControllerInfo → DeskSnapshot
unfolding view_monitors view_peripherals
build_snapshot s now controller =
    let seen = observed_monitors s in
    let held = observed_peripherals s now in
    record {
      revision = s.revision;
      updated_at = now;
      controller = controller;
      layout = s.config.layout;
      computers = values s.computers;
      agents = values s.agents;
      monitors = values s.monitors;
      peripherals = s.config.peripherals;
      peripheral_switches = s.config.peripheral_switches;
      presets = sort_by order_before s.config.presets;
      desired = s.desired;
      observed_monitors = seen;
      observed_peripherals = held;
      commands = take 40 (list_commands s);
      monitor_resolutions = view_monitors s seen (values s.monitors) [];
      peripheral_resolutions = view_peripherals s held s.config.peripherals [];
    }
