-- ===== src/Store.antt =====
-- apps/controller/src/desk-store.ts, the class `DeskStore`: its fields, and the operations that the
-- others share. `now` is the clock's reading (`new Date()`), one for each operation. Listeners are
-- external: `revision` counts the calls of `touch`, `config_signals` those of `markConfigDirty`.
pub mod Inventory
pub mod Observations
pub mod Usb
pub mod Commands
pub mod Agents
pub mod Presets
pub mod Editing
use desk_control.Common.{
  ℕ, ◌+◌, String, Bool, true, false, List, [], ◌∷◌, Option, none, some, Dict, lookup, insert,
  modify, truthy, values, string_eq, strip_prefix, ◌++◌,
}
use desk_control.Config.{DeskConfig, EntityOverride, ManualComputer, empty_override}
use desk_control.Domain.Command.{DeskCommand}
use desk_control.Domain.Device.{Computer, Agent, ConnectivityState, Platform}
use desk_control.Domain.Monitor.{Monitor}
use desk_control.Domain.Peripheral.{PeripheralSwitch, PeripheralSwitchPort}
use desk_control.Domain.State.{DesiredState, ObservedPeripheralState, empty_desired_state}
use desk_control.Protocol.{ObservedMonitorReport}

pub record ObservationRecord : Type 0 where
  pub report : ObservedMonitorReport
  pub agent_id : String
  pub observed_at : ℕ

pub record DeskStore : Type 0 where
  pub revision : ℕ
  pub config_signals : ℕ
  pub computers : Dict String Computer
  pub agents : Dict String Agent
  pub monitors : Dict String Monitor
  pub commands : Dict String DeskCommand
  pub observations : Dict String (Dict String ObservationRecord)
  pub peripheral_observations : Dict String ObservedPeripheralState
  pub usb_by_computer : Dict String (List String)
  pub last_known_active_inputs : Dict String String
  pub proven_active_input_independence : List String
  pub desired : DesiredState
  pub config : DeskConfig

unfoldable pub touch : DeskStore → DeskStore
touch s = record s { revision = s.revision + 1 }

unfoldable pub mark_config_dirty : DeskStore → DeskStore
unfolding touch
mark_config_dirty s = touch (record s { config_signals = s.config_signals + 1 })

unfoldable pub override_for : DeskStore → String → EntityOverride
override_for s entity_id = elim (lookup entity_id s.config.overrides) [
  | none ↦ empty_override
  | some o ↦ o
]

-- The fields of a new computer that a caller may choose.
pub record ComputerDefaults : Type 0 where
  pub detected_name : Option String
  pub platform : Platform

abbrev pub no_defaults : ComputerDefaults
no_defaults = record { detected_name = none; platform = Platform.unknown }

abbrev pub or_else {ℓ} : {A : Type ℓ} → Option A → A → A
or_else none a = a
or_else (some b) a = b

unfoldable pub new_computer : DeskStore → String → ComputerDefaults → Computer
unfolding override_for
new_computer s id defaults = record {
  id = id;
  detected_name = or_else defaults.detected_name (strip_prefix "computer:" id);
  custom_name = (override_for s id).custom_name;
  platform = defaults.platform;
  capabilities = [];
  agent_id = none;
  connectivity = record {
    state = ConnectivityState.unknown;
    last_seen_at = none;
    detail = some "Never seen";
  };
  metadata = [];
  appearance = record { icon = (override_for s id).icon; colorway = (override_for s id).colorway };
}

unfoldable pub ensure_computer : DeskStore → String → ComputerDefaults → DeskStore
ensure_computer s id defaults = elim (lookup id s.computers) [
  | some existing ↦ s
  | none ↦ record s { computers = insert id (new_computer s id defaults) s.computers }
]

-- Assigning to fields of the computer object that the map holds.
unfoldable pub change_computer : DeskStore → String → (Computer → Computer) → DeskStore
change_computer s id f = record s { computers = modify id f s.computers }

unfoldable pub declare_manual : DeskStore → ManualComputer → DeskStore
unfolding ensure_computer change_computer
declare_manual s manual =
    change_computer
      (ensure_computer s manual.id
        (record { detected_name = some manual.detected_name; platform = manual.platform }))
      manual.id
      (λ computer. record computer {
        detected_name = manual.detected_name;
        platform = manual.platform;
        metadata = insert "declaredByUser" "true" computer.metadata;
      })

port_computers : List PeripheralSwitchPort → List String
port_computers [] = []
port_computers (p ∷ ps) = elim (truthy p.computer_id) [
  | none ↦ port_computers ps
  | some id ↦ id ∷ port_computers ps
]

switch_computers : List PeripheralSwitch → List String
switch_computers [] = []
switch_computers (s ∷ ss) = port_computers s.ports ++ switch_computers ss

wired_computers : List (Dict String String) → List String
wired_computers [] = []
wired_computers (w ∷ ws) = values w ++ wired_computers ws

unfoldable pub ensure_all : DeskStore → List String → DeskStore
ensure_all s [] = s
ensure_all s (id ∷ ids) = ensure_all (ensure_computer s id no_defaults) ids

declare_all : DeskStore → List ManualComputer → DeskStore
declare_all s [] = s
declare_all s (m ∷ ms) = declare_all (declare_manual s m) ms

-- A second `ensureComputer` of one id changes nothing, so the `Set` of ids is a list here.
unfoldable pub seed_computers_from_config : DeskStore → DeskStore
unfolding port_computers switch_computers wired_computers ensure_all declare_all
seed_computers_from_config s =
    declare_all
      (ensure_all s (
        switch_computers s.config.peripheral_switches
        ++ wired_computers (values s.config.wiring_overrides)))
      s.config.manual_computers

-- The constructor.
unfoldable pub new_desk_store : DeskConfig → DeskStore
unfolding seed_computers_from_config
new_desk_store config = seed_computers_from_config (record {
  revision = 0;
  config_signals = 0;
  computers = [];
  agents = [];
  monitors = [];
  commands = [];
  observations = [];
  peripheral_observations = [];
  usb_by_computer = [];
  last_known_active_inputs = [];
  proven_active_input_independence = [];
  desired = empty_desired_state;
  config = config;
})

abbrev pub is_online_state : ConnectivityState → Bool
is_online_state ConnectivityState.online = true
is_online_state _ = false

unfoldable pub is_agent_online : DeskStore → String → Bool
is_agent_online s agent_id = elim (lookup agent_id s.agents) [
  | none ↦ false
  | some agent ↦ is_online_state agent.connectivity.state
]
