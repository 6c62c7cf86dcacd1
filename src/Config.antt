-- ===== src/Config.antt =====
-- packages/config/src: schema.ts and empty-desk.ts, the user's persisted configuration.
pub mod Migrate
use desk_control.Common.{pos, String, List, [], Option, none, Dict}
use desk_control.Domain.Device.{Platform}
use desk_control.Domain.Monitor.{DeskLayout}
use desk_control.Domain.Peripheral.{Peripheral, PeripheralSwitch}
use desk_control.Domain.Preset.{Preset}
use desk_control.Domain.State.{DesiredState}

pub record EntityOverride : Type 0 where
  pub custom_name : Option String
  pub icon : Option String
  pub colorway : Option String

abbrev pub empty_override : EntityOverride
empty_override = record { custom_name = none; icon = none; colorway = none }

pub record ManualComputer : Type 0 where
  pub id : String
  pub detected_name : String
  pub platform : Platform

pub record DeskConfig : Type 0 where
  pub controller_id : String
  pub controller_name : String
  pub layout : DeskLayout
  pub presets : List Preset
  pub overrides : Dict String EntityOverride
  pub peripherals : List Peripheral
  pub peripheral_switches : List PeripheralSwitch
  pub wiring_overrides : Dict String (Dict String String)
  pub manual_computers : List ManualComputer
  pub last_desired_state : Option DesiredState

-- The grid is counted in thousandths.
abbrev pub empty_desk_config : DeskConfig
empty_desk_config = record {
  controller_id = "controller:local";
  controller_name = "Desk Controller";
  layout = record {
    id = "layout:default";
    name = "My desk";
    grid = record { columns = pos 16000; rows = pos 9000 };
    placements = [];
  };
  presets = [];
  overrides = [];
  peripherals = [];
  peripheral_switches = [];
  wiring_overrides = [];
  manual_computers = [];
  last_desired_state = none;
}
