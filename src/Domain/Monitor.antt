-- ===== src/Domain/Monitor.antt =====
-- packages/domain/src/monitor.ts and layout.ts. Grid coordinates are thousandths of a grid unit,
-- a fixed-point reading of JavaScript's numbers.
pub mod Selection
use desk_control.Common.{
  ℕ, ℤ, String, Bool, not, false, List, Option, none, some, Dict, ◌==◌, find, filter_bool,
  string_eq, option_eq,
}
use desk_control.Domain.Capability.{MonitorCapability}

pub data Connector : Type 0 where
  display_port mini_display_port hdmi usb_c thunderbolt dvi vga unknown : Connector

-- The refresh rate is in thousandths of a hertz.
pub record DisplayMode : Type 0 where
  pub width : ℕ
  pub height : ℕ
  pub refresh_millihertz : ℕ
  pub vrr : Bool
  pub bit_depth : Option ℕ

pub record MonitorInput : Type 0 where
  pub id : String
  pub connector : Connector
  pub ddc_input_source_value : Option ℕ
  pub detected_name : String
  pub custom_name : Option String
  pub connected_computer_id : Option String
  pub max_mode : Option DisplayMode

pub data Orientation : Type 0 where
  landscape portrait_left portrait_right : Orientation

pub record Placement : Type 0 where
  pub x : ℤ
  pub y : ℤ
  pub width : ℕ
  pub height : ℕ
  pub orientation : Orientation
  pub auto_placed : Bool

pub record MonitorControlPath : Type 0 where
  pub agent_id : String
  pub computer_id : String
  pub local_handle : String
  pub input_id : Option String
  pub capabilities : List MonitorCapability
  pub requires_active_input : Bool

-- The diagonal is in tenths of an inch.
pub record MonitorIdentity : Type 0 where
  pub manufacturer_id : String
  pub model : String
  pub serial : Option String
  pub manufacture_year : Option ℕ
  pub weak_identity : Bool
  pub physical_size : Option ℕ

pub record Monitor : Type 0 where
  pub id : String
  pub detected_name : String
  pub custom_name : Option String
  pub identity : MonitorIdentity
  pub capabilities : List MonitorCapability
  pub inputs : List MonitorInput
  pub control_paths : List MonitorControlPath
  pub preferred_input_id : Option String
  pub placement : Option Placement

pub record Grid : Type 0 where
  pub columns : ℤ
  pub rows : ℤ

pub record DeskLayout : Type 0 where
  pub id : String
  pub name : String
  pub grid : Grid
  pub placements : Dict String Placement

unfoldable pub find_input_for_computer : Monitor → String → Option MonitorInput
find_input_for_computer monitor computer_id =
    find (λ input. input.connected_computer_id == some computer_id) monitor.inputs

unfoldable pub find_input : Monitor → String → Option MonitorInput
find_input monitor input_id = find (λ input. input.id == input_id) monitor.inputs

-- `options.activeInputId !== null && path.inputId === options.activeInputId`
unfoldable pub on_active_input : Option String → MonitorControlPath → Bool
on_active_input none path = false
on_active_input (some active) path = path.input_id == some active

unfoldable pub select_control_path :
    Monitor → Option String → (String → Bool) → Option MonitorControlPath
select_control_path monitor active_input_id is_agent_online =
    let online = filter_bool (λ path. is_agent_online path.agent_id) monitor.control_paths in
    elim (find (on_active_input active_input_id) online) [
      | some path ↦ some path
      | none ↦ find (λ path. not path.requires_active_input) online
    ]
