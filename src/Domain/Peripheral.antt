-- ===== src/Domain/Peripheral.antt =====
-- packages/domain/src/peripheral.ts.
use desk_control.Common.{ℕ, String, List, Option, some, Dict, ◌==◌, find, string_eq, option_eq}
use desk_control.Domain.Capability.{PeripheralSwitchCapability}

pub data PeripheralKind : Type 0 where
  keyboard mouse audio webcam other : PeripheralKind

pub record Peripheral : Type 0 where
  pub id : String
  pub detected_name : String
  pub custom_name : Option String
  pub kind : PeripheralKind
  pub switch_id : String
  pub channel_id : Option String
  pub usb_id : Option String

pub record PeripheralSwitchPort : Type 0 where
  pub id : String
  pub detected_name : String
  pub custom_name : Option String
  pub computer_id : Option String

pub data GpioMode : Type 0 where
  direct cycle : GpioMode

pub data GpioDriver : Type 0 where
  pinctrl gpiod : GpioDriver

pub record GpioControl : Type 0 where
  pub mode : GpioMode
  pub pins : Dict String ℕ
  pub pulse_ms : ℕ
  pub settle_ms : ℕ
  pub driver : GpioDriver
  pub chip : String

pub data SwitchControl : Type 0 where
  simulated : ℕ → SwitchControl
  gpio : GpioControl → SwitchControl

-- `driver_binding` is the text "controller" or an agent's id, as in the source.
pub record PeripheralSwitch : Type 0 where
  pub id : String
  pub detected_name : String
  pub custom_name : Option String
  pub capabilities : List PeripheralSwitchCapability
  pub ports : List PeripheralSwitchPort
  pub channels : List String
  pub driver_binding : String
  pub control : SwitchControl

unfoldable pub find_port_for_computer : PeripheralSwitch → String → Option PeripheralSwitchPort
find_port_for_computer peripheral_switch computer_id =
    find (λ port. port.computer_id == some computer_id) peripheral_switch.ports
