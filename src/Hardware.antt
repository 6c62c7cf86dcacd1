-- ===== src/Hardware.antt =====
-- packages/hardware/src: peripheral-switch-provider.ts and the results of the providers.
pub mod Gpio
pub mod Ddc
use desk_control.Common.{ℕ, String, Option}
use desk_control.Domain.Command.{CommandError, MonitorPowerState}

pub record SetPortRequest : Type 0 where
  pub switch_id : String
  pub channel_id : String
  pub port_id : String
  pub current_port_id : Option String
  pub command_id : String
  pub timeout_ms : ℕ

-- `ProviderOperationResult` of an operation that reports nothing besides.
pub data OperationResult : Type 0 where
  done : OperationResult
  failed : CommandError → OperationResult

-- What is asked of a `MonitorControlProvider`.
pub record SetInputRequest : Type 0 where
  pub stable_id : String
  pub local_handle : String
  pub input_id : String
  pub ddc_input_source_value : Option ℕ
  pub command_id : String
  pub timeout_ms : ℕ

pub record SetBrightnessRequest : Type 0 where
  pub stable_id : String
  pub local_handle : String
  pub brightness : ℕ
  pub command_id : String
  pub timeout_ms : ℕ

pub record SetPowerRequest : Type 0 where
  pub stable_id : String
  pub local_handle : String
  pub power_state : MonitorPowerState
  pub command_id : String
  pub timeout_ms : ℕ

pub data ProviderCall : Type 0 where
  set_input : SetInputRequest → ProviderCall
  set_brightness : SetBrightnessRequest → ProviderCall
  set_power : SetPowerRequest → ProviderCall
