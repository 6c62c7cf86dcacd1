-- ===== src/Domain/Device.antt =====
-- packages/domain/src/device.ts and naming.ts. Timestamps are milliseconds since the epoch: the
-- ISO strings of `toISOString` are compared only with one another, and compare as these numbers do.
use desk_control.Common.{ℕ, String, List, Option, none, some, Dict}
use desk_control.Domain.Capability.{ComputerCapability}

pub data Platform : Type 0 where
  windows macos linux unknown : Platform

pub data ConnectivityState : Type 0 where
  online degraded offline unknown : ConnectivityState

pub record Connectivity : Type 0 where
  pub state : ConnectivityState
  pub last_seen_at : Option ℕ
  pub detail : Option String

pub record Appearance : Type 0 where
  pub icon : Option String
  pub colorway : Option String

-- The constant field `kind` is left out, here and in the other entities.
pub record Computer : Type 0 where
  pub id : String
  pub detected_name : String
  pub custom_name : Option String
  pub platform : Platform
  pub capabilities : List ComputerCapability
  pub agent_id : Option String
  pub connectivity : Connectivity
  pub metadata : Dict String String
  pub appearance : Appearance

pub record Agent : Type 0 where
  pub id : String
  pub computer_id : String
  pub detected_name : String
  pub custom_name : Option String
  pub platform : Platform
  pub protocol_version : ℕ
  pub agent_version : String
  pub connectivity : Connectivity
  pub provider_kind : String
  pub supported_command_kinds : List String

pub record ControllerInfo : Type 0 where
  pub id : String
  pub name : String
  pub version : String
  pub protocol_version : ℕ
  pub started_at : ℕ

-- `customName ?? detectedName`
unfoldable pub display_name : Option String → String → String
display_name none detected = detected
display_name (some custom) detected = custom
