-- ===== src/Protocol.antt =====
-- packages/protocol/src: errors.ts, version.ts, reports.ts and the payloads of messages.ts that the
-- controller reads. Validation by zod is not modelled: a value of these types has passed it.
pub mod Frames
use desk_control.Common.{
  ℕ, String, Bool, ◌&&◌, List, [], ◌∷◌, Option, Dict, contains, string_eq, if◌then◌else◌, leb,
}
use desk_control.Domain.Capability.{MonitorCapability, ComputerCapability}
use desk_control.Domain.Device.{Platform}
use desk_control.Domain.Monitor.{Connector, DisplayMode, MonitorIdentity}
use desk_control.Domain.State.{PowerState, Reachability, ObservationError}

-- The members of `ProtocolErrorCodeSchema`.
abbrev pub protocol_error_codes : List String
protocol_error_codes =
    "INVALID_MESSAGE" ∷ "UNSUPPORTED_PROTOCOL_VERSION" ∷ "UNAUTHORIZED" ∷ "UNKNOWN_AGENT"
    ∷ "UNKNOWN_COMMAND_KIND" ∷ "UNKNOWN_TARGET" ∷ "CAPABILITY_UNSUPPORTED" ∷ "DEVICE_UNREACHABLE"
    ∷ "DEVICE_BUSY" ∷ "TIMEOUT" ∷ "SUPERSEDED" ∷ "NO_CONTROL_PATH" ∷ "INTERNAL" ∷ []

unfoldable pub to_protocol_error_code : String → String
to_protocol_error_code code = if contains protocol_error_codes code then code else "INTERNAL"

abbrev pub protocol_version : ℕ
protocol_version = 1

abbrev pub min_supported_protocol_version : ℕ
min_supported_protocol_version = 1

abbrev pub max_supported_protocol_version : ℕ
max_supported_protocol_version = 1

unfoldable pub is_supported_protocol_version : ℕ → Bool
is_supported_protocol_version version =
    leb min_supported_protocol_version version && leb version max_supported_protocol_version

pub record MonitorInputReport : Type 0 where
  pub id : String
  pub connector : Connector
  pub ddc_input_source_value : Option ℕ
  pub detected_name : String
  pub max_mode : Option DisplayMode

pub record MonitorReport : Type 0 where
  pub stable_id : String
  pub local_handle : String
  pub detected_name : String
  pub identity : MonitorIdentity
  pub capabilities : List MonitorCapability
  pub inputs : List MonitorInputReport
  pub connected_via_input_id : Option String
  pub requires_active_input : Bool
  pub preferred_input_id : Option String

pub record ObservedMonitorReport : Type 0 where
  pub stable_id : String
  pub active_input_id : Option String
  pub power_state : PowerState
  pub brightness : Option ℕ
  pub reachability : Reachability
  pub error : Option ObservationError

pub record HelloAgent : Type 0 where
  pub id : String
  pub detected_name : String
  pub agent_version : String
  pub provider_kind : String

pub record HelloComputer : Type 0 where
  pub id : String
  pub detected_name : String
  pub platform : Platform
  pub capabilities : List ComputerCapability
  pub metadata : Dict String String

pub record HelloPayload : Type 0 where
  pub agent : HelloAgent
  pub computer : HelloComputer
  pub monitors : List MonitorReport
  pub supported_command_kinds : List String
  pub auth_token : Option String
