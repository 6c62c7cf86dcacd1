-- ===== src/Protocol/Frames.antt =====
-- packages/protocol/src/messages.ts: the messages of both directions. The JSON parser and zod are
-- external: an `AgentFrame` holds what they make of a frame.
use desk_control.Common.{ℕ, String, List, Option}
use desk_control.Domain.Command.{CommandError}
use desk_control.Domain.Device.{ControllerInfo}
use desk_control.Protocol.{HelloPayload, MonitorReport, ObservedMonitorReport}
use desk_control.Service.Responses.{AgentResult}

-- The message of `error` is its protocol error. A result carries the observation made after it.
pub data AgentMessage : Type 0 where
  hello : HelloPayload → AgentMessage
  heartbeat : (uptime_seconds : ℕ) → AgentMessage
  inventory : (monitors : List MonitorReport) → AgentMessage
  observed_state :
      (monitors : List ObservedMonitorReport) (usb_devices : Option (List String)) → AgentMessage
  command_ack : (command_id : String) → AgentMessage
  command_result :
      (command_id : String) (result : AgentResult) (observed : List ObservedMonitorReport)
      → AgentMessage
  error : CommandError → AgentMessage

-- The answer of `parseAgentMessage`: why the schema refuses, or the envelope's version and message.
pub data Parsed : Type 0 where
  invalid : (detail : String) → Parsed
  valid : (v : ℕ) → AgentMessage → Parsed

-- A frame that is no JSON, or its field `v`, where that is a number, with the parser's answer.
pub data AgentFrame : Type 0 where
  not_json : AgentFrame
  json : (version : Option ℕ) → Parsed → AgentFrame

-- The messages of the controller that the gateway writes itself.
pub data ControllerMessage : Type 0 where
  welcome :
      (controller : ControllerInfo) (session_id : String) (heartbeat_interval_ms : ℕ)
      (command_timeout_ms : ℕ) (observe_interval_ms : ℕ)
      → ControllerMessage
  reject : CommandError → ControllerMessage
