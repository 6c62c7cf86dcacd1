-- ===== src/Agent.antt =====
-- packages/agent-core/src/agent-runtime.ts, the class `AgentRuntime`: its state and its connection to
-- the controller. An operation that awaits is cut where it waits: what it waits for comes as an event
-- with the answer. The provider of the monitors, the USB provider, discovery and the transport are
-- outside; their answers are arguments. The logger's lines are left out.
pub mod Commands
pub mod Events
pub mod Links
pub mod Connected
pub mod Idempotence
pub mod Redelivery
use desk_control.Common.{
  ℕ, ◌+◌, String, Bool, true, false, ◌||◌, List, [], ◌∷◌, ◌++◌, Option, none, some, Dict, any, ◌==◌,
  nat_eq, option_eq, if◌then◌else◌,
}
use desk_control.Domain.Capability.{ComputerCapability}
use desk_control.Domain.Device.{Platform}
use desk_control.Protocol.{MonitorReport, ObservedMonitorReport, HelloPayload}
use desk_control.Protocol.Frames.{AgentMessage}
use desk_control.Store.{or_else}
use desk_control.Service.Responses.{AgentResult}
use desk_control.Hardware.{ProviderCall}

-- `AgentRuntimeOptions`, and which optional parts the providers have.
pub record AgentOptions : Type 0 where
  pub agent_id : String
  pub computer_id : String
  pub detected_name : String
  pub computer_detected_name : String
  pub platform : Platform
  pub agent_version : String
  pub capabilities : List ComputerCapability
  pub metadata : Option (Dict String String)
  pub provider_kind : String
  pub sets_brightness : Bool
  pub sets_power : Bool
  pub has_usb_provider : Bool
  pub auth_token : Option String
  pub observe_interval_ms : Option ℕ
  pub heartbeat_interval_ms : Option ℕ

-- `connectPromise`: a transport that is being connected, or the provider's inventory that the hello
-- waits for.
pub data Attempt : Type 0 where
  dialing : (transport : ℕ) → Attempt
  greeting : Attempt

-- A command between the call of the provider and its answer.
pub record CommandRun : Type 0 where
  pub command_id : String
  pub call : ProviderCall

-- What the readings of `pushObservedState` are for: a report only, or the result of a command too.
pub data Purpose : Type 0 where
  reporting : Purpose
  answering : (command_id : String) → AgentResult → Purpose

-- An operation that waits: for the inventory of a refresh, for what the providers read, or, with the
-- observation sent, to go on with the result of its command.
pub data Wait : Type 0 where
  for_inventory : Wait
  for_readings : Purpose → Wait
  to_answer : (command_id : String) → AgentResult → List ObservedMonitorReport → Wait

-- A transport is a number. `timers` has the periods of the heartbeat and of the observation, `sent`
-- the messages with the transport that took them, `calls` what was asked of the provider.
pub record AgentRuntime : Type 0 where
  pub transport : Option ℕ
  pub attempt : Option Attempt
  pub next_transport : ℕ
  pub timers : List ℕ
  pub reconnect_pending : Bool
  pub stopped : Bool
  pub connected : Bool
  pub started_at : ℕ
  pub monitors : List MonitorReport
  pub handled_commands : List String
  pub running : List CommandRun
  pub awaiting : List Wait
  pub sent : List (ℕ × AgentMessage)
  pub calls : List ProviderCall

-- `this.transport?.send(message)`
unfoldable pub send : AgentRuntime → AgentMessage → AgentRuntime
send s message = elim s.transport [
  | none ↦ s
  | some t ↦ record s { sent = s.sent ++ (t, message) ∷ [] }
]

unfoldable pub wait : AgentRuntime → Wait → AgentRuntime
wait s w = record s { awaiting = s.awaiting ++ w ∷ [] }

unfoldable pub schedule_reconnect : AgentRuntime → AgentRuntime
schedule_reconnect s =
    if s.stopped || s.reconnect_pending then s else record s { reconnect_pending = true }

-- The start of `connectOnce`; `discovered` says whether discovery lists an endpoint.
unfoldable pub connect_once : AgentRuntime → Bool → AgentRuntime
unfolding schedule_reconnect
connect_once s discovered =
    if discovered
    then record s {
      attempt = some (dialing s.next_transport);
      next_transport = s.next_transport + 1;
    }
    else schedule_reconnect s

unfoldable pub connect_loop : AgentRuntime → Bool → AgentRuntime
unfolding connect_once
connect_loop s discovered =
    if s.stopped || s.connected
    then s
    else elim s.attempt [ some _ ↦ s | none ↦ connect_once s discovered ]

-- `transport.connect` throws.
unfoldable pub dial_failed : AgentRuntime → AgentRuntime
unfolding schedule_reconnect
dial_failed s = record (schedule_reconnect s) { attempt = none }

-- `transport.connect` returns; the hello waits for the inventory.
unfoldable pub dial_succeeded : AgentRuntime → ℕ → AgentRuntime
dial_succeeded s t = record s { transport = some t; connected = true; attempt = some greeting }

is_report_usb : ComputerCapability → Bool
is_report_usb ComputerCapability.report_usb_devices = true
is_report_usb _ = false

unfoldable pub capabilities : AgentOptions → List ComputerCapability
unfolding is_report_usb
capabilities options =
    if options.has_usb_provider
    then if any is_report_usb options.capabilities
      then options.capabilities
      else options.capabilities ++ ComputerCapability.report_usb_devices ∷ []
    else options.capabilities

unfoldable pub supported_command_kinds : AgentOptions → List String
supported_command_kinds options =
    ("set-monitor-input" ∷ [])
    ++ ((if options.sets_brightness then "set-monitor-brightness" ∷ [] else [])
        ++ (if options.sets_power then "set-monitor-power" ∷ [] else []))

unfoldable pub hello_payload : AgentOptions → List MonitorReport → HelloPayload
unfolding capabilities supported_command_kinds
hello_payload options monitors = record {
  agent = record {
    id = options.agent_id;
    detected_name = options.detected_name;
    agent_version = options.agent_version;
    provider_kind = options.provider_kind;
  };
  computer = record {
    id = options.computer_id;
    detected_name = options.computer_detected_name;
    platform = options.platform;
    capabilities = capabilities options;
    metadata = or_else options.metadata [];
  };
  monitors = monitors;
  supported_command_kinds = supported_command_kinds options;
  auth_token = options.auth_token;
}

-- The end of `sendHello` and of `connectOnce`: the inventory is there, or `discoverMonitors` threw.
unfoldable pub greeted : AgentOptions → AgentRuntime → Option (List MonitorReport) → AgentRuntime
unfolding send hello_payload
greeted options s none = record s { attempt = none }
greeted options s (some monitors) =
    record (send (record s { monitors = monitors })
      (AgentMessage.hello (hello_payload options monitors))) { attempt = none }

-- The callback for the close of transport `t`.
unfoldable pub transport_closed : AgentRuntime → ℕ → AgentRuntime
unfolding schedule_reconnect
transport_closed s t =
    if s.transport == some t
    then schedule_reconnect (record s { connected = false; timers = []; transport = none })
    else s

unfoldable pub reconnect_fired : AgentRuntime → Bool → AgentRuntime
unfolding connect_loop
reconnect_fired s discovered = connect_loop (record s { reconnect_pending = false }) discovered

-- `start`, once discovery has started; the second call of `connectLoop` finds the first one's attempt.
unfoldable pub start : AgentRuntime → ℕ → Bool → AgentRuntime
unfolding connect_loop
start s now discovered = connect_loop (record s { stopped = false; started_at = now }) discovered

unfoldable pub stop : AgentRuntime → AgentRuntime
stop s = record s {
  stopped = true;
  timers = [];
  reconnect_pending = false;
  transport = none;
  connected = false;
}
