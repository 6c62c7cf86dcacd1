-- ===== src/Tests/Agent.antt =====
-- Concrete runs of the agent's theorems.
use desk_control.Common.{ℕ, true, false, List, [], ◌∷◌, ◌++◌, none, some, ◌≡◌, ◌⊎◌, refl}
use desk_control.Domain.Command.{CommandPayload, MonitorPowerState}
use desk_control.Domain.Device.{Platform}
use desk_control.Protocol.{ObservedMonitorReport}
use desk_control.Protocol.Frames.{AgentMessage}
use desk_control.Service.Responses.{AgentResult}
use desk_control.Agent.{
  AgentOptions, AgentRuntime, dialing, greeting, dial_succeeded, transport_closed, reconnect_fired,
  greeted, answering, for_readings,
}
use desk_control.Agent.Commands.{Readings, send_result, handle_command, finish_command}
use desk_control.Agent.Events.{dial_succeeds, begin, then_step, loses}
use desk_control.Agent.Connected.{
  IsLinked, is_tended, IsAbandoned, AgentStep-IsSound, agent_abandoned,
}
use desk_control.Agent.Links.{link_of}
use desk_control.Agent.Idempotence.{Observes, handle_command-Once}

abbrev options : AgentOptions
options = record {
  agent_id = "agent-pc";
  computer_id = "pc";
  detected_name = "PC agent";
  computer_detected_name = "PC";
  platform = Platform.windows;
  agent_version = "1";
  capabilities = [];
  metadata = none;
  provider_kind = "mock";
  sets_brightness = false;
  sets_power = true;
  has_usb_provider = false;
  auth_token = none;
  observe_interval_ms = none;
  heartbeat_interval_ms = none;
}

abbrev dialing_agent : AgentRuntime
dialing_agent = record {
  transport = none;
  attempt = some (dialing 0);
  next_transport = 1;
  timers = [];
  reconnect_pending = false;
  stopped = false;
  connected = false;
  started_at = 0;
  monitors = [];
  handled_commands = [];
  running = [];
  awaiting = [];
  sent = [];
  calls = [];
}

abbrev greeting_agent : AgentRuntime
greeting_agent = record dialing_agent {
  transport = some 0;
  attempt = some greeting;
  connected = true;
}

AgentStep-IsSound_example :
    IsLinked (link_of (dial_succeeded dialing_agent 0))
    × (is_tended (link_of dialing_agent) ≡ true
        → (is_tended (link_of (dial_succeeded dialing_agent 0)) ≡ true)
          ⊎ IsAbandoned (link_of dialing_agent) (link_of (dial_succeeded dialing_agent 0)))
AgentStep-IsSound_example =
    AgentStep-IsSound options (dial_succeeds 0 refl) (record { joined = refl; single = refl })

agent_abandoned_example :
    is_tended (
      link_of
        (greeted options (reconnect_fired (transport_closed greeting_agent 0) true) (some [])))
    ≡ false
agent_abandoned_example = agent_abandoned options greeting_agent 0 true (some []) refl refl refl

abbrev standby : CommandPayload
standby = CommandPayload.set_monitor_power "left" MonitorPowerState.standby

abbrev carried_out : AgentRuntime
carried_out = finish_command greeting_agent "c1" AgentResult.ok

abbrev meanwhile : AgentRuntime
meanwhile = transport_closed carried_out 7

abbrev again : AgentRuntime
again = handle_command options meanwhile 30 "c1" standby 5000

handle_command-Once_example :
    (again.calls ≡ meanwhile.calls)
    × (again.running ≡ meanwhile.running)
    × (again.awaiting ≡ meanwhile.awaiting ++ for_readings (answering "c1" AgentResult.ok) ∷ [])
    × ((t : ℕ)
        → meanwhile.transport ≡ some t
        → again.sent ≡ meanwhile.sent ++ (t, AgentMessage.command_ack "c1") ∷ [])
    × ((v : AgentRuntime) (t : ℕ) (r : Readings) (observed : List ObservedMonitorReport)
        → v.transport ≡ some t
        → r.observed ≡ some observed
        → Observes options v t "c1" r observed)
    × ((v : AgentRuntime) (t : ℕ) (observed : List ObservedMonitorReport)
        → v.transport ≡ some t
        → (send_result v "c1" AgentResult.ok observed).sent
          ≡ v.sent ++ (t, AgentMessage.command_result "c1" AgentResult.ok observed) ∷ [])
handle_command-Once_example =
    handle_command-Once options greeting_agent meanwhile "c1" 30 5000 standby
      (then_step begin (loses 7))
