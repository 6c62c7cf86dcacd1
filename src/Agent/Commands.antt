-- ===== src/Agent/Commands.antt =====
-- agent-runtime.ts: reports and commands.
use desk_control.Common.{
  ℕ, ◌-◌, String, Bool, false, List, [], ◌∷◌, ◌++◌, Option, none, some, contains, find, ◌==◌, ◌<>◌,
  ltb, string_eq, if◌then◌else◌,
}
use desk_control.Domain.Command.{CommandPayload, CommandError, kind_name}
use desk_control.Protocol.{
  MonitorReport, MonitorInputReport, ObservedMonitorReport, to_protocol_error_code,
}
use desk_control.Protocol.Frames.{AgentMessage}
use desk_control.Service.Responses.{AgentResult, ok, failure}
use desk_control.Hardware.{ProviderCall, set_input, set_brightness, set_power}
use desk_control.Agent.{
  AgentRuntime, AgentOptions, CommandRun, Purpose, reporting, answering, for_readings, to_answer,
  send, wait,
}

-- What the providers answer when they are read; `none` where the call throws.
pub record Readings : Type 0 where
  pub observed : Option (List ObservedMonitorReport)
  pub usb_devices : Option (List String)

abbrev pub usb_of : AgentOptions → Readings → Option (List String)
usb_of options readings = if options.has_usb_provider then readings.usb_devices else none

-- `pushObservedState` once both providers have answered: the new state and the reports that it returns.
-- Nothing of the agent is read or changed between its two awaits.
unfoldable pub push_observed_state :
    AgentOptions → AgentRuntime → Readings → AgentRuntime × List ObservedMonitorReport
unfolding send
push_observed_state options s readings = elim readings.observed [
  | none ↦ (s, [])
  | some observed ↦
      (send s (AgentMessage.observed_state observed (usb_of options readings)), observed)
]

-- What `execute` comes to: a call of the provider, or an answer without one.
pub data Execution : Type 0 where
  calls : ProviderCall → Execution
  refuses : (code message : String) → Execution

-- `Math.max(1000, deadline - now)`
unfoldable pub time_left : ℕ → ℕ → ℕ
time_left deadline_at now = if ltb (deadline_at - now) 1000 then 1000 else deadline_at - now

find_monitor : List MonitorReport → String → Option MonitorReport
find_monitor monitors id = find (λ (m : MonitorReport). m.stable_id == id) monitors

input_call : String → ℕ → MonitorReport → MonitorInputReport → ProviderCall
input_call command_id timeout_ms monitor input = set_input (record {
  stable_id = monitor.stable_id;
  local_handle = monitor.local_handle;
  input_id = input.id;
  ddc_input_source_value = input.ddc_input_source_value;
  command_id = command_id;
  timeout_ms = timeout_ms;
})

abbrev not_seen : String → String → Execution
not_seen monitor_id input_id =
    refuses "UNKNOWN_TARGET"
      ("Agent does not see monitor " <> (monitor_id <> (" input " <> input_id)))

execute_input : List MonitorReport → String → ℕ → String → String → Execution
unfolding find_monitor input_call
execute_input monitors command_id timeout_ms monitor_id input_id =
    elim (find_monitor monitors monitor_id) [
      | none ↦ not_seen monitor_id input_id
      | some monitor ↦ elim (find (λ (i : MonitorInputReport). i.id == input_id) monitor.inputs) [
        | none ↦ not_seen monitor_id input_id
        | some input ↦ calls (input_call command_id timeout_ms monitor input)
      ]
    ]

-- The common part of brightness and power: the monitor first, then the provider's ability.
execute_feature :
    List MonitorReport → String → Bool → String → (MonitorReport → ProviderCall) → Execution
unfolding find_monitor
execute_feature monitors monitor_id able cannot call = elim (find_monitor monitors monitor_id) [
  | none ↦ refuses "UNKNOWN_TARGET" ("Agent does not see monitor " <> monitor_id)
  | some monitor ↦ if able then calls (call monitor) else refuses "UNKNOWN_COMMAND_KIND" cannot
]

unfoldable pub execute :
    AgentOptions → List MonitorReport → ℕ → String → CommandPayload → ℕ → Execution
unfolding time_left execute_input execute_feature
execute options monitors now command_id (CommandPayload.set_monitor_input monitor_id input_id c)
      deadline_at =
    execute_input monitors command_id (time_left deadline_at now) monitor_id input_id
execute options monitors now command_id
      (CommandPayload.set_monitor_brightness monitor_id brightness) deadline_at =
    execute_feature monitors monitor_id options.sets_brightness
      "This provider cannot set brightness"
      (λ monitor. set_brightness (record {
        stable_id = monitor.stable_id;
        local_handle = monitor.local_handle;
        brightness = brightness;
        command_id = command_id;
        timeout_ms = time_left deadline_at now;
      }))
execute options monitors now command_id (CommandPayload.set_monitor_power monitor_id power_state)
      deadline_at =
    execute_feature monitors monitor_id options.sets_power "This provider cannot set power state"
      (λ monitor. set_power (record {
        stable_id = monitor.stable_id;
        local_handle = monitor.local_handle;
        power_state = power_state;
        command_id = command_id;
        timeout_ms = time_left deadline_at now;
      }))
execute options monitors now command_id payload deadline_at =
    refuses "UNKNOWN_COMMAND_KIND" ("Agent cannot execute " <> kind_name payload)

-- The result as the message tells it.
abbrev pub told : AgentResult → AgentResult
told ok = ok
told (failure none) = failure none
told (failure (some e)) = failure (some (record e { code = to_protocol_error_code e.code }))

unfoldable pub note_handled : AgentRuntime → String → AgentResult → AgentRuntime
note_handled s command_id ok = record s { handled_commands = command_id ∷ s.handled_commands }
note_handled s command_id (failure e) = s

-- The providers have been read: the observation is sent on the transport of now, and a command goes on
-- to its result.
unfoldable pub readings_arrived : AgentOptions → AgentRuntime → Readings → Purpose → AgentRuntime
unfolding push_observed_state wait
readings_arrived options s readings reporting = (push_observed_state options s readings).0
readings_arrived options s readings (answering command_id result) =
    let (pushed, observed) = push_observed_state options s readings in
    wait pushed (to_answer command_id result observed)

-- The result goes out, on the transport of now.
unfoldable pub send_result :
    AgentRuntime → String → AgentResult → List ObservedMonitorReport → AgentRuntime
unfolding send
send_result s command_id result observed =
    send s (AgentMessage.command_result command_id result observed)

-- `handleCommand` from the answer of `execute` up to the reading of the panels.
unfoldable pub finish_command : AgentRuntime → String → AgentResult → AgentRuntime
unfolding note_handled wait
finish_command s command_id result =
    wait (note_handled s command_id result) (for_readings (answering command_id (told result)))

unfoldable pub run_execution : AgentRuntime → String → Execution → AgentRuntime
unfolding finish_command
run_execution s command_id (calls call) =
    let run : CommandRun = record { command_id = command_id; call = call } in
    record s { running = s.running ++ run ∷ []; calls = s.calls ++ call ∷ [] }
run_execution s command_id (refuses code message) =
    let e : CommandError = record { code = code; message = message; retryable = false } in
    finish_command s command_id (failure (some e))

-- `handleCommand` up to where it first waits: for the provider that carries the command out or, where
-- the command is known or refused, for the reading of the panels.
unfoldable pub handle_command :
    AgentOptions → AgentRuntime → ℕ → String → CommandPayload → ℕ → AgentRuntime
unfolding run_execution execute send wait
handle_command options s now command_id payload deadline_at =
    let acked = send s (AgentMessage.command_ack command_id) in
    if contains s.handled_commands command_id
    then wait acked (for_readings (answering command_id ok))
    else run_execution acked command_id
        (execute options s.monitors now command_id payload deadline_at)
