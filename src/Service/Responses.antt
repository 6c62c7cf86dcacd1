-- ===== src/Service/Responses.antt =====
-- command-service.ts: what agents answer, the timeout of a command, and the loss of an agent.
use desk_control.Common.{
  ℕ, String, Bool, true, false, ◌&&◌, not, List, [], ◌∷◌, Option, none, some, lookup, erase, values,
  ◌==◌, filter_bool, decimal, ◌<>◌, string_eq, option_eq, nat_eq, if◌then◌else◌,
}
use desk_control.Domain.Command.{
  CommandPayload, CommandStatus, CommandError, DeskCommand, is_in_flight,
}
use desk_control.Domain.Monitor.{MonitorControlPath}
use desk_control.Protocol.{to_protocol_error_code}
use desk_control.Store.Observations.{note_active_input}
use desk_control.Service.{
  Env, ServiceState, Timeout, refresh_inventory, with_store, update, clear_timer, fail_command,
  ended, send,
}

-- `!command || !isInFlight(command.status)` is the early return of the handlers.
abbrev pub live_command : ServiceState → String → Option DeskCommand
live_command st id = elim (lookup id st.store.commands) [
  | none ↦ none
  | some c ↦ if is_in_flight c.status then some c else none
]

unfoldable pub on_agent_ack : ServiceState → ℕ → String → ServiceState
unfolding update
on_agent_ack st now command_id = elim (live_command st command_id) [
  | none ↦ st
  | some c ↦ update st now command_id (λ x. record x { status = CommandStatus.acked })
]

-- One round of the loop over the control paths.
unfoldable pub ask_path : Env → ServiceState → String → MonitorControlPath → ServiceState
ask_path env st input_id p =
    if p.input_id == some input_id
      && env.dispatcher.is_online st.store.agents p.agent_id
      && env.dispatcher.is_open p.agent_id
    then send st p.agent_id refresh_inventory
    else st

unfoldable pub ask_each : Env → ServiceState → String → List MonitorControlPath → ServiceState
unfolding ask_path
ask_each env st input_id [] = st
ask_each env st input_id (p ∷ ps) = ask_each env (ask_path env st input_id p) input_id ps

unfoldable pub request_fresh_observation : Env → ServiceState → String → String → ServiceState
unfolding ask_each
request_fresh_observation env st monitor_id input_id = elim (lookup monitor_id st.store.monitors) [
  | none ↦ st
  | some monitor ↦ ask_each env st input_id monitor.control_paths
]

-- What a success teaches: an input switch moves the routing hint, and the new owner is asked.
unfoldable pub after_success : Env → ServiceState → CommandPayload → ServiceState
unfolding request_fresh_observation
after_success env st (CommandPayload.set_monitor_input monitor_id input_id source) =
    request_fresh_observation env (with_store st (note_active_input st.store monitor_id input_id))
      monitor_id input_id
after_success env st _ = st

abbrev pub reported_error : Option CommandError → CommandError
reported_error none = record {
  code = to_protocol_error_code "INTERNAL";
  message = "Agent reported failure";
  retryable = false;
}
reported_error (some e) = record e { code = to_protocol_error_code e.code }

-- `none` stands for a result that is ok, `some e` for one that is not.
pub data AgentResult : Type 0 where
  ok : AgentResult
  failure : Option CommandError → AgentResult

unfoldable pub conclude : Env → ServiceState → ℕ → DeskCommand → String → AgentResult → ServiceState
unfolding update after_success
conclude env st now c command_id ok =
    after_success env (update st now command_id (ended CommandStatus.succeeded none)) c.payload
conclude env st now c command_id (failure error) =
    update st now command_id (ended CommandStatus.failed (some (reported_error error)))

unfoldable pub on_agent_result : Env → ServiceState → ℕ → String → AgentResult → ServiceState
unfolding conclude clear_timer
on_agent_result env st now command_id result = elim (live_command st command_id) [
  | none ↦ st
  | some c ↦ conclude env (clear_timer st command_id) now c command_id result
]

abbrev pub disconnected_error : CommandError
disconnected_error = record {
  code = "DEVICE_UNREACHABLE";
  message = "Agent disconnected before reporting a result";
  retryable = true;
}

abbrev pub carried_by : String → DeskCommand → Bool
carried_by agent_id c = c.agent_id == some agent_id && is_in_flight c.status

-- The loop over the commands. Failing one changes no other, so it is run over those at the start.
unfoldable pub fail_each : ServiceState → ℕ → String → List DeskCommand → ServiceState
unfolding fail_command
fail_each st now agent_id [] = st
fail_each st now agent_id (c ∷ cs) =
    fail_each (if carried_by agent_id c then fail_command st now c.id disconnected_error else st)
      now agent_id cs

unfoldable pub fail_commands_for_agent : ServiceState → ℕ → String → ServiceState
unfolding fail_each
fail_commands_for_agent st now agent_id = fail_each st now agent_id (values st.store.commands)

abbrev pub timeout_error : Env → CommandError
timeout_error env = record {
  code = "TIMEOUT";
  message = "No result within " <> (decimal env.command_timeout_ms <> "ms");
  retryable = true;
}

-- A timeout that fires leaves `scheduled`, and its callback begins with `timers.delete`.
unfoldable pub fired : ServiceState → Timeout → ServiceState
fired st t = record st {
  timers = erase t.command_id st.timers;
  scheduled = filter_bool (λ (x : Timeout). not (x.handle == t.handle)) st.scheduled;
}

-- The callback of `setTimeout`.
unfoldable pub on_timeout : Env → ServiceState → ℕ → Timeout → ServiceState
unfolding update fired
on_timeout env st now t = elim (live_command (fired st t) t.command_id) [
  | none ↦ fired st t
  | some c ↦
      update (fired st t) now t.command_id
        (ended CommandStatus.timed_out (some (timeout_error env)))
]

clear_each : ServiceState → List ℕ → ServiceState
clear_each st [] = record st { timers = [] }
clear_each st (h ∷ hs) =
    clear_each
      (record st { scheduled = filter_bool (λ (t : Timeout). not (t.handle == h)) st.scheduled }) hs

-- Every timeout of the map is cleared.
unfoldable pub dispose : ServiceState → ServiceState
unfolding clear_each
dispose st = clear_each st (values st.timers)
