-- ===== src/Service.antt =====
-- apps/controller/src/command-service.ts, the class `CommandService`: its state, and the internals
-- that every request shares. The agents are reached through a `Dispatcher`; what is sent is logged
-- in `outbox`. A pending `setTimeout` is an entry of `scheduled`.
pub mod Retiring
pub mod Creating
pub mod Steps
pub mod Answers
pub mod Outcomes
pub mod Clicks
pub mod Composite
pub mod Requests
pub mod Timers
pub mod Monitors
pub mod Responses
pub mod Presets
pub mod Peripherals
use desk_control.Common.{
  ℕ, ◌+◌, String, Bool, true, false, ◌&&◌, not, List, [], ◌∷◌, ◌++◌, Option, none, some, Dict,
  lookup, insert, erase, values, ◌==◌, find, filter_bool, string_eq, nat_eq, if◌then◌else◌,
}
use desk_control.Domain.Command.{
  CommandPayload, CommandStatus, CommandError, DeskCommand, is_in_flight, command_target_key,
}
use desk_control.Domain.Device.{Agent}
use desk_control.Domain.State.{StateOrigin}
use desk_control.Protocol.{to_protocol_error_code}
use desk_control.Store.{DeskStore, or_else}
use desk_control.Store.Commands.{put_command, update_command}

pub data Message : Type 0 where
  command : (command_id : String) → CommandPayload → (deadline_at : ℕ) → Message
  refresh_inventory : Message

-- `AgentDispatcher`: `is_online` may read the agents of the store, and `send` succeeds where
-- `is_open` holds.
pub record Dispatcher : Type 0 where
  pub is_online : Dict String Agent → String → Bool
  pub is_open : String → Bool

pub record Env : Type 0 where
  pub dispatcher : Dispatcher
  pub command_timeout_ms : ℕ

-- What an operation takes from outside: the clock, and the id that `randomUUID` gives.
pub record Stamp : Type 0 where
  pub now : ℕ
  pub uuid : String

pub record Timeout : Type 0 where
  pub handle : ℕ
  pub command_id : String
  pub due : ℕ

-- A peripheral command between its call of the provider and the answer.
pub record PeripheralRun : Type 0 where
  pub command_id : String
  pub switch_id : String
  pub channel_id : String
  pub port_id : String
  pub current_port_id : Option String
  pub peripheral_ids : List String

pub record ServiceState : Type 0 where
  pub store : DeskStore
  pub timers : Dict String ℕ
  pub scheduled : List Timeout
  pub next_handle : ℕ
  pub outbox : List (String × Message)
  pub running : List PeripheralRun

pub data IssueResult : Type 0 where
  accepted : (command_id : String) → IssueResult
  rejected : (code message : String) → IssueResult

abbrev pub with_store : ServiceState → DeskStore → ServiceState
with_store st s = record st { store = s }

unfoldable pub clear_timer : ServiceState → String → ServiceState
clear_timer st command_id = elim (lookup command_id st.timers) [
  | none ↦ st
  | some handle ↦ record st {
    timers = erase command_id st.timers;
    scheduled = filter_bool (λ (t : Timeout). not (t.handle == handle)) st.scheduled;
  }
]

-- `this.store.updateCommand(id, patch)`.
unfoldable pub update : ServiceState → ℕ → String → (DeskCommand → DeskCommand) → ServiceState
update st now id patch = with_store st (update_command st.store now id patch)

abbrev pub ended : CommandStatus → Option CommandError → DeskCommand → DeskCommand
ended status error c = record c { status = status; error = error }

unfoldable pub fail_command : ServiceState → ℕ → String → CommandError → ServiceState
unfolding clear_timer update
fail_command st now command_id error =
    update (clear_timer st command_id) now command_id (
      ended CommandStatus.failed (some (record error { code = to_protocol_error_code error.code })))

abbrev pub is_live_for : String → DeskCommand → Bool
is_live_for target_key c = is_in_flight c.status && command_target_key c.payload == target_key

unfoldable pub find_in_flight_for_target : ServiceState → String → Option DeskCommand
find_in_flight_for_target st target_key = find (is_live_for target_key) (values st.store.commands)

abbrev pub superseded_error : CommandError
superseded_error = record {
  code = "SUPERSEDED";
  message = "Replaced by a newer request";
  retryable = false;
}

unfoldable pub supersede : ServiceState → ℕ → String → ServiceState
unfolding find_in_flight_for_target clear_timer update
supersede st now target_key = elim (find_in_flight_for_target st target_key) [
  | none ↦ st
  | some stale ↦
      update (clear_timer st stale.id) now stale.id
        (ended CommandStatus.superseded (some superseded_error))
]

unfoldable pub new_command :
    Env → Stamp → CommandPayload → StateOrigin → Option String → Option String → DeskCommand
new_command env stamp payload origin preset_id command_id = record {
  id = or_else command_id stamp.uuid;
  payload = payload;
  status = CommandStatus.pending;
  origin = origin;
  preset_id = preset_id;
  agent_id = none;
  issued_at = stamp.now;
  updated_at = stamp.now;
  deadline_at = stamp.now + env.command_timeout_ms;
  attempts = 0;
  error = none;
}

-- `createCommand`; the command that it returns is `new_command` of the same arguments.
unfoldable pub create_command :
    Env
    → ServiceState
    → Stamp
    → CommandPayload
    → StateOrigin
    → Option String
    → Option String
    → ServiceState
unfolding supersede new_command
create_command env st stamp payload origin preset_id command_id =
    let cleared = supersede st stamp.now (command_target_key payload) in
    with_store cleared
      (put_command cleared.store (new_command env stamp payload origin preset_id command_id))

abbrev pub send : ServiceState → String → Message → ServiceState
send st agent_id message = record st { outbox = st.outbox ++ (agent_id, message) ∷ [] }

abbrev pub lost_agent_error : CommandError
lost_agent_error = record {
  code = "DEVICE_UNREACHABLE";
  message = "Agent went away before the command could be sent";
  retryable = true;
}

-- The second half of `dispatch`: the command is marked, and its timeout starts.
unfoldable pub start_timeout : Env → ServiceState → ℕ → DeskCommand → String → ServiceState
unfolding update
start_timeout env st now c agent_id =
    let marked = update st now c.id (λ x. record x {
      status = CommandStatus.dispatched;
      agent_id = some agent_id;
      attempts = c.attempts + 1;
    }) in
    let timeout : Timeout = record {
      handle = st.next_handle;
      command_id = c.id;
      due = now + env.command_timeout_ms;
    } in
    record marked {
      timers = insert c.id st.next_handle marked.timers;
      scheduled = marked.scheduled ++ timeout ∷ [];
      next_handle = st.next_handle + 1;
    }

unfoldable pub dispatch : Env → ServiceState → ℕ → DeskCommand → String → ServiceState
unfolding start_timeout fail_command
dispatch env st now c agent_id =
    if env.dispatcher.is_open agent_id
    then start_timeout env (send st agent_id (command c.id c.payload c.deadline_at)) now c agent_id
    else fail_command st now c.id lost_agent_error
