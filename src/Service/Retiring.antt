-- ===== src/Service/Retiring.antt =====
-- What the service does to the commands apart from creating one: it only ever ends commands.
use desk_control.Common.{
  ℕ, String, true, false, List, [], ◌∷◌, Option, none, some, lookup, values, ◌≡◌, refl, sym, ◌∙◌,
  subst, arith, Option-cases, Bool-cases, inl, inr, string_eq, option_eq,
}
use desk_control.Domain.Command.{
  CommandStatus, CommandError, CommandPayload, DeskCommand, is_in_flight, command_status_eq,
}
use desk_control.Domain.Monitor.{MonitorControlPath}
use desk_control.Domain.State.{ObservedPeripheralState}
use desk_control.Store.{DeskStore, touch, or_else}
use desk_control.Store.Observations.{note_active_input}
use desk_control.Store.Usb.{set_observed_peripheral}
use desk_control.Store.Commands.Evolution.{
  Commands, Shrinks, Shrinks-refl, Shrinks-trans, update_command-Shrinks,
}
use desk_control.Service.{
  Env, ServiceState, PeripheralRun, Timeout, clear_timer, update, fail_command, supersede,
  find_in_flight_for_target, ended, superseded_error, with_store,
}
use desk_control.Service.Peripherals.{
  PortResult, ObservedSwitchState, account, observe_each, settle, switch_failed, finish_peripheral,
}
use desk_control.Service.Responses.{
  AgentResult, ok, failure, on_agent_ack, on_agent_result, conclude, after_success,
  request_fresh_observation, ask_each, ask_path, fired, live_command, fail_each,
  fail_commands_for_agent, on_timeout, carried_by, disconnected_error, reported_error,
  timeout_error,
}

abbrev pub commands_of : ServiceState → Commands
commands_of st = st.store.commands

pub commands-clear_timer : (st : ServiceState) (id : String) → (clear_timer st id).store ≡ st.store
unfolding clear_timer
commands-clear_timer st id = ground arith

-- The statuses that end a command are not in flight.
ended_lem : (s : CommandStatus) → (s ≡ CommandStatus.succeeded) → is_in_flight s ≡ false
unfolding is_in_flight
ended_lem s e = ground arith

pub end-Shrinks :
    (st : ServiceState) (now : ℕ) (id : String) (s : CommandStatus) (error : Option CommandError)
    → is_in_flight s ≡ false
    → Shrinks (commands_of st) (commands_of (update st now id (ended s error)))
unfolding update
end-Shrinks st now id s error over =
    update_command-Shrinks st.store now id (ended s error)
      (λ x e. (refl, refl, λ lives. ground arith))

pub failed_over : is_in_flight CommandStatus.failed ≡ false
unfolding is_in_flight
failed_over = refl

pub succeeded_over : is_in_flight CommandStatus.succeeded ≡ false
unfolding is_in_flight
succeeded_over = refl

pub timed_out_over : is_in_flight CommandStatus.timed_out ≡ false
unfolding is_in_flight
timed_out_over = refl

pub superseded_over : is_in_flight CommandStatus.superseded ≡ false
unfolding is_in_flight
superseded_over = refl

-- Ending a command after its timer is cleared.
cleared-Shrinks :
    (st : ServiceState) (now : ℕ) (id : String) (s : CommandStatus) (error : Option CommandError)
    → is_in_flight s ≡ false
    → Shrinks (commands_of st) (commands_of (update (clear_timer st id) now id (ended s error)))
cleared-Shrinks st now id s error over =
    subst
      (λ x. Shrinks x.commands (commands_of (update (clear_timer st id) now id (ended s error))))
      (commands-clear_timer st id) (end-Shrinks (clear_timer st id) now id s error over)

pub fail_command-Shrinks :
    (st : ServiceState) (now : ℕ) (id : String) (error : CommandError)
    → Shrinks (commands_of st) (commands_of (fail_command st now id error))
unfolding fail_command
fail_command-Shrinks st now id error = cleared-Shrinks st now id CommandStatus.failed _ failed_over

pub supersede-Shrinks :
    (st : ServiceState) (now : ℕ) (key : String)
    → Shrinks (commands_of st) (commands_of (supersede st now key))
unfolding supersede
supersede-Shrinks st now key = elim (Option-cases (find_in_flight_for_target st key)) [
  | inl e ↦ rw (e, supersede) (Shrinks-refl _)
  | inr (c, e) ↦
      rw (e, supersede)
        (cleared-Shrinks st now c.id CommandStatus.superseded (some superseded_error)
          superseded_over)
]

pub live_command-lookup :
    (st : ServiceState) (id : String) {c : DeskCommand}
    → live_command st id ≡ some c
    → (lookup id st.store.commands ≡ some c) × (is_in_flight c.status ≡ true)
live_command-lookup st id {c} e = elim (Option-cases (lookup id st.store.commands)) [
  | inl f ↦ ground arith
  | inr (x, f) ↦ elim (Bool-cases (is_in_flight x.status)) [
    | inl g ↦ (ground arith, ground arith)
    | inr g ↦ ground arith
  ]
]

pub on_agent_ack-Shrinks :
    (st : ServiceState) (now : ℕ) (id : String)
    → Shrinks (commands_of st) (commands_of (on_agent_ack st now id))
unfolding on_agent_ack
on_agent_ack-Shrinks st now id = elim (Option-cases (live_command st id)) [
  | inl e ↦ rw (e, on_agent_ack) (Shrinks-refl _)
  | inr (c, e) ↦
      let (here, live) = live_command-lookup st id e in
      rw (e, on_agent_ack)
        (update_command-Shrinks st.store now id _ (λ x h. (refl, refl, λ _. ground arith)))
]

store-ask_each :
    (env : Env) (st : ServiceState) (input_id : String) (ps : List MonitorControlPath)
    → (ask_each env st input_id ps).store ≡ st.store
unfolding ask_each
store-ask_each env st input_id [] = refl
store-ask_each env st input_id (p ∷ ps) =
    store-ask_each env (ask_path env st input_id p) input_id ps ∙ ground arith

pub commands-after_success :
    (env : Env) (st : ServiceState) (p : CommandPayload)
    → commands_of (after_success env st p) ≡ commands_of st
unfolding after_success request_fresh_observation note_active_input
commands-after_success env st (CommandPayload.set_monitor_input m i s) =
    elim (Option-cases (lookup m st.store.monitors)) [
      | inl e ↦ ground arith
      | inr (x, e) ↦ ground (
        arith,
        store-ask_each env (with_store st (note_active_input st.store m i)) i x.control_paths,
      )
    ]
commands-after_success env st (CommandPayload.set_monitor_brightness m b) = refl
commands-after_success env st (CommandPayload.set_monitor_power m p) = refl
commands-after_success env st (CommandPayload.set_peripheral_owner o) = refl

conclude-Shrinks :
    (env : Env) (st : ServiceState) (now : ℕ) (c : DeskCommand) (id : String) (r : AgentResult)
    → Shrinks (commands_of st) (commands_of (conclude env st now c id r))
unfolding conclude
conclude-Shrinks env st now c id ok =
    subst (Shrinks (commands_of st)) (sym (commands-after_success env _ c.payload))
      (end-Shrinks st now id CommandStatus.succeeded none succeeded_over)
conclude-Shrinks env st now c id (failure e) =
    end-Shrinks st now id CommandStatus.failed (some (reported_error e)) failed_over

pub on_agent_result-Shrinks :
    (env : Env) (st : ServiceState) (now : ℕ) (id : String) (r : AgentResult)
    → Shrinks (commands_of st) (commands_of (on_agent_result env st now id r))
unfolding on_agent_result
on_agent_result-Shrinks env st now id r = elim (Option-cases (live_command st id)) [
  | inl e ↦ rw (e, on_agent_result) (Shrinks-refl _)
  | inr (c, e) ↦
      rw (e, on_agent_result)
        (subst
          (λ (x : DeskStore).
            Shrinks x.commands (commands_of (conclude env (clear_timer st id) now c id r)))
          (commands-clear_timer st id) (conclude-Shrinks env (clear_timer st id) now c id r))
]

fail_each-Shrinks :
    (st : ServiceState) (now : ℕ) (agent : String) (cs : List DeskCommand)
    → Shrinks (commands_of st) (commands_of (fail_each st now agent cs))
unfolding fail_each
fail_each-Shrinks st now agent [] = Shrinks-refl _
fail_each-Shrinks st now agent (c ∷ cs) = elim (Bool-cases (carried_by agent c)) [
  | inl e ↦ rw e (
      Shrinks-trans (fail_command-Shrinks st now c.id disconnected_error)
        (fail_each-Shrinks (fail_command st now c.id disconnected_error) now agent cs))
  | inr e ↦ rw e (fail_each-Shrinks st now agent cs)
]

pub fail_commands_for_agent-Shrinks :
    (st : ServiceState) (now : ℕ) (agent : String)
    → Shrinks (commands_of st) (commands_of (fail_commands_for_agent st now agent))
unfolding fail_commands_for_agent
fail_commands_for_agent-Shrinks st now agent =
    fail_each-Shrinks st now agent (values st.store.commands)

pub on_timeout-Shrinks :
    (env : Env) (st : ServiceState) (now : ℕ) (t : Timeout)
    → Shrinks (commands_of st) (commands_of (on_timeout env st now t))
unfolding on_timeout
on_timeout-Shrinks env st now t = elim (Option-cases (live_command (fired st t) t.command_id)) [
  | inl e ↦ rw (e, on_timeout) (Shrinks-refl _)
  | inr (c, e) ↦
      rw (e, on_timeout)
        (end-Shrinks (fired st t) now t.command_id CommandStatus.timed_out
          (some (timeout_error env)) timed_out_over)
]

commands-set_observed_peripheral :
    (s : DeskStore) (o : ObservedPeripheralState)
    → (set_observed_peripheral s o).commands ≡ s.commands
unfolding set_observed_peripheral touch
commands-set_observed_peripheral s o = refl

pub commands-observe_each :
    (s : DeskStore) (now : ℕ) (owner : Option String) (state : Option ObservedSwitchState)
    (ids : List String)
    → (observe_each s now owner state ids).commands ≡ s.commands
unfolding observe_each
commands-observe_each s now owner state [] = refl
commands-observe_each s now owner state (id ∷ ids) =
    commands-observe_each (set_observed_peripheral s (account now owner state id)) now owner state
      ids
    ∙ commands-set_observed_peripheral s (account now owner state id)

settle-Shrinks :
    (st : ServiceState) (now : ℕ) (id : String) (r : PortResult)
    → Shrinks (commands_of st) (commands_of (settle st now id r))
unfolding settle
settle-Shrinks st now id PortResult.ok =
    end-Shrinks st now id CommandStatus.succeeded none succeeded_over
settle-Shrinks st now id (PortResult.refused e) =
    fail_command-Shrinks st now id (or_else e switch_failed)

pub finish_peripheral-Shrinks :
    (st : ServiceState) (now : ℕ) (run : PeripheralRun) (r : PortResult)
    (states : List ObservedSwitchState)
    → Shrinks (commands_of st) (commands_of (finish_peripheral st now run r states))
unfolding finish_peripheral
finish_peripheral-Shrinks st now run r states =
    subst (λ d. Shrinks d (commands_of (finish_peripheral st now run r states)))
      (commands-observe_each st.store now _ _ run.peripheral_ids)
      (settle-Shrinks _ now run.command_id r)
