-- ===== src/Service/Timers/Ending.antt =====
-- Answers, lost agents and timeouts take a timeout away only from a command that they end.
use desk_control.Common.{
  ℕ, String, List, [], ◌∷◌, Option, none, some, lookup, values, ◌≡◌, refl, sym, ◌∙◌, subst, arith,
  Memᴰ, Option-cases, Bool-cases, inl, inr, string_eq,
}
use desk_control.Domain.Command.{CommandPayload, CommandStatus, DeskCommand}
use desk_control.Domain.Monitor.{MonitorControlPath}
use desk_control.Store.{or_else}
use desk_control.Store.Commands.Evolution.{Flies, Shrinks, Shrinks-refl}
use desk_control.Store.Observations.{note_active_input}
use desk_control.Service.{
  Env, ServiceState, Timeout, PeripheralRun, with_store, clear_timer, update, ended, fail_command,
}
use desk_control.Service.Peripherals.{
  PortResult, ObservedSwitchState, settle, switch_failed, finish_peripheral,
}
use desk_control.Service.Responses.{
  AgentResult, ok, failure, on_agent_ack, on_agent_result, conclude, after_success,
  request_fresh_observation, ask_each, ask_path, fired, live_command, fail_each,
  fail_commands_for_agent, on_timeout, carried_by, disconnected_error, reported_error,
  timeout_error,
}
use desk_control.Service.Retiring.{
  commands_of, on_agent_ack-Shrinks, commands-after_success, commands-observe_each, failed_over,
  succeeded_over, timed_out_over,
}
use desk_control.Service.Timers.{
  IsTimed, SameTimers, excepted, Shrinks-IsTimed, clear_timer-IsTimed, closed, fired-IsTimed,
  end-IsTimed, ended-update,
}
use desk_control.Service.Timers.Issuing.{store-IsTimed, fail_command-IsTimed}

on_agent_ack-SameTimers :
    (st : ServiceState) (now : ℕ) (id : String) → SameTimers st (on_agent_ack st now id)
unfolding on_agent_ack update
on_agent_ack-SameTimers st now id = elim (Option-cases (live_command st id)) [
  | inl e ↦ rw (e, on_agent_ack) (record { timers = refl; scheduled = refl; next_handle = refl })
  | inr (c, e) ↦
      rw (e, on_agent_ack) (record { timers = refl; scheduled = refl; next_handle = refl })
]

pub on_agent_ack-IsTimed :
    (st : ServiceState) (now : ℕ) (id : String)
    → IsTimed none st
    → IsTimed none (on_agent_ack st now id)
on_agent_ack-IsTimed st now id =
    Shrinks-IsTimed (on_agent_ack-SameTimers st now id) (on_agent_ack-Shrinks st now id)

ask_each-SameTimers :
    (env : Env) (st : ServiceState) (input_id : String) (ps : List MonitorControlPath)
    → SameTimers st (ask_each env st input_id ps)
unfolding ask_each ask_path
ask_each-SameTimers env st input_id [] = record {
  timers = refl;
  scheduled = refl;
  next_handle = refl;
}
ask_each-SameTimers env st input_id (p ∷ ps) =
    let later = ask_each-SameTimers env (ask_path env st input_id p) input_id ps in
    record {
      timers = later.timers ∙ ground arith;
      scheduled = later.scheduled ∙ ground arith;
      next_handle = later.next_handle ∙ ground arith;
    }

request_fresh_observation-SameTimers :
    (env : Env) (st : ServiceState) (m i : String)
    → SameTimers st (request_fresh_observation env st m i)
unfolding request_fresh_observation
request_fresh_observation-SameTimers env st m i = elim (Option-cases (lookup m st.store.monitors)) [
  | inl e ↦
      rw (e, request_fresh_observation)
        (record { timers = refl; scheduled = refl; next_handle = refl })
  | inr (x, e) ↦ rw (e, request_fresh_observation) (ask_each-SameTimers env st i x.control_paths)
]

after_success-SameTimers :
    (env : Env) (st : ServiceState) (p : CommandPayload) → SameTimers st (after_success env st p)
unfolding after_success
after_success-SameTimers env st (CommandPayload.set_monitor_input m i s) =
    let asked =
      request_fresh_observation-SameTimers env (with_store st (note_active_input st.store m i)) m
        i in
    record { timers = asked.timers; scheduled = asked.scheduled; next_handle = asked.next_handle }
after_success-SameTimers env st (CommandPayload.set_monitor_brightness m b) = record {
  timers = refl;
  scheduled = refl;
  next_handle = refl;
}
after_success-SameTimers env st (CommandPayload.set_monitor_power m p) = record {
  timers = refl;
  scheduled = refl;
  next_handle = refl;
}
after_success-SameTimers env st (CommandPayload.set_peripheral_owner o) = record {
  timers = refl;
  scheduled = refl;
  next_handle = refl;
}

conclude-IsTimed :
    (env : Env) (st : ServiceState) (now : ℕ) (c : DeskCommand) (id : String) (r : AgentResult)
    → IsTimed (some id) st
    → IsTimed none (conclude env st now c id r)
unfolding conclude
conclude-IsTimed env st now c id ok h =
    let u = update st now id (ended CommandStatus.succeeded none) in
    Shrinks-IsTimed (after_success-SameTimers env u c.payload)
      (subst (Shrinks (commands_of u)) (sym (commands-after_success env u c.payload))
        (Shrinks-refl _))
      (end-IsTimed st now id CommandStatus.succeeded none succeeded_over h)
conclude-IsTimed env st now c id (failure e) h =
    end-IsTimed st now id CommandStatus.failed (some (reported_error e)) failed_over h

pub on_agent_result-IsTimed :
    (env : Env) (st : ServiceState) (now : ℕ) (id : String) (r : AgentResult)
    → IsTimed none st
    → IsTimed none (on_agent_result env st now id r)
unfolding on_agent_result
on_agent_result-IsTimed env st now id r h = elim (Option-cases (live_command st id)) [
  | inl e ↦ rw (e, on_agent_result) h
  | inr (c, e) ↦
      rw (e, on_agent_result)
        (conclude-IsTimed env (clear_timer st id) now c id r
          (clear_timer-IsTimed st id (excepted id h)))
]

fail_each-IsTimed :
    (st : ServiceState) (now : ℕ) (agent : String) (cs : List DeskCommand)
    → IsTimed none st
    → IsTimed none (fail_each st now agent cs)
unfolding fail_each
fail_each-IsTimed st now agent [] h = h
fail_each-IsTimed st now agent (c ∷ cs) h = elim (Bool-cases (carried_by agent c)) [
  | inl e ↦ rw e (
      fail_each-IsTimed (fail_command st now c.id disconnected_error) now agent cs
        (fail_command-IsTimed st now c.id disconnected_error (excepted c.id h)))
  | inr e ↦ rw e (fail_each-IsTimed st now agent cs h)
]

pub fail_commands_for_agent-IsTimed :
    (st : ServiceState) (now : ℕ) (agent : String)
    → IsTimed none st
    → IsTimed none (fail_commands_for_agent st now agent)
unfolding fail_commands_for_agent
fail_commands_for_agent-IsTimed st now agent h =
    fail_each-IsTimed st now agent (values (commands_of st)) h

live_command-none :
    (st : ServiceState) (id : String) (c : DeskCommand)
    → live_command st id ≡ none
    → ¬ (Flies (commands_of st) id c)
live_command-none st id c e (there, flying) = ground arith

pub on_timeout-IsTimed :
    (env : Env) (st : ServiceState) (now : ℕ) (t : Timeout)
    → Memᴰ t st.scheduled
    → IsTimed none st
    → IsTimed none (on_timeout env st now t)
unfolding on_timeout
on_timeout-IsTimed env st now t m h =
    let rest = fired-IsTimed st t m h in
    elim (Option-cases (live_command (fired st t) t.command_id)) [
      | inl e ↦
          rw (e, on_timeout)
            (closed (fired st t) t.command_id
              (λ c f. absurd (live_command-none (fired st t) t.command_id c e f)) rest)
      | inr (c, e) ↦
          rw (e, on_timeout)
            (end-IsTimed (fired st t) now t.command_id CommandStatus.timed_out
              (some (timeout_error env)) timed_out_over rest)
    ]

settle-IsTimed :
    (st : ServiceState) (now : ℕ) (id : String) (r : PortResult)
    → IsTimed none st
    → IsTimed none (settle st now id r)
unfolding settle
settle-IsTimed st now id PortResult.ok h =
    end-IsTimed st now id CommandStatus.succeeded none succeeded_over (excepted id h)
settle-IsTimed st now id (PortResult.refused e) h =
    fail_command-IsTimed st now id (or_else e switch_failed) (excepted id h)

pub finish_peripheral-IsTimed :
    (st : ServiceState) (now : ℕ) (run : PeripheralRun) (r : PortResult)
    (states : List ObservedSwitchState)
    → IsTimed none st
    → IsTimed none (finish_peripheral st now run r states)
unfolding finish_peripheral
finish_peripheral-IsTimed st now run r states h =
    settle-IsTimed _ now run.command_id r
      (store-IsTimed st _ (commands-observe_each st.store now _ _ run.peripheral_ids) h)

pub on_timeout-ends :
    (env : Env) (st : ServiceState) (now : ℕ) (t : Timeout) (x : DeskCommand)
    → ¬ (Flies (commands_of (on_timeout env st now t)) t.command_id x)
unfolding on_timeout
on_timeout-ends env st now t x f = elim (Option-cases (live_command (fired st t) t.command_id)) [
  | inl e ↦
      live_command-none (fired st t) t.command_id x e
        (subst (λ o. Flies (commands_of (timed_out o)) t.command_id x) e f)
  | inr (c, e) ↦
      ended-update (fired st t) now t.command_id CommandStatus.timed_out (some (timeout_error env))
        x timed_out_over (subst (λ o. Flies (commands_of (timed_out o)) t.command_id x) e f)
]
  where
    timed_out : Option DeskCommand → ServiceState
    timed_out none = fired st t
    timed_out (some c) =
        update (fired st t) now t.command_id
          (ended CommandStatus.timed_out (some (timeout_error env)))
