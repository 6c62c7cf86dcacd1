-- ===== src/Agent/Links.antt =====
-- How the agent is connected, and what leaves that alone.
use desk_control.Common.{
  ℕ, String, List, Bool, true, false, Option, none, some, contains, ◌≡◌, inl, inr, refl, ◌∙◌, arith,
  Option-cases, Bool-cases, nat_eq, option_eq, string_eq,
}
use desk_control.Domain.Command.{CommandPayload}
use desk_control.Protocol.Frames.{AgentMessage}
use desk_control.Service.Responses.{AgentResult, ok, failure}
use desk_control.Protocol.{MonitorReport}
use desk_control.Agent.{
  AgentRuntime, AgentOptions, Attempt, Purpose, reporting, answering, send, wait,
}
use desk_control.Agent.Commands.{
  Readings, push_observed_state, readings_arrived, handle_command, finish_command, note_handled,
  run_execution, Execution, calls, refuses, execute,
}
use desk_control.Agent.Events.{
  ControllerFrame, unreadable, welcome, reject, ping, refresh_inventory, command, handle_message,
  inventory_arrived, start_periodic_work, send_heartbeat,
}

abbrev pub is_set {ℓ} : {A : Type ℓ} → Option A → Bool
is_set none = false
is_set (some _) = true

-- The parts of the state that say how the agent is connected.
pub record Link : Type 0 where
  pub transport : Option ℕ
  pub attempt : Option Attempt
  pub reconnect_pending : Bool
  pub stopped : Bool
  pub connected : Bool

abbrev pub link_of : AgentRuntime → Link
link_of s = record {
  transport = s.transport;
  attempt = s.attempt;
  reconnect_pending = s.reconnect_pending;
  stopped = s.stopped;
  connected = s.connected;
}

module _ (options : AgentOptions) where
  pub link-send : (s : AgentRuntime) (m : AgentMessage) → link_of (send s m) ≡ link_of s
  unfolding send
  link-send s m = elim (Option-cases s.transport) [
    | inl e ↦ ground arith
    | inr (t, e) ↦ ground arith
  ]

  pub link-push :
      (s : AgentRuntime) (r : Readings) → link_of (push_observed_state options s r).0 ≡ link_of s
  unfolding push_observed_state
  link-push s r = elim (Option-cases r.observed) [
    | inl e ↦ rw (e, push_observed_state) refl
    | inr (o, e) ↦ rw (e, push_observed_state) (link-send s _)
  ]

  pub link-readings :
      (s : AgentRuntime) (r : Readings) (p : Purpose)
      → link_of (readings_arrived options s r p) ≡ link_of s
  unfolding readings_arrived wait
  link-readings s r reporting = link-push s r
  link-readings s r (answering id x) = link-push s r

  pub link-finish :
      (s : AgentRuntime) (id : String) (x : AgentResult)
      → link_of (finish_command s id x) ≡ link_of s
  unfolding finish_command note_handled wait
  link-finish s id ok = refl
  link-finish s id (failure e) = refl

  pub link-run_execution :
      (s : AgentRuntime) (id : String) (x : Execution) → link_of (run_execution s id x) ≡ link_of s
  unfolding run_execution
  link-run_execution s id (calls c) = refl
  link-run_execution s id (refuses c m) =
      link-finish s id (failure (some (record { code = c; message = m; retryable = false })))

  pub link-handle_command :
      (s : AgentRuntime) (now : ℕ) (id : String) (p : CommandPayload) (d : ℕ)
      → link_of (handle_command options s now id p d) ≡ link_of s
  unfolding handle_command wait
  link-handle_command s now id p d = elim (Bool-cases (contains s.handled_commands id)) [
    | inl e ↦ rw (e, handle_command) (link-send s _)
    | inr e ↦
        rw (e, handle_command)
          (link-run_execution _ id (execute options s.monitors now id p d) ∙ link-send s _)
  ]

  pub link-inventory :
      (s : AgentRuntime) (i : Option (List MonitorReport))
      → link_of (inventory_arrived s i) ≡ link_of s
  unfolding inventory_arrived wait
  link-inventory s none = refl
  link-inventory s (some monitors) = link-send _ _

  pub link-handle_message :
      (s : AgentRuntime) (now : ℕ) (f : ControllerFrame)
      → link_of (handle_message options s now f) ≡ link_of s
  unfolding handle_message start_periodic_work send_heartbeat wait
  link-handle_message s now (unreadable detail) = link-send s _
  link-handle_message s now (welcome heartbeat observe) = refl
  link-handle_message s now reject = refl
  link-handle_message s now ping = link-send s _
  link-handle_message s now refresh_inventory = refl
  link-handle_message s now (command id p d) = link-handle_command s now id p d
