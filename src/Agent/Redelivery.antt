-- ===== src/Agent/Redelivery.antt =====
-- A command that is delivered again while it is under way.
use desk_control.Common.{
  ℕ, String, false, [], ◌∷◌, ◌++◌, contains, ◌≡◌, ◌∙◌, ap, arith, Option-cases, inl, inr, string_eq,
  nat_eq, option_eq,
}
use desk_control.Domain.Command.{CommandPayload}
use desk_control.Protocol.Frames.{AgentMessage}
use desk_control.Hardware.{ProviderCall}
use desk_control.Agent.{AgentRuntime, AgentOptions, send}
use desk_control.Agent.Commands.{handle_command, run_execution, calls, execute}
use desk_control.Agent.Idempotence.{Deeds, deeds-send}

module _ (options : AgentOptions) where
  monitors-send : (s : AgentRuntime) (m : AgentMessage) → (send s m).monitors ≡ s.monitors
  unfolding send
  monitors-send s m = elim (Option-cases s.transport) [
    | inl e ↦ ground arith
    | inr (t, e) ↦ ground arith
  ]

  -- A command that is not known to be carried out goes to the provider.
  fresh_lem :
      (s : AgentRuntime) (now : ℕ) (id : String) (p : CommandPayload) (deadline : ℕ)
      (c : ProviderCall)
      → contains s.handled_commands id ≡ false
      → execute options s.monitors now id p deadline ≡ calls c
      → ((handle_command options s now id p deadline).calls ≡ s.calls ++ c ∷ [])
        × ((handle_command options s now id p deadline).handled_commands ≡ s.handled_commands)
        × ((handle_command options s now id p deadline).monitors ≡ s.monitors)
  unfolding handle_command run_execution
  fresh_lem s now id p deadline c fresh asks =
      let acked = deeds-send options s (AgentMessage.command_ack id) in
      rw (fresh, handle_command)
        (rw (asks, run_execution)
          (
            ap (λ (x : Deeds). x.calls ++ c ∷ []) acked,
            ap (λ (x : Deeds). x.handled) acked,
            monitors-send s (AgentMessage.command_ack id),
          ))

  -- A command that is delivered again before the provider has answered the first delivery is asked of
  -- the provider a second time: the ids are noted only when a command has gone well.
  pub redelivered_runs_twice :
      (s : AgentRuntime) (now later : ℕ) (id : String) (p : CommandPayload) (deadline : ℕ)
      (c c' : ProviderCall)
      → contains s.handled_commands id ≡ false
      → execute options s.monitors now id p deadline ≡ calls c
      → execute options s.monitors later id p deadline ≡ calls c'
      → (handle_command options
          (handle_command options s now id p deadline)
          later
          id
          p
          deadline).calls
        ≡ (s.calls ++ c ∷ []) ++ c' ∷ []
  redelivered_runs_twice s now later id p deadline c c' fresh first second =
      let (asked, unknown, seen) = fresh_lem s now id p deadline c fresh first in
      (fresh_lem (handle_command options s now id p deadline) later id p deadline c'
        (ap (λ l. contains l id) unknown ∙ fresh)
        (ap (λ l. execute options l later id p deadline) seen ∙ second)).0
      ∙ ap (λ l. l ++ c' ∷ []) asked
