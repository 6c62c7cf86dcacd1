-- ===== src/Service/Timers/Upkeep.antt =====
-- Every step of the service keeps a timeout scheduled for each monitor command in flight.
use desk_control.Common.{ℕ, String, none, ◌≢◌, sym, subst, Memᴰ, string_eq}
use desk_control.Domain.Command.{DeskCommand}
use desk_control.Domain.Command.Targets.{monitor_target}
use desk_control.Store.Commands.Evolution.{Flies}
use desk_control.Service.{Env, ServiceState, Timeout}
use desk_control.Service.Requests.{
  set_monitor_source-keeps, issue_monitor_feature-keeps, set_peripheral_owner_request-keeps,
}
use desk_control.Service.Responses.{on_timeout}
use desk_control.Service.Retiring.{commands_of}
use desk_control.Service.Steps.{
  Step, Reach, here, next, source_requested, feature_requested, owner_requested, acknowledged,
  concluded, expired, agent_lost, switch_answered, store_changed,
}
use desk_control.Service.Timers.{IsTimed}
use desk_control.Service.Timers.Issuing.{
  store-IsTimed, issue_input-IsTimed, issue_feature-IsTimed, issue_owner-IsTimed,
}
use desk_control.Service.Timers.Ending.{
  on_agent_ack-IsTimed, on_agent_result-IsTimed, fail_commands_for_agent-IsTimed,
  on_timeout-IsTimed, finish_peripheral-IsTimed, on_timeout-ends,
}

module _ (env : Env) where
  pub Step-IsTimed : {st u : ServiceState} → Step env st u → IsTimed none st → IsTimed none u
  Step-IsTimed {st} (source_requested stamp args) h =
      set_monitor_source-keeps env st stamp (IsTimed none) h args
        (issue_input-IsTimed env st stamp h args)
  Step-IsTimed {st} (feature_requested stamp args) h =
      issue_monitor_feature-keeps env st stamp (IsTimed none) h args
        (issue_feature-IsTimed env st stamp h args)
  Step-IsTimed {st} (owner_requested stamp args) h =
      set_peripheral_owner_request-keeps env st stamp (IsTimed none) h args
        (issue_owner-IsTimed env st stamp h args)
  Step-IsTimed {st} (acknowledged now id) h = on_agent_ack-IsTimed st now id h
  Step-IsTimed {st} (concluded now id r) h = on_agent_result-IsTimed env st now id r h
  Step-IsTimed {st} (expired now t m) h = on_timeout-IsTimed env st now t m h
  Step-IsTimed {st} (agent_lost now agent) h = fail_commands_for_agent-IsTimed st now agent h
  Step-IsTimed {st} (switch_answered now run rest r states m) h =
      finish_peripheral-IsTimed (record st { running = rest }) now run r states
        (record { fresh = h.fresh; owner = h.owner; owned = h.owned; covered = h.covered })
  Step-IsTimed {st} (store_changed s same) h = store-IsTimed st s same h

  -- After any number of steps, if it was so at first, each monitor
  -- command in flight has a timeout scheduled under its id, whether it was acknowledged or not.
  Reach-IsTimed : {st u : ServiceState} → IsTimed none st → Reach env st u → IsTimed none u
  Reach-IsTimed h here = h
  Reach-IsTimed h (next r step) = Step-IsTimed step (Reach-IsTimed h r)

  -- After any number of steps, if every monitor command in flight had a timeout at first, a monitor
  -- command in flight, acknowledged or not, has a pending timeout of its own, and when that fires
  -- the command is in flight no more: none hangs for ever, also if its agent never answers.
  pub Reach-Ends :
      {st u : ServiceState} (i : String) (c : DeskCommand)
      → IsTimed none st
      → Reach env st u
      → Flies (commands_of u) i c
      → monitor_target c.payload ≢ none
      → (t : Timeout) × Memᴰ t u.scheduled
        × ((now : ℕ) (x : DeskCommand) → ¬ (Flies (commands_of (on_timeout env u now t)) i x))
  Reach-Ends {st} {u} i c h r f mon =
      let (t, m, for_it) = (Reach-IsTimed h r).covered i c (λ e. cc) f mon in
      (
        t,
        m,
        λ now x g.
            on_timeout-ends env u now t x
              (subst (λ k. Flies (commands_of (on_timeout env u now t)) k x) (sym for_it) g),
      )
