-- ===== src/Service/Steps.antt =====
-- The command service as a state machine: every change of its state is a step. Requests come from
-- clients, answers from agents and switches, timeouts from the clock; a change of the desk store
-- that leaves the commands alone is one step whatever it is.
use desk_control.Common.{
  ℕ, String, List, [], ◌∷◌, none, lookup, ◌≡◌, refl, ap, ◌∙◌, subst, sym, string_eq, Memᴰ,
}
use desk_control.Domain.Capability.{monitor_capability_eq, switch_capability_eq}
use desk_control.Domain.Command.{PeripheralOrder, set_peripheral_owner, DeskCommand}
use desk_control.Domain.Monitor.{Monitor, MonitorInput}
use desk_control.Store.{DeskStore}
use desk_control.Service.{
  Env, Stamp, ServiceState, Timeout, PeripheralRun, with_store, new_command, create_command,
}
use desk_control.Service.Creating.{
  IsOrderly, Shrinks-IsOrderly, create_command-IsOrderly, created_flies, carry_out-Shrinks,
  begin_peripheral-Shrinks,
}
use desk_control.Service.Monitors.{
  MonitorRequest, FeatureRequest, issue_input, issue_feature, set_monitor_source,
  issue_monitor_feature, desire_source, input_payload, unreachable_message, uncarried_message,
}
use desk_control.Service.Peripherals.{
  PeripheralRequest, PortResult, ObservedSwitchState, set_peripheral_owner_request, issue_owner,
  finish_peripheral, desire_owner, desire_owners,
}
use desk_control.Service.Requests.{
  set_monitor_source-keeps, issue_monitor_feature-keeps, set_peripheral_owner_request-keeps,
}
use desk_control.Service.Responses.{
  AgentResult, on_agent_ack, on_agent_result, fail_commands_for_agent, on_timeout,
}
use desk_control.Service.Retiring.{
  commands_of, on_agent_ack-Shrinks, on_agent_result-Shrinks, fail_commands_for_agent-Shrinks,
  on_timeout-Shrinks, finish_peripheral-Shrinks,
}

module _ (env : Env) where
  pub data Step (st : ServiceState) : ServiceState → Type 0 where
    source_requested :
        (stamp : Stamp) (args : MonitorRequest) → Step st (set_monitor_source env st stamp args).0
    feature_requested :
        (stamp : Stamp) (args : FeatureRequest)
        → Step st (issue_monitor_feature env st stamp args).0
    owner_requested :
        (stamp : Stamp) (args : PeripheralRequest)
        → Step st (set_peripheral_owner_request env st stamp args).0
    acknowledged : (now : ℕ) (id : String) → Step st (on_agent_ack st now id)
    concluded :
        (now : ℕ) (id : String) (r : AgentResult) → Step st (on_agent_result env st now id r)
    expired : (now : ℕ) (t : Timeout) → Memᴰ t st.scheduled → Step st (on_timeout env st now t)
    agent_lost : (now : ℕ) (agent : String) → Step st (fail_commands_for_agent st now agent)
    switch_answered :
        (now : ℕ) (run : PeripheralRun) (rest : List PeripheralRun) (r : PortResult)
        (states : List ObservedSwitchState)
        → Memᴰ run st.running
        → Step st (finish_peripheral (record st { running = rest }) now run r states)
    store_changed : (s : DeskStore) → s.commands ≡ st.store.commands → Step st (with_store st s)

  pub data Reach (st : ServiceState) : ServiceState → Type 0 where
    here : Reach st st
    next : {t u : ServiceState} → Reach st t → Step t u → Reach st u

pub commands-desire_owners :
    (s : DeskStore) (args : PeripheralRequest) (c : DeskCommand) (ids : List String)
    → (desire_owners s args c ids).commands ≡ s.commands
unfolding desire_owners
commands-desire_owners s args c [] = refl
commands-desire_owners s args c (id ∷ ids) =
    commands-desire_owners (desire_owner s args c id) args c ids

module _ (env : Env) (st : ServiceState) (stamp : Stamp) (o : IsOrderly (commands_of st)) where
  issue_input-IsOrderly :
      (args : MonitorRequest) (m : Monitor) (input : MonitorInput)
      → IsOrderly (commands_of (issue_input env st stamp args m input))
  unfolding issue_input desire_source
  issue_input-IsOrderly args m input =
      let payload = input_payload m input args.source_computer_id in
      Shrinks-IsOrderly
        (carry_out-Shrinks env _ stamp.now
          (new_command env stamp payload args.origin args.preset_id args.command_id)
          (created_flies env st stamp payload args.origin args.preset_id args.command_id)
          unreachable_message _)
        (create_command-IsOrderly env st stamp payload args.origin args.preset_id args.command_id o)

  issue_feature-IsOrderly :
      (args : FeatureRequest) (m : Monitor)
      → IsOrderly (commands_of (issue_feature env st stamp args m))
  unfolding issue_feature
  issue_feature-IsOrderly args m =
      Shrinks-IsOrderly
        (carry_out-Shrinks env _ stamp.now
          (new_command env stamp args.payload args.origin none args.command_id)
          (created_flies env st stamp args.payload args.origin none args.command_id)
          uncarried_message _)
        (create_command-IsOrderly env st stamp args.payload args.origin none args.command_id o)

  issue_owner-IsOrderly :
      (args : PeripheralRequest) (order : PeripheralOrder)
      → IsOrderly (commands_of (issue_owner env st stamp args order))
  unfolding issue_owner
  issue_owner-IsOrderly args order =
      let payload = set_peripheral_owner order in
      let c = new_command env stamp payload args.origin args.preset_id args.command_id in
      let created =
        create_command env st stamp payload args.origin args.preset_id args.command_id in
      let same = commands-desire_owners created.store args c order.peripheral_ids in
      Shrinks-IsOrderly
        (begin_peripheral-Shrinks env
          (with_store created (desire_owners created.store args c order.peripheral_ids)) stamp.now c
          (λ x h.
            created_flies env st stamp payload args.origin args.preset_id args.command_id x
              (ap (lookup c.id) (sym same) ∙ h))
          order)
        (subst IsOrderly (sym same) (
          create_command-IsOrderly env st stamp payload args.origin args.preset_id args.command_id
            o))

abbrev OrderlyState : ServiceState → Type 0
OrderlyState st = IsOrderly (commands_of st)

module _ (env : Env) where
  -- Every step keeps the commands in order: each stands under its own id, once, and of two commands
  -- in flight no two act on one target.
  pub Step-IsOrderly :
      {st u : ServiceState} → Step env st u → IsOrderly (commands_of st) → IsOrderly (commands_of u)
  Step-IsOrderly {st} (source_requested stamp args) o =
      set_monitor_source-keeps env st stamp OrderlyState o args
        (issue_input-IsOrderly env st stamp o args)
  Step-IsOrderly {st} (feature_requested stamp args) o =
      issue_monitor_feature-keeps env st stamp OrderlyState o args
        (issue_feature-IsOrderly env st stamp o args)
  Step-IsOrderly {st} (owner_requested stamp args) o =
      set_peripheral_owner_request-keeps env st stamp OrderlyState o args
        (issue_owner-IsOrderly env st stamp o args)
  Step-IsOrderly {st} (acknowledged now id) o = Shrinks-IsOrderly (on_agent_ack-Shrinks st now id) o
  Step-IsOrderly {st} (concluded now id r) o =
      Shrinks-IsOrderly (on_agent_result-Shrinks env st now id r) o
  Step-IsOrderly {st} (expired now t m) o = Shrinks-IsOrderly (on_timeout-Shrinks env st now t) o
  Step-IsOrderly {st} (agent_lost now agent) o =
      Shrinks-IsOrderly (fail_commands_for_agent-Shrinks st now agent) o
  Step-IsOrderly {st} (switch_answered now run rest r states m) o =
      Shrinks-IsOrderly (finish_peripheral-Shrinks (record st { running = rest }) now run r states)
        o
  Step-IsOrderly (store_changed s same) o = subst IsOrderly (sym same) o

  -- After any number of steps the commands are in order, if they were at first: each stands under its
  -- own id, once, and no two commands in flight act on one target.
  pub Reach-IsOrderly :
      {st u : ServiceState}
      → IsOrderly (commands_of st)
      → Reach env st u
      → IsOrderly (commands_of u)
  Reach-IsOrderly o here = o
  Reach-IsOrderly o (next r step) = Step-IsOrderly step (Reach-IsOrderly o r)
