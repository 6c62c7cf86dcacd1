-- ===== src/Service/Outcomes.antt =====
-- What a request for a monitor leads to: refused without a trace, or recorded, and then sent to the
-- best agent or failed.
use desk_control.Common.{
  ℕ, String, true, false, List, [], ◌∷◌, ◌++◌, Option, none, some, lookup, ◌≡◌, ◌⊎◌, refl, ◌∙◌, ap,
  subst, arith, Option-cases, Bool-cases, inl, inr, lookup-insert, string_eq,
}
use desk_control.Domain.Capability.{MonitorCapability, has_capability, monitor_capability_eq}
use desk_control.Domain.Command.{CommandError, CommandPayload, DeskCommand, command_target_key}
use desk_control.Domain.Monitor.{
  Monitor, MonitorInput, MonitorControlPath, find_input_for_computer, select_control_path,
}
use desk_control.Domain.Monitor.Selection.{IsBestChoice, select_control_path-IsBestChoice}
use desk_control.Domain.State.{DesiredMonitorSource, StateOrigin, DesiredState}
use desk_control.Store.{DeskStore, or_else, touch}
use desk_control.Store.Commands.{put_command, prune_commands, update_command}
use desk_control.Store.Observations.{best_known_active_input, computer_on_input}
use desk_control.Service.{
  Env, Stamp, ServiceState, IssueResult, accepted, rejected, Message, command, with_store,
  new_command, create_command, dispatch, fail_command, start_timeout, supersede,
  find_in_flight_for_target, clear_timer, update, send, lost_agent_error,
}
use desk_control.Service.Monitors.{
  MonitorRequest, issue_input, set_monitor_source, desire_source, carry_out, input_payload,
  unreachable_message, no_control_path,
}

-- The parts of the state that bookkeeping leaves alone.
pub record SameDesk (st u : ServiceState) : Type 0 where
  pub outbox : u.outbox ≡ st.outbox
  pub monitors : u.store.monitors ≡ st.store.monitors
  pub observations : u.store.observations ≡ st.store.observations
  pub hints : u.store.last_known_active_inputs ≡ st.store.last_known_active_inputs
  pub agents : u.store.agents ≡ st.store.agents
  pub desired : u.store.desired ≡ st.store.desired
  pub config : u.store.config ≡ st.store.config

clear_timer-SameDesk : (st : ServiceState) (id : String) → SameDesk st (clear_timer st id)
unfolding clear_timer
clear_timer-SameDesk st id = ground arith

update-SameDesk :
    (st : ServiceState) (now : ℕ) (id : String) (patch : DeskCommand → DeskCommand)
    → SameDesk st (update st now id patch)
unfolding update update_command touch
update-SameDesk st now id patch = ground arith

SameDesk-trans : {st u v : ServiceState} → SameDesk st u → SameDesk u v → SameDesk st v
SameDesk-trans p q = record {
  outbox = q.outbox ∙ p.outbox;
  monitors = q.monitors ∙ p.monitors;
  observations = q.observations ∙ p.observations;
  hints = q.hints ∙ p.hints;
  agents = q.agents ∙ p.agents;
  desired = q.desired ∙ p.desired;
  config = q.config ∙ p.config;
}

supersede-SameDesk :
    (st : ServiceState) (now : ℕ) (key : String) → SameDesk st (supersede st now key)
unfolding supersede
supersede-SameDesk st now key = elim (Option-cases (find_in_flight_for_target st key)) [
  | inl e ↦ rw (e, supersede) (ground arith)
  | inr (c, e) ↦
      rw (e, supersede)
        (SameDesk-trans (clear_timer-SameDesk st c.id)
          (update-SameDesk (clear_timer st c.id) now c.id _))
]

put-SameDesk :
    (st : ServiceState) (c : DeskCommand) → SameDesk st (with_store st (put_command st.store c))
unfolding put_command prune_commands touch
put-SameDesk st c = ground arith

create_command-SameDesk :
    (env : Env) (st : ServiceState) (stamp : Stamp) (payload : CommandPayload)
    (origin : StateOrigin) (preset_id command_id : Option String)
    → SameDesk st (create_command env st stamp payload origin preset_id command_id)
unfolding create_command
create_command-SameDesk env st stamp payload origin preset_id command_id =
    let cleared = supersede st stamp.now (command_target_key payload) in
    SameDesk-trans (supersede-SameDesk st stamp.now (command_target_key payload))
      (put-SameDesk cleared (new_command env stamp payload origin preset_id command_id))

fail_command-SameDesk :
    (st : ServiceState) (now : ℕ) (id : String) (e : CommandError)
    → SameDesk st (fail_command st now id e)
unfolding fail_command
fail_command-SameDesk st now id e =
    SameDesk-trans (clear_timer-SameDesk st id) (update-SameDesk (clear_timer st id) now id _)

best_known_active_input-same :
    (s t : DeskStore) (id : String)
    → t.observations ≡ s.observations
    → t.last_known_active_inputs ≡ s.last_known_active_inputs
    → t.monitors ≡ s.monitors
    → best_known_active_input t id ≡ best_known_active_input s id
unfolding best_known_active_input computer_on_input
best_known_active_input-same s t id observations hints monitors =
    rw (observations, hints, monitors) refl

start_timeout-SameDesk :
    (env : Env) (st : ServiceState) (now : ℕ) (c : DeskCommand) (agent_id : String)
    → SameDesk st (start_timeout env st now c agent_id)
unfolding start_timeout
start_timeout-SameDesk env st now c agent_id =
    let marked = update-SameDesk st now c.id _ in
    record {
      outbox = marked.outbox;
      monitors = marked.monitors;
      observations = marked.observations;
      hints = marked.hints;
      agents = marked.agents;
      desired = marked.desired;
      config = marked.config;
    }

abbrev pub Outbox : Type 0
Outbox = List (String × Message)

-- Where a command went: to the agent of the path, or nowhere, since no path was found or the agent
-- was gone.
abbrev pub Posted : Env → Outbox → DeskCommand → Option MonitorControlPath → Outbox → Type 0
Posted env before c none after = after ≡ before
Posted env before c (some path) after =
    ((env.dispatcher.is_open path.agent_id ≡ true)
      × (after ≡ before ++ (path.agent_id, command c.id c.payload c.deadline_at) ∷ []))
    ⊎ ((env.dispatcher.is_open path.agent_id ≡ false) × (after ≡ before))

module _ (env : Env) (st : ServiceState) (now : ℕ) (c : DeskCommand) (message : String) where
  carry_out-desired :
      (path : Option MonitorControlPath)
      → (carry_out env st now c message path).store.desired ≡ st.store.desired
  unfolding carry_out dispatch
  carry_out-desired none = (fail_command-SameDesk st now c.id (no_control_path message)).desired
  carry_out-desired (some path) = elim (Bool-cases (env.dispatcher.is_open path.agent_id)) [
    | inl e ↦
        rw e
          (start_timeout-SameDesk env (send st path.agent_id (command c.id c.payload c.deadline_at))
            now c path.agent_id).desired
    | inr e ↦ rw e (fail_command-SameDesk st now c.id lost_agent_error).desired
  ]

  carry_out-Posted :
      (path : Option MonitorControlPath)
      → Posted env st.outbox c path (carry_out env st now c message path).outbox
  unfolding carry_out dispatch
  carry_out-Posted none = (fail_command-SameDesk st now c.id (no_control_path message)).outbox
  carry_out-Posted (some path) = elim (Bool-cases (env.dispatcher.is_open path.agent_id)) [
    | inl e ↦ rw e (
        inl (
          refl,
          (start_timeout-SameDesk env (send st path.agent_id (command c.id c.payload c.deadline_at))
              now c path.agent_id).outbox,
        ))
    | inr e ↦ rw e (inr (refl, (fail_command-SameDesk st now c.id lost_agent_error).outbox))
  ]

abbrev wish_of : MonitorRequest → String → DeskCommand → DesiredMonitorSource
wish_of args monitor_id c = record {
  monitor_id = monitor_id;
  source_computer_id = args.source_computer_id;
  requested_at = c.issued_at;
  origin = args.origin;
  command_id = some c.id;
  preset_id = args.preset_id;
}

module _ (env : Env) (st : ServiceState) (stamp : Stamp) (args : MonitorRequest) where
  -- What an accepted request leaves behind: the wish, under the command's id, and the message.
  pub record IsServed (m : Monitor) (input : MonitorInput) (t : ServiceState) : Type 0 where
    pub wish : DesiredMonitorSource
    pub wished : lookup m.id t.store.desired.monitor_sources ≡ some wish
    pub for_computer : wish.source_computer_id ≡ args.source_computer_id
    pub by_command : wish.command_id ≡ some (or_else args.command_id stamp.uuid)
    pub path : Option MonitorControlPath
    pub best :
        IsBestChoice
          (best_known_active_input st.store m.id)
          (env.dispatcher.is_online st.store.agents)
          m
          path
    pub posted :
        Posted env st.outbox
          (new_command env stamp
            (input_payload m input args.source_computer_id)
            args.origin
            args.preset_id
            args.command_id)
          path
          t.outbox

  issue_input-IsServed :
      (m : Monitor) (input : MonitorInput)
      → IsServed m input (issue_input env st stamp args m input)
  unfolding issue_input desire_source new_command
  issue_input-IsServed m input =
      let payload = input_payload m input args.source_computer_id in
      let c = new_command env stamp payload args.origin args.preset_id args.command_id in
      let made = create_command env st stamp payload args.origin args.preset_id args.command_id in
      let same =
        create_command-SameDesk env st stamp payload args.origin args.preset_id args.command_id in
      let wishing = with_store made (desire_source made.store args m.id c) in
      let active =
        best_known_active_input-same st.store wishing.store m.id same.observations same.hints
          same.monitors in
      let online : env.dispatcher.is_online wishing.store.agents
          ≡ env.dispatcher.is_online st.store.agents =
        ap env.dispatcher.is_online same.agents in
      let path =
        select_control_path m (best_known_active_input wishing.store m.id)
          (env.dispatcher.is_online wishing.store.agents) in
      let wish : DesiredMonitorSource = wish_of args m.id c in
      record {
        wish = wish;
        wished =
            ap (λ (d : DesiredState). lookup m.id d.monitor_sources)
              (carry_out-desired env wishing stamp.now c unreachable_message path)
            ∙ ground (arith, lookup-insert m.id m.id wish made.store.desired.monitor_sources);
        for_computer = refl;
        by_command = refl;
        path = path;
        best =
            subst (λ a. IsBestChoice a (env.dispatcher.is_online st.store.agents) m path) active
              (subst (λ o. IsBestChoice (best_known_active_input wishing.store m.id) o m path)
                online
                (select_control_path-IsBestChoice (best_known_active_input wishing.store m.id)
                  (env.dispatcher.is_online wishing.store.agents) m));
        posted =
            subst (λ o. Posted env o c path (issue_input env st stamp args m input).outbox)
              same.outbox (carry_out-Posted env wishing stamp.now c unreachable_message path);
      }

  -- A refused request has no effect at all; an accepted one names a known monitor that can switch
  -- and an input that is wired to the computer.
  abbrev pub Outcome : ServiceState × IssueResult → Type 0
  Outcome (t, rejected code message) = t ≡ st
  Outcome (t, accepted id) =
      (id ≡ or_else args.command_id stamp.uuid)
      × ((m : Monitor) × (input : MonitorInput) × (lookup args.monitor_id st.store.monitors
            ≡ some m)
          × (has_capability m.capabilities MonitorCapability.input_switch ≡ true)
          × (find_input_for_computer m args.source_computer_id ≡ some input)
          × IsServed m input t)

  -- A request for a monitor's source that is refused changes nothing. One that is accepted names a
  -- known monitor that can switch inputs and has an input wired to the computer; the wish is
  -- recorded under the command's id, and the command is sent once, to the agent of the best path
  -- if that agent can be reached, and to nobody otherwise or where no path is usable.
  pub set_monitor_source-Outcome : Outcome (set_monitor_source env st stamp args)
  unfolding set_monitor_source
  set_monitor_source-Outcome = elim (Option-cases (lookup args.monitor_id st.store.monitors)) [
    | inl e ↦ rw (e, set_monitor_source) refl
    | inr (m, e) ↦
        elim (Bool-cases (has_capability m.capabilities MonitorCapability.input_switch)) [
          | inr f ↦ rw (e, set_monitor_source, f) refl
          | inl f ↦ elim (Option-cases (find_input_for_computer m args.source_computer_id)) [
            | inl g ↦ rw (e, set_monitor_source, f, g) refl
            | inr (input, g) ↦
                rw (e, set_monitor_source, f, g)
                  (refl, (m, input, e, f, g, issue_input-IsServed m input))
          ]
        ]
  ]
