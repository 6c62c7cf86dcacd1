-- ===== src/Service/Timers/Issuing.antt =====
-- A request leaves no monitor command without a timeout: the new command gets one or fails.
use desk_control.Common.{
  ℕ, String, false, Option, none, some, lookup, insert, lookup-insert, ◌≡◌, refl, sym, ◌∙◌, ap,
  subst, arith, Option-cases, Bool-cases, inl, inr, ◌==◌, string_eq,
}
use desk_control.Domain.Command.{
  CommandPayload, CommandStatus, CommandError, DeskCommand, PeripheralOrder, set_peripheral_owner,
  command_target_key,
}
use desk_control.Domain.Command.Targets.{monitor_target}
use desk_control.Domain.Monitor.{Monitor, MonitorInput, MonitorControlPath}
use desk_control.Domain.State.{StateOrigin}
use desk_control.Store.{DeskStore, touch}
use desk_control.Store.Commands.{put_command}
use desk_control.Store.Commands.Evolution.{Shrinks, Shrinks-refl, prune_commands-Shrinks}
use desk_control.Service.{
  Env, Stamp, ServiceState, with_store, clear_timer, fail_command, supersede, superseded_error,
  find_in_flight_for_target, create_command, new_command, dispatch, send, command,
}
use desk_control.Service.Creating.{created_flies, created_same, begin_peripheral-Shrinks}
use desk_control.Service.Monitors.{
  MonitorRequest, FeatureRequest, carry_out, issue_input, issue_feature, desire_source,
  input_payload, unreachable_message, uncarried_message,
}
use desk_control.Service.Peripherals.{
  PeripheralRequest, begin_peripheral, desire_owners, issue_owner,
}
use desk_control.Service.Retiring.{commands_of, failed_over, superseded_over}
use desk_control.Service.Steps.{commands-desire_owners}
use desk_control.Service.Timers.{
  IsTimed, SameTimers, excepted, Shrinks-IsTimed, clear_timer-IsTimed, closed,
  start_timeout-IsTimed, end-IsTimed,
}

unmoved : (st : ServiceState) (s : DeskStore) → SameTimers st (with_store st s)
unmoved st s = record { timers = refl; scheduled = refl; next_handle = refl }

-- A change of the store that keeps the commands.
pub store-IsTimed :
    {but : Option String} (st : ServiceState) (s : DeskStore)
    → s.commands ≡ st.store.commands
    → IsTimed but st
    → IsTimed but (with_store st s)
store-IsTimed st s e =
    Shrinks-IsTimed (unmoved st s) (subst (Shrinks (commands_of st)) (sym e) (Shrinks-refl _))

pub fail_command-IsTimed :
    (st : ServiceState) (now : ℕ) (id : String) (e : CommandError)
    → IsTimed (some id) st
    → IsTimed none (fail_command st now id e)
unfolding fail_command
fail_command-IsTimed st now id e h =
    end-IsTimed (clear_timer st id) now id CommandStatus.failed _ failed_over
      (clear_timer-IsTimed st id h)

supersede-IsTimed :
    (st : ServiceState) (now : ℕ) (key : String)
    → IsTimed none st
    → IsTimed none (supersede st now key)
unfolding supersede
supersede-IsTimed st now key h = elim (Option-cases (find_in_flight_for_target st key)) [
  | inl e ↦ rw (e, supersede) h
  | inr (c, e) ↦
      rw (e, supersede)
        (end-IsTimed (clear_timer st c.id) now c.id CommandStatus.superseded (some superseded_error)
          superseded_over (clear_timer-IsTimed st c.id (excepted c.id h)))
]

put_command-IsTimed :
    (st : ServiceState) (c : DeskCommand)
    → IsTimed none st
    → IsTimed (some c.id) (with_store st (put_command st.store c))
unfolding put_command touch
put_command-IsTimed st c h =
    Shrinks-IsTimed (unmoved put _) (prune_commands-Shrinks put.store) (record {
      fresh = h.fresh;
      owner = h.owner;
      owned = h.owned;
      covered = λ i x ne f mon.
          let other : (c.id == i) ≡ false = elim (Bool-cases (c.id == i)) [
            | inl e ↦ absurd (ne (ground arith))
            | inr e ↦ e
          ] in
          h.covered i x (λ e. cc)
            (ground (arith, lookup-insert i c.id c st.store.commands, f.0), f.1) mon;
    })
  where
    put : ServiceState
    put = with_store st (record (st.store) { commands = insert c.id c st.store.commands })

module _ (env : Env) (st : ServiceState) (stamp : Stamp) (payload : CommandPayload)
    (origin : StateOrigin) (preset_id command_id : Option String) where
  create_command-IsTimed :
      IsTimed none st
      → IsTimed
          (some (new_command env stamp payload origin preset_id command_id).id)
          (create_command env st stamp payload origin preset_id command_id)
  unfolding create_command
  create_command-IsTimed h =
      put_command-IsTimed (supersede st stamp.now (command_target_key payload))
        (new_command env stamp payload origin preset_id command_id)
        (supersede-IsTimed st stamp.now (command_target_key payload) h)

carry_out-IsTimed :
    (env : Env) (st : ServiceState) (now : ℕ) (c : DeskCommand) (message : String)
    (path : Option MonitorControlPath)
    → IsTimed (some c.id) st
    → IsTimed none (carry_out env st now c message path)
unfolding carry_out dispatch
carry_out-IsTimed env st now c message none h = fail_command-IsTimed st now c.id _ h
carry_out-IsTimed env st now c message (some path) h =
    elim (Bool-cases (env.dispatcher.is_open path.agent_id)) [
      | inl e ↦ rw e (
          start_timeout-IsTimed env (send st path.agent_id (command c.id c.payload c.deadline_at))
            now c path.agent_id
            (Shrinks-IsTimed (record { timers = refl; scheduled = refl; next_handle = refl })
              (Shrinks-refl _) h))
      | inr e ↦ rw e (fail_command-IsTimed st now c.id _ h)
    ]

module _ (env : Env) (st : ServiceState) (stamp : Stamp) (h : IsTimed none st) where
  pub issue_input-IsTimed :
      (args : MonitorRequest) (m : Monitor) (input : MonitorInput)
      → IsTimed none (issue_input env st stamp args m input)
  unfolding issue_input desire_source
  issue_input-IsTimed args m input =
      let payload = input_payload m input args.source_computer_id in
      let c = new_command env stamp payload args.origin args.preset_id args.command_id in
      let made = create_command env st stamp payload args.origin args.preset_id args.command_id in
      carry_out-IsTimed env _ stamp.now c unreachable_message _ (
        store-IsTimed made (desire_source made.store args m.id c) refl (
          create_command-IsTimed env st stamp payload args.origin args.preset_id args.command_id h))

  pub issue_feature-IsTimed :
      (args : FeatureRequest) (m : Monitor) → IsTimed none (issue_feature env st stamp args m)
  unfolding issue_feature
  issue_feature-IsTimed args m =
      carry_out-IsTimed env _ stamp.now
        (new_command env stamp args.payload args.origin none args.command_id) uncarried_message _
        (create_command-IsTimed env st stamp args.payload args.origin none args.command_id h)

  -- A switch command has no timeout, and is no monitor command.
  pub issue_owner-IsTimed :
      (args : PeripheralRequest) (order : PeripheralOrder)
      → IsTimed none (issue_owner env st stamp args order)
  unfolding issue_owner begin_peripheral new_command monitor_target
  issue_owner-IsTimed args order =
      let payload = set_peripheral_owner order in
      let c = new_command env stamp payload args.origin args.preset_id args.command_id in
      let made = create_command env st stamp payload args.origin args.preset_id args.command_id in
      let wishing = with_store made (desire_owners made.store args c order.peripheral_ids) in
      let same = commands-desire_owners made.store args c order.peripheral_ids in
      let created = λ (x : DeskCommand) (e : lookup c.id (commands_of wishing) ≡ some x).
        created_same env st stamp payload args.origin args.preset_id args.command_id x
          (ap (lookup c.id) (sym same) ∙ e) in
      let flies = λ (x : DeskCommand) (e : lookup c.id (commands_of wishing) ≡ some x).
        created_flies env st stamp payload args.origin args.preset_id args.command_id x
          (ap (lookup c.id) (sym same) ∙ e) in
      let moved = begin_peripheral-Shrinks env wishing stamp.now c flies order in
      closed (begin_peripheral wishing stamp.now c order) c.id
        (λ x f.
          let (y, (there, _), payload_same) = moved.flew c.id x f in
          ap monitor_target
            (sym payload_same ∙ ap (λ (z : DeskCommand). z.payload) (created y there)))
        (Shrinks-IsTimed (record { timers = refl; scheduled = refl; next_handle = refl }) moved
          (store-IsTimed made (desire_owners made.store args c order.peripheral_ids) same (
            create_command-IsTimed env st stamp payload args.origin args.preset_id args.command_id
              h)))
