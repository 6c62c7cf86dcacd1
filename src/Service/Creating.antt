-- ===== src/Service/Creating.antt =====
-- A new command retires the one in flight for its target, so that a target has one at most.
use desk_control.Common.{
  ℕ, String, true, false, Option, none, some, lookup, insert, values, ◌≡◌, ◌≢◌, refl, sym, ◌∙◌,
  arith, Option-cases, Bool-cases, inl, inr, if◌then◌else◌, ◌==◌, string_eq, ap, find_sound,
  find-none, All-mem, lookup-values, values-lookup, lookup-insert, insert-NodupKeys,
}
use desk_control.Domain.Command.{
  CommandStatus, CommandPayload, DeskCommand, is_in_flight, command_target_key, PeripheralOrder,
}
use desk_control.Domain.Monitor.{MonitorControlPath}
use desk_control.Domain.State.{StateOrigin}
use desk_control.Store.{DeskStore, touch}
use desk_control.Store.Commands.{update_command, put_command}
use desk_control.Store.Commands.Evolution.{
  Commands, IsKeyed, Flies, HasOnePerTarget, Shrinks, Shrinks-HasOnePerTarget,
  update_command-Shrinks, prune_commands-Shrinks, lookup-prune_commands,
}
use desk_control.Service.{
  Env, Stamp, ServiceState, clear_timer, update, supersede, find_in_flight_for_target, is_live_for,
  ended, superseded_error, new_command, create_command, dispatch, start_timeout, send, command,
}
use desk_control.Service.Monitors.{carry_out, no_control_path}
use desk_control.Service.Peripherals.{begin_peripheral}
use desk_control.Service.Retiring.{
  commands_of, commands-clear_timer, fail_command-Shrinks, supersede-Shrinks, superseded_over,
}

-- The command map of the service in good order.
pub record IsOrderly (d : Commands) : Type 0 where
  pub keyed : IsKeyed d
  pub one : HasOnePerTarget d

pub Shrinks-IsOrderly : {d d' : Commands} → Shrinks d d' → IsOrderly d → IsOrderly d'
Shrinks-IsOrderly s o = record { keyed = s.keyed o.keyed; one = Shrinks-HasOnePerTarget s o.one }

abbrev pub IsFree : String → Commands → Type 0
IsFree key d = (i : String) (c : DeskCommand) → Flies d i c → command_target_key c.payload ≢ key

pub commands-update :
    (st : ServiceState) (now : ℕ) (id : String) (patch : DeskCommand → DeskCommand)
    (x : DeskCommand)
    → lookup id (commands_of st) ≡ some x
    → commands_of (update st now id patch)
      ≡ insert id (record (patch x) { updated_at = now }) (commands_of st)
unfolding update update_command touch
commands-update st now id patch x e = rw (e, update_command)

other :
    (i id : String) (x : DeskCommand) (d : Commands)
    → (id == i) ≡ false
    → lookup i (insert id x d) ≡ lookup i d
other i id x d miss = ground (arith, lookup-insert i id x d)

different : (i id : String) → (id == i) ≡ false → id ≢ i
different i id miss same = ground arith

live_parts :
    (key : String) (c : DeskCommand)
    → is_live_for key c ≡ true
    → (is_in_flight c.status ≡ true) × (command_target_key c.payload ≡ key)
live_parts key c e = (ground arith, ground arith)

module _ (st : ServiceState) (now : ℕ) (key : String) (o : IsOrderly (commands_of st)) where
  nothing_to_retire : find_in_flight_for_target st key ≡ none → IsFree key (commands_of st)
  unfolding find_in_flight_for_target
  nothing_to_retire e i c (here, lives) same =
      let idle =
        All-mem (λ x. is_live_for key x ≡ false) (values (commands_of st))
          (find-none (is_live_for key) (values (commands_of st)) e)
          (lookup-values i (commands_of st) here) in
      ground arith

  retired :
      (stale : DeskCommand)
      → find_in_flight_for_target st key ≡ some stale
      → IsFree key (
          commands_of (
            update
              (clear_timer st stale.id)
              now
              stale.id
              (ended CommandStatus.superseded (some superseded_error))))
  unfolding find_in_flight_for_target
  retired stale e i c (here, lives) same =
      let (live, listed) = find_sound (is_live_for key) (values (commands_of st)) e in
      let (i0, at) = values-lookup (commands_of st) o.keyed.once listed in
      let home : lookup stale.id (commands_of st) ≡ some stale =
        ap (λ k. lookup k (commands_of st)) (o.keyed.own_id i0 stale at) ∙ at in
      let after = ap (λ (s : DeskStore). s.commands) (commands-clear_timer st stale.id) in
      let moved =
        commands-update (clear_timer st stale.id) now stale.id
          (ended CommandStatus.superseded (some superseded_error)) stale
          (ap (lookup stale.id) after ∙ home) in
      let gone = record (ended CommandStatus.superseded (some superseded_error) stale) {
        updated_at = now;
      } in
      let there : lookup i (insert stale.id gone (commands_of st)) ≡ some c =
        ap (lookup i) (ap (insert stale.id gone) (sym after) ∙ sym moved) ∙ here in
      elim (Bool-cases (stale.id == i)) [
        | inl hit ↦
            ground (arith, there, lookup-insert i stale.id gone (commands_of st), superseded_over)
        | inr miss ↦
            let before : lookup i (commands_of st) ≡ some c =
              sym (other i stale.id gone (commands_of st) miss) ∙ there in
            let (flying, for_key) = live_parts key stale live in
            different i stale.id miss
              (o.one stale.id i stale c (home, flying) (before, lives) (for_key ∙ sym same))
      ]

  -- After `supersede` no command for the target is in flight.
  supersede-IsFree : IsFree key (commands_of (supersede st now key))
  unfolding supersede
  supersede-IsFree = elim (Option-cases (find_in_flight_for_target st key)) [
    | inl e ↦ rw (e, supersede) (nothing_to_retire e)
    | inr (stale, e) ↦ rw (e, supersede) (retired stale e)
  ]

-- A command for a free target keeps the map in order, and pruning takes away only.
put_command-IsOrderly :
    (s : DeskStore) (c : DeskCommand)
    → IsOrderly s.commands
    → IsFree (command_target_key c.payload) s.commands
    → IsOrderly (put_command s c).commands
unfolding put_command touch
put_command-IsOrderly s c o free =
    Shrinks-IsOrderly (prune_commands-Shrinks (record s { commands = insert c.id c s.commands }))
      (record {
        keyed = record {
          own_id = λ i x e. ground (arith, lookup-insert i c.id c s.commands, o.keyed.own_id i x);
          once = insert-NodupKeys c.id c s.commands o.keyed.once;
        };
        one = λ i j x y (ex, fx) (ey, fy) same.
            alone i j x y (lookup-insert i c.id c s.commands) (lookup-insert j c.id c s.commands) ex
              fx ey fy same;
      })
  where
    alone :
        (i j : String) (x y : DeskCommand)
        → lookup i (insert c.id c s.commands) ≡ (if c.id == i then some c else lookup i s.commands)
        → lookup j (insert c.id c s.commands) ≡ (if c.id == j then some c else lookup j s.commands)
        → lookup i (insert c.id c s.commands) ≡ some x
        → is_in_flight x.status ≡ true
        → lookup j (insert c.id c s.commands) ≡ some y
        → is_in_flight y.status ≡ true
        → command_target_key x.payload ≡ command_target_key y.payload
        → i ≡ j
    alone i j x y li lj ex fx ey fy same = elim (Bool-cases (c.id == i)) [
      | inl hit ↦ elim (Bool-cases (c.id == j)) [
        | inl also ↦ ground arith
        | inr far ↦
            let was_y : lookup j s.commands ≡ some y = ground arith in
            let is_x : c ≡ x = ground arith in
            absurd (
              free j y (was_y, fy)
                (sym same ∙ ap (λ (z : DeskCommand). command_target_key z.payload) (sym is_x)))
      ]
      | inr miss ↦ elim (Bool-cases (c.id == j)) [
        | inl also ↦
            let was_x : lookup i s.commands ≡ some x = ground arith in
            let is_y : c ≡ y = ground arith in
            absurd (
              free i x (was_x, fx)
                (same ∙ ap (λ (z : DeskCommand). command_target_key z.payload) (sym is_y)))
        | inr far ↦
            let was_x : lookup i s.commands ≡ some x = ground arith in
            let was_y : lookup j s.commands ≡ some y = ground arith in
            o.one i j x y (was_x, fx) (was_y, fy) same
      ]
    ]

pending_flies : is_in_flight CommandStatus.pending ≡ true
unfolding is_in_flight
pending_flies = refl

module _ (env : Env) (st : ServiceState) (stamp : Stamp) (payload : CommandPayload)
    (origin : StateOrigin) (preset_id command_id : Option String) where
  pub create_command-IsOrderly :
      IsOrderly (commands_of st)
      → IsOrderly (commands_of (create_command env st stamp payload origin preset_id command_id))
  unfolding create_command
  create_command-IsOrderly o =
      put_command-IsOrderly (supersede st stamp.now (command_target_key payload)).store
        (new_command env stamp payload origin preset_id command_id)
        (Shrinks-IsOrderly (supersede-Shrinks st stamp.now (command_target_key payload)) o)
        (supersede-IsFree st stamp.now (command_target_key payload) o)

  -- What stands under the new id is the new command, unless it was pruned at once.
  pub created_same :
      (x : DeskCommand)
      → lookup
          (new_command env stamp payload origin preset_id command_id).id
          (commands_of (create_command env st stamp payload origin preset_id command_id))
        ≡ some x
      → x ≡ new_command env stamp payload origin preset_id command_id
  unfolding create_command put_command touch
  created_same x e =
      let c = new_command env stamp payload origin preset_id command_id in
      let s = (supersede st stamp.now (command_target_key payload)).store in
      let put = record s { commands = insert c.id c s.commands } in
      elim (lookup-prune_commands put c.id) [
        | inl pruned ↦ cc (sym pruned ∙ e)
        | inr kept ↦ ground (arith, lookup-insert c.id c.id c s.commands)
      ]

  pub created_flies :
      (x : DeskCommand)
      → lookup
          (new_command env stamp payload origin preset_id command_id).id
          (commands_of (create_command env st stamp payload origin preset_id command_id))
        ≡ some x
      → is_in_flight x.status ≡ true
  unfolding new_command
  created_flies x e =
      ap (λ (y : DeskCommand). is_in_flight y.status) (created_same x e) ∙ pending_flies

-- An update that only moves a command that is in flight.
pub live_update-Shrinks :
    (st : ServiceState) (now : ℕ) (id : String) (patch : DeskCommand → DeskCommand)
    → ((x : DeskCommand) → ((patch x).id ≡ x.id) × ((patch x).payload ≡ x.payload))
    → ((x : DeskCommand) → lookup id (commands_of st) ≡ some x → is_in_flight x.status ≡ true)
    → Shrinks (commands_of st) (commands_of (update st now id patch))
unfolding update
live_update-Shrinks st now id patch keeps flies =
    update_command-Shrinks st.store now id patch (λ x e. ((keeps x).0, (keeps x).1, λ _. flies x e))

module _ (env : Env) (st : ServiceState) (now : ℕ) (c : DeskCommand)
    (flies : (x : DeskCommand)
      → lookup c.id (commands_of st) ≡ some x
      → is_in_flight x.status ≡ true) where
  pub dispatch-Shrinks :
      (agent_id : String) → Shrinks (commands_of st) (commands_of (dispatch env st now c agent_id))
  unfolding dispatch start_timeout
  dispatch-Shrinks agent_id = elim (Bool-cases (env.dispatcher.is_open agent_id)) [
    | inl e ↦ rw e (
        live_update-Shrinks (send st agent_id (command c.id c.payload c.deadline_at)) now c.id _
          (λ x. (refl, refl)) flies)
    | inr e ↦ rw e (fail_command-Shrinks st now c.id _)
  ]

  pub carry_out-Shrinks :
      (message : String) (path : Option MonitorControlPath)
      → Shrinks (commands_of st) (commands_of (carry_out env st now c message path))
  unfolding carry_out
  carry_out-Shrinks message none = fail_command-Shrinks st now c.id (no_control_path message)
  carry_out-Shrinks message (some path) = dispatch-Shrinks path.agent_id

  pub begin_peripheral-Shrinks :
      (order : PeripheralOrder)
      → Shrinks (commands_of st) (commands_of (begin_peripheral st now c order))
  unfolding begin_peripheral
  begin_peripheral-Shrinks order = live_update-Shrinks st now c.id _ (λ x. (refl, refl)) flies
