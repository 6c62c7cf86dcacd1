-- ===== src/Service/Peripherals.antt =====
-- command-service.ts: `setPeripheralOwner` and `executePeripheralCommand`. The switch's provider
-- answers later, so the execution is in two halves: what happens before the call of `setPort`, and
-- what happens with its answer and the state that the provider then reports.
use desk_control.Common.{
  ℕ, ◌+◌, String, Bool, true, false, ◌&&◌, List, [], ◌∷◌, ◌++◌, map, Option, none, some, Dict,
  lookup, insert, ◌==◌, find, filter_bool, ◌<>◌, string_eq, option_eq, nat_eq, if◌then◌else◌,
  truthy,
}
use desk_control.Domain.Capability.{
  PeripheralSwitchCapability, has_capability, switch_capability_eq,
}
use desk_control.Domain.Command.{
  CommandPayload, CommandStatus, CommandError, DeskCommand, PeripheralOrder, set_peripheral_owner,
  command_target_key,
}
use desk_control.Domain.Peripheral.{
  Peripheral, PeripheralSwitch, PeripheralSwitchPort, find_port_for_computer,
}
use desk_control.Domain.State.{
  StateOrigin, ObservedPeripheralState, PeripheralEvidence, Reachability, ObservationError,
}
use desk_control.Store.{DeskStore, or_else}
use desk_control.Store.Editing.{label}
use desk_control.Store.Usb.{observed_peripherals, set_observed_peripheral}
use desk_control.Service.{
  Env, Stamp, ServiceState, PeripheralRun, IssueResult, accepted, rejected, with_store, update,
  new_command, create_command, fail_command, find_in_flight_for_target, ended,
}

pub record PeripheralRequest : Type 0 where
  pub peripheral_id : String
  pub owner_computer_id : String
  pub origin : StateOrigin
  pub preset_id : Option String
  pub command_id : Option String

abbrev first_channel : List String → String
first_channel [] = "default"
first_channel (c ∷ cs) = c

-- `peripheral.channelId ?? peripheralSwitch.channels[0] ?? 'default'`
unfoldable pub channel_of : PeripheralSwitch → Peripheral → String
channel_of switch p = or_else p.channel_id (first_channel switch.channels)

unfoldable pub siblings_of : PeripheralSwitch → String → List Peripheral → List Peripheral
unfolding channel_of
siblings_of switch channel_id =
    filter_bool (λ (p : Peripheral). p.switch_id == switch.id && channel_of switch p == channel_id)

unfoldable pub peripheral_order :
    PeripheralSwitch
    → PeripheralSwitchPort
    → Peripheral
    → List Peripheral
    → String
    → PeripheralOrder
unfolding siblings_of
peripheral_order switch port peripheral all owner = record {
  switch_id = switch.id;
  channel_id = channel_of switch peripheral;
  port_id = port.id;
  peripheral_ids =
      map (λ (p : Peripheral). p.id) (siblings_of switch (channel_of switch peripheral) all);
  owner_computer_id = owner;
}

-- `this.store.desired.peripheralOwners[sibling.id] = …`
unfoldable pub desire_owner : DeskStore → PeripheralRequest → DeskCommand → String → DeskStore
desire_owner s args c id = record s {
  desired = record (s.desired) {
    peripheral_owners =
        insert id
          (record {
            peripheral_id = id;
            owner_computer_id = args.owner_computer_id;
            requested_at = c.issued_at;
            origin = args.origin;
            command_id = some c.id;
            preset_id = args.preset_id;
          })
          s.desired.peripheral_owners;
  };
}

-- The loop that records the wish for every sibling.
unfoldable pub desire_owners : DeskStore → PeripheralRequest → DeskCommand → List String → DeskStore
unfolding desire_owner
desire_owners s args c [] = s
desire_owners s args c (id ∷ ids) = desire_owners (desire_owner s args c id) args c ids

abbrev head_or_empty : List String → String
head_or_empty [] = ""
head_or_empty (id ∷ ids) = id

unfoldable pub find_switch : DeskStore → String → Option PeripheralSwitch
find_switch s id = find (λ (w : PeripheralSwitch). w.id == id) s.config.peripheral_switches

abbrev is_evidence : PeripheralEvidence → Bool
is_evidence PeripheralEvidence.unknown = false
is_evidence _ = true

-- The owner that is used to find the current port.
unfoldable pub known_owner : Option ObservedPeripheralState → Option String
known_owner none = none
known_owner (some o) = if is_evidence o.evidence then truthy o.owner_computer_id else none

abbrev port_id_of : Option PeripheralSwitchPort → Option String
port_id_of none = none
port_id_of (some p) = some p.id

abbrev ports_of : Option PeripheralSwitch → List PeripheralSwitchPort
ports_of none = []
ports_of (some w) = w.ports

unfoldable pub current_port : DeskStore → ℕ → PeripheralOrder → Option String
unfolding known_owner find_switch
current_port s now order =
    elim (known_owner (lookup (head_or_empty order.peripheral_ids) (observed_peripherals s now))) [
      | none ↦ none
      | some owner ↦ port_id_of (
          find (λ (p : PeripheralSwitchPort). p.computer_id == some owner)
            (ports_of (find_switch s order.switch_id)))
    ]

-- `executePeripheralCommand` up to the answer of `setPort`.
unfoldable pub begin_peripheral : ServiceState → ℕ → DeskCommand → PeripheralOrder → ServiceState
unfolding current_port update
begin_peripheral st now c order =
    let marked =
      update st now c.id
        (λ x. record x { status = CommandStatus.dispatched; attempts = c.attempts + 1 }) in
    let run : PeripheralRun = record {
      command_id = c.id;
      switch_id = order.switch_id;
      channel_id = order.channel_id;
      port_id = order.port_id;
      current_port_id = current_port marked.store now order;
      peripheral_ids = order.peripheral_ids;
    } in
    record marked { running = marked.running ++ run ∷ [] }

abbrev pub same_port : String → CommandPayload → Bool
same_port port_id (set_peripheral_owner o) = o.port_id == port_id
same_port port_id _ = false

-- A command in flight that already moves the channel to this port.
abbrev pub already_moving : String → Option DeskCommand → Option DeskCommand
already_moving port_id none = none
already_moving port_id (some c) = if same_port port_id c.payload then some c else none

-- The part of `setPeripheralOwner` behind its checks.
unfoldable pub issue_owner :
    Env → ServiceState → Stamp → PeripheralRequest → PeripheralOrder → ServiceState
unfolding desire_owners begin_peripheral
issue_owner env st stamp args order =
    let payload = set_peripheral_owner order in
    let c = new_command env stamp payload args.origin args.preset_id args.command_id in
    let created = create_command env st stamp payload args.origin args.preset_id args.command_id in
    let desired = with_store created (desire_owners created.store args c order.peripheral_ids) in
    begin_peripheral desired stamp.now c order

unfoldable pub order_owner :
    Env → ServiceState → Stamp → PeripheralRequest → PeripheralOrder → ServiceState × IssueResult
unfolding issue_owner
order_owner env st stamp args order =
    elim (already_moving order.port_id
      (find_in_flight_for_target st (command_target_key (set_peripheral_owner order)))) [
        | some existing ↦ (st, accepted existing.id)
        | none ↦
            (issue_owner env st stamp args order, accepted (or_else args.command_id stamp.uuid))
      ]

-- From the switch on.
unfoldable pub own_through :
    Env
    → ServiceState
    → Stamp
    → PeripheralRequest
    → Peripheral
    → PeripheralSwitch
    → ServiceState × IssueResult
unfolding order_owner peripheral_order
own_through env st stamp args peripheral switch =
    let wired : ServiceState × IssueResult =
      elim (find_port_for_computer switch args.owner_computer_id) [
        | none ↦ (
          st,
          rejected "UNKNOWN_TARGET" (
              label st.store args.owner_computer_id
              <> (" is not wired to " <> switch.detected_name)),
        )
        | some port ↦ order_owner env st stamp args (
            peripheral_order switch port peripheral st.store.config.peripherals
              args.owner_computer_id)
      ] in
    if has_capability switch.capabilities PeripheralSwitchCapability.switch_port
    then wired
    else (st, rejected "CAPABILITY_UNSUPPORTED" (switch.detected_name <> " cannot switch ports"))

unfoldable pub set_peripheral_owner_request :
    Env → ServiceState → Stamp → PeripheralRequest → ServiceState × IssueResult
unfolding own_through find_switch
set_peripheral_owner_request env st stamp args =
    elim (find (λ (p : Peripheral). p.id == args.peripheral_id) st.store.config.peripherals) [
      | none ↦ (st, rejected "UNKNOWN_TARGET" "Unknown peripheral")
      | some peripheral ↦ elim (find_switch st.store peripheral.switch_id) [
        | none ↦ (st, rejected "UNKNOWN_TARGET" "Unknown peripheral switch")
        | some switch ↦ own_through env st stamp args peripheral switch
      ]
    ]

-- What `setPort` resolves to: `none`, or the error of a refusal, if the provider gives one.
pub data PortResult : Type 0 where
  ok : PortResult
  refused : Option CommandError → PortResult

pub record ObservedSwitchState : Type 0 where
  pub switch_id : String
  pub active_ports : Dict String (Option String)
  pub reachability : Reachability
  pub error : Option ObservationError

abbrev active_port : Option ObservedSwitchState → String → Option String
active_port none channel_id = none
active_port (some s) channel_id = or_else (lookup channel_id s.active_ports) none

abbrev computer_of_port : Option PeripheralSwitchPort → Option String
computer_of_port none = none
computer_of_port (some p) = p.computer_id

abbrev reachability_of : Option ObservedSwitchState → Reachability
reachability_of none = Reachability.unknown
reachability_of (some s) = s.reachability

abbrev error_of : Option ObservedSwitchState → Option ObservationError
error_of none = none
error_of (some s) = s.error

unfoldable pub switch_owner : DeskStore → PeripheralRun → Option ObservedSwitchState → Option String
unfolding find_switch
switch_owner s run state = computer_of_port (
    find (λ (p : PeripheralSwitchPort). some p.id == active_port state run.channel_id)
      (ports_of (find_switch s run.switch_id)))

-- What the switch's own account says of one peripheral.
unfoldable pub account :
    ℕ → Option String → Option ObservedSwitchState → String → ObservedPeripheralState
account now owner state id = record {
  peripheral_id = id;
  owner_computer_id = owner;
  evidence = PeripheralEvidence.switch_report;
  reachability = reachability_of state;
  observed_at = now;
  last_error = error_of state;
}

unfoldable pub observe_each :
    DeskStore → ℕ → Option String → Option ObservedSwitchState → List String → DeskStore
unfolding account
observe_each s now owner state [] = s
observe_each s now owner state (id ∷ ids) =
    observe_each (set_observed_peripheral s (account now owner state id)) now owner state ids

abbrev pub switch_failed : CommandError
switch_failed = record {
  code = "INTERNAL";
  message = "Peripheral switch failed";
  retryable = false;
}

unfoldable pub settle : ServiceState → ℕ → String → PortResult → ServiceState
unfolding update fail_command
settle st now command_id ok = update st now command_id (ended CommandStatus.succeeded none)
settle st now command_id (refused error) =
    fail_command st now command_id (or_else error switch_failed)

-- `executePeripheralCommand` from the answer on; `states` is what `getObservedState` gives.
unfoldable pub finish_peripheral :
    ServiceState → ℕ → PeripheralRun → PortResult → List ObservedSwitchState → ServiceState
unfolding observe_each settle switch_owner
finish_peripheral st now run result states =
    let state = find (λ (w : ObservedSwitchState). w.switch_id == run.switch_id) states in
    let owner = switch_owner st.store run state in
    settle (with_store st (observe_each st.store now owner state run.peripheral_ids)) now
      run.command_id result
