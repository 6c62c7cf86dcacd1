-- ===== src/Store/Usb.antt =====
-- desk-store.ts: who holds the shared peripherals, by the USB devices that the computers enumerate
-- and, failing that, by the switch's own account.
pub mod Holders
use desk_control.Common.{
  ℕ, String, Bool, true, false, ◌&&◌, List, [], ◌∷◌, Option, none, some, Dict, lookup, insert,
  truthy, contains, any, string_eq, if◌then◌else◌, to_lower_case, map, ◌<>◌,
}
use desk_control.Domain.Peripheral.{Peripheral}
use desk_control.Domain.State.{PeripheralEvidence, Reachability, ObservedPeripheralState}
use desk_control.Store.{DeskStore, touch, is_agent_online}

-- The `Set` of the devices is a list: only membership is ever asked.
unfoldable pub apply_usb_report : DeskStore → String → List String → DeskStore
apply_usb_report s agent_id devices = elim (lookup agent_id s.agents) [
  | none ↦ s
  | some agent ↦ touch (record s {
    usb_by_computer = insert agent.computer_id (map to_lower_case devices) s.usb_by_computer;
  })
]

abbrev agent_of : DeskStore → String → Option String
agent_of s computer_id = elim (lookup computer_id s.computers) [
  | none ↦ none
  | some computer ↦ computer.agent_id
]

-- `agentId !== null && agentId !== undefined && this.isAgentOnline(agentId)`
unfoldable pub speaks : DeskStore → String → Bool
speaks s computer_id = elim (agent_of s computer_id) [
  | none ↦ false
  | some agent_id ↦ is_agent_online s agent_id
]

unfoldable pub holders_among : DeskStore → String → Dict String (List String) → List String
holders_among s wanted [] = []
holders_among s wanted ((computer_id, devices) ∷ rest) =
    let later = holders_among s wanted rest in
    if contains devices wanted && speaks s computer_id then computer_id ∷ later else later

pub record Holder : Type 0 where
  pub computer_id : Option String
  pub ambiguous : Bool

abbrev pub holder_of_list : List String → Holder
holder_of_list [] = record { computer_id = none; ambiguous = false }
holder_of_list (id ∷ []) = record { computer_id = some id; ambiguous = false }
holder_of_list (_ ∷ _ ∷ _) = record { computer_id = none; ambiguous = true }

unfoldable pub usb_holder_of : DeskStore → String → Holder
unfolding holders_among
usb_holder_of s usb_id = holder_of_list (holders_among s (to_lower_case usb_id) s.usb_by_computer)

-- `agentId && this.isAgentOnline(agentId)`
abbrev speaks_truthy : DeskStore → String → Bool
speaks_truthy s computer_id = elim (truthy (agent_of s computer_id)) [
  | none ↦ false
  | some agent_id ↦ is_agent_online s agent_id
]

unfoldable pub has_usb_evidence : DeskStore → Bool
has_usb_evidence s =
    any (λ (entry : String × List String). speaks_truthy s entry.0) s.usb_by_computer

unfoldable pub set_observed_peripheral : DeskStore → ObservedPeripheralState → DeskStore
set_observed_peripheral s state = touch (record s {
  peripheral_observations = insert state.peripheral_id state s.peripheral_observations;
})

abbrev from_holder : Peripheral → String → ℕ → Holder → ObservedPeripheralState
from_holder peripheral usb_id now holder = record {
  peripheral_id = peripheral.id;
  owner_computer_id = holder.computer_id;
  evidence = elim (truthy holder.computer_id) [
    | none ↦ PeripheralEvidence.unknown
    | some id ↦ PeripheralEvidence.usb_enumeration
  ];
  reachability = elim (truthy holder.computer_id) [
    | none ↦ Reachability.unknown
    | some id ↦ Reachability.reachable
  ];
  observed_at = now;
  last_error =
      if holder.ambiguous
      then some
          (record { code = "AMBIGUOUS"; message = "More than one computer reports USB " <> usb_id })
      else none;
}

abbrev pub nothing_known : Peripheral → ℕ → ObservedPeripheralState
nothing_known peripheral now = record {
  peripheral_id = peripheral.id;
  owner_computer_id = none;
  evidence = PeripheralEvidence.unknown;
  reachability = Reachability.unknown;
  observed_at = now;
  last_error = none;
}

abbrev switch_account : DeskStore → ℕ → Peripheral → ObservedPeripheralState
switch_account s now peripheral = elim (lookup peripheral.id s.peripheral_observations) [
  | some from_switch ↦ from_switch
  | none ↦ nothing_known peripheral now
]

-- `result[peripheral.id]` of the first loop of `observedPeripherals`.
unfoldable pub observe_peripheral : DeskStore → ℕ → Peripheral → ObservedPeripheralState
unfolding usb_holder_of has_usb_evidence
observe_peripheral s now peripheral = elim (truthy peripheral.usb_id) [
  | none ↦ switch_account s now peripheral
  | some usb_id ↦
      if has_usb_evidence s
      then from_holder peripheral usb_id now (usb_holder_of s usb_id)
      else switch_account s now peripheral
]

unfoldable pub observe_configured :
    DeskStore
    → ℕ
    → List Peripheral
    → Dict String ObservedPeripheralState
    → Dict String ObservedPeripheralState
observe_configured s now [] result = result
observe_configured s now (p ∷ ps) result =
    observe_configured s now ps (insert p.id (observe_peripheral s now p) result)

-- The second loop: what is observed but no longer configured.
unfoldable pub add_missing :
    Dict String ObservedPeripheralState
    → Dict String ObservedPeripheralState
    → Dict String ObservedPeripheralState
add_missing [] result = result
add_missing ((id, state) ∷ rest) result = elim (lookup id result) [
  | some known ↦ add_missing rest result
  | none ↦ add_missing rest (insert id state result)
]

unfoldable pub observed_peripherals : DeskStore → ℕ → Dict String ObservedPeripheralState
unfolding observe_configured add_missing observe_peripheral
observed_peripherals s now =
    add_missing s.peripheral_observations (observe_configured s now s.config.peripherals [])
