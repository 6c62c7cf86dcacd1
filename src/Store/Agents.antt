-- ===== src/Store/Agents.antt =====
-- desk-store.ts, "Agent lifecycle".
use desk_control.Common.{
  ℕ, String, Bool, false, none, some, lookup, insert, modify, contains, string_eq,
}
use desk_control.Domain.Device.{Agent, Connectivity, ConnectivityState}
use desk_control.Protocol.{HelloPayload}
use desk_control.Store.{
  DeskStore, touch, override_for, ensure_computer, change_computer, no_defaults,
}
use desk_control.Store.Inventory.{apply_monitor_reports}

abbrev pub online_at : ℕ → Connectivity
online_at now = record { state = ConnectivityState.online; last_seen_at = some now; detail = none }

unfoldable pub hello_agent : ℕ → HelloPayload → ℕ → Agent
hello_agent now payload protocol_version = record {
  id = payload.agent.id;
  computer_id = payload.computer.id;
  detected_name = payload.agent.detected_name;
  custom_name = none;
  platform = payload.computer.platform;
  protocol_version = protocol_version;
  agent_version = payload.agent.agent_version;
  connectivity = online_at now;
  provider_kind = payload.agent.provider_kind;
  supported_command_kinds = payload.supported_command_kinds;
}

unfoldable pub register_agent : DeskStore → ℕ → HelloPayload → ℕ → DeskStore
unfolding hello_agent
register_agent s now payload protocol_version =
    let known = ensure_computer s payload.computer.id no_defaults in
    let custom_name = (override_for s payload.computer.id).custom_name in
    let greeted = change_computer known payload.computer.id (λ computer. record computer {
      detected_name = payload.computer.detected_name;
      custom_name = custom_name;
      platform = payload.computer.platform;
      capabilities = payload.computer.capabilities;
      metadata = payload.computer.metadata;
      agent_id = some payload.agent.id;
      connectivity = online_at now;
    }) in
    let agent = hello_agent now payload protocol_version in
    touch (
      apply_monitor_reports (record greeted { agents = insert agent.id agent greeted.agents })
        agent.id payload.computer.id payload.monitors)

abbrev pub set_agent_connectivity : Connectivity → Agent → Agent
set_agent_connectivity c agent = record agent { connectivity = c }

unfoldable pub mark_agent_seen : DeskStore → ℕ → String → DeskStore
mark_agent_seen s now agent_id = elim (lookup agent_id s.agents) [
  | none ↦ s
  | some agent ↦
      change_computer
        (record s { agents = modify agent_id (set_agent_connectivity (online_at now)) s.agents })
        agent.computer_id (λ computer. record computer { connectivity = online_at now })
]

abbrev with_state : ConnectivityState → String → Connectivity → Connectivity
with_state state detail c = record c { state = state; detail = some detail }

unfoldable pub set_agent_offline : DeskStore → String → ConnectivityState → String → DeskStore
set_agent_offline s agent_id state detail = elim (lookup agent_id s.agents) [
  | none ↦ s
  | some agent ↦ touch (
      change_computer
        (record s {
          agents =
              modify agent_id
                (λ (a : Agent). record a { connectivity = with_state state detail a.connectivity })
                s.agents;
        })
        agent.computer_id
        (λ computer. record computer {
          connectivity = with_state state detail computer.connectivity;
        }))
]

unfoldable pub agent_supports_command : DeskStore → String → String → Bool
agent_supports_command s agent_id kind = elim (lookup agent_id s.agents) [
  | none ↦ false
  | some agent ↦ contains agent.supported_command_kinds kind
]
