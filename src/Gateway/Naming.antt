-- ===== src/Gateway/Naming.antt =====
-- The agents of the desk when an agent says hello.
use desk_control.Common.{
  ℕ, String, true, List, [], ◌∷◌, lookup, insert, lookup-insert, ◌≡◌, refl, ◌∙◌, ap, arith,
  Option-cases, inl, inr, ◌==◌, string_eq, if◌then◌else◌,
}
use desk_control.Protocol.{HelloPayload, MonitorReport}
use desk_control.Store.{
  DeskStore, touch, ensure_computer, ensure_all, change_computer, no_defaults, mark_config_dirty,
  is_agent_online,
}
use desk_control.Store.Agents.{register_agent, hello_agent}
use desk_control.Store.Inventory.{
  apply_monitor_report, apply_each_report, apply_monitor_reports, merge_inputs, ensure_placement,
}

agents-ensure_computer :
    (s : DeskStore) (id : String) → (ensure_computer s id no_defaults).agents ≡ s.agents
unfolding ensure_computer
agents-ensure_computer s id = elim (Option-cases (lookup id s.computers)) [
  | inl e ↦ ground arith
  | inr (c, e) ↦ ground arith
]

agents-ensure_placement : (s : DeskStore) (id : String) → (ensure_placement s id).agents ≡ s.agents
unfolding ensure_placement mark_config_dirty touch
agents-ensure_placement s id = elim (Option-cases (lookup id s.config.layout.placements)) [
  | inl e ↦ ground arith
  | inr (p, e) ↦ ground arith
]

agents-ensure_all : (s : DeskStore) (ids : List String) → (ensure_all s ids).agents ≡ s.agents
unfolding ensure_all
agents-ensure_all s [] = refl
agents-ensure_all s (id ∷ ids) =
    agents-ensure_all (ensure_computer s id no_defaults) ids ∙ agents-ensure_computer s id

agents-apply_each_report :
    (s : DeskStore) (agent computer : String) (rs : List MonitorReport)
    → (apply_each_report s agent computer rs).agents ≡ s.agents
unfolding apply_each_report apply_monitor_report merge_inputs
agents-apply_each_report s agent computer [] = refl
agents-apply_each_report s agent computer (r ∷ rs) =
    agents-apply_each_report (apply_monitor_report s agent computer r) agent computer rs
    ∙ (agents-ensure_placement _ r.stable_id ∙ agents-ensure_all s _)

pub agents-register_agent :
    (s : DeskStore) (now : ℕ) (p : HelloPayload) (v : ℕ)
    → (register_agent s now p v).agents ≡ insert p.agent.id (hello_agent now p v) s.agents
unfolding register_agent change_computer touch apply_monitor_reports
agents-register_agent s now p v =
    agents-apply_each_report _ p.agent.id p.computer.id p.monitors
    ∙ ap (insert p.agent.id (hello_agent now p v)) (agents-ensure_computer s p.computer.id)

-- The agent is online, and the others are as they were.
pub online-register_agent :
    (s : DeskStore) (now : ℕ) (p : HelloPayload) (v : ℕ) (other : String)
    → is_agent_online (register_agent s now p v) other
      ≡ (if p.agent.id == other then true else is_agent_online s other)
unfolding is_agent_online hello_agent
online-register_agent s now p v other =
    ap (λ agents. is_agent_online (record s { agents = agents }) other)
      (agents-register_agent s now p v)
    ∙ ground (arith, lookup-insert other p.agent.id (hello_agent now p v) s.agents)
