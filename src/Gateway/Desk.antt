-- ===== src/Gateway/Desk.antt =====
-- What agents report changes the desk, never the commands: the operations of the store that the
-- gateway calls leave the map of commands alone.
use desk_control.Common.{
  ℕ, String, List, [], ◌∷◌, Option, none, some, lookup, truthy, ◌≡◌, refl, ◌∙◌, arith, Option-cases,
  Bool-cases, inl, inr, string_eq,
}
use desk_control.Domain.Device.{ConnectivityState}
use desk_control.Protocol.{HelloPayload, MonitorReport, ObservedMonitorReport}
use desk_control.Store.{
  DeskStore, touch, ensure_computer, ensure_all, change_computer, no_defaults, mark_config_dirty,
}
use desk_control.Store.Agents.{register_agent, mark_agent_seen, set_agent_offline}
use desk_control.Store.Inventory.{
  apply_monitor_report, apply_each_report, apply_monitor_reports, merge_inputs, ensure_placement,
}
use desk_control.Store.Observations.{
  apply_observed_report, apply_each_observation, apply_observed_reports, note_active_input,
  note_active_input_independence, is_reachable,
}
use desk_control.Store.Usb.{apply_usb_report}
use desk_control.Gateway.Frames.{take_inventory, take_observed}

module _ (s : DeskStore) where
  pub commands-mark_agent_seen :
      (now : ℕ) (id : String) → (mark_agent_seen s now id).commands ≡ s.commands
  unfolding mark_agent_seen change_computer
  commands-mark_agent_seen now id = elim (Option-cases (lookup id s.agents)) [
    | inl e ↦ ground arith
    | inr (a, e) ↦ ground arith
  ]

  pub commands-set_agent_offline :
      (id : String) (state : ConnectivityState) (detail : String)
      → (set_agent_offline s id state detail).commands ≡ s.commands
  unfolding set_agent_offline change_computer touch
  commands-set_agent_offline id state detail = elim (Option-cases (lookup id s.agents)) [
    | inl e ↦ ground arith
    | inr (a, e) ↦ ground arith
  ]

  pub commands-apply_usb_report :
      (id : String) (devices : List String) → (apply_usb_report s id devices).commands ≡ s.commands
  unfolding apply_usb_report touch
  commands-apply_usb_report id devices = elim (Option-cases (lookup id s.agents)) [
    | inl e ↦ ground arith
    | inr (a, e) ↦ ground arith
  ]

  commands-ensure_computer :
      (id : String) → (ensure_computer s id no_defaults).commands ≡ s.commands
  unfolding ensure_computer
  commands-ensure_computer id = elim (Option-cases (lookup id s.computers)) [
    | inl e ↦ ground arith
    | inr (c, e) ↦ ground arith
  ]

  commands-ensure_placement : (id : String) → (ensure_placement s id).commands ≡ s.commands
  unfolding ensure_placement mark_config_dirty touch
  commands-ensure_placement id = elim (Option-cases (lookup id s.config.layout.placements)) [
    | inl e ↦ ground arith
    | inr (p, e) ↦ ground arith
  ]

  commands-note_active_input_independence :
      (m a i : String) → (note_active_input_independence s m a i).commands ≡ s.commands
  unfolding note_active_input_independence
  commands-note_active_input_independence m a i = elim (Option-cases (lookup m s.monitors)) [
    | inl e ↦ ground arith
    | inr (x, e) ↦ ground arith
  ]

commands-ensure_all : (s : DeskStore) (ids : List String) → (ensure_all s ids).commands ≡ s.commands
unfolding ensure_all
commands-ensure_all s [] = refl
commands-ensure_all s (id ∷ ids) =
    commands-ensure_all (ensure_computer s id no_defaults) ids ∙ commands-ensure_computer s id

commands-apply_monitor_report :
    (s : DeskStore) (agent computer : String) (r : MonitorReport)
    → (apply_monitor_report s agent computer r).commands ≡ s.commands
unfolding apply_monitor_report merge_inputs
commands-apply_monitor_report s agent computer r =
    commands-ensure_placement _ r.stable_id ∙ commands-ensure_all s _

commands-apply_each_report :
    (s : DeskStore) (agent computer : String) (rs : List MonitorReport)
    → (apply_each_report s agent computer rs).commands ≡ s.commands
unfolding apply_each_report
commands-apply_each_report s agent computer [] = refl
commands-apply_each_report s agent computer (r ∷ rs) =
    commands-apply_each_report (apply_monitor_report s agent computer r) agent computer rs
    ∙ commands-apply_monitor_report s agent computer r

commands-apply_monitor_reports :
    (s : DeskStore) (agent computer : String) (rs : List MonitorReport)
    → (apply_monitor_reports s agent computer rs).commands ≡ s.commands
unfolding apply_monitor_reports touch
commands-apply_monitor_reports s agent computer rs = commands-apply_each_report s agent computer rs

pub commands-register_agent :
    (s : DeskStore) (now : ℕ) (p : HelloPayload) (v : ℕ)
    → (register_agent s now p v).commands ≡ s.commands
unfolding register_agent change_computer touch
commands-register_agent s now p v =
    commands-apply_monitor_reports _ p.agent.id p.computer.id p.monitors
    ∙ commands-ensure_computer s p.computer.id

pub commands-take_inventory :
    (s : DeskStore) (agent : String) (rs : List MonitorReport)
    → (take_inventory s agent rs).commands ≡ s.commands
unfolding take_inventory
commands-take_inventory s agent rs = elim (Option-cases (lookup agent s.agents)) [
  | inl e ↦ ground arith
  | inr (a, e) ↦ ground (arith, commands-apply_monitor_reports s a.id a.computer_id rs)
]

commands-apply_observed_report :
    (s : DeskStore) (now : ℕ) (agent : String) (r : ObservedMonitorReport)
    → (apply_observed_report s now agent r).commands ≡ s.commands
unfolding apply_observed_report note_active_input
commands-apply_observed_report s now agent r = elim (Option-cases (truthy r.active_input_id)) [
  | inl e ↦ rw (e, apply_observed_report) refl
  | inr (i, e) ↦ elim (Bool-cases (is_reachable r.reachability)) [
    | inl live ↦
        rw (e, apply_observed_report)
          (rw live (commands-note_active_input_independence _ r.stable_id agent i))
    | inr dead ↦ rw (e, apply_observed_report) (rw dead refl)
  ]
]

commands-apply_each_observation :
    (s : DeskStore) (now : ℕ) (agent : String) (rs : List ObservedMonitorReport)
    → (apply_each_observation s now agent rs).commands ≡ s.commands
unfolding apply_each_observation
commands-apply_each_observation s now agent [] = refl
commands-apply_each_observation s now agent (r ∷ rs) =
    commands-apply_each_observation (apply_observed_report s now agent r) now agent rs
    ∙ commands-apply_observed_report s now agent r

pub commands-apply_observed_reports :
    (s : DeskStore) (now : ℕ) (agent : String) (rs : List ObservedMonitorReport)
    → (apply_observed_reports s now agent rs).commands ≡ s.commands
unfolding apply_observed_reports touch
commands-apply_observed_reports s now agent rs = commands-apply_each_observation s now agent rs

pub commands-take_observed :
    (s : DeskStore) (now : ℕ) (agent : String) (rs : List ObservedMonitorReport)
    (devices : Option (List String))
    → (take_observed s now agent rs devices).commands ≡ s.commands
unfolding take_observed
commands-take_observed s now agent rs none = commands-apply_observed_reports s now agent rs
commands-take_observed s now agent rs (some devices) =
    commands-apply_usb_report (apply_observed_reports s now agent rs) agent devices
    ∙ commands-apply_observed_reports s now agent rs
