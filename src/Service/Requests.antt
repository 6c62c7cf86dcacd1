-- ===== src/Service/Requests.antt =====
-- A property that a request's every way through keeps: each request either leaves the state alone or
-- issues one command.
use desk_control.Common.{lookup, Option-cases, Bool-cases, inl, inr, find, ◌==◌, string_eq}
use desk_control.Domain.Capability.{
  MonitorCapability, PeripheralSwitchCapability, has_capability, monitor_capability_eq,
  switch_capability_eq,
}
use desk_control.Domain.Command.{PeripheralOrder, set_peripheral_owner, command_target_key}
use desk_control.Domain.Monitor.{Monitor, MonitorInput, find_input_for_computer}
use desk_control.Domain.Peripheral.{Peripheral, PeripheralSwitch, find_port_for_computer}
use desk_control.Service.{Env, Stamp, ServiceState, find_in_flight_for_target}
use desk_control.Service.Monitors.{
  MonitorRequest, FeatureRequest, issue_input, issue_feature, set_monitor_source,
  issue_monitor_feature,
}
use desk_control.Service.Peripherals.{
  PeripheralRequest, set_peripheral_owner_request, own_through, order_owner, issue_owner,
  find_switch, already_moving,
}

module _ (env : Env) (st : ServiceState) (stamp : Stamp) (P : ServiceState → Type 0)
    (same : P st) where
  pub set_monitor_source-keeps :
      (args : MonitorRequest)
      → ((m : Monitor) (input : MonitorInput) → P (issue_input env st stamp args m input))
      → P (set_monitor_source env st stamp args).0
  unfolding set_monitor_source
  set_monitor_source-keeps args issued =
      elim (Option-cases (lookup args.monitor_id st.store.monitors)) [
        | inl e ↦ rw (e, set_monitor_source) same
        | inr (m, e) ↦
            elim (Bool-cases (has_capability m.capabilities MonitorCapability.input_switch)) [
              | inl able ↦ elim (Option-cases (find_input_for_computer m args.source_computer_id)) [
                | inl f ↦ rw (e, set_monitor_source, able, f) same
                | inr (input, f) ↦ rw (e, set_monitor_source, able, f) (issued m input)
              ]
              | inr unable ↦ rw (e, set_monitor_source, unable) same
            ]
      ]

  pub issue_monitor_feature-keeps :
      (args : FeatureRequest)
      → ((m : Monitor) → P (issue_feature env st stamp args m))
      → P (issue_monitor_feature env st stamp args).0
  unfolding issue_monitor_feature
  issue_monitor_feature-keeps args issued =
      elim (Option-cases (lookup args.monitor_id st.store.monitors)) [
        | inl e ↦ rw (e, issue_monitor_feature) same
        | inr (m, e) ↦ elim (Bool-cases (has_capability m.capabilities args.capability)) [
          | inl able ↦ rw (e, issue_monitor_feature, able) (issued m)
          | inr unable ↦ rw (e, issue_monitor_feature, unable) same
        ]
      ]

  order_owner-keeps :
      (args : PeripheralRequest) (order : PeripheralOrder)
      → P (issue_owner env st stamp args order)
      → P (order_owner env st stamp args order).0
  unfolding order_owner
  order_owner-keeps args order issued =
      elim (Option-cases (
        already_moving order.port_id
          (find_in_flight_for_target st (command_target_key (set_peripheral_owner order))))) [
            | inl e ↦ rw (e, order_owner) issued
            | inr (c, e) ↦ rw (e, order_owner) same
          ]

  own_through-keeps :
      (args : PeripheralRequest) (p : Peripheral) (w : PeripheralSwitch)
      → ((order : PeripheralOrder) → P (issue_owner env st stamp args order))
      → P (own_through env st stamp args p w).0
  unfolding own_through
  own_through-keeps args p w issued =
      elim (Bool-cases (has_capability w.capabilities PeripheralSwitchCapability.switch_port)) [
        | inl able ↦ elim (Option-cases (find_port_for_computer w args.owner_computer_id)) [
          | inl e ↦ rw (able, e) same
          | inr (port, e) ↦ rw (able, e) (order_owner-keeps args _ (issued _))
        ]
        | inr unable ↦ rw unable same
      ]

  pub set_peripheral_owner_request-keeps :
      (args : PeripheralRequest)
      → ((order : PeripheralOrder) → P (issue_owner env st stamp args order))
      → P (set_peripheral_owner_request env st stamp args).0
  unfolding set_peripheral_owner_request
  set_peripheral_owner_request-keeps args issued =
      elim (Option-cases
        (find (λ (p : Peripheral). p.id == args.peripheral_id) st.store.config.peripherals)) [
          | inl e ↦ rw (e, set_peripheral_owner_request) same
          | inr (p, e) ↦ elim (Option-cases (find_switch st.store p.switch_id)) [
            | inl f ↦ rw (e, set_peripheral_owner_request, f) same
            | inr (w, f) ↦
                rw (e, set_peripheral_owner_request, f) (own_through-keeps args p w issued)
          ]
        ]
