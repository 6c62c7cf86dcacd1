-- ===== src/Gateway/System/Keeping.antt =====
-- What the steps of the command service keep, every event of the sockets keeps too: an event changes
-- the service by its steps only.
use desk_control.Common.{
  ℕ, String, List, [], ◌∷◌, lookup, contains, truthy, ◌≡◌, refl, sym, subst, arith, Option-cases,
  Bool-cases, inl, inr, string_eq, nat_eq, ltb, ◌-◌,
}
use desk_control.Protocol.{HelloPayload}
use desk_control.Protocol.Frames.{AgentMessage, Parsed, AgentFrame, ControllerMessage}
use desk_control.Store.{DeskStore, touch}
use desk_control.Store.Agents.{mark_agent_seen}
use desk_control.Service.{Env, ServiceState, with_store}
use desk_control.Service.Steps.{Step, store_changed, acknowledged, concluded, agent_lost}
use desk_control.Gateway.{
  Gateway, GatewayConfig, AgentConnection, store_of, env_of, reject, close_socket, send_frame,
  handle_connection, handle_close, on_close, close_known, lose_agent, agent_of, drop_connection,
  sweep, sweep_each, sweep_one, stop, close_all, change_connection,
}
use desk_control.Gateway.Frames.{
  on_message, handle_raw, handle_parsed, handle_message, handle_hello, handle_identified,
  handle_report, admit, replace_previous, lacks_token, with_desk, is_refused_version,
}
use desk_control.Gateway.Desk.{
  commands-mark_agent_seen, commands-set_agent_offline, commands-register_agent,
  commands-take_inventory, commands-take_observed, commands-apply_observed_reports,
}
use desk_control.Gateway.System.{
  SystemStep, Run, connected, received, closed, swept, stopped, served, begin, then_step,
}

-- A property of the service that its steps keep, with any agents connected.
abbrev pub IsKept : (ServiceState → Type 0) → Type 0
IsKept P = (env : Env) (st u : ServiceState) → Step env st u → P st → P u

pub service-send_frame :
    (gw : Gateway) (c : ℕ) (m : ControllerMessage) → (send_frame gw c m).service ≡ gw.service
unfolding send_frame
service-send_frame gw c m = ground arith

pub service-reject :
    (gw : Gateway) (c : ℕ) (code message : String) → (reject gw c code message).service ≡ gw.service
unfolding reject close_socket change_connection
service-reject gw c code message = service-send_frame gw c _

service-replace_previous :
    (gw : Gateway) (c : ℕ) (id : String) → (replace_previous gw c id).service ≡ gw.service
unfolding replace_previous close_socket change_connection
service-replace_previous gw c id = elim (Option-cases (lookup id gw.by_agent_id)) [
  | inl e ↦ ground arith
  | inr (p, e) ↦ ground arith
]

service-close_all : (gw : Gateway) (cs : List ℕ) → (close_all gw cs).service ≡ gw.service
unfolding close_all close_socket change_connection
service-close_all gw [] = refl
service-close_all gw (c ∷ cs) = service-close_all (close_socket gw c) cs

module _ (P : ServiceState → Type 0) (keeps : IsKept P) (config : GatewayConfig) where
  desk-keeps :
      (gw : Gateway) (s : DeskStore)
      → s.commands ≡ (store_of gw).commands
      → P gw.service
      → P (with_store gw.service s)
  desk-keeps gw s same p =
      keeps (env_of config gw) gw.service (with_store gw.service s) (store_changed s same) p

  lose_agent-keeps :
      (gw : Gateway) (now c : ℕ) (agent reason : String)
      → P gw.service
      → P (lose_agent gw now c agent reason).service
  unfolding lose_agent
  lose_agent-keeps gw now c agent reason p =
      keeps (env_of config gw) _ _ (agent_lost now agent)
        (desk-keeps gw _ (commands-set_agent_offline (store_of gw) agent _ reason) p)

  handle_close-keeps :
      (gw : Gateway) (now c : ℕ) (reason : String)
      → P gw.service
      → P (handle_close gw now c reason).service
  unfolding handle_close close_known
  handle_close-keeps gw now c reason p = elim (Bool-cases (contains gw.connections c)) [
    | inr gone ↦ rw (gone, handle_close) p
    | inl there ↦ elim (Option-cases (agent_of (drop_connection gw c) c)) [
      | inl e ↦ rw (there, handle_close) (rw (e, close_known) p)
      | inr (a, e) ↦
          rw (there, handle_close)
            (rw (e, close_known) (lose_agent-keeps (drop_connection gw c) now c a reason p))
    ]
  ]

  on_close-keeps :
      (gw : Gateway) (now c : ℕ) (reason : String)
      → P gw.service
      → P (on_close gw now c reason).service
  unfolding on_close close_socket change_connection
  on_close-keeps gw now c reason p = handle_close-keeps (close_socket gw c) now c reason p

  sweep_one-keeps :
      (gw : Gateway) (now c : ℕ) → P gw.service → P (sweep_one config gw now c).service
  unfolding sweep_one
  sweep_one-keeps gw now c p = elim (Option-cases (lookup c gw.heap)) [
    | inl e ↦ rw (e, sweep_one) p
    | inr (x, e) ↦ elim (Option-cases (truthy x.agent_id)) [
      | inl f ↦ rw (e, sweep_one) (rw f p)
      | inr (a, f) ↦ elim (Bool-cases (ltb config.agent_timeout_ms (now - x.last_seen_at))) [
        | inl late ↦
            rw (e, sweep_one) (rw f (rw late (on_close-keeps gw now c "heartbeat timeout" p)))
        | inr fresh ↦ rw (e, sweep_one) (rw f (rw fresh p))
      ]
    ]
  ]

  sweep_each-keeps :
      (gw : Gateway) (now : ℕ) (cs : List ℕ)
      → P gw.service
      → P (sweep_each config gw now cs).service
  unfolding sweep_each
  sweep_each-keeps gw now [] p = p
  sweep_each-keeps gw now (c ∷ cs) p =
      sweep_each-keeps (sweep_one config gw now c) now cs (sweep_one-keeps gw now c p)

  reject-keeps :
      (gw : Gateway) (c : ℕ) (code message : String)
      → P gw.service
      → P (reject gw c code message).service
  reject-keeps gw c code message p = subst P (sym (service-reject gw c code message)) p

  admit-keeps :
      (gw : Gateway) (now c : ℕ) (x : AgentConnection) (h : HelloPayload) (v : ℕ)
      → P gw.service
      → P (admit config gw now c x h v).service
  unfolding admit change_connection
  admit-keeps gw now c x h v p =
      let free = replace_previous gw c h.agent.id in
      subst P (sym (service-send_frame _ c _)) (
        desk-keeps free _ (commands-register_agent (store_of free) now h v)
          (subst P (sym (service-replace_previous gw c h.agent.id)) p))

  pub handle_hello-keeps :
      (gw : Gateway) (now c : ℕ) (x : AgentConnection) (h : HelloPayload) (v : ℕ)
      → P gw.service
      → P (handle_hello config gw now c x h v).service
  unfolding handle_hello
  handle_hello-keeps gw now c x h v p = elim (Bool-cases (lacks_token config h)) [
    | inl bad ↦ rw (bad, handle_hello) (reject-keeps gw c _ _ p)
    | inr good ↦ rw (good, handle_hello) (admit-keeps gw now c x h v p)
  ]

  handle_report-keeps :
      (gw : Gateway) (now : ℕ) (agent : String) (m : AgentMessage)
      → P gw.service
      → P (handle_report config gw now agent m).service
  unfolding handle_report touch
  handle_report-keeps gw now agent (AgentMessage.hello h) p = p
  handle_report-keeps gw now agent (AgentMessage.heartbeat t) p = desk-keeps gw _ refl p
  handle_report-keeps gw now agent (AgentMessage.inventory rs) p =
      desk-keeps gw _ (commands-take_inventory (store_of gw) agent rs) p
  handle_report-keeps gw now agent (AgentMessage.observed_state rs usb) p =
      desk-keeps gw _ (commands-take_observed (store_of gw) now agent rs usb) p
  handle_report-keeps gw now agent (AgentMessage.command_ack id) p =
      keeps (env_of config gw) _ _ (acknowledged now id) p
  handle_report-keeps gw now agent (AgentMessage.command_result id r rs) p =
      keeps _ _ _ (concluded now id r)
        (desk-keeps gw _ (commands-apply_observed_reports (store_of gw) now agent rs) p)
  handle_report-keeps gw now agent (AgentMessage.error e) p = p

  handle_identified-keeps :
      (gw : Gateway) (now c : ℕ) (m : AgentMessage)
      → P gw.service
      → P (handle_identified config gw now c m).service
  unfolding handle_identified
  handle_identified-keeps gw now c m p = elim (Option-cases (agent_of gw c)) [
    | inl e ↦ rw (e, handle_identified) (reject-keeps gw c _ _ p)
    | inr (a, e) ↦
        rw (e, handle_identified)
          (handle_report-keeps (with_desk gw (mark_agent_seen (store_of gw) now a)) now a m
            (desk-keeps gw _ (commands-mark_agent_seen (store_of gw) now a) p))
  ]

  handle_message-keeps :
      (gw : Gateway) (now c : ℕ) (x : AgentConnection) (v : ℕ) (m : AgentMessage)
      → P gw.service
      → P (handle_message config gw now c x v m).service
  unfolding handle_message
  handle_message-keeps gw now c x v (AgentMessage.hello h) p = handle_hello-keeps gw now c x h v p
  handle_message-keeps gw now c x v (AgentMessage.heartbeat t) p =
      handle_identified-keeps gw now c (AgentMessage.heartbeat t) p
  handle_message-keeps gw now c x v (AgentMessage.inventory rs) p =
      handle_identified-keeps gw now c (AgentMessage.inventory rs) p
  handle_message-keeps gw now c x v (AgentMessage.observed_state rs usb) p =
      handle_identified-keeps gw now c (AgentMessage.observed_state rs usb) p
  handle_message-keeps gw now c x v (AgentMessage.command_ack id) p =
      handle_identified-keeps gw now c (AgentMessage.command_ack id) p
  handle_message-keeps gw now c x v (AgentMessage.command_result id r rs) p =
      handle_identified-keeps gw now c (AgentMessage.command_result id r rs) p
  handle_message-keeps gw now c x v (AgentMessage.error e) p =
      handle_identified-keeps gw now c (AgentMessage.error e) p

  handle_parsed-keeps :
      (gw : Gateway) (now c : ℕ) (x : AgentConnection) (parsed : Parsed)
      → P gw.service
      → P (handle_parsed config gw now c x parsed).service
  unfolding handle_parsed change_connection
  handle_parsed-keeps gw now c x (Parsed.invalid detail) p = reject-keeps gw c _ _ p
  handle_parsed-keeps gw now c x (Parsed.valid v m) p = handle_message-keeps _ now c x v m p

  handle_raw-keeps :
      (gw : Gateway) (now c : ℕ) (x : AgentConnection) (frame : AgentFrame)
      → P gw.service
      → P (handle_raw config gw now c x frame).service
  unfolding handle_raw
  handle_raw-keeps gw now c x AgentFrame.not_json p = reject-keeps gw c _ _ p
  handle_raw-keeps gw now c x (AgentFrame.json version parsed) p =
      elim (Bool-cases (is_refused_version version)) [
        | inl old ↦ rw old (reject-keeps gw c _ _ p)
        | inr fine ↦ rw fine (handle_parsed-keeps gw now c x parsed p)
      ]

  on_message-keeps :
      (gw : Gateway) (now c : ℕ) (frame : AgentFrame)
      → P gw.service
      → P (on_message config gw now c frame).service
  unfolding on_message
  on_message-keeps gw now c frame p = elim (Option-cases (lookup c gw.heap)) [
    | inl e ↦ rw (e, on_message) p
    | inr (x, e) ↦ rw (e, on_message) (handle_raw-keeps gw now c x frame p)
  ]

  pub SystemStep-keeps : {gw u : Gateway} → SystemStep config gw u → P gw.service → P u.service
  unfolding handle_connection sweep stop
  SystemStep-keeps {gw} (connected now session_id) p = p
  SystemStep-keeps {gw} (received now c frame) p = on_message-keeps gw now c frame p
  SystemStep-keeps {gw} (closed now c reason) p = on_close-keeps gw now c reason p
  SystemStep-keeps {gw} (swept now) p = sweep_each-keeps gw now gw.connections p
  SystemStep-keeps {gw} stopped p = subst P (sym (service-close_all gw gw.connections)) p
  SystemStep-keeps {gw} (served step) p = keeps (env_of config gw) _ _ step p

  pub Run-keeps : {gw u : Gateway} → Run config gw u → P gw.service → P u.service
  Run-keeps begin p = p
  Run-keeps (then_step r step) p = SystemStep-keeps step (Run-keeps r p)
