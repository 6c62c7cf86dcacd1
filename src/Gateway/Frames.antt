-- ===== src/Gateway/Frames.antt =====
-- agent-gateway.ts: what the gateway does with a frame of an agent.
use desk_control.Common.{
  ℕ, String, Bool, false, not, List, Option, none, some, lookup, insert, ◌==◌, truthy, decimal,
  ◌<>◌, string_eq, nat_eq, option_eq, if◌then◌else◌,
}
use desk_control.Protocol.{
  HelloPayload, MonitorReport, ObservedMonitorReport, protocol_version,
  is_supported_protocol_version,
}
use desk_control.Protocol.Frames.{AgentMessage, Parsed, AgentFrame, ControllerMessage}
use desk_control.Store.{DeskStore, touch}
use desk_control.Store.Agents.{register_agent, mark_agent_seen}
use desk_control.Store.Inventory.{apply_monitor_reports}
use desk_control.Store.Observations.{apply_observed_reports}
use desk_control.Store.Usb.{apply_usb_report}
use desk_control.Service.{with_store}
use desk_control.Service.Responses.{on_agent_ack, on_agent_result}
use desk_control.Gateway.{
  Gateway, GatewayConfig, AgentConnection, with_service, store_of, env_of, reject, close_socket,
  change_connection, send_frame, drop_connection, agent_of,
}

unfoldable pub lacks_token : GatewayConfig → HelloPayload → Bool
lacks_token config payload = elim (truthy config.pairing_token) [
  | none ↦ false
  | some token ↦ not (payload.auth_token == some token)
]

-- A reconnecting agent replaces its old socket.
unfoldable pub replace_previous : Gateway → ℕ → String → Gateway
replace_previous gw c agent_id = elim (lookup agent_id gw.by_agent_id) [
  | none ↦ gw
  | some previous ↦
      if previous == c then gw else drop_connection (close_socket gw previous) previous
]

abbrev pub with_desk : Gateway → DeskStore → Gateway
with_desk gw s = with_service gw (with_store gw.service s)

-- `handleHello` behind its guard.
unfoldable pub admit :
    GatewayConfig → Gateway → ℕ → ℕ → AgentConnection → HelloPayload → ℕ → Gateway
unfolding replace_previous change_connection send_frame
admit config gw now c connection payload v =
    let free = replace_previous gw c payload.agent.id in
    let registered = with_desk free (register_agent (store_of free) now payload v) in
    let named =
      change_connection registered c (λ x. record x { agent_id = some payload.agent.id }) in
    send_frame (record named { by_agent_id = insert payload.agent.id c named.by_agent_id }) c
      (ControllerMessage.welcome config.controller connection.session_id
        config.heartbeat_interval_ms config.command_timeout_ms config.observe_interval_ms)

unfoldable pub handle_hello :
    GatewayConfig → Gateway → ℕ → ℕ → AgentConnection → HelloPayload → ℕ → Gateway
unfolding admit
handle_hello config gw now c connection payload v =
    if lacks_token config payload
    then reject gw c "UNAUTHORIZED" "Pairing token missing or incorrect"
    else admit config gw now c connection payload v

unfoldable pub take_inventory : DeskStore → String → List MonitorReport → DeskStore
take_inventory s agent_id monitors = elim (lookup agent_id s.agents) [
  | none ↦ s
  | some agent ↦ apply_monitor_reports s agent.id agent.computer_id monitors
]

unfoldable pub take_observed :
    DeskStore → ℕ → String → List ObservedMonitorReport → Option (List String) → DeskStore
take_observed s now agent_id monitors none = apply_observed_reports s now agent_id monitors
take_observed s now agent_id monitors (some devices) =
    apply_usb_report (apply_observed_reports s now agent_id monitors) agent_id devices

-- The `switch`, for the message of an agent that is known. `error` is only logged, and a `hello`
-- does not come here.
unfoldable pub handle_report : GatewayConfig → Gateway → ℕ → String → AgentMessage → Gateway
unfolding take_inventory take_observed
handle_report config gw now agent_id (AgentMessage.hello payload) = gw
handle_report config gw now agent_id (AgentMessage.heartbeat uptime) =
    with_desk gw (touch (store_of gw))
handle_report config gw now agent_id (AgentMessage.inventory monitors) =
    with_desk gw (take_inventory (store_of gw) agent_id monitors)
handle_report config gw now agent_id (AgentMessage.observed_state monitors usb) =
    with_desk gw (take_observed (store_of gw) now agent_id monitors usb)
handle_report config gw now agent_id (AgentMessage.command_ack command_id) =
    with_service gw (on_agent_ack gw.service now command_id)
handle_report config gw now agent_id (AgentMessage.command_result command_id result observed) =
    let seen = with_desk gw (apply_observed_reports (store_of gw) now agent_id observed) in
    with_service seen (on_agent_result (env_of config seen) seen.service now command_id result)
handle_report config gw now agent_id (AgentMessage.error e) = gw

unfoldable pub handle_identified : GatewayConfig → Gateway → ℕ → ℕ → AgentMessage → Gateway
unfolding handle_report agent_of
handle_identified config gw now c message = elim (agent_of gw c) [
  | none ↦ reject gw c "UNKNOWN_AGENT" "Send agent.hello before anything else"
  | some agent_id ↦
      handle_report config (with_desk gw (mark_agent_seen (store_of gw) now agent_id)) now agent_id
        message
]

unfoldable pub handle_message :
    GatewayConfig → Gateway → ℕ → ℕ → AgentConnection → ℕ → AgentMessage → Gateway
unfolding handle_hello handle_identified
handle_message config gw now c connection v (AgentMessage.hello payload) =
    handle_hello config gw now c connection payload v
handle_message config gw now c connection v message = handle_identified config gw now c message

unfoldable pub handle_parsed : GatewayConfig → Gateway → ℕ → ℕ → AgentConnection → Parsed → Gateway
unfolding handle_message change_connection
handle_parsed config gw now c connection (Parsed.invalid detail) =
    reject gw c "INVALID_MESSAGE" detail
handle_parsed config gw now c connection (Parsed.valid v message) =
    handle_message config (change_connection gw c (λ x. record x { last_seen_at = now })) now c
      connection v message

unfoldable pub is_refused_version : Option ℕ → Bool
unfolding is_supported_protocol_version
is_refused_version none = false
is_refused_version (some v) = not (is_supported_protocol_version v)

version_text : Option ℕ → String
version_text none = ""
version_text (some v) =
    "Controller speaks protocol v" <> (decimal protocol_version <> (", agent sent v" <> decimal v))

unfoldable pub handle_raw : GatewayConfig → Gateway → ℕ → ℕ → AgentConnection → AgentFrame → Gateway
unfolding handle_parsed is_refused_version version_text
handle_raw config gw now c connection AgentFrame.not_json =
    reject gw c "INVALID_MESSAGE" "Frame was not valid JSON"
handle_raw config gw now c connection (AgentFrame.json version parsed) =
    if is_refused_version version
    then reject gw c "UNSUPPORTED_PROTOCOL_VERSION" (version_text version)
    else handle_parsed config gw now c connection parsed

-- The callback for `message`, of the connection that the heap holds under `c`.
unfoldable pub on_message : GatewayConfig → Gateway → ℕ → ℕ → AgentFrame → Gateway
unfolding handle_raw
on_message config gw now c frame = elim (lookup c gw.heap) [
  | none ↦ gw
  | some connection ↦ handle_raw config gw now c connection frame
]
