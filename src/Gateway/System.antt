-- ===== src/Gateway/System.antt =====
-- The gateway and the command service together: every event of the sockets and every step of the
-- service is a step of the whole. The dispatcher that the service uses is the gateway of the moment.
pub mod Keeping
pub mod Upkeep
use desk_control.Common.{
  ℕ, String, List, [], ◌∷◌, Option, none, some, lookup, contains, truthy, ◌≡◌, refl, ◌∙◌, sym, ap,
  subst, arith, Option-cases, Bool-cases, inl, inr, string_eq, nat_eq, if◌then◌else◌, ltb, ◌-◌,
  ◌==◌,
}
use desk_control.Domain.Device.{ConnectivityState}
use desk_control.Protocol.{HelloPayload}
use desk_control.Protocol.Frames.{AgentMessage, Parsed, AgentFrame, ControllerMessage}
use desk_control.Store.{DeskStore, touch}
use desk_control.Store.Agents.{set_agent_offline, mark_agent_seen, register_agent}
use desk_control.Store.Observations.{apply_observed_reports}
use desk_control.Store.Commands.Evolution.{Flies}
use desk_control.Service.{Env, ServiceState, with_store}
use desk_control.Service.Creating.{IsOrderly}
use desk_control.Service.Retiring.{commands_of}
use desk_control.Service.Steps.{
  Step, store_changed, acknowledged, concluded, agent_lost, Step-IsOrderly,
}
use desk_control.Service.Timers.{IsTimed}
use desk_control.Service.Timers.Upkeep.{Step-IsTimed}
use desk_control.Gateway.{
  Gateway, GatewayConfig, AgentConnection, with_service, store_of, env_of, reject, close_socket,
  send_frame, is_socket_open, handle_connection, handle_close, on_close, close_known, lose_agent,
  agent_of, drop_connection, sweep, sweep_each, sweep_one, stop, close_all, change_connection,
}
use desk_control.Gateway.Frames.{
  on_message, handle_raw, handle_parsed, handle_message, handle_hello, handle_identified,
  handle_report, admit, replace_previous, lacks_token, with_desk, is_refused_version,
}
use desk_control.Gateway.Desk.{
  commands-mark_agent_seen, commands-set_agent_offline, commands-register_agent,
  commands-take_inventory, commands-take_observed, commands-apply_observed_reports,
}

module _ (config : GatewayConfig) where
  pub data SystemStep (gw : Gateway) : Gateway → Type 0 where
    connected :
        (now : ℕ) (session_id : String) → SystemStep gw (handle_connection gw now session_id)
    received :
        (now : ℕ) (c : ℕ) (frame : AgentFrame) → SystemStep gw (on_message config gw now c frame)
    closed : (now : ℕ) (c : ℕ) (reason : String) → SystemStep gw (on_close gw now c reason)
    swept : (now : ℕ) → SystemStep gw (sweep config gw now)
    stopped : SystemStep gw (stop gw)
    served :
        {st : ServiceState}
        → Step (env_of config gw) gw.service st
        → SystemStep gw (with_service gw st)

  pub data Run (gw : Gateway) : Gateway → Type 0 where
    begin : Run gw gw
    then_step : {t u : Gateway} → Run gw t → SystemStep t u → Run gw u
