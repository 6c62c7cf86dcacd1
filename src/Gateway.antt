-- ===== src/Gateway.antt =====
-- apps/controller/src/agent-gateway.ts, the class `AgentGateway`: the connections of the agents.
-- A connection is an object that the set, the map and the sockets' callbacks share, so it stands in
-- a heap under a number. The store and the command service are in `service`. What the gateway sends
-- itself is logged in `sent`; the logger's lines are left out.
pub mod Frames
pub mod Desk
pub mod System
pub mod Connections
pub mod Losing
pub mod Closing
pub mod Admission
pub mod Naming
pub mod Replacing
pub mod Renaming
pub mod Sweeping
use desk_control.Common.{
  ℕ, ◌+◌, ◌-◌, String, Bool, true, false, ◌&&◌, not, List, [], ◌∷◌, ◌++◌, Option, none, some, Dict,
  lookup, insert, erase, modify, ◌==◌, contains, filter_bool, truthy, ltb, string_eq, nat_eq,
  option_eq, if◌then◌else◌,
}
use desk_control.Domain.Command.{CommandError}
use desk_control.Domain.Device.{ControllerInfo, ConnectivityState, Agent}
use desk_control.Protocol.Frames.{ControllerMessage}
use desk_control.Store.{DeskStore, is_agent_online}
use desk_control.Store.Agents.{set_agent_offline}
use desk_control.Service.{ServiceState, Env, Dispatcher, with_store}
use desk_control.Service.Responses.{fail_commands_for_agent}

-- The fields of `ControllerConfig` that the gateway reads.
pub record GatewayConfig : Type 0 where
  pub controller : ControllerInfo
  pub pairing_token : Option String
  pub heartbeat_interval_ms : ℕ
  pub command_timeout_ms : ℕ
  pub observe_interval_ms : ℕ
  pub agent_timeout_ms : ℕ

-- `is_open`: the socket's `readyState` is `OPEN`.
pub record AgentConnection : Type 0 where
  pub is_open : Bool
  pub agent_id : Option String
  pub session_id : String
  pub last_seen_at : ℕ

pub record Gateway : Type 0 where
  pub heap : Dict ℕ AgentConnection
  pub next_connection : ℕ
  pub connections : List ℕ
  pub by_agent_id : Dict String ℕ
  pub sent : List (ℕ × ControllerMessage)
  pub service : ServiceState

abbrev pub with_service : Gateway → ServiceState → Gateway
with_service gw st = record gw { service = st }

abbrev pub store_of : Gateway → DeskStore
store_of gw = gw.service.store

unfoldable pub is_socket_open : Gateway → ℕ → Bool
is_socket_open gw c = elim (lookup c gw.heap) [
  | none ↦ false
  | some connection ↦ connection.is_open
]

-- `isOnline` and the test of `send`, as the command service sees them.
unfoldable pub is_online : Gateway → Dict String Agent → String → Bool
is_online gw agents agent_id = elim (lookup agent_id gw.by_agent_id) [
  | none ↦ false
  | some _ ↦ is_agent_online (record (store_of gw) { agents = agents }) agent_id
]

unfoldable pub can_send : Gateway → String → Bool
unfolding is_socket_open
can_send gw agent_id = elim (lookup agent_id gw.by_agent_id) [
  | none ↦ false
  | some c ↦ is_socket_open gw c
]

abbrev pub dispatcher_of : Gateway → Dispatcher
dispatcher_of gw = record { is_online = is_online gw; is_open = can_send gw }

abbrev pub env_of : GatewayConfig → Gateway → Env
env_of config gw = record {
  dispatcher = dispatcher_of gw;
  command_timeout_ms = config.command_timeout_ms;
}

unfoldable pub change_connection : Gateway → ℕ → (AgentConnection → AgentConnection) → Gateway
change_connection gw c f = record gw { heap = modify c f gw.heap }

-- `socket.send`: a socket that is not open drops the frame.
unfoldable pub send_frame : Gateway → ℕ → ControllerMessage → Gateway
unfolding is_socket_open
send_frame gw c message =
    if is_socket_open gw c then record gw { sent = gw.sent ++ (c, message) ∷ [] } else gw

-- `socket.close()` and `socket.terminate()`: the socket is open no more. Its `close` event comes
-- later, as `on_close`.
unfoldable pub close_socket : Gateway → ℕ → Gateway
unfolding change_connection
close_socket gw c = change_connection gw c (λ connection. record connection { is_open = false })

unfoldable pub reject : Gateway → ℕ → String → String → Gateway
unfolding send_frame close_socket
reject gw c code message =
    let error : CommandError = record { code = code; message = message; retryable = false } in
    close_socket (send_frame gw c (ControllerMessage.reject error)) c

unfoldable pub handle_connection : Gateway → ℕ → String → Gateway
handle_connection gw now session_id =
    let connection : AgentConnection = record {
      is_open = true;
      agent_id = none;
      session_id = session_id;
      last_seen_at = now;
    } in
    record gw {
      heap = insert gw.next_connection connection gw.heap;
      next_connection = gw.next_connection + 1;
      connections = gw.connections ++ gw.next_connection ∷ [];
    }

-- `connections.delete(connection)`.
abbrev pub drop_connection : Gateway → ℕ → Gateway
drop_connection gw c = record gw {
  connections = filter_bool (λ other. not (other == c)) gw.connections;
}

-- `connection.agentId`, where it is set.
unfoldable pub agent_of : Gateway → ℕ → Option String
agent_of gw c = elim (lookup c gw.heap) [
  | none ↦ none
  | some connection ↦ truthy connection.agent_id
]

abbrev pub unmapped : Gateway → ℕ → String → Dict String ℕ
unmapped gw c agent_id =
    if lookup agent_id gw.by_agent_id == some c
    then erase agent_id gw.by_agent_id
    else gw.by_agent_id

-- The agent of a connection is lost: what `handleClose` does once the connection is deleted.
unfoldable pub lose_agent : Gateway → ℕ → ℕ → String → String → Gateway
lose_agent gw now c agent_id reason =
    let offline = set_agent_offline (store_of gw) agent_id ConnectivityState.offline reason in
    record gw {
      by_agent_id = unmapped gw c agent_id;
      service = fail_commands_for_agent (with_store gw.service offline) now agent_id;
    }

close_known : Gateway → ℕ → ℕ → String → Gateway
unfolding agent_of lose_agent
close_known gw now c reason = elim (agent_of gw c) [
  | none ↦ gw
  | some agent_id ↦ lose_agent gw now c agent_id reason
]

unfoldable pub handle_close : Gateway → ℕ → ℕ → String → Gateway
unfolding close_known
handle_close gw now c reason =
    if contains gw.connections c then close_known (drop_connection gw c) now c reason else gw

-- The callbacks for `close` and `error`: by then the socket is no longer open.
unfoldable pub on_close : Gateway → ℕ → ℕ → String → Gateway
unfolding close_socket handle_close
on_close gw now c reason = handle_close (close_socket gw c) now c reason

-- One round of the loop of `sweep`.
unfoldable pub sweep_one : GatewayConfig → Gateway → ℕ → ℕ → Gateway
unfolding on_close
sweep_one config gw now c = elim (lookup c gw.heap) [
  | none ↦ gw
  | some connection ↦ elim (truthy connection.agent_id) [
    | none ↦ gw
    | some _ ↦
        if ltb config.agent_timeout_ms (now - connection.last_seen_at)
        then on_close gw now c "heartbeat timeout"
        else gw
  ]
]

unfoldable pub sweep_each : GatewayConfig → Gateway → ℕ → List ℕ → Gateway
unfolding sweep_one
sweep_each config gw now [] = gw
sweep_each config gw now (c ∷ cs) = sweep_each config (sweep_one config gw now c) now cs

unfoldable pub sweep : GatewayConfig → Gateway → ℕ → Gateway
unfolding sweep_each
sweep config gw now = sweep_each config gw now gw.connections

unfoldable pub close_all : Gateway → List ℕ → Gateway
unfolding close_socket
close_all gw [] = gw
close_all gw (c ∷ cs) = close_all (close_socket gw c) cs

unfoldable pub stop : Gateway → Gateway
unfolding close_all
stop gw = record (close_all gw gw.connections) { connections = []; by_agent_id = [] }
