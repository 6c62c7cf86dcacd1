-- ===== src/Tests/Gateway.antt =====
-- Concrete runs of the gateway's theorems: one agent is linked, and a second socket is open.
use desk_control.Common.{
  ℕ, String, true, false, ◌&&◌, not, [], ◌∷◌, none, some, lookup, contains, ◌≡◌, ◌≢◌, option_eq,
  ◌⊎◌, refl, string_eq, nat_eq, Memᴰ,
}
use native.Mathlib.Decide.{ℕ_discrete}
use desk_control.Domain.Command.{DeskCommand}
use desk_control.Domain.Command.Targets.{monitor_target}
use desk_control.Domain.Device.{Agent, Platform, ConnectivityState}
use desk_control.Protocol.{HelloPayload}
use desk_control.Protocol.Frames.{AgentMessage, AgentFrame, Parsed}
use desk_control.Store.{is_agent_online}
use desk_control.Store.Commands.Evolution.{Flies}
use desk_control.Service.{Timeout}
use desk_control.Service.Creating.{IsOrderly}
use desk_control.Service.Monitors.{set_monitor_source}
use desk_control.Service.Responses.{on_timeout}
use desk_control.Service.Retiring.{commands_of}
use desk_control.Service.Steps.{source_requested}
use desk_control.Service.Timers.{IsTimed}
use desk_control.Gateway.{
  Gateway, GatewayConfig, AgentConnection, agent_of, on_close, sweep, store_of, env_of, is_online,
  can_send, handle_connection, with_service,
}
use desk_control.Gateway.Frames.{on_message, handle_hello, lacks_token}
use desk_control.Gateway.System.{Run, begin, then_step, connected, received, served}
use desk_control.Gateway.System.Upkeep.{Run-IsSound}
use desk_control.Gateway.Closing.{IsLost, on_close-IsLost}
use desk_control.Gateway.Admission.{IsWelcome, IsTurnedAway, on_message-IsGuarded}
use desk_control.Gateway.Replacing.{IsTakenOver, handle_hello-IsTakenOver}
use desk_control.Gateway.Renaming.{renamed_stays_online}
use desk_control.Gateway.Sweeping.{is_stale, contains-sweep}
use desk_control.Tests.Desk.{desk, start, stamp, to_pc}

abbrev config : GatewayConfig
config = record {
  controller = record {
    id = "controller";
    name = "desk";
    version = "1";
    protocol_version = 1;
    started_at = 0;
  };
  pairing_token = some "secret";
  heartbeat_interval_ms = 5000;
  command_timeout_ms = 12000;
  observe_interval_ms = 3000;
  agent_timeout_ms = 15000;
}

abbrev agent : Agent
agent = record {
  id = "agent-pc";
  computer_id = "pc";
  detected_name = "PC";
  custom_name = none;
  platform = Platform.windows;
  protocol_version = 1;
  agent_version = "1";
  connectivity = record { state = ConnectivityState.online; last_seen_at = some 5; detail = none };
  provider_kind = "mock";
  supported_command_kinds = [];
}

abbrev hello_from : String → HelloPayload
hello_from id = record {
  agent = record { id = id; detected_name = "PC"; agent_version = "1"; provider_kind = "mock" };
  computer = record {
    id = "pc";
    detected_name = "PC";
    platform = Platform.windows;
    capabilities = [];
    metadata = [];
  };
  monitors = [];
  supported_command_kinds = [];
  auth_token = some "secret";
}

abbrev first : AgentConnection
first = record { is_open = true; agent_id = some "agent-pc"; session_id = "s0"; last_seen_at = 5 }

abbrev second : AgentConnection
second = record { is_open = true; agent_id = none; session_id = "s1"; last_seen_at = 6 }

abbrev empty : Gateway
empty = record {
  heap = [];
  next_connection = 0;
  connections = [];
  by_agent_id = [];
  sent = [];
  service = start;
}

abbrev linked : Gateway
linked = record {
  heap = (0, first) ∷ (1, second) ∷ [];
  next_connection = 2;
  connections = 0 ∷ 1 ∷ [];
  by_agent_id = ("agent-pc", 0) ∷ [];
  sent = [];
  service = record start { store = record desk { agents = ("agent-pc", agent) ∷ [] } };
}

empty-IsOrderly : IsOrderly (commands_of start)
unfolding lookup
empty-IsOrderly = record {
  keyed = record { own_id = λ i c e. cc; once = tt };
  one = λ i j c d f g same. cc;
}

start-IsTimed : IsTimed none start
unfolding lookup
start-IsTimed = record {
  fresh = λ t m. elim m [ ];
  owner = λ t u m. elim m [ ];
  owned = λ id h e. cc;
  covered = λ i c other f mon. let here = f.0 in cc;
}

abbrev greeting : AgentFrame
greeting = AgentFrame.json (some 1) (Parsed.valid 1 (AgentMessage.hello (hello_from "agent-pc")))

abbrev joined : Gateway
joined = on_message config (handle_connection empty 5 "s0") 6 0 greeting

abbrev asked : Gateway
asked = with_service joined (set_monitor_source (env_of config joined) joined.service stamp to_pc).0

abbrev three_events : Run config empty asked
three_events =
    then_step (then_step (then_step begin (connected 5 "s0")) (received 6 0 greeting))
      (served (source_requested stamp to_pc))

Run-IsSound_example :
    IsOrderly (commands_of asked.service)
    × ((i : String) (c : DeskCommand)
        → Flies (commands_of asked.service) i c
        → monitor_target c.payload ≢ none
        → (t : Timeout) × Memᴰ t asked.service.scheduled
          × ((now : ℕ) (x : DeskCommand)
              → ¬ (Flies (commands_of (on_timeout (env_of config asked) asked.service now t)) i x)))
Run-IsSound_example = Run-IsSound config empty-IsOrderly start-IsTimed three_events

linked_first : lookup 0 linked.heap ≡ some first
unfolding lookup nat_eq ℕ_discrete
linked_first = refl

linked_second : lookup 1 linked.heap ≡ some second
unfolding lookup nat_eq ℕ_discrete
linked_second = refl

first_agent : agent_of linked 0 ≡ some "agent-pc"
unfolding agent_of lookup nat_eq string_eq ℕ_discrete
first_agent = refl

second_agent : agent_of linked 1 ≡ none
unfolding agent_of lookup nat_eq ℕ_discrete
second_agent = refl

linked_map : lookup "agent-pc" linked.by_agent_id ≡ some 0
unfolding lookup string_eq
linked_map = refl

linked_known : contains linked.connections 0 ≡ true
unfolding nat_eq ℕ_discrete
linked_known = refl

linked_online : is_agent_online (store_of linked) "agent-pc" ≡ true
unfolding is_agent_online lookup string_eq
linked_online = refl

token_shown : lacks_token config (hello_from "agent-pc") ≡ false
unfolding lacks_token string_eq option_eq
token_shown = refl

token_shown_by_laptop : lacks_token config (hello_from "agent-laptop") ≡ false
unfolding lacks_token string_eq option_eq
token_shown_by_laptop = refl

on_close-IsLost_example : IsLost linked (on_close linked 9 0 "socket closed") "agent-pc"
on_close-IsLost_example =
    on_close-IsLost linked 9 0 "agent-pc" "socket closed" linked_known first_agent linked_map
      empty-IsOrderly.keyed

on_message-IsGuarded_example :
    IsWelcome config AgentFrame.not_json
    ⊎ IsTurnedAway linked (on_message config linked 9 1 AgentFrame.not_json) 1
on_message-IsGuarded_example =
    on_message-IsGuarded config linked 9 1 AgentFrame.not_json second linked_second second_agent

handle_hello-IsTakenOver_example :
    IsTakenOver linked
      (handle_hello config linked 9 1 second (hello_from "agent-pc") 1)
      1
      "agent-pc"
handle_hello-IsTakenOver_example =
    handle_hello-IsTakenOver config linked 9 1 second second (hello_from "agent-pc") 1 linked_second
      (λ e. cc) token_shown

renamed_stays_online_example :
    (is_online
        (on_close (handle_hello config linked 9 0 first (hello_from "agent-laptop") 1) 10 0 "gone")
        (store_of (
          on_close
            (handle_hello config linked 9 0 first (hello_from "agent-laptop") 1)
            10
            0
            "gone")).agents
        "agent-pc"
      ≡ true)
    × (can_send
          (on_close
            (handle_hello config linked 9 0 first (hello_from "agent-laptop") 1)
            10
            0
            "gone")
          "agent-pc"
        ≡ false)
renamed_stays_online_example =
    renamed_stays_online config linked 9 10 0 first first (hello_from "agent-laptop") 1 "agent-pc"
      "gone" linked_first linked_known linked_map linked_online empty-IsOrderly (λ e. cc) (λ e. cc)
      token_shown_by_laptop

contains-sweep_example :
    contains (sweep config linked 20000).connections 0
    ≡ (contains linked.connections 0 && not (is_stale config 20000 linked 0))
contains-sweep_example = contains-sweep config 20000 linked 0
