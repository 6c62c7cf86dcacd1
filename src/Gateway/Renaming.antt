-- ===== src/Gateway/Renaming.antt =====
-- A connection that says hello twice, under two names.
use desk_control.Common.{
  ℕ, String, true, false, some, lookup, contains, ◌≡◌, ◌≢◌, ◌∙◌, ap, arith, nat_eq, string_eq,
}
use desk_control.Protocol.{HelloPayload}
use desk_control.Store.{is_agent_online}
use desk_control.Service.Creating.{IsOrderly}
use desk_control.Service.Retiring.{commands_of}
use desk_control.Service.Steps.{Step-IsOrderly}
use desk_control.Gateway.{
  Gateway, GatewayConfig, AgentConnection, store_of, on_close, close_socket, is_socket_open,
  is_online, can_send,
}
use desk_control.Gateway.Closing.{on_close-IsLost}
use desk_control.Gateway.Connections.{heap-handle_close, is_socket_open-close_socket}
use desk_control.Gateway.Frames.{handle_hello, lacks_token}
use desk_control.Gateway.Replacing.{handle_hello-IsTakenOver}
use desk_control.Gateway.System.Keeping.{handle_hello-keeps}

shut-on_close :
    (gw : Gateway) (now c : ℕ) (reason : String)
    → is_socket_open (on_close gw now c reason) c ≡ false
unfolding on_close is_socket_open
shut-on_close gw now c reason =
    ap (λ heap. is_socket_open (record gw { heap = heap }) c)
      (heap-handle_close (close_socket gw c) c now reason)
    ∙ (is_socket_open-close_socket gw c c ∙ ground arith)

-- When the connection of an agent that is online says hello again under another id, with the pairing
-- token, where one is set, and its socket then closes, the first agent is still taken to be online,
-- and nothing can be sent to it: `handleClose` takes down the second agent only.
pub renamed_stays_online :
    (config : GatewayConfig) (gw : Gateway) (now later c : ℕ) (x y : AgentConnection)
    (h : HelloPayload) (v : ℕ) (a reason : String)
    → lookup c gw.heap ≡ some y
    → contains gw.connections c ≡ true
    → lookup a gw.by_agent_id ≡ some c
    → is_agent_online (store_of gw) a ≡ true
    → IsOrderly (commands_of gw.service)
    → h.agent.id ≢ a
    → h.agent.id ≢ ""
    → lacks_token config h ≡ false
    → (is_online
          (on_close (handle_hello config gw now c x h v) later c reason)
          (store_of (on_close (handle_hello config gw now c x h v) later c reason)).agents
          a
        ≡ true)
      × (can_send (on_close (handle_hello config gw now c x h v) later c reason) a ≡ false)
unfolding is_online can_send
renamed_stays_online config gw now later c x y h v a reason there known here online o differ
      nonempty good =
    let u = handle_hello config gw now c x h v in
    let t = handle_hello-IsTakenOver config gw now c x y h v there nonempty good in
    let still =
      handle_hello-keeps (λ st. IsOrderly (commands_of st))
        (λ env st w step. Step-IsOrderly env step) config gw now c x h v o in
    let l =
      on_close-IsLost u later c h.agent.id reason (t.kept ∙ known) t.named t.mapped still.keyed in
    let mapped = (l.others a differ).0 ∙ ((t.others a differ).0 ∙ here) in
    (
      rw (mapped, is_online) ((l.others a differ).1 ∙ ((t.others a differ).1 ∙ online)),
      rw (mapped, can_send) (shut-on_close u later c reason),
    )
