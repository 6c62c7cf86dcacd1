-- ===== src/Gateway/Replacing.antt =====
-- `handleHello`: an agent that connects again takes the place of its old connection.
use desk_control.Common.{
  ℕ, String, true, false, List, some, Dict, lookup, insert, modify, lookup-insert, lookup-modify,
  contains, ◌≡◌, ◌≢◌, refl, ◌∙◌, sym, ap, subst, arith, Option-cases, Bool-cases, inl, inr, ◌==◌,
  nat_eq, string_eq,
}
use desk_control.Protocol.{HelloPayload}
use desk_control.Protocol.Frames.{ControllerMessage}
use desk_control.Store.{is_agent_online}
use desk_control.Store.Agents.{register_agent}
use desk_control.Service.{ServiceState}
use desk_control.Gateway.{
  Gateway, GatewayConfig, AgentConnection, store_of, on_close, handle_close, close_socket,
  change_connection, send_frame, agent_of, is_socket_open,
}
use desk_control.Gateway.Connections.{contains-drop, is_socket_open-close_socket}
use desk_control.Gateway.Frames.{handle_hello, admit, replace_previous, lacks_token, with_desk}
use desk_control.Gateway.Naming.{online-register_agent}

-- What becomes of the map, the agent and the sockets when agent `a` says hello on `c`.
pub record IsTakenOver (gw u : Gateway) (c : ℕ) (a : String) : Type 0 where
  pub mapped : lookup a u.by_agent_id ≡ some c
  pub named : agent_of u c ≡ some a
  pub online : is_agent_online (store_of u) a ≡ true
  pub others :
      (b : String)
      → a ≢ b
      → (lookup b u.by_agent_id ≡ lookup b gw.by_agent_id)
        × (is_agent_online (store_of u) b ≡ is_agent_online (store_of gw) b)
  pub speaking : is_socket_open u c ≡ is_socket_open gw c
  pub kept : contains u.connections c ≡ contains gw.connections c
  pub replaced :
      (p : ℕ)
      → lookup a gw.by_agent_id ≡ some p
      → p ≢ c
      → (is_socket_open u p ≡ false)
        × ((later : ℕ) (reason : String)
            → ((on_close u later p reason).service ≡ u.service)
              × ((on_close u later p reason).by_agent_id ≡ u.by_agent_id))

send_frame_lem :
    (gw : Gateway) (c : ℕ) (m : ControllerMessage)
    → send_frame gw c m ≡ record gw { sent = (send_frame gw c m).sent }
unfolding send_frame
send_frame_lem gw c m = elim (Bool-cases (is_socket_open gw c)) [
  | inl e ↦ ground arith
  | inr e ↦ ground arith
]

module _ (gw : Gateway) (c : ℕ) (a : String) where
  abbrev freed : Gateway
  freed = replace_previous gw c a

  service-freed : freed.service ≡ gw.service
  unfolding replace_previous close_socket change_connection
  service-freed = elim (Option-cases (lookup a gw.by_agent_id)) [
    | inl e ↦ ground arith
    | inr (p, e) ↦ ground arith
  ]

  map-freed : freed.by_agent_id ≡ gw.by_agent_id
  unfolding replace_previous close_socket change_connection
  map-freed = elim (Option-cases (lookup a gw.by_agent_id)) [
    | inl e ↦ ground arith
    | inr (p, e) ↦ ground arith
  ]

  open-freed : is_socket_open freed c ≡ is_socket_open gw c
  unfolding replace_previous is_socket_open
  open-freed = elim (Option-cases (lookup a gw.by_agent_id)) [
    | inl e ↦ rw (e, replace_previous) refl
    | inr (p, e) ↦ elim (Bool-cases (p == c)) [
      | inl same ↦ rw (e, replace_previous) (rw same refl)
      | inr other ↦
          rw (e, replace_previous) (rw other (is_socket_open-close_socket gw p c ∙ ground arith))
    ]
  ]

  kept-freed : contains freed.connections c ≡ contains gw.connections c
  unfolding replace_previous close_socket change_connection
  kept-freed = elim (Option-cases (lookup a gw.by_agent_id)) [
    | inl e ↦ rw (e, replace_previous) refl
    | inr (p, e) ↦ elim (Bool-cases (p == c)) [
      | inl same ↦ rw (e, replace_previous) (rw same refl)
      | inr other ↦
          rw (e, replace_previous) (rw other (contains-drop gw.connections p c ∙ ground arith))
    ]
  ]

  replaced-freed :
      (p : ℕ)
      → lookup a gw.by_agent_id ≡ some p
      → p ≢ c
      → (is_socket_open freed p ≡ false) × (contains freed.connections p ≡ false)
  unfolding replace_previous is_socket_open
  replaced-freed p e differ =
      let other : (p == c) ≡ false = ground arith in
      rw (e, replace_previous)
        (rw other (
          is_socket_open-close_socket gw p p ∙ ground arith,
          contains-drop (close_socket gw p).connections p p ∙ ground arith,
        ))

  there-freed :
      {x : AgentConnection}
      → lookup c gw.heap ≡ some x
      → (y : AgentConnection) × (lookup c freed.heap ≡ some y)
  unfolding replace_previous close_socket change_connection
  there-freed {x} there = elim (Option-cases (lookup a gw.by_agent_id)) [
    | inl e ↦ rw (e, replace_previous) (x, there)
    | inr (p, e) ↦ elim (Bool-cases (p == c)) [
      | inl same ↦ rw (e, replace_previous) (rw same (x, there))
      | inr other ↦
          rw (e, replace_previous) (rw other (x, lookup-modify c p _ gw.heap ∙ ground arith))
    ]
  ]

closed_twice :
    (u : Gateway) (p later : ℕ) (reason : String)
    → contains u.connections p ≡ false
    → ((on_close u later p reason).service ≡ u.service)
      × ((on_close u later p reason).by_agent_id ≡ u.by_agent_id)
unfolding on_close handle_close close_socket change_connection
closed_twice u p later reason gone = rw (gone, handle_close) (refl, refl)

named-modify :
    (heap : Dict ℕ AgentConnection) (c : ℕ) (a : String) (y : AgentConnection)
    → lookup c heap ≡ some y
    → lookup c (modify c (λ (x : AgentConnection). record x { agent_id = some a }) heap)
      ≡ some (record y { agent_id = some a })
named-modify heap c a y there =
    ground (arith, lookup-modify c c (λ (x : AgentConnection). record x { agent_id = some a }) heap)

module _ (config : GatewayConfig) (gw : Gateway) (now c : ℕ) (x y : AgentConnection)
    (h : HelloPayload) (v : ℕ) where
  -- The gateway just before the welcome is sent.
  abbrev seated : Gateway
  seated =
      let free = replace_previous gw c h.agent.id in
      let named =
        change_connection (with_desk free (register_agent (store_of free) now h v)) c
          (λ z. record z { agent_id = some h.agent.id }) in
      record named { by_agent_id = insert h.agent.id c named.by_agent_id }

  seated-IsTakenOver :
      (sent : List (ℕ × ControllerMessage))
      → lookup c gw.heap ≡ some y
      → h.agent.id ≢ ""
      → IsTakenOver gw (record seated { sent = sent }) c h.agent.id
  unfolding change_connection agent_of is_socket_open
  seated-IsTakenOver sent there nonempty =
      let free = freed gw c h.agent.id in
      let (z, held) = there-freed gw c h.agent.id there in
      let here = named-modify free.heap c h.agent.id z held in
      let name : AgentConnection → AgentConnection = λ k. record k { agent_id = some h.agent.id } in
      let free_desk = ap (λ (st : ServiceState). st.store) (service-freed gw c h.agent.id) in
      record {
        mapped = lookup-insert h.agent.id h.agent.id c free.by_agent_id ∙ ground arith;
        named = ground arith;
        online = online-register_agent (store_of free) now h v h.agent.id ∙ ground arith;
        others = λ b differ. (
          lookup-insert b h.agent.id c free.by_agent_id
              ∙ (ground arith ∙ ap (lookup b) (map-freed gw c h.agent.id)),
          online-register_agent (store_of free) now h v b
              ∙ (ground arith ∙ ap (λ s. is_agent_online s b) free_desk),
        );
        speaking = ground (arith, open-freed gw c h.agent.id);
        kept = kept-freed gw c h.agent.id;
        replaced = λ p was differ.
            let (shut, gone) = replaced-freed gw c h.agent.id p was differ in
            (
              ground (arith, lookup-modify p c name free.heap),
              λ later reason. closed_twice _ p later reason gone,
            );
      }

  admit-IsTakenOver :
      lookup c gw.heap ≡ some y
      → h.agent.id ≢ ""
      → IsTakenOver gw (admit config gw now c x h v) c h.agent.id
  unfolding admit
  admit-IsTakenOver there nonempty =
      subst (λ u. IsTakenOver gw u c h.agent.id) (sym (send_frame_lem seated c _))
        (seated-IsTakenOver _ there nonempty)

-- When an agent says hello with the pairing token, where one is set, it is mapped to this connection
-- and online, and this socket is as open as before. The socket of its previous connection, if that
-- was another, is shut, and when its close comes, at any time, the service and the map stay as they
-- are: the agent that has come back is not taken for lost. Other agents stay as they were.
pub handle_hello-IsTakenOver :
    (config : GatewayConfig) (gw : Gateway) (now c : ℕ) (x y : AgentConnection) (h : HelloPayload)
    (v : ℕ)
    → lookup c gw.heap ≡ some y
    → h.agent.id ≢ ""
    → lacks_token config h ≡ false
    → IsTakenOver gw (handle_hello config gw now c x h v) c h.agent.id
unfolding handle_hello
handle_hello-IsTakenOver config gw now c x y h v there nonempty good =
    rw (good, handle_hello) (admit-IsTakenOver config gw now c x y h v there nonempty)
