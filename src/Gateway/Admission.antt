-- ===== src/Gateway/Admission.antt =====
-- A connection that has not named its agent: what it may do.
use desk_control.Common.{
  ℕ, String, false, [], ◌∷◌, ◌++◌, Option, none, some, lookup, lookup-modify, truthy, ◌≡◌, ◌⊎◌,
  refl, ◌∙◌, subst, arith, Bool-cases, inl, inr, nat_eq, string_eq, option_eq, if◌then◌else◌,
}
use desk_control.Domain.Command.{CommandError}
use desk_control.Protocol.{HelloPayload, is_supported_protocol_version}
use desk_control.Protocol.Frames.{AgentMessage, Parsed, AgentFrame, ControllerMessage}
use desk_control.Gateway.{
  Gateway, GatewayConfig, AgentConnection, reject, close_socket, send_frame, is_socket_open,
  agent_of, change_connection,
}
use desk_control.Gateway.Connections.{is_socket_open-close_socket}
use desk_control.Gateway.Frames.{
  on_message, handle_raw, handle_parsed, handle_message, handle_hello, handle_identified,
  lacks_token, is_refused_version,
}

-- A hello in the protocol's version 1, or with no version outside the schema's, that shows the
-- pairing token where one is set.
pub data IsWelcome (config : GatewayConfig) (frame : AgentFrame) : Type 0 where
  welcome :
      (version : Option ℕ) (v : ℕ) (h : HelloPayload)
      → frame ≡ AgentFrame.json version (Parsed.valid v (AgentMessage.hello h))
      → ((n : ℕ) → version ≡ some n → n ≡ 1)
      → ((token : String) → truthy config.pairing_token ≡ some token → h.auth_token ≡ some token)
      → IsWelcome config frame

-- The frame left nothing behind but a refusal, and the socket is shut.
pub record IsTurnedAway (gw u : Gateway) (c : ℕ) : Type 0 where
  pub service : u.service ≡ gw.service
  pub mapped : u.by_agent_id ≡ gw.by_agent_id
  pub known : u.connections ≡ gw.connections
  pub shut : is_socket_open u c ≡ false
  pub answer :
      (e : CommandError) × (u.sent ≡ (
        if is_socket_open gw c then gw.sent ++ (c, ControllerMessage.reject e) ∷ [] else gw.sent))

reject-IsTurnedAway :
    (gw : Gateway) (c : ℕ) (code message : String) → IsTurnedAway gw (reject gw c code message) c
unfolding reject close_socket change_connection
reject-IsTurnedAway gw c code message =
    let e : CommandError = record { code = code; message = message; retryable = false } in
    let spoken = send_frame gw c (ControllerMessage.reject e) in
    elim (Bool-cases (is_socket_open gw c)) [
      | inl open_ ↦ record {
        service = rw (open_, send_frame) refl;
        mapped = rw (open_, send_frame) refl;
        known = rw (open_, send_frame) refl;
        shut = ground (arith, is_socket_open-close_socket spoken c c);
        answer = (e, rw (open_, send_frame) refl);
      }
      | inr shut ↦ record {
        service = rw (shut, send_frame) refl;
        mapped = rw (shut, send_frame) refl;
        known = rw (shut, send_frame) refl;
        shut = ground (arith, is_socket_open-close_socket spoken c c);
        answer = (e, rw (shut, send_frame) refl);
      }
    ]

module _ (gw : Gateway) (now c : ℕ) where
  -- `connection.lastSeenAt = Date.now()`
  abbrev pub heard : Gateway
  heard = change_connection gw c (λ (x : AgentConnection). record x { last_seen_at = now })

  pub agent_of-heard : (d : ℕ) → agent_of heard d ≡ agent_of gw d
  unfolding agent_of change_connection
  agent_of-heard d =
      ground (
        arith,
        lookup-modify d c (λ (x : AgentConnection). record x { last_seen_at = now }) gw.heap,
      )

  pub open-heard : (d : ℕ) → is_socket_open heard d ≡ is_socket_open gw d
  unfolding is_socket_open change_connection
  open-heard d =
      ground (
        arith,
        lookup-modify d c (λ (x : AgentConnection). record x { last_seen_at = now }) gw.heap,
      )

  heard-IsTurnedAway : {u : Gateway} → IsTurnedAway heard u c → IsTurnedAway gw u c
  unfolding change_connection
  heard-IsTurnedAway {u} t = record {
    service = t.service;
    mapped = t.mapped;
    known = t.known;
    shut = t.shut;
    answer = (
      t.answer.0,
      subst
          (λ b.
            u.sent
            ≡ (if b then gw.sent ++ (c, ControllerMessage.reject t.answer.0) ∷ [] else gw.sent))
          (open-heard c) t.answer.1,
    );
  }

  identified-IsTurnedAway :
      (config : GatewayConfig) (m : AgentMessage)
      → agent_of gw c ≡ none
      → IsTurnedAway gw (handle_identified config heard now c m) c
  unfolding handle_identified
  identified-IsTurnedAway config m unnamed =
      rw (agent_of-heard c ∙ unnamed, handle_identified)
        (heard-IsTurnedAway (reject-IsTurnedAway heard c _ _))

accepted_version :
    (version : Option ℕ) (n : ℕ) → is_refused_version version ≡ false → version ≡ some n → n ≡ 1
unfolding is_refused_version is_supported_protocol_version
accepted_version none n fine e = cc
accepted_version (some k) n fine e = ground arith

shown_token :
    (config : GatewayConfig) (h : HelloPayload) (token : String)
    → lacks_token config h ≡ false
    → truthy config.pairing_token ≡ some token
    → h.auth_token ≡ some token
unfolding lacks_token
shown_token config h token fine e = ground arith

module _ (config : GatewayConfig) (gw : Gateway) (now c : ℕ) (x : AgentConnection) where
  message_gate :
      (version : Option ℕ) (v : ℕ) (m : AgentMessage)
      → is_refused_version version ≡ false
      → agent_of gw c ≡ none
      → IsWelcome config (AgentFrame.json version (Parsed.valid v m))
        ⊎ IsTurnedAway gw (handle_message config (heard gw now c) now c x v m) c
  unfolding handle_message handle_hello
  message_gate version v (AgentMessage.hello h) fine unnamed =
      elim (Bool-cases (lacks_token config h)) [
        | inl bad ↦ inr (
            rw (bad, handle_hello)
              (heard-IsTurnedAway gw now c (reject-IsTurnedAway (heard gw now c) c _ _)))
        | inr good ↦ inl (
            welcome version v h refl (λ n. accepted_version version n fine)
              (λ token. shown_token config h token good))
      ]
  message_gate version v (AgentMessage.heartbeat t) fine unnamed =
      inr (identified-IsTurnedAway gw now c config (AgentMessage.heartbeat t) unnamed)
  message_gate version v (AgentMessage.inventory rs) fine unnamed =
      inr (identified-IsTurnedAway gw now c config (AgentMessage.inventory rs) unnamed)
  message_gate version v (AgentMessage.observed_state rs usb) fine unnamed =
      inr (identified-IsTurnedAway gw now c config (AgentMessage.observed_state rs usb) unnamed)
  message_gate version v (AgentMessage.command_ack id) fine unnamed =
      inr (identified-IsTurnedAway gw now c config (AgentMessage.command_ack id) unnamed)
  message_gate version v (AgentMessage.command_result id r rs) fine unnamed =
      inr (identified-IsTurnedAway gw now c config (AgentMessage.command_result id r rs) unnamed)
  message_gate version v (AgentMessage.error e) fine unnamed =
      inr (identified-IsTurnedAway gw now c config (AgentMessage.error e) unnamed)

  frame_gate :
      (frame : AgentFrame)
      → agent_of gw c ≡ none
      → IsWelcome config frame ⊎ IsTurnedAway gw (handle_raw config gw now c x frame) c
  unfolding handle_raw handle_parsed
  frame_gate AgentFrame.not_json unnamed = inr (reject-IsTurnedAway gw c _ _)
  frame_gate (AgentFrame.json version parsed) unnamed =
      elim (Bool-cases (is_refused_version version)) [
        | inl old ↦ inr (rw old (reject-IsTurnedAway gw c _ _))
        | inr fine ↦ gate parsed fine
      ]
    where
      gate :
          (p : Parsed)
          → is_refused_version version ≡ false
          → IsWelcome config (AgentFrame.json version p)
            ⊎ IsTurnedAway gw (handle_raw config gw now c x (AgentFrame.json version p)) c
      gate (Parsed.invalid detail) fine = inr (rw fine (reject-IsTurnedAway gw c _ _))
      gate (Parsed.valid v m) fine = rw fine (message_gate version v m fine unnamed)

-- On a connection that has not named its agent, a frame is a hello in the right version and with
-- the pairing token, where one is set, or else it is refused: the store and the command service,
-- the map of the agents and the set of connections are as before, the socket is shut, and all that
-- is sent is one refusal, if the socket was open.
pub on_message-IsGuarded :
    (config : GatewayConfig) (gw : Gateway) (now c : ℕ) (frame : AgentFrame) (x : AgentConnection)
    → lookup c gw.heap ≡ some x
    → agent_of gw c ≡ none
    → IsWelcome config frame ⊎ IsTurnedAway gw (on_message config gw now c frame) c
unfolding on_message
on_message-IsGuarded config gw now c frame x there unnamed =
    rw (there, on_message) (frame_gate config gw now c x frame unnamed)
