-- ===== src/Gateway/Connections.antt =====
-- The connections of the gateway under the operations on single ones.
use desk_control.Common.{
  ℕ, String, false, ◌&&◌, not, List, [], ◌∷◌, lookup, lookup-modify, contains, filter_bool, ◌≡◌,
  refl, arith, Option-cases, Bool-cases, inl, inr, ◌==◌, nat_eq, string_eq, if◌then◌else◌,
}
use mathlib.Core.Option
use desk_control.Gateway.{
  Gateway, AgentConnection, close_socket, change_connection, agent_of, is_socket_open,
  drop_connection, lose_agent, handle_close, close_known, send_frame,
}
use desk_control.Protocol.Frames.{ControllerMessage}

pub contains-drop :
    (xs : List ℕ) (c d : ℕ)
    → contains (filter_bool (λ x. not (x == c)) xs) d ≡ (contains xs d && not (c == d))
contains-drop [] c d = refl
contains-drop (x ∷ xs) c d = ground (arith, contains-drop xs c d)

module _ (gw : Gateway) (c : ℕ) where
  pub lookup-close_socket :
      (d : ℕ)
      → lookup d (close_socket gw c).heap ≡ (
          if c == d
          then Option.map (λ (x : AgentConnection). record x { is_open = false }) (lookup d gw.heap)
          else lookup d gw.heap)
  unfolding close_socket change_connection
  lookup-close_socket d = lookup-modify d c _ gw.heap

  pub agent_of-close_socket : (d : ℕ) → agent_of (close_socket gw c) d ≡ agent_of gw d
  unfolding agent_of
  agent_of-close_socket d = ground (arith, lookup-close_socket d)

  pub is_socket_open-close_socket :
      (d : ℕ)
      → is_socket_open (close_socket gw c) d ≡ (if c == d then false else is_socket_open gw d)
  unfolding is_socket_open
  is_socket_open-close_socket d = ground (arith, lookup-close_socket d)

  pub heap-send_frame : (m : ControllerMessage) → (send_frame gw c m).heap ≡ gw.heap
  unfolding send_frame
  heap-send_frame m = ground arith

  pub heap-handle_close :
      (now : ℕ) (reason : String) → (handle_close gw now c reason).heap ≡ gw.heap
  unfolding handle_close close_known lose_agent
  heap-handle_close now reason = elim (Bool-cases (contains gw.connections c)) [
    | inr gone ↦ ground arith
    | inl there ↦ elim (Option-cases (agent_of (drop_connection gw c) c)) [
      | inl e ↦ ground arith
      | inr (a, e) ↦ ground arith
    ]
  ]

  pub contains-handle_close :
      (now : ℕ) (reason : String) (d : ℕ)
      → contains (handle_close gw now c reason).connections d
        ≡ (contains gw.connections d && not (c == d))
  unfolding handle_close close_known lose_agent
  contains-handle_close now reason d = elim (Bool-cases (contains gw.connections c)) [
    | inr gone ↦ ground arith
    | inl there ↦ elim (Option-cases (agent_of (drop_connection gw c) c)) [
      | inl e ↦ ground (arith, contains-drop gw.connections c d)
      | inr (a, e) ↦ ground (arith, contains-drop gw.connections c d)
    ]
  ]
