-- ===== src/Gateway/Sweeping.antt =====
-- `sweep` against a description of the connections that it should drop.
use desk_control.Common.{
  ℕ, ◌-◌, String, Bool, false, ◌&&◌, not, List, [], ◌∷◌, Option, none, some, lookup, contains,
  truthy, ltb, ◌≡◌, refl, ◌∙◌, ap, arith, Option-cases, Bool-cases, inl, inr, ◌==◌, nat_eq,
  string_eq, if◌then◌else◌,
}
use desk_control.Gateway.{
  Gateway, GatewayConfig, AgentConnection, sweep, sweep_each, sweep_one, on_close, close_socket,
  change_connection,
}
use desk_control.Gateway.Connections.{contains-handle_close, heap-handle_close, lookup-close_socket}

-- The connection has named its agent, and no frame came from it for longer than the limit.
abbrev is_silent : GatewayConfig → ℕ → AgentConnection → Bool
is_silent config now x = elim (truthy x.agent_id) [
  | none ↦ false
  | some _ ↦ ltb config.agent_timeout_ms (now - x.last_seen_at)
]

abbrev silent_at : GatewayConfig → ℕ → Option AgentConnection → Bool
silent_at config now none = false
silent_at config now (some x) = is_silent config now x

abbrev pub is_stale : GatewayConfig → ℕ → Gateway → ℕ → Bool
is_stale config now gw c = silent_at config now (lookup c gw.heap)

module _ (config : GatewayConfig) (now : ℕ) where
  stale-close_socket :
      (gw : Gateway) (c d : ℕ)
      → is_stale config now (close_socket gw c) d ≡ is_stale config now gw d
  stale-close_socket gw c d =
      ap (silent_at config now) (lookup-close_socket gw c d)
      ∙ elim (Option-cases (lookup d gw.heap)) [
        | inl e ↦ rw e (ground arith)
        | inr (x, e) ↦ rw e (ground arith)
      ]

  stale-on_close :
      (gw : Gateway) (c d : ℕ) (reason : String)
      → is_stale config now (on_close gw now c reason) d ≡ is_stale config now gw d
  unfolding on_close
  stale-on_close gw c d reason =
      ap (λ h. silent_at config now (lookup d h))
        (heap-handle_close (close_socket gw c) c now reason)
      ∙ stale-close_socket gw c d

  contains-on_close :
      (gw : Gateway) (c d : ℕ) (reason : String)
      → contains (on_close gw now c reason).connections d
        ≡ (contains gw.connections d && not (c == d))
  unfolding on_close close_socket change_connection
  contains-on_close gw c d reason = contains-handle_close (close_socket gw c) c now reason d

  sweep_one_lem :
      (gw : Gateway) (c : ℕ)
      → sweep_one config gw now c
        ≡ (if is_stale config now gw c then on_close gw now c "heartbeat timeout" else gw)
  unfolding sweep_one
  sweep_one_lem gw c = elim (Option-cases (lookup c gw.heap)) [
    | inl e ↦ ground arith
    | inr (x, e) ↦ elim (Option-cases (truthy x.agent_id)) [
      | inl f ↦ ground arith
      | inr (a, f) ↦ ground arith
    ]
  ]

  contains-sweep_each :
      (cs : List ℕ) (gw : Gateway) (d : ℕ)
      → contains (sweep_each config gw now cs).connections d
        ≡ (contains gw.connections d && not (contains cs d && is_stale config now gw d))
  unfolding sweep_each
  contains-sweep_each [] gw d = ground arith
  contains-sweep_each (c ∷ cs) gw d = elim (Bool-cases (is_stale config now gw c)) [
    | inr fresh ↦
        let same : sweep_one config gw now c ≡ gw = sweep_one_lem gw c ∙ rw fresh refl in
        ap (λ g. contains (sweep_each config g now cs).connections d) same
        ∙ (contains-sweep_each cs gw d ∙ ground arith)
    | inl stale ↦
        let shut : sweep_one config gw now c ≡ on_close gw now c "heartbeat timeout" =
          sweep_one_lem gw c ∙ rw stale refl in
        ap (λ g. contains (sweep_each config g now cs).connections d) shut
        ∙ (contains-sweep_each cs (on_close gw now c "heartbeat timeout") d
            ∙ ground (
              arith,
              contains-on_close gw c d "heartbeat timeout",
              stale-on_close gw c d "heartbeat timeout",
            ))
  ]

  -- A sweep keeps exactly the connections from which a frame came within the limit, or that have not
  -- named an agent: half-open sockets do not stay, and no other connection goes.
  pub contains-sweep :
      (gw : Gateway) (d : ℕ)
      → contains (sweep config gw now).connections d
        ≡ (contains gw.connections d && not (is_stale config now gw d))
  unfolding sweep
  contains-sweep gw d = contains-sweep_each gw.connections gw d ∙ ground arith
