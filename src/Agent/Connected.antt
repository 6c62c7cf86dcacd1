-- ===== src/Agent/Connected.antt =====
-- The agent's connection: it has one transport at most, and when it may be left without one.
use desk_control.Common.{
  ℕ, Bool, true, false, ◌&&◌, ◌||◌, List, Option, none, some, ◌≡◌, ◌⊎◌, inl, inr, refl, ◌∙◌, sym,
  ap, subst, arith, Bool-cases, ◌==◌, nat_eq, option_eq, string_eq,
}
use desk_control.Protocol.{MonitorReport}
use desk_control.Agent.{
  AgentRuntime, AgentOptions, Attempt, dialing, greeting, connect_loop, connect_once,
  schedule_reconnect, dial_failed, dial_succeeded, greeted, transport_closed, reconnect_fired,
  start, stop, wait,
}
use desk_control.Agent.Commands.{send_result}
use desk_control.Agent.Events.{
  AgentStep, starts, finds, dial_fails, dial_succeeds, greets, loses, reconnects, stops, beats,
  observes, receives, refreshed, reads, tells, answered, thrown, send_heartbeat,
}
use desk_control.Agent.Links.{
  Link, link_of, is_set, link-send, link-readings, link-inventory, link-finish, link-handle_message,
}

abbrev pub is_dialing : Option Attempt → Bool
is_dialing (some (dialing t)) = true
is_dialing _ = false

-- A transport is there exactly while the agent is connected, and none while it dials.
pub record IsLinked (l : Link) : Type 0 where
  pub joined : l.connected ≡ is_set l.transport
  pub single : is_dialing l.attempt && l.connected ≡ false

-- The agent is stopped, or it is connected, or will try to connect without being asked.
abbrev pub is_tended : Link → Bool
is_tended l = l.stopped || l.connected || is_set l.attempt || l.reconnect_pending

-- An attempt ends where the link is gone and no reconnect timer is set.
abbrev pub IsAbandoned : Link → Link → Type 0
IsAbandoned before after =
    (before.attempt ≡ some greeting)
    × (before.connected ≡ false)
    × (before.reconnect_pending ≡ false)
    × (is_tended after ≡ false)

abbrev Sound : Link → Link → Type 0
Sound l m = IsLinked l → IsLinked m × (is_tended l ≡ true → (is_tended m ≡ true) ⊎ IsAbandoned l m)

same-Sound : {l m : Link} → m ≡ l → Sound l m
same-Sound {l} e k =
    subst (λ m. IsLinked m × (is_tended l ≡ true → (is_tended m ≡ true) ⊎ IsAbandoned l m)) (sym e)
      (k, λ h. inl h)

connect_loop-IsLinked :
    (s : AgentRuntime) (d : Bool) → IsLinked (link_of s) → IsLinked (link_of (connect_loop s d))
unfolding connect_loop connect_once schedule_reconnect
connect_loop-IsLinked s d k = ground arith

connect_loop-tended : (s : AgentRuntime) (d : Bool) → is_tended (link_of (connect_loop s d)) ≡ true
unfolding connect_loop connect_once schedule_reconnect
connect_loop-tended s d = ground arith

dial_failed_lem :
    (s : AgentRuntime) (t : ℕ)
    → s.attempt ≡ some (dialing t)
    → Sound (link_of s) (link_of (dial_failed s))
unfolding dial_failed schedule_reconnect
dial_failed_lem s t e k = (ground arith, λ h. inl (ground arith))

dial_succeeded_lem : (s : AgentRuntime) (t : ℕ) → Sound (link_of s) (link_of (dial_succeeded s t))
unfolding dial_succeeded
dial_succeeded_lem s t k = (ground arith, λ h. inl (ground arith))

transport_closed_lem :
    (s : AgentRuntime) (t : ℕ) → Sound (link_of s) (link_of (transport_closed s t))
unfolding transport_closed schedule_reconnect
transport_closed_lem s t k = elim (Bool-cases (s.transport == some t)) [
  | inl e ↦ rw (e, transport_closed) (ground arith, λ h. inl (ground arith))
  | inr e ↦ rw (e, transport_closed) (k, λ h. inl h)
]

stop_lem : (s : AgentRuntime) → Sound (link_of s) (link_of (stop s))
unfolding stop
stop_lem s k = (ground arith, λ h. inl refl)

start_lem : (s : AgentRuntime) (now : ℕ) (d : Bool) → Sound (link_of s) (link_of (start s now d))
unfolding start
start_lem s now d k =
    let fresh = record s { stopped = false; started_at = now } in
    (
      connect_loop-IsLinked fresh d (record { joined = k.joined; single = k.single }),
      λ h. inl (connect_loop-tended fresh d),
    )

module _ (options : AgentOptions) where
  link-greeted :
      (s : AgentRuntime) (inventory : Option (List MonitorReport))
      → link_of (greeted options s inventory) ≡ record (link_of s) { attempt = none }
  unfolding greeted
  link-greeted s none = refl
  link-greeted s (some monitors) =
      ap (λ (l : Link). record l { attempt = none })
        (link-send options (record s { monitors = monitors }) _)

  greeted_lem :
      (s : AgentRuntime) (inventory : Option (List MonitorReport))
      → s.attempt ≡ some greeting
      → Sound (link_of s) (link_of (greeted options s inventory))
  greeted_lem s inventory e k =
      subst
        (λ m.
          IsLinked m
          × (is_tended (link_of s) ≡ true → (is_tended m ≡ true) ⊎ IsAbandoned (link_of s) m))
        (sym (link-greeted s inventory))
        (
          record { joined = k.joined; single = refl },
          λ h. elim (Bool-cases (s.stopped || s.connected || s.reconnect_pending)) [
            | inl kept ↦ inl (ground arith)
            | inr alone ↦ inr (e, ground arith, ground arith, ground arith)
          ],
        )

  -- Every event keeps the agent's link in order: it has a transport exactly while it is connected,
  -- and none while it dials, so that no transport is ever replaced by another that is open. An agent
  -- that is stopped, connected, connecting or waiting to reconnect stays so, but for one event: the
  -- end of a greeting that finds neither a connection nor a reconnect timer, as when the connection
  -- was lost and the timer has fired, or the agent was stopped and started again, meanwhile.
  pub AgentStep-IsSound :
      {s u : AgentRuntime}
      → AgentStep options s u
      → IsLinked (link_of s)
      → IsLinked (link_of u)
        × (is_tended (link_of s) ≡ true
            → (is_tended (link_of u) ≡ true) ⊎ IsAbandoned (link_of s) (link_of u))
  unfolding reconnect_fired send_heartbeat wait send_result
  AgentStep-IsSound {s} (starts now d) k = start_lem s now d k
  AgentStep-IsSound {s} (finds d) k =
      (connect_loop-IsLinked s d k, λ h. inl (connect_loop-tended s d))
  AgentStep-IsSound {s} (dial_fails t e) k = dial_failed_lem s t e k
  AgentStep-IsSound {s} (dial_succeeds t e) k = dial_succeeded_lem s t k
  AgentStep-IsSound {s} (greets inventory e) k = greeted_lem s inventory e k
  AgentStep-IsSound {s} (loses t) k = transport_closed_lem s t k
  AgentStep-IsSound {s} (reconnects d e) k =
      let spent = record s { reconnect_pending = false } in
      (
        connect_loop-IsLinked spent d (record { joined = k.joined; single = k.single }),
        λ h. inl (connect_loop-tended spent d),
      )
  AgentStep-IsSound {s} stops k = stop_lem s k
  AgentStep-IsSound {s} (beats now) k = same-Sound (link-send options s _) k
  AgentStep-IsSound {s} observes k = same-Sound refl k
  AgentStep-IsSound {s} (receives now f) k = same-Sound (link-handle_message options s now f) k
  AgentStep-IsSound {s} (refreshed i before after e) k = same-Sound (link-inventory options _ i) k
  AgentStep-IsSound {s} (reads r p before after e) k = same-Sound (link-readings options _ r p) k
  AgentStep-IsSound {s} (tells id x o before after e) k = same-Sound (link-send options _ _) k
  AgentStep-IsSound {s} (answered run before after x e) k =
      same-Sound (link-finish options _ run.command_id x) k
  AgentStep-IsSound {s} (thrown run before after e) k = same-Sound refl k

  -- While an agent that is not stopped waits for the inventory of its hello, the loss of its connection
  -- and then the firing of the reconnect timer leave it alone once the inventory comes: it is neither
  -- stopped nor connected, and no attempt and no reconnect timer is pending.
  pub agent_abandoned :
      (s : AgentRuntime) (t : ℕ) (d : Bool) (inventory : Option (List MonitorReport))
      → s.transport ≡ some t
      → s.attempt ≡ some greeting
      → s.stopped ≡ false
      → is_tended (link_of (greeted options (reconnect_fired (transport_closed s t) d) inventory))
        ≡ false
  unfolding reconnect_fired transport_closed schedule_reconnect connect_loop
  agent_abandoned s t d inventory linked waits running =
      ap is_tended (link-greeted (reconnect_fired (transport_closed s t) d) inventory)
      ∙ ground arith
