-- ===== src/Agent/Idempotence.antt =====
-- A command that the agent has carried out is not carried out again.
use desk_control.Common.{
  ℕ, String, Bool, true, false, List, [], ◌∷◌, ◌++◌, none, some, contains, ◌≡◌, refl, ◌∙◌, ap,
  arith, Option, Option-cases, Bool-cases, inl, inr, string_eq, nat_eq, option_eq,
}
use desk_control.Domain.Command.{CommandPayload}
use desk_control.Protocol.{MonitorReport, ObservedMonitorReport}
use desk_control.Protocol.Frames.{AgentMessage}
use desk_control.Hardware.{ProviderCall}
use desk_control.Service.Responses.{AgentResult, ok, failure}
use desk_control.Agent.{
  AgentRuntime, AgentOptions, CommandRun, send, connect_loop, connect_once, schedule_reconnect,
  dial_failed, dial_succeeded, greeted, transport_closed, reconnect_fired, start, stop, wait,
  Purpose, reporting, answering, for_readings, to_answer,
}
use desk_control.Agent.Commands.{
  Readings, usb_of, push_observed_state, readings_arrived, handle_command, finish_command,
  note_handled, send_result, run_execution, Execution, calls, refuses, execute,
}
use desk_control.Agent.Events.{
  ControllerFrame, unreadable, welcome, reject, ping, refresh_inventory, command, AgentStep, starts,
  finds, dial_fails, dial_succeeds, greets, loses, reconnects, stops, beats, observes, receives,
  refreshed, reads, tells, answered, thrown, handle_message, inventory_arrived, start_periodic_work,
  send_heartbeat, AgentRun, begin, then_step,
}

-- What the provider was asked, and which commands are known to be carried out.
pub record Deeds : Type 0 where
  pub handled : List String
  pub running : List CommandRun
  pub calls : List ProviderCall

abbrev pub deeds_of : AgentRuntime → Deeds
deeds_of s = record { handled = s.handled_commands; running = s.running; calls = s.calls }

module _ (options : AgentOptions) where
  pub deeds-send : (s : AgentRuntime) (m : AgentMessage) → deeds_of (send s m) ≡ deeds_of s
  unfolding send
  deeds-send s m = elim (Option-cases s.transport) [
    | inl e ↦ ground arith
    | inr (t, e) ↦ ground arith
  ]

  deeds-push :
      (s : AgentRuntime) (r : Readings) → deeds_of (push_observed_state options s r).0 ≡ deeds_of s
  unfolding push_observed_state
  deeds-push s r = elim (Option-cases r.observed) [
    | inl e ↦ rw (e, push_observed_state) refl
    | inr (o, e) ↦ rw (e, push_observed_state) (deeds-send s _)
  ]

  deeds-readings :
      (s : AgentRuntime) (r : Readings) (p : Purpose)
      → deeds_of (readings_arrived options s r p) ≡ deeds_of s
  unfolding readings_arrived wait
  deeds-readings s r reporting = deeds-push s r
  deeds-readings s r (answering id x) = deeds-push s r

  deeds-inventory :
      (s : AgentRuntime) (i : Option (List MonitorReport))
      → deeds_of (inventory_arrived s i) ≡ deeds_of s
  unfolding inventory_arrived wait
  deeds-inventory s none = refl
  deeds-inventory s (some monitors) = deeds-send _ _

  deeds-connect_loop : (s : AgentRuntime) (d : Bool) → deeds_of (connect_loop s d) ≡ deeds_of s
  unfolding connect_loop connect_once schedule_reconnect
  deeds-connect_loop s d = ground arith

  deeds-schedule : (s : AgentRuntime) → deeds_of (schedule_reconnect s) ≡ deeds_of s
  unfolding schedule_reconnect
  deeds-schedule s = ground arith

  deeds-transport_closed : (s : AgentRuntime) (t : ℕ) → deeds_of (transport_closed s t) ≡ deeds_of s
  unfolding transport_closed schedule_reconnect
  deeds-transport_closed s t = ground arith

  abbrev Knows : String → Deeds → Type 0
  Knows id x = contains x.handled id ≡ true

  -- The command is known to be carried out.
  abbrev pub Remembers : String → AgentRuntime → Type 0
  Remembers id s = Knows id (deeds_of s)

  same-Remembers : (id : String) {a b : Deeds} → b ≡ a → Knows id a → Knows id b
  same-Remembers id e h = ap (λ (x : Deeds). contains x.handled id) e ∙ h

  finish-Remembers :
      (s : AgentRuntime) (i id : String) (x : AgentResult)
      → Remembers id s
      → Remembers id (finish_command s i x)
  unfolding finish_command note_handled wait
  finish-Remembers s i id ok h = ground arith
  finish-Remembers s i id (failure e) h = h

  run-Remembers :
      (s : AgentRuntime) (i id : String) (x : Execution)
      → Remembers id s
      → Remembers id (run_execution s i x)
  unfolding run_execution
  run-Remembers s i id (calls c) h = h
  run-Remembers s i id (refuses c m) h =
      finish-Remembers s i id (failure (some (record { code = c; message = m; retryable = false })))
        h

  command-Remembers :
      (s : AgentRuntime) (now : ℕ) (i id : String) (p : CommandPayload) (d : ℕ)
      → Remembers id s
      → Remembers id (handle_command options s now i p d)
  unfolding handle_command wait
  command-Remembers s now i id p d h =
      let acked = same-Remembers id (deeds-send s (AgentMessage.command_ack i)) h in
      elim (Bool-cases (contains s.handled_commands i)) [
        | inl e ↦ rw (e, handle_command) acked
        | inr e ↦
            rw (e, handle_command)
              (run-Remembers _ i id (execute options s.monitors now i p d) acked)
      ]

  message-Remembers :
      (s : AgentRuntime) (now : ℕ) (f : ControllerFrame) (id : String)
      → Remembers id s
      → Remembers id (handle_message options s now f)
  unfolding handle_message start_periodic_work send_heartbeat wait
  message-Remembers s now (unreadable detail) id h = same-Remembers id (deeds-send s _) h
  message-Remembers s now (welcome heartbeat observe) id h = h
  message-Remembers s now reject id h = h
  message-Remembers s now ping id h = same-Remembers id (deeds-send s _) h
  message-Remembers s now refresh_inventory id h = h
  message-Remembers s now (command i p d) id h = command-Remembers s now i id p d h

  AgentStep-Remembers :
      {s u : AgentRuntime} (id : String) → AgentStep options s u → Remembers id s → Remembers id u
  unfolding start dial_failed dial_succeeded greeted reconnect_fired stop send_heartbeat wait
      send_result
  AgentStep-Remembers {s} id (starts now d) h =
      same-Remembers id (deeds-connect_loop (record s { stopped = false; started_at = now }) d) h
  AgentStep-Remembers {s} id (finds d) h = same-Remembers id (deeds-connect_loop s d) h
  AgentStep-Remembers {s} id (dial_fails t e) h = same-Remembers id (deeds-schedule s) h
  AgentStep-Remembers {s} id (dial_succeeds t e) h = h
  AgentStep-Remembers {s} id (greets none e) h = h
  AgentStep-Remembers {s} id (greets (some monitors) e) h = same-Remembers id (deeds-send _ _) h
  AgentStep-Remembers {s} id (loses t) h = same-Remembers id (deeds-transport_closed s t) h
  AgentStep-Remembers {s} id (reconnects d e) h =
      same-Remembers id (deeds-connect_loop (record s { reconnect_pending = false }) d) h
  AgentStep-Remembers {s} id stops h = h
  AgentStep-Remembers {s} id (beats now) h = same-Remembers id (deeds-send s _) h
  AgentStep-Remembers {s} id observes h = h
  AgentStep-Remembers {s} id (receives now f) h = message-Remembers s now f id h
  AgentStep-Remembers {s} id (refreshed i before after e) h =
      same-Remembers id (deeds-inventory _ i) h
  AgentStep-Remembers {s} id (reads r p before after e) h =
      same-Remembers id (deeds-readings _ r p) h
  AgentStep-Remembers {s} id (tells i x o before after e) h = same-Remembers id (deeds-send _ _) h
  AgentStep-Remembers {s} id (answered run before after x e) h =
      finish-Remembers (record s { running = before ++ after }) run.command_id id x h
  AgentStep-Remembers {s} id (thrown run before after e) h = h

  AgentRun-Remembers :
      {s u : AgentRuntime} (id : String) → AgentRun options s u → Remembers id s → Remembers id u
  AgentRun-Remembers id begin h = h
  AgentRun-Remembers id (then_step r step) h =
      AgentStep-Remembers id step (AgentRun-Remembers id r h)

  finished-Remembers : (s : AgentRuntime) (id : String) → Remembers id (finish_command s id ok)
  unfolding finish_command note_handled wait
  finished-Remembers s id = ground arith

  cached_lem :
      (u : AgentRuntime) (now : ℕ) (id : String) (p : CommandPayload) (d : ℕ)
      → Remembers id u
      → handle_command options u now id p d
        ≡ wait (send u (AgentMessage.command_ack id)) (for_readings (answering id ok))
  unfolding handle_command
  cached_lem u now id p d h = rw (h, handle_command) refl

  sent_lem :
      (u : AgentRuntime) (t : ℕ) (m : AgentMessage)
      → u.transport ≡ some t
      → (send u m).sent ≡ u.sent ++ (t, m) ∷ []
  unfolding send
  sent_lem u t m e = ground arith

  awaiting-send : (u : AgentRuntime) (m : AgentMessage) → (send u m).awaiting ≡ u.awaiting
  unfolding send
  awaiting-send u m = elim (Option-cases u.transport) [
    | inl e ↦ ground arith
    | inr (t, e) ↦ ground arith
  ]

  -- The panels have been read for an answer: the observation is told, and the answer comes next.
  abbrev pub Observes : AgentRuntime → ℕ → String → Readings → List ObservedMonitorReport → Type 0
  Observes v t id r observed =
      ((readings_arrived options v r (answering id ok)).sent
        ≡ v.sent ++ (t, AgentMessage.observed_state observed (usb_of options r)) ∷ [])
      × ((readings_arrived options v r (answering id ok)).awaiting
          ≡ v.awaiting ++ to_answer id ok observed ∷ [])

  observes_lem :
      (v : AgentRuntime) (t : ℕ) (id : String) (r : Readings)
      (observed : List ObservedMonitorReport)
      → v.transport ≡ some t
      → r.observed ≡ some observed
      → Observes v t id r observed
  unfolding readings_arrived push_observed_state wait
  observes_lem v t id r observed e f =
      let report = AgentMessage.observed_state observed (usb_of options r) in
      rw (f, push_observed_state)
        (
          sent_lem v t report e,
          ap (λ l. l ++ to_answer id ok observed ∷ []) (awaiting-send v report),
        )

  -- Once the provider has carried out a command, then whatever happens to the agent since, a second
  -- delivery of its id drives no monitor: it makes no call that carries out a command and starts none.
  -- It is acknowledged, and nothing else is said at once; the agent reads its panels and, whatever has
  -- happened to it meanwhile, tells what they show and goes on to answer that the command went well,
  -- each on the transport that it has by then. It is assumed for these messages that the agent has a
  -- transport at their time and, for the last two, that the panels can be read.
  pub handle_command-Once :
      (s u : AgentRuntime) (id : String) (now deadline : ℕ) (p : CommandPayload)
      → AgentRun options (finish_command s id ok) u
      → let again = handle_command options u now id p deadline in
        (again.calls ≡ u.calls)
        × (again.running ≡ u.running)
        × (again.awaiting ≡ u.awaiting ++ for_readings (answering id ok) ∷ [])
        × ((t : ℕ)
            → u.transport ≡ some t
            → again.sent ≡ u.sent ++ (t, AgentMessage.command_ack id) ∷ [])
        × ((v : AgentRuntime) (t : ℕ) (r : Readings) (observed : List ObservedMonitorReport)
            → v.transport ≡ some t
            → r.observed ≡ some observed
            → Observes v t id r observed)
        × ((v : AgentRuntime) (t : ℕ) (observed : List ObservedMonitorReport)
            → v.transport ≡ some t
            → (send_result v id ok observed).sent
              ≡ v.sent ++ (t, AgentMessage.command_result id ok observed) ∷ [])
  unfolding wait send_result
  handle_command-Once s u id now deadline p since =
      let known = AgentRun-Remembers id since (finished-Remembers s id) in
      let ack = AgentMessage.command_ack id in
      let same = cached_lem u now id p deadline known in
      (
        ap (λ (x : AgentRuntime). x.calls) same ∙ ap (λ (x : Deeds). x.calls) (deeds-send u ack),
        ap (λ (x : AgentRuntime). x.running) same
            ∙ ap (λ (x : Deeds). x.running) (deeds-send u ack),
        ap (λ (x : AgentRuntime). x.awaiting) same
            ∙ ap (λ l. l ++ for_readings (answering id ok) ∷ []) (awaiting-send u ack),
        λ t e. ap (λ (x : AgentRuntime). x.sent) same ∙ sent_lem u t ack e,
        λ v t r observed e f. observes_lem v t id r observed e f,
        λ v t observed e. sent_lem v t (AgentMessage.command_result id ok observed) e,
      )
