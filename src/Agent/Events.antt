-- ===== src/Agent/Events.antt =====
-- agent-runtime.ts: the messages of the controller, the periodic work, and every event of the agent
-- as one step.
use desk_control.Common.{
  ℕ, ◌+◌, ◌-◌, ◌/◌, String, Bool, true, false, List, [], ◌∷◌, ◌++◌, Option, none, some, ◌≡◌,
}
use desk_control.Domain.Command.{CommandPayload, CommandError}
use desk_control.Protocol.{MonitorReport, ObservedMonitorReport}
use desk_control.Protocol.Frames.{AgentMessage}
use desk_control.Store.{or_else}
use desk_control.Service.Responses.{AgentResult}
use desk_control.Agent.{
  AgentRuntime, AgentOptions, dialing, greeting, CommandRun, Purpose, reporting, Wait,
  for_inventory, for_readings, to_answer, send, wait, connect_loop, dial_failed, dial_succeeded,
  greeted, transport_closed, reconnect_fired, start, stop,
}
use desk_control.Agent.Commands.{
  Readings, readings_arrived, send_result, handle_command, finish_command,
}

-- What `parseControllerMessage` makes of a frame.
pub data ControllerFrame : Type 0 where
  unreadable : (detail : String) → ControllerFrame
  welcome : (heartbeat_interval_ms observe_interval_ms : ℕ) → ControllerFrame
  reject : ControllerFrame
  ping : ControllerFrame
  refresh_inventory : ControllerFrame
  command : (command_id : String) → CommandPayload → (deadline_at : ℕ) → ControllerFrame

unfoldable pub start_periodic_work : AgentOptions → AgentRuntime → ℕ → ℕ → AgentRuntime
start_periodic_work options s heartbeat_interval_ms observe_interval_ms = record s {
  timers =
      or_else options.heartbeat_interval_ms heartbeat_interval_ms
      ∷ or_else options.observe_interval_ms observe_interval_ms
      ∷ [];
}

-- `Math.round` of thousandths.
unfoldable pub send_heartbeat : AgentRuntime → ℕ → AgentRuntime
unfolding send
send_heartbeat s now = send s (AgentMessage.heartbeat ((now - s.started_at + 500) / 1000))

-- The inventory of a refresh is there, or `discoverMonitors` threw.
unfoldable pub inventory_arrived : AgentRuntime → Option (List MonitorReport) → AgentRuntime
unfolding send wait
inventory_arrived s none = s
inventory_arrived s (some monitors) =
    wait (send (record s { monitors = monitors }) (AgentMessage.inventory monitors))
      (for_readings reporting)

-- `handleMessage` up to where it first waits. A refusal closes the transport: its close comes as an
-- event.
unfoldable pub handle_message : AgentOptions → AgentRuntime → ℕ → ControllerFrame → AgentRuntime
unfolding start_periodic_work send_heartbeat handle_command send wait
handle_message options s now (unreadable detail) =
    let e : CommandError = record {
      code = "INVALID_MESSAGE";
      message = detail;
      retryable = false;
    } in
    send s (AgentMessage.error e)
handle_message options s now (welcome heartbeat observe) =
    wait (start_periodic_work options s heartbeat observe) (for_readings reporting)
handle_message options s now reject = s
handle_message options s now ping = send_heartbeat s now
handle_message options s now refresh_inventory = wait s for_inventory
handle_message options s now (command command_id payload deadline_at) =
    handle_command options s now command_id payload deadline_at

module _ (options : AgentOptions) where
  pub data AgentStep (s : AgentRuntime) : AgentRuntime → Type 0 where
    starts : (now : ℕ) (discovered : Bool) → AgentStep s (start s now discovered)
    finds : (discovered : Bool) → AgentStep s (connect_loop s discovered)
    dial_fails : (t : ℕ) → s.attempt ≡ some (dialing t) → AgentStep s (dial_failed s)
    dial_succeeds : (t : ℕ) → s.attempt ≡ some (dialing t) → AgentStep s (dial_succeeded s t)
    greets :
        (inventory : Option (List MonitorReport))
        → s.attempt ≡ some greeting
        → AgentStep s (greeted options s inventory)
    loses : (t : ℕ) → AgentStep s (transport_closed s t)
    reconnects :
        (discovered : Bool)
        → s.reconnect_pending ≡ true
        → AgentStep s (reconnect_fired s discovered)
    stops : AgentStep s (stop s)
    beats : (now : ℕ) → AgentStep s (send_heartbeat s now)
    observes : AgentStep s (wait s (for_readings reporting))
    receives :
        (now : ℕ) (frame : ControllerFrame) → AgentStep s (handle_message options s now frame)
    refreshed :
        (inventory : Option (List MonitorReport)) (before after : List Wait)
        → s.awaiting ≡ before ++ for_inventory ∷ after
        → AgentStep s (inventory_arrived (record s { awaiting = before ++ after }) inventory)
    reads :
        (readings : Readings) (purpose : Purpose) (before after : List Wait)
        → s.awaiting ≡ before ++ for_readings purpose ∷ after
        → AgentStep s
            (readings_arrived options (record s { awaiting = before ++ after }) readings purpose)
    tells :
        (id : String) (result : AgentResult) (observed : List ObservedMonitorReport)
        (before after : List Wait)
        → s.awaiting ≡ before ++ to_answer id result observed ∷ after
        → AgentStep s (send_result (record s { awaiting = before ++ after }) id result observed)
    answered :
        (run : CommandRun) (before after : List CommandRun) (result : AgentResult)
        → s.running ≡ before ++ run ∷ after
        → AgentStep s
            (finish_command (record s { running = before ++ after }) run.command_id result)
    thrown :
        (run : CommandRun) (before after : List CommandRun)
        → s.running ≡ before ++ run ∷ after
        → AgentStep s (record s { running = before ++ after })

  pub data AgentRun (s : AgentRuntime) : AgentRuntime → Type 0 where
    begin : AgentRun s s
    then_step : {t u : AgentRuntime} → AgentRun s t → AgentStep t u → AgentRun s u
