-- ===== src/Gateway/System/Upkeep.antt =====
-- The invariants of the command service hold whatever the sockets and the agents do.
use desk_control.Common.{ℕ, String, none, string_eq, nat_eq}
use desk_control.Store.Commands.Evolution.{Flies}
use desk_control.Service.Creating.{IsOrderly}
use desk_control.Service.Retiring.{commands_of}
use desk_control.Service.Steps.{Step-IsOrderly}
use desk_control.Service.Timers.{IsTimed}
use desk_control.Service.Timers.Upkeep.{Step-IsTimed}
use desk_control.Gateway.{Gateway, GatewayConfig, env_of}
use desk_control.Common.{Memᴰ, ◌≢◌}
use desk_control.Domain.Command.{DeskCommand}
use desk_control.Domain.Command.Targets.{monitor_target}
use desk_control.Service.{Timeout}
use desk_control.Service.Responses.{on_timeout}
use desk_control.Service.Timers.Upkeep.{Reach-Ends}
use desk_control.Service.Steps.{here}
use desk_control.Gateway.System.{Run}
use desk_control.Gateway.System.Keeping.{Run-keeps}

-- Where, at first, the commands are in order (each stands under its own id, once, and no two
-- commands in flight act on one target) and each monitor command in flight has a timeout, then after
-- any run of connections, frames of agents (malformed ones included), closed sockets, sweeps and
-- steps of the command service the commands are still in order, and a monitor command in flight has
-- a pending timeout of its own which, when it fires, leaves the command in flight no more.
pub Run-IsSound :
    (config : GatewayConfig) {gw u : Gateway}
    → IsOrderly (commands_of gw.service)
    → IsTimed none gw.service
    → Run config gw u
    → IsOrderly (commands_of u.service)
      × ((i : String) (c : DeskCommand)
          → Flies (commands_of u.service) i c
          → monitor_target c.payload ≢ none
          → (t : Timeout) × Memᴰ t u.service.scheduled
            × ((now : ℕ) (x : DeskCommand)
                → ¬ (Flies (commands_of (on_timeout (env_of config u) u.service now t)) i x)))
Run-IsSound config {gw} {u} o h r = (
  Run-keeps (λ st. IsOrderly (commands_of st)) (λ env st v step. Step-IsOrderly env step) config r
      o,
  λ i c f mon.
      Reach-Ends (env_of config u) i c
        (Run-keeps (IsTimed none) (λ env st v step. Step-IsTimed env step) config r h) here f mon,
)
