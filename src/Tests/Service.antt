-- ===== src/Tests/Service.antt =====
-- Concrete runs of the command service's theorems.
use desk_control.Common.{
  ℕ, false, [], ◌∷◌, none, some, lookup, ◌≡◌, ◌≢◌, refl, sym, ap, ◌∙◌, arith, string_eq, Memᴰ,
  length, ◌≤◌,
}
use desk_control.Domain.Command.{
  MonitorPowerState, CommandPayload, CommandStatus, DeskCommand, is_in_flight,
}
use desk_control.Service.{Stamp, Timeout, ServiceState}
use desk_control.Service.Answers.{
  Answer, answer, KeepsEnded, answer-KeepsEnded, finish_peripheral-revives,
}
use desk_control.Service.Clicks.{clicks, power, all_issued, all_refused}
use desk_control.Service.Composite.{Applied, apply_preset-Applied, set_all_monitors_power-IsClicked}
use desk_control.Service.Presets.{apply_preset}
use desk_control.Service.Creating.{IsOrderly}
use desk_control.Service.Monitors.{set_monitor_source, set_all_monitors_power}
use desk_control.Service.Outcomes.{Outcome, set_monitor_source-Outcome}
use desk_control.Service.Peripherals.{PortResult, finish_peripheral}
use desk_control.Service.Responses.{on_agent_ack, on_timeout}
use desk_control.Service.Retiring.{commands_of}
use desk_control.Service.Timers.{IsTimed}
use desk_control.Service.Timers.Upkeep.{Reach-Ends}
use desk_control.Service.Steps.{
  store_changed, Reach, source_requested, acknowledged, here, next, Reach-IsOrderly,
}
use desk_control.Domain.Command.Targets.{monitor_target}
use desk_control.Domain.State.{StateOrigin}
use desk_control.Store.Commands.{put_command, max_retained_commands}
use desk_control.Store.Commands.Retention.{length-put_command_le}
use desk_control.Store.Commands.Evolution.{Flies, IsKeyed}
use desk_control.Tests.Desk.{work, desk, start, env, stamp, to_pc, stale_command, after_stale, run}

empty-IsOrderly : IsOrderly (commands_of start)
unfolding lookup
empty-IsOrderly = record {
  keyed = record { own_id = λ i c e. cc; once = tt };
  one = λ i j c d f g same. cc;
}

abbrev busy : ServiceState
busy = (set_monitor_source env start stamp to_pc).0

abbrev acked : ServiceState
acked = on_agent_ack busy 20 "c1"

abbrev two_steps : Reach env start acked
two_steps = next (next here (source_requested stamp to_pc)) (acknowledged 20 "c1")

Reach-IsOrderly_example : IsOrderly (commands_of acked)
Reach-IsOrderly_example = Reach-IsOrderly env empty-IsOrderly two_steps

set_monitor_source-Outcome_example :
    Outcome env start stamp to_pc (set_monitor_source env start stamp to_pc)
set_monitor_source-Outcome_example = set_monitor_source-Outcome env start stamp to_pc

stale-IsKeyed : IsKeyed (commands_of after_stale)
unfolding lookup
stale-IsKeyed = record { own_id = λ i c e. ground arith; once = (refl, tt) }

answer-KeepsEnded_example :
    KeepsEnded (commands_of after_stale) (commands_of (answer env after_stale 30 (Answer.ack "c0")))
answer-KeepsEnded_example = answer-KeepsEnded env after_stale 30 (Answer.ack "c0") stale-IsKeyed

stale_there : lookup "c0" (commands_of after_stale) ≡ some stale_command
unfolding lookup
stale_there = ground arith

stale_over : is_in_flight stale_command.status ≡ false
unfolding is_in_flight
stale_over = refl

finish_peripheral-revives_example :
    (lookup run.command_id (commands_of (finish_peripheral after_stale 30 run PortResult.ok []))
      ≡ some (record stale_command {
        status = CommandStatus.succeeded;
        error = none;
        updated_at = 30;
      }))
    × (¬ (
        KeepsEnded
          (commands_of after_stale)
          (commands_of (finish_peripheral after_stale 30 run PortResult.ok []))))
finish_peripheral-revives_example =
    finish_peripheral-revives after_stale 30 run [] stale_command stale_there stale_over (λ e. cc)

abbrev flying_command : DeskCommand
flying_command = record {
  id = "c1";
  payload = CommandPayload.set_monitor_input "left" "dp-1" (some "pc");
  status = CommandStatus.acked;
  origin = StateOrigin.user;
  preset_id = none;
  agent_id = some "agent-mac";
  issued_at = 10;
  updated_at = 12;
  deadline_at = 5010;
  attempts = 1;
  error = none;
}

abbrev pending_timeout : Timeout
pending_timeout = record { handle = 1; command_id = "c1"; due = 5010 }

abbrev waiting : ServiceState
waiting = record start {
  store = record desk { commands = ("c1", flying_command) ∷ [] };
  timers = ("c1", 1) ∷ [];
  scheduled = pending_timeout ∷ [];
  next_handle = 2;
}

only_timeout : (t : Timeout) → Memᴰ t (pending_timeout ∷ []) → t ≡ pending_timeout
only_timeout t (Memᴰ.head e) = e
only_timeout t (Memᴰ.tail m) = elim m [ ]

waiting-IsTimed : IsTimed none waiting
unfolding lookup
waiting-IsTimed = record {
  fresh = λ t m. let e = ap (λ (x : Timeout). x.handle) (only_timeout t m) in omega arith;
  owner = λ t u mt mu same.
      ap (λ (x : Timeout). x.command_id) (only_timeout t mt ∙ sym (only_timeout u mu));
  owned = λ id h e. (
    ground arith,
    λ t m same. ap (λ (x : Timeout). x.command_id) (only_timeout t m) ∙ ground arith,
  );
  covered = λ i c ne f mon. let here = f.0 in (pending_timeout, Memᴰ.head refl, ground arith);
}

flying_there : Flies (commands_of waiting) "c1" flying_command
unfolding lookup is_in_flight
flying_there = (ground arith, refl)

flying_monitor : monitor_target flying_command.payload ≢ none
unfolding monitor_target
flying_monitor e = cc

Reach-Ends_example :
    (t : Timeout) × Memᴰ t waiting.scheduled
    × ((now : ℕ) (x : DeskCommand) → ¬ (Flies (commands_of (on_timeout env waiting now t)) "c1" x))
Reach-Ends_example =
    Reach-Ends env "c1" flying_command waiting-IsTimed
      (next here (store_changed waiting.store refl)) flying_there flying_monitor

abbrev with_preset : ServiceState
with_preset = record start {
  store = record desk { config = record (desk.config) { presets = work ∷ [] } };
}

abbrev stamps : ℕ → Stamp
stamps n = record { now = n; uuid = "c" }

apply_preset-Applied_example :
    Applied env with_preset stamps "preset:work" (apply_preset env with_preset stamps "preset:work")
apply_preset-Applied_example = apply_preset-Applied env with_preset stamps "preset:work"

set_all_monitors_power-IsClicked_example :
    let after =
      clicks env start stamps 0
        (power "left" MonitorPowerState.standby ∷ power "right" MonitorPowerState.standby ∷ []) in
    let t = set_all_monitors_power env start stamps MonitorPowerState.standby in
    (t.0 ≡ after.0)
    × (t.1.command_ids ≡ all_issued after.1)
    × (t.1.skipped ≡ all_refused ("left" ∷ "right" ∷ []) after.1)
set_all_monitors_power-IsClicked_example =
    set_all_monitors_power-IsClicked env start stamps MonitorPowerState.standby

length-put_command_le_example :
    length (put_command after_stale.store flying_command).commands ≤ max_retained_commands
length-put_command_le_example = length-put_command_le after_stale.store flying_command stale-IsKeyed
