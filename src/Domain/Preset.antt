-- ===== src/Domain/Preset.antt =====
-- packages/domain/src/preset.ts: presets as data, capturing the desk, and planning a preset.
-- The entries of `Object.entries` come in the order in which the map holds them.
pub mod Planning
pub mod Capture
use desk_control.Common.{
  ℤ, String, Bool, false, List, [], ◌∷◌, ◌++◌, map, Option, none, some, Dict, lookup, insert, ◌==◌,
  find, truthy, string_eq, option_eq, if◌then◌else◌,
}
use desk_control.Domain.Monitor.{Monitor, find_input_for_computer}
use desk_control.Domain.Peripheral.{Peripheral}
use desk_control.Domain.State.{Reachability, ObservedMonitorState, ObservedPeripheralState}

pub record PresetAssignment : Type 0 where
  pub monitor_sources : Dict String String
  pub peripheral_owners : Dict String String

pub record Preset : Type 0 where
  pub id : String
  pub detected_name : String
  pub custom_name : Option String
  pub description : Option String
  pub icon : Option String
  pub assignments : PresetAssignment
  pub sort_order : ℤ

pub data Target : Type 0 where
  monitor peripheral : Target

pub data PresetSkipReason : Type 0 where
  monitor_unknown peripheral_unknown computer_not_wired already_desired : PresetSkipReason

pub record PresetIntent : Type 0 where
  pub target : Target
  pub target_id : String
  pub computer_id : String
  pub input_id : Option String

pub record PresetSkip : Type 0 where
  pub target : Target
  pub target_id : String
  pub computer_id : String
  pub reason : PresetSkipReason

pub record PresetPlan : Type 0 where
  pub preset_id : String
  pub intents : List PresetIntent
  pub skipped : List PresetSkip

pub data CaptureSkipReason : Type 0 where
  not_observed unreachable : CaptureSkipReason

pub record CaptureSkip : Type 0 where
  pub target : Target
  pub target_id : String
  pub reason : CaptureSkipReason

pub record CapturedDeskState : Type 0 where
  pub assignments : PresetAssignment
  pub skipped : List CaptureSkip

-- The source of an observed monitor, or why it is left out.
pub data Reading : Type 0 where
  source : String → Reading
  left_out : CaptureSkipReason → Reading

abbrev read_source : Option String → Reading
read_source none = left_out not_observed
read_source (some computer_id) = source computer_id

unfoldable pub read_monitor : Option ObservedMonitorState → Reading
read_monitor none = left_out not_observed
read_monitor (some observed) = elim observed.reachability [
  | Reachability.unreachable ↦ left_out unreachable
  | Reachability.unknown ↦ left_out not_observed
  | Reachability.reachable ↦ read_source (truthy observed.active_source_computer_id)
]

unfoldable pub read_peripheral : Option ObservedPeripheralState → Reading
read_peripheral none = left_out not_observed
read_peripheral (some observed) = read_source (truthy observed.owner_computer_id)

unfoldable pub note_monitor : String → Reading → CapturedDeskState → CapturedDeskState
note_monitor id (left_out reason) c = record c {
  skipped = c.skipped ++ record { target = monitor; target_id = id; reason = reason } ∷ [];
}
note_monitor id (source computer_id) c = record c {
  assignments = record (c.assignments) {
    monitor_sources = insert id computer_id c.assignments.monitor_sources;
  };
}

unfoldable pub note_peripheral : String → Reading → CapturedDeskState → CapturedDeskState
note_peripheral id (left_out reason) c = record c {
  skipped = c.skipped ++ record { target = peripheral; target_id = id; reason = reason } ∷ [];
}
note_peripheral id (source computer_id) c = record c {
  assignments = record (c.assignments) {
    peripheral_owners = insert id computer_id c.assignments.peripheral_owners;
  };
}

unfoldable pub capture_monitors :
    Dict String ObservedMonitorState → List Monitor → CapturedDeskState → CapturedDeskState
capture_monitors observed [] c = c
capture_monitors observed (m ∷ ms) c =
    capture_monitors observed ms (note_monitor m.id (read_monitor (lookup m.id observed)) c)

unfoldable pub capture_peripherals :
    Dict String ObservedPeripheralState → List Peripheral → CapturedDeskState → CapturedDeskState
capture_peripherals observed [] c = c
capture_peripherals observed (p ∷ ps) c =
    capture_peripherals observed ps
      (note_peripheral p.id (read_peripheral (lookup p.id observed)) c)

abbrev pub nothing_captured : CapturedDeskState
nothing_captured = record {
  assignments = record { monitor_sources = []; peripheral_owners = [] };
  skipped = [];
}

unfoldable pub capture_desk_state :
    List Monitor
    → List Peripheral
    → Dict String ObservedMonitorState
    → Dict String ObservedPeripheralState
    → CapturedDeskState
unfolding capture_monitors capture_peripherals note_monitor note_peripheral
capture_desk_state monitors peripherals observed_monitors observed_peripherals =
    capture_peripherals observed_peripherals peripherals
      (capture_monitors observed_monitors monitors nothing_captured)

-- The optional callbacks of the context are `none` where the caller leaves them out.
pub record PlanContext : Type 0 where
  pub monitors : List Monitor
  pub peripherals : List Peripheral
  pub current_desired_monitor_source : Option (String → Option String)
  pub current_desired_peripheral_owner : Option (String → Option String)

-- `callback?.(targetId) === computerId`
abbrev pub is_desired : Option (String → Option String) → String → String → Bool
is_desired none target_id computer_id = false
is_desired (some desired) target_id computer_id = desired target_id == some computer_id

-- What one round of a loop of `planPreset` pushes.
pub data Planned : Type 0 where
  intend : PresetIntent → Planned
  skip : PresetSkip → Planned

abbrev skip_monitor : String → String → PresetSkipReason → Planned
skip_monitor target_id computer_id reason =
    skip (record {
      target = monitor;
      target_id = target_id;
      computer_id = computer_id;
      reason = reason;
    })

abbrev skip_peripheral : String → String → PresetSkipReason → Planned
skip_peripheral target_id computer_id reason = skip (record {
  target = peripheral;
  target_id = target_id;
  computer_id = computer_id;
  reason = reason;
})

unfoldable pub plan_monitor : PlanContext → String × String → Planned
plan_monitor context (monitor_id, computer_id) =
    elim (find (λ (m : Monitor). m.id == monitor_id) context.monitors) [
      | none ↦ skip_monitor monitor_id computer_id monitor_unknown
      | some m ↦ elim (find_input_for_computer m computer_id) [
        | none ↦ skip_monitor monitor_id computer_id computer_not_wired
        | some input ↦
            if is_desired context.current_desired_monitor_source monitor_id computer_id
            then skip_monitor monitor_id computer_id already_desired
            else intend (record {
              target = monitor;
              target_id = monitor_id;
              computer_id = computer_id;
              input_id = some input.id;
            })
      ]
    ]

unfoldable pub plan_peripheral : PlanContext → String × String → Planned
plan_peripheral context (peripheral_id, computer_id) =
    elim (find (λ (p : Peripheral). p.id == peripheral_id) context.peripherals) [
      | none ↦ skip_peripheral peripheral_id computer_id peripheral_unknown
      | some p ↦
          if is_desired context.current_desired_peripheral_owner peripheral_id computer_id
          then skip_peripheral peripheral_id computer_id already_desired
          else intend (record {
            target = peripheral;
            target_id = peripheral_id;
            computer_id = computer_id;
            input_id = none;
          })
    ]

-- The two arrays that the pushes fill.
abbrev pub intents_of : List Planned → List PresetIntent
intents_of [] = []
intents_of (intend i ∷ ps) = i ∷ intents_of ps
intents_of (skip s ∷ ps) = intents_of ps

abbrev pub skips_of : List Planned → List PresetSkip
skips_of [] = []
skips_of (intend i ∷ ps) = skips_of ps
skips_of (skip s ∷ ps) = s ∷ skips_of ps

unfoldable pub plan_preset : Preset → PlanContext → PresetPlan
plan_preset preset context =
    let rounds =
      map (plan_monitor context) preset.assignments.monitor_sources
      ++ map (plan_peripheral context) preset.assignments.peripheral_owners in
    record { preset_id = preset.id; intents = intents_of rounds; skipped = skips_of rounds }
