-- ===== src/Store/Observations.antt =====
-- desk-store.ts, "Observations": what the agents see on each monitor, and which input to route by.
pub mod Best
use desk_control.Common.{
  ℕ, String, Bool, true, false, not, ◌&&◌, ◌||◌, List, [], ◌∷◌, ◌++◌, Option, none, some, Dict,
  lookup, insert, keys, values, truthy, ◌==◌, contains, find, sort_by, ltb, string_eq, option_eq,
  if◌then◌else◌,
}
use desk_control.Domain.Monitor.{MonitorInput, MonitorControlPath}
use desk_control.Domain.State.{Reachability, ObservedMonitorState}
use desk_control.Protocol.{ObservedMonitorReport}
use desk_control.Store.{DeskStore, ObservationRecord, touch, or_else}
use desk_control.Store.Inventory.{pair_key}

abbrev pub is_reachable : Reachability → Bool
is_reachable Reachability.reachable = true
is_reachable _ = false

unfoldable pub note_active_input : DeskStore → String → String → DeskStore
note_active_input s monitor_id input_id = record s {
  last_known_active_inputs = insert monitor_id input_id s.last_known_active_inputs;
}

-- `path.inputId === null || path.inputId === observedActiveInputId`
abbrev pub proves_nothing : Option String → String → Bool
proves_nothing none observed = true
proves_nothing (some own) observed = own == observed

-- The path object that `find` returned is changed in place.
unfoldable pub free_path : String → List MonitorControlPath → List MonitorControlPath
free_path agent_id [] = []
free_path agent_id (p ∷ ps) =
    if p.agent_id == agent_id
    then record p { requires_active_input = false } ∷ ps
    else p ∷ free_path agent_id ps

unfoldable pub add_to_set : List String → String → List String
add_to_set xs x = if contains xs x then xs else xs ++ x ∷ []

unfoldable pub note_active_input_independence : DeskStore → String → String → String → DeskStore
unfolding add_to_set free_path
note_active_input_independence s monitor_id agent_id observed_active_input_id =
    elim (lookup monitor_id s.monitors) [
      | none ↦ s
      | some monitor ↦
          elim (find (λ (p : MonitorControlPath). p.agent_id == agent_id) monitor.control_paths) [
            | none ↦ s
            | some path ↦
                if not path.requires_active_input
                  || proves_nothing path.input_id observed_active_input_id
                then s
                else record s {
                  proven_active_input_independence =
                      add_to_set s.proven_active_input_independence (pair_key monitor_id agent_id);
                  monitors =
                      insert monitor_id
                        (record monitor {
                          control_paths = free_path agent_id monitor.control_paths;
                        })
                        s.monitors;
                }
          ]
    ]

-- One round of the loop of `applyObservedReports`.
unfoldable pub apply_observed_report : DeskStore → ℕ → String → ObservedMonitorReport → DeskStore
unfolding note_active_input note_active_input_independence
apply_observed_report s now agent_id report =
    let entry : ObservationRecord = record {
      report = report;
      agent_id = agent_id;
      observed_at = now;
    } in
    let per_monitor = or_else (lookup report.stable_id s.observations) [] in
    let recorded = record s {
      observations = insert report.stable_id (insert agent_id entry per_monitor) s.observations;
    } in
    elim (truthy report.active_input_id) [
      | none ↦ recorded
      | some active ↦
          if is_reachable report.reachability
          then note_active_input_independence (note_active_input recorded report.stable_id active)
              report.stable_id agent_id active
          else recorded
    ]

unfoldable pub apply_each_observation :
    DeskStore → ℕ → String → List ObservedMonitorReport → DeskStore
apply_each_observation s now agent_id [] = s
apply_each_observation s now agent_id (r ∷ rs) =
    apply_each_observation (apply_observed_report s now agent_id r) now agent_id rs

unfoldable pub apply_observed_reports :
    DeskStore → ℕ → String → List ObservedMonitorReport → DeskStore
unfolding apply_each_observation
apply_observed_reports s now agent_id reports =
    touch (apply_each_observation s now agent_id reports)

-- The comparator of `effectiveObservedMonitor`: reachable first, then the newest.
unfoldable pub record_before : ObservationRecord → ObservationRecord → Bool
record_before a b =
    let a_reachable = is_reachable a.report.reachability in
    let b_reachable = is_reachable b.report.reachability in
    (a_reachable && not b_reachable)
    || (not (b_reachable && not a_reachable) && ltb b.observed_at a.observed_at)

abbrev pub head_of {ℓ} : {A : Type ℓ} → List A → Option A
head_of [] = none
head_of (x ∷ xs) = some x

unfoldable pub best_record : DeskStore → String → Option ObservationRecord
unfolding record_before
best_record s monitor_id = elim (lookup monitor_id s.observations) [
  | none ↦ none
  | some per_monitor ↦ head_of (sort_by record_before (values per_monitor))
]

abbrev connected_of : Option MonitorInput → Option String
connected_of none = none
connected_of (some i) = i.connected_computer_id

-- `monitor?.inputs.find(...)?.connectedComputerId ?? null`
unfoldable pub computer_on_input : DeskStore → String → String → Option String
computer_on_input s monitor_id input_id = elim (lookup monitor_id s.monitors) [
  | none ↦ none
  | some monitor ↦ connected_of (find (λ (i : MonitorInput). i.id == input_id) monitor.inputs)
]

unfoldable pub effective_observed_monitor : DeskStore → String → Option ObservedMonitorState
unfolding best_record
effective_observed_monitor s monitor_id = elim (best_record s monitor_id) [
  | none ↦ none
  | some best ↦ some (record {
    monitor_id = monitor_id;
    active_input_id = best.report.active_input_id;
    active_source_computer_id = elim best.report.active_input_id [
      | none ↦ none
      | some active ↦ computer_on_input s monitor_id active
    ];
    power_state = best.report.power_state;
    brightness = best.report.brightness;
    reachability = best.report.reachability;
    observed_at = best.observed_at;
    reported_by_agent_id = some best.agent_id;
    last_error = best.report.error;
  })
]

-- The first operand of `||` in `bestKnownActiveInput`: a reachable panel's own reading.
abbrev pub live_input : Option ObservedMonitorState → Option String
live_input none = none
live_input (some o) = if is_reachable o.reachability then truthy o.active_input_id else none

abbrev pub last_reading : Option ObservedMonitorState → Option String
last_reading none = none
last_reading (some o) = o.active_input_id

unfoldable pub best_known_active_input : DeskStore → String → Option String
unfolding effective_observed_monitor
best_known_active_input s monitor_id =
    let observed = effective_observed_monitor s monitor_id in
    elim (live_input observed) [
      | some live ↦ some live
      | none ↦ elim (lookup monitor_id s.last_known_active_inputs) [
        | some known ↦ some known
        | none ↦ last_reading observed
      ]
    ]

unfoldable pub last_known_source_computer_id : DeskStore → String → Option String
unfolding best_known_active_input
last_known_source_computer_id s monitor_id = elim (truthy (best_known_active_input s monitor_id)) [
  | none ↦ none
  | some input_id ↦ computer_on_input s monitor_id input_id
]

observed_among : DeskStore → List String → Dict String ObservedMonitorState
observed_among s [] = []
observed_among s (id ∷ ids) = elim (effective_observed_monitor s id) [
  | none ↦ observed_among s ids
  | some o ↦ (id, o) ∷ observed_among s ids
]

-- The keys of a `Map` are distinct, so each round of the loop adds an entry at the end.
unfoldable pub observed_monitors : DeskStore → Dict String ObservedMonitorState
unfolding observed_among
observed_monitors s = observed_among s (keys s.observations)
