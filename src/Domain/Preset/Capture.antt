-- ===== src/Domain/Preset/Capture.antt =====
-- What `captureDeskState` puts into the assignments, and what it leaves out.
use mathlib.Core.Option.{some-injective}
use desk_control.Common.{
  String, true, List, [], ◌∷◌, map, Option, none, some, Dict, lookup, lookup-insert, ◌≡◌, ◌≢◌, ◌↔◌,
  inl, inr, refl, ap, ◌∙◌, arith, contains, ◌==◌, string_eq, if◌then◌else◌, Bool-cases,
}
use desk_control.Domain.Monitor.{Monitor}
use desk_control.Domain.Peripheral.{Peripheral}
use desk_control.Domain.State.{Reachability, ObservedMonitorState, ObservedPeripheralState}
use desk_control.Domain.Preset.{
  CapturedDeskState, Reading, source, left_out, read_monitor, read_peripheral, note_monitor,
  note_peripheral, capture_monitors, capture_peripherals, capture_desk_state, nothing_captured,
}

abbrev pick : Reading → Option String → Option String
pick (source c) before = some c
pick (left_out r) before = before

sources-note_monitor :
    (id j : String) (r : Reading) (c : CapturedDeskState)
    → lookup j (note_monitor id r c).assignments.monitor_sources ≡ (
        if id == j
        then pick r (lookup j c.assignments.monitor_sources)
        else lookup j c.assignments.monitor_sources)
unfolding note_monitor
sources-note_monitor id j (source k) c = lookup-insert j id k c.assignments.monitor_sources
sources-note_monitor id j (left_out r) c = ground arith

module _ (observed : Dict String ObservedMonitorState) where
  sources-capture_monitors :
      (ms : List Monitor) (j : String) (c : CapturedDeskState)
      → lookup j (capture_monitors observed ms c).assignments.monitor_sources ≡ (
          if contains (map (λ m. m.id) ms) j
          then pick (read_monitor (lookup j observed)) (lookup j c.assignments.monitor_sources)
          else lookup j c.assignments.monitor_sources)
  unfolding capture_monitors
  sources-capture_monitors [] j c = refl
  sources-capture_monitors (m ∷ ms) j c = ground (
    arith,
    sources-capture_monitors ms j (note_monitor m.id (read_monitor (lookup m.id observed)) c),
    sources-note_monitor m.id j (read_monitor (lookup m.id observed)) c,
  )

sources-note_peripheral :
    (id : String) (r : Reading) (c : CapturedDeskState)
    → (note_peripheral id r c).assignments.monitor_sources ≡ c.assignments.monitor_sources
unfolding note_peripheral
sources-note_peripheral id (source k) c = refl
sources-note_peripheral id (left_out r) c = refl

sources-capture_peripherals :
    (observed : Dict String ObservedPeripheralState) (ps : List Peripheral) (c : CapturedDeskState)
    → (capture_peripherals observed ps c).assignments.monitor_sources
      ≡ c.assignments.monitor_sources
unfolding capture_peripherals
sources-capture_peripherals observed [] c = refl
sources-capture_peripherals observed (p ∷ ps) c =
    sources-capture_peripherals observed ps _
    ∙ sources-note_peripheral p.id (read_peripheral (lookup p.id observed)) c

read_monitor_iff :
    (o : Option ObservedMonitorState) (k : String)
    → (read_monitor o ≡ source k) ↔ (
        (s : ObservedMonitorState) × (o ≡ some s)
        × (s.reachability ≡ Reachability.reachable)
        × (s.active_source_computer_id ≡ some k)
        × (k ≢ ""))
unfolding read_monitor
read_monitor_iff none k = (λ e. cc, λ (s, e, r, a, n). cc)
read_monitor_iff (some s) k =
    (λ e. (s, refl, ground arith, ground arith, ground arith), λ (s', e, r, a, n). ground arith)

captured_lem :
    (ms : List Monitor) (ps : List Peripheral) (om : Dict String ObservedMonitorState)
    (op : Dict String ObservedPeripheralState) (j : String)
    → lookup j (capture_desk_state ms ps om op).assignments.monitor_sources
      ≡ (if contains (map (λ m. m.id) ms) j then pick (read_monitor (lookup j om)) none else none)
unfolding capture_desk_state lookup
captured_lem ms ps om op j =
    ap (lookup j) (sources-capture_peripherals op ps (capture_monitors om ms nothing_captured))
    ∙ sources-capture_monitors om ms j nothing_captured

pick-some : (r : Reading) {k : String} → pick r none ≡ some k → r ≡ source k
pick-some (source c) e = ap source (some-injective _ _ e)
pick-some (left_out x) e = cc

-- A monitor is in the captured preset with a source exactly where it is on the desk and its
-- observation is reachable and names that source (a text that is not empty): nothing unreachable,
-- unknown or never observed is written down.
pub capture_desk_state-sources_iff :
    (ms : List Monitor) (ps : List Peripheral) (om : Dict String ObservedMonitorState)
    (op : Dict String ObservedPeripheralState) (j k : String)
    → (lookup j (capture_desk_state ms ps om op).assignments.monitor_sources ≡ some k) ↔ (
        (contains (map (λ m. m.id) ms) j ≡ true)
        × ((s : ObservedMonitorState) × (lookup j om ≡ some s)
            × (s.reachability ≡ Reachability.reachable)
            × (s.active_source_computer_id ≡ some k)
            × (k ≢ "")))
capture_desk_state-sources_iff ms ps om op j k = (
  (λ e. elim (Bool-cases (contains (map (λ m. m.id) ms) j)) [
    | inl here ↦
        let picked : pick (read_monitor (lookup j om)) none ≡ some k =
          ground (arith, captured_lem ms ps om op j) in
        (here, (read_monitor_iff (lookup j om) k).0 (pick-some _ picked))
    | inr away ↦ ground (arith, captured_lem ms ps om op j)
  ]),
  λ h. ground (arith, captured_lem ms ps om op j, (read_monitor_iff (lookup j om) k).1 h.1),
)
