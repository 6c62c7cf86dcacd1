-- ===== src/Store/Editing/Wiring.antt =====
-- Cables that the user has set by hand.
use desk_control.Common.{
  List, map, All, Option-cases, String, true, ◌&&◌, [], ◌∷◌, Option, some, Dict, lookup, insert,
  lookup-insert, truthy, ◌≡◌, ◌≢◌, refl, ◌∙◌, sym, subst, ap, arith, Bool-cases, inl, inr, ◌==◌,
  string_eq, option_eq,
}
use desk_control.Domain.Monitor.{Monitor, MonitorInput}
use desk_control.Protocol.{MonitorReport, MonitorInputReport}
use desk_control.Store.{
  DeskStore, mark_config_dirty, touch, ensure_all, ensure_computer, no_defaults, or_else,
}
use desk_control.Store.Editing.{set_wiring_override, has_input, is_known, store_wiring}
use desk_control.Store.Inventory.{
  wiring_of, inputs_of, connected_computer, merge_input, merge_inputs, apply_monitor_report,
  apply_each_report, apply_monitor_reports, ensure_placement,
}

store_wiring-insert :
    (m i c : String) (d : Dict String String) (all : Dict String (Dict String String))
    → lookup m (store_wiring m (insert i c d) all) ≡ some (insert i c d)
unfolding insert
store_wiring-insert m i c [] all = ground (arith, lookup-insert m m ((i, c) ∷ []) all)
store_wiring-insert m i c ((j, e) ∷ d) all = elim (Bool-cases (j == i)) [
  | inl hit ↦ rw hit (ground (arith, lookup-insert m m ((i, c) ∷ d) all))
  | inr miss ↦ rw miss (ground (arith, lookup-insert m m ((j, e) ∷ insert i c d) all))
]

accepted-wiring :
    (s : DeskStore) (m i c : String)
    → (set_wiring_override s m i (some c)).1 ≡ true
    → wiring_of (set_wiring_override s m i (some c)).0 m ≡ insert i c (wiring_of s m)
unfolding set_wiring_override mark_config_dirty touch
accepted-wiring s m i c done =
    elim (Bool-cases (has_input (lookup m s.monitors) i && is_known s (some c))) [
      | inl e ↦
          rw (e, set_wiring_override)
            (ground (arith, store_wiring-insert m i c (wiring_of s m) s.config.wiring_overrides))
      | inr e ↦ cc (rw (e, set_wiring_override) at done)
    ]

connected_computer-override :
    (overrides : Dict String String) (report : MonitorReport) (existing : Option Monitor)
    (reporter i c : String)
    → lookup i overrides ≡ some c
    → c ≢ ""
    → connected_computer overrides report existing reporter i ≡ some c
unfolding connected_computer
connected_computer-override overrides report existing reporter i c found named =
    let kept : truthy (some c) ≡ some c = ground arith in
    rw (found, connected_computer) (rw kept refl)

-- A call of `applyMonitorReports`.
pub record ReportRound : Type 0 where
  pub agent_id : String
  pub computer_id : String
  pub reports : List MonitorReport

pub report_all : DeskStore → List ReportRound → DeskStore
report_all s [] = s
report_all s (r ∷ rs) = report_all (apply_monitor_reports s r.agent_id r.computer_id r.reports) rs

abbrev Wiring : Type 0
Wiring = Dict String (Dict String String)

abbrev wirings : DeskStore → Wiring
wirings s = s.config.wiring_overrides

wirings-ensure_all : (s : DeskStore) (ids : List String) → wirings (ensure_all s ids) ≡ wirings s
unfolding ensure_all ensure_computer
wirings-ensure_all s [] = refl
wirings-ensure_all s (id ∷ ids) =
    wirings-ensure_all (ensure_computer s id no_defaults) ids
    ∙ elim (Option-cases (lookup id s.computers)) [
      | inl e ↦ rw (e, ensure_computer) refl
      | inr (c, e) ↦ rw (e, ensure_computer) refl
    ]

wirings-ensure_placement :
    (s : DeskStore) (id : String) → wirings (ensure_placement s id) ≡ wirings s
unfolding ensure_placement mark_config_dirty touch
wirings-ensure_placement s id = elim (Option-cases (lookup id s.config.layout.placements)) [
  | inl e ↦ rw (e, ensure_placement) refl
  | inr (p, e) ↦ rw (e, ensure_placement) refl
]

wirings-report :
    (s : DeskStore) (agent computer : String) (r : MonitorReport)
    → wirings (apply_monitor_report s agent computer r) ≡ wirings s
unfolding apply_monitor_report merge_inputs
wirings-report s agent computer r =
    wirings-ensure_placement (merge_inputs s r (lookup r.stable_id s.monitors) computer).1
      r.stable_id
    ∙ wirings-ensure_all s _

wirings-each :
    (s : DeskStore) (agent computer : String) (rs : List MonitorReport)
    → wirings (apply_each_report s agent computer rs) ≡ wirings s
unfolding apply_each_report
wirings-each s agent computer [] = refl
wirings-each s agent computer (r ∷ rs) =
    wirings-each (apply_monitor_report s agent computer r) agent computer rs
    ∙ wirings-report s agent computer r

wirings-all :
    (s : DeskStore) (rounds : List ReportRound) → wirings (report_all s rounds) ≡ wirings s
unfolding report_all apply_monitor_reports touch
wirings-all s [] = refl
wirings-all s (r ∷ rs) =
    wirings-all (apply_monitor_reports s r.agent_id r.computer_id r.reports) rs
    ∙ wirings-each s r.agent_id r.computer_id r.reports

-- The inputs of that name are connected to the computer.
abbrev pub LeadsTo : String → String → MonitorInput → Type 0
LeadsTo i c input = input.id ≡ i → input.connected_computer_id ≡ some c

merged-LeadsTo :
    (s : DeskStore) (report : MonitorReport) (existing : Option Monitor) (reporter i c : String)
    → lookup i (wiring_of s report.stable_id) ≡ some c
    → c ≢ ""
    → (inputs : List MonitorInputReport)
    → All (LeadsTo i c) (map (merge_input s report existing reporter) inputs)
unfolding merge_input
merged-LeadsTo s report existing reporter i c found named [] = tt
merged-LeadsTo s report existing reporter i c found named (input ∷ inputs) = (
  λ same.
      connected_computer-override (wiring_of s report.stable_id) report existing reporter input.id c
        (ap (λ j. lookup j (wiring_of s report.stable_id)) same ∙ found) named,
  merged-LeadsTo s report existing reporter i c found named inputs,
)

inserted_inputs :
    (id : String) (m : Monitor) (d : Dict String Monitor)
    → inputs_of (lookup id (insert id m d)) ≡ m.inputs
inserted_inputs id m d = ground (arith, lookup-insert id id m d)

stored_inputs :
    (s : DeskStore) (agent reporter : String) (report : MonitorReport)
    → inputs_of (lookup report.stable_id (apply_monitor_report s agent reporter report).monitors)
      ≡ map (merge_input s report (lookup report.stable_id s.monitors) reporter) report.inputs
unfolding apply_monitor_report merge_inputs
stored_inputs s agent reporter report = inserted_inputs report.stable_id _ _

merged_ids :
    (s : DeskStore) (report : MonitorReport) (existing : Option Monitor) (reporter : String)
    (inputs : List MonitorInputReport)
    → map (λ (x : MonitorInput). x.id) (map (merge_input s report existing reporter) inputs)
      ≡ map (λ (x : MonitorInputReport). x.id) inputs
unfolding merge_input
merged_ids s report existing reporter [] = refl
merged_ids s report existing reporter (i ∷ is) =
    ap (λ l. i.id ∷ l) (merged_ids s report existing reporter is)

-- A cable that the user has set to a computer (whose id is not the empty text), and that was
-- accepted, wins over every later report: after any calls of `applyMonitorReports`, whichever agent
-- then reports the monitor and whatever it says of its own cable, the stored monitor has the reported
-- inputs, and the input of the user's choice leads to the computer that the user named.
pub set_wiring_override-wins :
    (s : DeskStore) (i c : String) (rounds : List ReportRound) (report : MonitorReport)
    (agent reporter : String)
    → c ≢ ""
    → (set_wiring_override s report.stable_id i (some c)).1 ≡ true
    → let u = report_all (set_wiring_override s report.stable_id i (some c)).0 rounds in
      let stored =
        inputs_of
          (lookup report.stable_id (apply_monitor_report u agent reporter report).monitors) in
      (map (λ (x : MonitorInput). x.id) stored
        ≡ map (λ (x : MonitorInputReport). x.id) report.inputs)
      × All (LeadsTo i c) stored
set_wiring_override-wins s i c rounds report agent reporter named done =
    let m = report.stable_id in
    let wired = (set_wiring_override s m i (some c)).0 in
    let u = report_all wired rounds in
    let existing = lookup m u.monitors in
    let kept : wiring_of u m ≡ insert i c (wiring_of s m) =
      ap (λ (w : Wiring). or_else (lookup m w) []) (wirings-all wired rounds)
      ∙ accepted-wiring s m i c done in
    let found : lookup i (wiring_of u m) ≡ some c =
      ap (lookup i) kept ∙ ground (arith, lookup-insert i i c (wiring_of s m)) in
    let same = stored_inputs u agent reporter report in
    (
      ap (map (λ (x : MonitorInput). x.id)) same
          ∙ merged_ids u report existing reporter report.inputs,
      subst (All (LeadsTo i c)) (sym same)
          (merged-LeadsTo u report existing reporter i c found named report.inputs),
    )
