-- ===== src/Store/Inventory.antt =====
-- desk-store.ts, "Hardware inventory": merging the monitor reports of the agents.
pub mod Wall
pub mod Cabling
use desk_control.Common.{
  ℕ, ℤ, pos, max_ℤ, ◌+ℤ◌, String, true, not, ◌&&◌, List, [], ◌∷◌, ◌++◌, map, Option, none, some,
  Dict, lookup, insert, values, truthy, ◌==◌, contains, find, filter_bool, ◌<>◌, string_eq,
  option_eq, if◌then◌else◌,
}
use desk_control.Domain.Capability.{union_capabilities, name_before, monitor_capability_eq}
use desk_control.Domain.Monitor.{
  Monitor, MonitorInput, MonitorControlPath, Placement, Orientation, Grid,
}
use desk_control.Protocol.{MonitorReport, MonitorInputReport}
use desk_control.Store.{DeskStore, touch, mark_config_dirty, override_for, ensure_all, or_else}

-- The constants of `ensurePlacement`, in thousandths of a grid unit.
abbrev pub auto_width : ℕ
auto_width = 16000

abbrev pub auto_height : ℕ
auto_height = 9000

abbrev pub auto_gap : ℕ
auto_gap = 1000

-- The loop of `reduce`.
unfoldable pub right_edge : ℤ → List Placement → ℤ
right_edge edge [] = edge
right_edge edge (p ∷ ps) = right_edge (max_ℤ edge (p.x +ℤ pos p.width +ℤ pos auto_gap)) ps

unfoldable pub ensure_placement : DeskStore → String → DeskStore
ensure_placement s monitor_id = elim (lookup monitor_id s.config.layout.placements) [
  | some placement ↦ s
  | none ↦
      let next_x = right_edge (pos 0) (values s.config.layout.placements) in
      let placement : Placement = record {
        x = next_x;
        y = pos 0;
        width = auto_width;
        height = auto_height;
        orientation = Orientation.landscape;
        auto_placed = true;
      } in
      let grid : Grid = record {
        columns = max_ℤ s.config.layout.grid.columns (next_x +ℤ pos auto_width);
        rows = max_ℤ s.config.layout.grid.rows (pos auto_height);
      } in
      mark_config_dirty (record s {
        config = record (s.config) {
          layout = record (s.config.layout) {
            grid = grid;
            placements = insert monitor_id placement s.config.layout.placements;
          };
        };
      })
]

abbrev pub wiring_of : DeskStore → String → Dict String String
wiring_of s monitor_id = or_else (lookup monitor_id s.config.wiring_overrides) []

-- The inputs of the monitor as it was known before, if it was.
abbrev pub inputs_of : Option Monitor → List MonitorInput
inputs_of none = []
inputs_of (some m) = m.inputs

abbrev pub paths_of : Option Monitor → List MonitorControlPath
paths_of none = []
paths_of (some m) = m.control_paths

abbrev connected_of : Option MonitorInput → Option String
connected_of none = none
connected_of (some i) = i.connected_computer_id

-- `connectedComputerId` of an input: the override, else this agent's own cable, else what was known.
unfoldable pub connected_computer :
    Dict String String → MonitorReport → Option Monitor → String → String → Option String
connected_computer overrides report existing computer_id input_id =
    let previous =
      connected_of (find (λ (i : MonitorInput). i.id == input_id) (inputs_of existing)) in
    let discovered =
      if report.connected_via_input_id == some input_id then some computer_id else previous in
    elim (truthy (lookup input_id overrides)) [ none ↦ discovered | some chosen ↦ some chosen ]

unfoldable pub merge_input :
    DeskStore → MonitorReport → Option Monitor → String → MonitorInputReport → MonitorInput
unfolding connected_computer
merge_input s report existing computer_id input = record {
  id = input.id;
  connector = input.connector;
  ddc_input_source_value = input.ddc_input_source_value;
  detected_name = input.detected_name;
  custom_name = (override_for s (report.stable_id <> (":" <> input.id))).custom_name;
  connected_computer_id =
      connected_computer (wiring_of s report.stable_id) report existing computer_id input.id;
  max_mode = input.max_mode;
}

connected_ids : List MonitorInput → List String
connected_ids [] = []
connected_ids (i ∷ is) = elim (truthy i.connected_computer_id) [
  | none ↦ connected_ids is
  | some id ↦ id ∷ connected_ids is
]

-- `mergeInputs`: the inputs, and the store in which every computer that they name exists. The
-- computers do not enter into the inputs, so they are ensured after the loop.
unfoldable pub merge_inputs :
    DeskStore → MonitorReport → Option Monitor → String → List MonitorInput × DeskStore
unfolding merge_input connected_ids
merge_inputs s report existing computer_id =
    let inputs = map (merge_input s report existing computer_id) report.inputs in
    (inputs, ensure_all s (connected_ids inputs))

abbrev pub pair_key : String → String → String
pair_key monitor_id agent_id = monitor_id <> (":" <> agent_id)

unfoldable pub reported_path : DeskStore → String → String → MonitorReport → MonitorControlPath
reported_path s agent_id computer_id report = record {
  agent_id = agent_id;
  computer_id = computer_id;
  local_handle = report.local_handle;
  input_id = report.connected_via_input_id;
  capabilities = report.capabilities;
  requires_active_input =
      report.requires_active_input
      && not (contains s.proven_active_input_independence (pair_key report.stable_id agent_id));
}

unfoldable pub merged_paths :
    DeskStore → String → String → MonitorReport → Option Monitor → List MonitorControlPath
unfolding reported_path
merged_paths s agent_id computer_id report existing =
    filter_bool (λ (p : MonitorControlPath). not (p.agent_id == agent_id)) (paths_of existing)
    ++ reported_path s agent_id computer_id report ∷ []

abbrev pub preferred_of : Option Monitor → Option String
preferred_of none = none
preferred_of (some m) = m.preferred_input_id

abbrev first_of_two : Option String → Option String → Option String
first_of_two none b = b
first_of_two (some a) b = some a

-- One round of the loop of `applyMonitorReports`.
unfoldable pub apply_monitor_report : DeskStore → String → String → MonitorReport → DeskStore
unfolding merge_inputs merged_paths ensure_placement
apply_monitor_report s agent_id computer_id report =
    let existing = lookup report.stable_id s.monitors in
    let (inputs, with_computers) = merge_inputs s report existing computer_id in
    let control_paths = merged_paths s agent_id computer_id report existing in
    let placed = ensure_placement with_computers report.stable_id in
    let monitor : Monitor = record {
      id = report.stable_id;
      detected_name = report.detected_name;
      custom_name = (override_for placed report.stable_id).custom_name;
      identity = report.identity;
      capabilities =
          union_capabilities name_before
            (map (λ (p : MonitorControlPath). p.capabilities) control_paths);
      inputs = inputs;
      control_paths = control_paths;
      preferred_input_id = first_of_two report.preferred_input_id (preferred_of existing);
      placement = lookup report.stable_id placed.config.layout.placements;
    } in
    record placed { monitors = insert report.stable_id monitor placed.monitors }

unfoldable pub apply_each_report : DeskStore → String → String → List MonitorReport → DeskStore
apply_each_report s agent_id computer_id [] = s
apply_each_report s agent_id computer_id (r ∷ rs) =
    apply_each_report (apply_monitor_report s agent_id computer_id r) agent_id computer_id rs

unfoldable pub apply_monitor_reports : DeskStore → String → String → List MonitorReport → DeskStore
unfolding apply_each_report
apply_monitor_reports s agent_id computer_id reports =
    touch (apply_each_report s agent_id computer_id reports)
