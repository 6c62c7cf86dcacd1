-- ===== src/Store/Inventory/Cabling.antt =====
-- What a report teaches of the cables, `mergeInputs`.
use desk_control.Common.{
  String, none, some, lookup, find, ◌≡◌, ◌≢◌, arith, ◌==◌, string_eq, option_eq,
}
use desk_control.Domain.Monitor.{Monitor, MonitorInput}
use desk_control.Protocol.{MonitorReport, MonitorInputReport}
use desk_control.Store.{DeskStore}
use desk_control.Store.Inventory.{wiring_of, connected_computer, merge_input}

-- After an agent's cable has moved to another input, the input that it left stays with its computer
-- too, as long as neither input is wired by hand: both inputs then claim the one computer.
pub merge_input-stale :
    (s : DeskStore) (report : MonitorReport) (m : Monitor) (old : MonitorInput)
    (left taken : MonitorInputReport) (computer : String)
    → lookup left.id (wiring_of s report.stable_id) ≡ none
    → lookup taken.id (wiring_of s report.stable_id) ≡ none
    → report.connected_via_input_id ≡ some taken.id
    → left.id ≢ taken.id
    → find (λ (i : MonitorInput). i.id == left.id) m.inputs ≡ some old
    → old.connected_computer_id ≡ some computer
    → ((merge_input s report (some m) computer left).connected_computer_id ≡ some computer)
      × ((merge_input s report (some m) computer taken).connected_computer_id ≡ some computer)
unfolding merge_input connected_computer
merge_input-stale s report m old left taken computer free_left free_taken via differ known was =
    (stays, moves)
  where
    stays : (merge_input s report (some m) computer left).connected_computer_id ≡ some computer
    stays = rw (free_left, connected_computer) (rw known (ground arith))

    moves : (merge_input s report (some m) computer taken).connected_computer_id ≡ some computer
    moves = rw (free_taken, connected_computer) (ground arith)
