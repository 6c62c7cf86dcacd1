-- ===== src/Tests/Store.antt =====
-- Concrete runs of the store's theorems.
use native.Mathlib.Decide.{ℕ_discrete}
use desk_control.Common.{
  List, map, All, NodupKeys, nat_eq, modify, decimal, ◌<>◌, ℕ, String, true, false, [], ◌∷◌, none,
  some, lookup, insert, ◌≡◌, refl, arith, pos, string_eq, to_lower_case, find, ◌==◌, String,
}
use desk_control.Domain.Ids.{Unicode, slugify}
use desk_control.Domain.Monitor.{MonitorInput, Connector, Orientation, Placement}
use desk_control.Domain.State.{PowerState, Reachability}
use desk_control.Protocol.{MonitorInputReport, MonitorReport}
use desk_control.Store.{
  DeskStore, ObservationRecord, ensure_computer, no_defaults, change_computer, is_agent_online,
}
use desk_control.Domain.Device.{Agent, Platform, ConnectivityState}
use desk_control.Store.Editing.{set_wiring_override}
use desk_control.Store.Editing.Wiring.{set_wiring_override-wins, ReportRound, report_all, LeadsTo}
use desk_control.Store.Observations.{best_record}
use desk_control.Store.Observations.Best.{IsBelieved, reports_on, best_record-IsBelieved}
use desk_control.Store.Inventory.{
  ensure_placement, merge_input, wiring_of, inputs_of, apply_monitor_report,
}
use desk_control.Store.Inventory.Cabling.{merge_input-stale}
use desk_control.Store.Inventory.Wall.{IsPlaced, placements_of, ensure_placement-IsPlaced}
use desk_control.Store.Presets.{
  slug_or_preset, preset_taken, unique_preset_id, delete_preset, with_presets,
}
use desk_control.Store.Presets.Identity.{
  IsDeleted, HasRoom, suffixed, unique_preset_id-fresh, delete_preset-IsDeleted,
}
use desk_control.Store.Usb.{usb_holder_of, speaks}
use desk_control.Store.Usb.Holders.{Accounts, Enumerates, usb_holder_of-Accounts}
use desk_control.Tests.Desk.{panel, wired_input, identity, desk, work}

abbrev tile : Placement
tile = record {
  x = pos 0;
  y = pos 0;
  width = 16000;
  height = 9000;
  orientation = Orientation.landscape;
  auto_placed = false;
}

abbrev with_wall : DeskStore
with_wall = record desk {
  config = record (desk.config) {
    layout = record (desk.config.layout) { placements = ("left", tile) ∷ [] };
  };
}

no_tile_yet : lookup "right" (placements_of with_wall) ≡ none
unfolding lookup string_eq
no_tile_yet = ground arith

ensure_placement-IsPlaced_example :
    IsPlaced with_wall (ensure_placement with_wall "right") "right"
    × ((j : String) (p : Placement)
        → lookup j (placements_of with_wall) ≡ some p
        → lookup j (placements_of (ensure_placement with_wall "right")) ≡ some p)
ensure_placement-IsPlaced_example = ensure_placement-IsPlaced with_wall "right" no_tile_yet

abbrev mac_agent : Agent
mac_agent = record {
  id = "agent-mac";
  computer_id = "mac";
  detected_name = "Mac agent";
  custom_name = none;
  platform = Platform.macos;
  protocol_version = 1;
  agent_version = "1";
  connectivity = record { state = ConnectivityState.online; last_seen_at = some 1; detail = none };
  provider_kind = "mock";
  supported_command_kinds = [];
}

abbrev with_usb : DeskStore
with_usb =
    change_computer
      (ensure_computer
        (record desk {
          usb_by_computer = ("mac", "046d:c52b" ∷ []) ∷ ("pc", []) ∷ [];
          agents = ("agent-mac", mac_agent) ∷ [];
        })
        "mac" no_defaults)
      "mac" (λ c. record c { agent_id = some "agent-mac" })

one_report_each : NodupKeys with_usb.usb_by_computer
unfolding lookup change_computer ensure_computer string_eq
one_report_each = ground arith

usb_holder_of-Accounts_example :
    Accounts
      (Enumerates with_usb (to_lower_case "046D:C52B") with_usb.usb_by_computer)
      (usb_holder_of with_usb "046D:C52B")
usb_holder_of-Accounts_example = usb_holder_of-Accounts with_usb "046D:C52B" one_report_each

-- The desk has a holder to name.
mac_holds : (usb_holder_of with_usb "046D:C52B").computer_id ≡ some "mac"
unfolding usb_holder_of lookup change_computer ensure_computer string_eq insert to_lower_case nat_eq
    ℕ_discrete speaks modify is_agent_online
mac_holds = refl

abbrev plain : Unicode
plain = record {
  normalize_nfkd = λ s. s;
  is_letter_or_number = λ c. true;
  to_lower = to_lower_case;
}

work_is_taken : HasRoom (work ∷ []) ("preset:" <> slug_or_preset (slugify plain "Work"))
unfolding string_eq slugify to_lower_case nat_eq ℕ_discrete decimal
work_is_taken = suffixed 0 (omega arith) refl

unique_preset_id-fresh_example :
    (preset_taken (work ∷ []) (unique_preset_id plain 0 (work ∷ []) "Work") ≡ false)
    × (preset_taken (work ∷ []) ("preset:" <> slug_or_preset (slugify plain "Work")) ≡ false
        → unique_preset_id plain 0 (work ∷ []) "Work"
          ≡ "preset:" <> slug_or_preset (slugify plain "Work"))
unique_preset_id-fresh_example = unique_preset_id-fresh plain 0 (work ∷ []) "Work" work_is_taken

abbrev with_work : DeskStore
with_work = with_presets desk (work ∷ [])

delete_preset-IsDeleted_example :
    IsDeleted with_work
      (delete_preset with_work "preset:work").0
      (delete_preset with_work "preset:work").1
      "preset:work"
delete_preset-IsDeleted_example = delete_preset-IsDeleted with_work "preset:work"

abbrev seen_by : String → Reachability → ℕ → ObservationRecord
seen_by agent r at = record {
  report = record {
    stable_id = "left";
    active_input_id = some "hdmi-1";
    power_state = PowerState.on;
    brightness = none;
    reachability = r;
    error = none;
  };
  agent_id = agent;
  observed_at = at;
}

abbrev with_reports : DeskStore
with_reports = record desk {
  observations =
      (
        "left",
        ("agent-pc", seen_by "agent-pc" Reachability.unreachable 9)
            ∷ ("agent-mac", seen_by "agent-mac" Reachability.reachable 5)
            ∷ [],
      )
      ∷ [];
}

best_record-IsBelieved_example :
    IsBelieved (reports_on with_reports "left") (best_record with_reports "left")
best_record-IsBelieved_example = best_record-IsBelieved with_reports "left"

abbrev hdmi : MonitorInputReport
hdmi = record {
  id = "hdmi-1";
  connector = Connector.hdmi;
  ddc_input_source_value = some 17;
  detected_name = "HDMI 1";
  max_mode = none;
}

abbrev left_report : MonitorReport
left_report = record {
  stable_id = "left";
  local_handle = "0";
  detected_name = "left";
  identity = identity;
  capabilities = [];
  inputs = hdmi ∷ [];
  connected_via_input_id = some "hdmi-1";
  requires_active_input = true;
  preferred_input_id = none;
}

abbrev with_pc : DeskStore
with_pc = ensure_computer desk "pc" no_defaults

accepted_wire : (set_wiring_override with_pc "left" "hdmi-1" (some "pc")).1 ≡ true
unfolding set_wiring_override ensure_computer lookup insert string_eq
accepted_wire = refl

abbrev rounds : List ReportRound
rounds = record { agent_id = "agent-mac"; computer_id = "mac"; reports = left_report ∷ [] } ∷ []

abbrev reported : DeskStore
reported =
    apply_monitor_report
      (report_all (set_wiring_override with_pc "left" "hdmi-1" (some "pc")).0 rounds) "agent-mac"
      "mac" left_report

set_wiring_override-wins_example :
    (map (λ (x : MonitorInput). x.id) (inputs_of (lookup "left" reported.monitors)) ≡ "hdmi-1" ∷ [])
    × All (LeadsTo "hdmi-1" "pc") (inputs_of (lookup "left" reported.monitors))
set_wiring_override-wins_example =
    set_wiring_override-wins with_pc "hdmi-1" "pc" rounds left_report "agent-mac" "mac" (λ e. cc)
      accepted_wire

abbrev dp : MonitorInputReport
dp = record hdmi { id = "dp-1" }

abbrev moved_report : MonitorReport
moved_report = record left_report { inputs = hdmi ∷ dp ∷ []; connected_via_input_id = some "dp-1" }

no_wiring : (i : String) → lookup i (wiring_of desk "left") ≡ none
unfolding lookup
no_wiring i = refl

was_hdmi :
    find (λ (i : MonitorInput). i.id == "hdmi-1") (panel "left").inputs
    ≡ some (wired_input "hdmi-1" "mac")
unfolding string_eq
was_hdmi = ground arith

merge_input-stale_example :
    ((merge_input desk moved_report (some (panel "left")) "mac" hdmi).connected_computer_id
      ≡ some "mac")
    × ((merge_input desk moved_report (some (panel "left")) "mac" dp).connected_computer_id
        ≡ some "mac")
merge_input-stale_example =
    merge_input-stale desk moved_report (panel "left") (wired_input "hdmi-1" "mac") hdmi dp "mac"
      (no_wiring "hdmi-1") (no_wiring "dp-1") refl (λ e. cc) was_hdmi refl
