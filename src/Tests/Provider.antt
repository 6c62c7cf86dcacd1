-- ===== src/Tests/Provider.antt =====
-- A concrete run of the theorem on the DDC provider.
use native.Mathlib.Decide.{ℕ_discrete}
use desk_control.Common.{
  ℕ, ◌+◌, max, String, [], ◌∷◌, Option, none, some, lookup, ◌≡◌, refl, sym, ap, ◌∙◌, string_eq,
  nat_eq, true,
}
use desk_control.Domain.Capability.{input_switch, monitor_capability_eq}
use desk_control.Domain.State.{PowerState}
use desk_control.Hardware.{SetInputRequest, OperationResult, done}
use desk_control.Hardware.Ddc.{Attempt, ok}
use desk_control.Hardware.Ddc.Provider.{
  KnownMonitor, DdcProvider, DdcBridge, Reading, answered, unanswered, set_input, target_value,
  write_input, verify_switch,
}
use desk_control.Hardware.Ddc.Provider.Confirming.{IsShown, IsConfirmed, set_input-IsConfirmed}

-- The time, and the input that the panel is on.
abbrev Bench : Type 0
Bench = ℕ × ℕ

abbrev good_bridge : DdcBridge Bench
good_bridge = record {
  now = λ w. w.0;
  sleep = λ ms w. (w.0 + max 1 ms, w.1);
  set_vcp = λ device code value limit w. (none, (w.0 + 40, value));
  get_vcp =
      λ device code limit w. (answered (record { value = w.1; maximum = 0; vcp_type = 0 }), w);
}

abbrev shown : Bench → String → Option ℕ
shown w device = some (w.1)

abbrev value_read : Reading → Option ℕ
value_read (answered r) = some r.value
value_read (unanswered e) = none

good_bridge-IsShown : IsShown good_bridge shown
unfolding IsShown
good_bridge-IsShown device limit w w2 r e =
    ap (λ x. some (x.1.1)) (sym e) ∙ ap (λ x. value_read (x.0)) e

abbrev left_panel : KnownMonitor
left_panel = record {
  stable_id = "AUS-1";
  device_id = "display-1";
  input_values = ("input-0x11", 0x11) ∷ [];
  capabilities = input_switch ∷ [];
  vcp = [];
  last_brightness = none;
  last_power_state = PowerState.unknown;
}

abbrev provider : DdcProvider
provider = record {
  verify_interval_ms = 400;
  known = ("AUS-1", left_panel) ∷ [];
  completed_commands = [];
  observe_count = 0;
  refresh_extras_next = true;
}

abbrev nothing_new : DdcProvider → Bench → Attempt DdcProvider × Bench
nothing_new p w = (ok p, w)

abbrev to_hdmi : SetInputRequest
to_hdmi = record {
  stable_id = "AUS-1";
  local_handle = "display-1";
  input_id = "input-0x11";
  ddc_input_source_value = none;
  command_id = "c1";
  timeout_ms = 8000;
}

abbrev run : Attempt OperationResult × (DdcProvider × Bench)
run = set_input good_bridge nothing_new provider to_hdmi (0, 0x0f)

is_new : lookup to_hdmi.command_id provider.completed_commands ≡ none
unfolding lookup
is_new = refl

went_well : run.0 ≡ ok done
unfolding set_input lookup string_eq nat_eq ℕ_discrete monitor_capability_eq target_value
    write_input verify_switch
went_well = refl

set_input-IsConfirmed_example :
    IsConfirmed good_bridge shown to_hdmi (run.1.0) (run.1.1)
    × ((again : SetInputRequest) (w2 : Bench)
        → again.command_id ≡ to_hdmi.command_id
        → set_input good_bridge nothing_new (run.1.0) again w2 ≡ (ok done, (run.1.0, w2)))
set_input-IsConfirmed_example =
    set_input-IsConfirmed good_bridge shown good_bridge-IsShown nothing_new provider to_hdmi
      (0, 0x0f) is_new went_well
