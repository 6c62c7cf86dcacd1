-- ===== src/Tests/Desk.antt =====
-- A desk with two monitors and two computers, for the concrete runs.
use desk_control.Common.{pos, String, Bool, true, false, [], ◌∷◌, none, some}
use desk_control.Config.{empty_desk_config}
use desk_control.Domain.Capability.{MonitorCapability}
use desk_control.Domain.Command.{CommandPayload, CommandStatus, DeskCommand, PeripheralOrder}
use desk_control.Domain.Monitor.{
  Connector, Monitor, MonitorInput, MonitorControlPath, MonitorIdentity,
}
use desk_control.Domain.Preset.{Preset}
use desk_control.Domain.State.{
  StateOrigin, PowerState, Reachability, ObservedMonitorState, DesiredMonitorSource,
  empty_desired_state,
}
use desk_control.Store.{DeskStore}
use desk_control.Service.{Env, Stamp, ServiceState, PeripheralRun}
use desk_control.Service.Monitors.{MonitorRequest}

abbrev pub wired_input : String → String → MonitorInput
wired_input id computer = record {
  id = id;
  connector = Connector.hdmi;
  ddc_input_source_value = some 17;
  detected_name = id;
  custom_name = none;
  connected_computer_id = some computer;
  max_mode = none;
}

abbrev pub path_by : String → String → Bool → MonitorControlPath
path_by agent input fixed = record {
  agent_id = agent;
  computer_id = agent;
  local_handle = "0";
  input_id = some input;
  capabilities = MonitorCapability.input_switch ∷ [];
  requires_active_input = fixed;
}

abbrev pub identity : MonitorIdentity
identity = record {
  manufacturer_id = "DEL";
  model = "U2723QE";
  serial = some "1";
  manufacture_year = none;
  weak_identity = false;
  physical_size = none;
}

abbrev pub panel : String → Monitor
panel id = record {
  id = id;
  detected_name = id;
  custom_name = none;
  identity = identity;
  capabilities = MonitorCapability.input_switch ∷ [];
  inputs = wired_input "hdmi-1" "mac" ∷ wired_input "dp-1" "pc" ∷ [];
  control_paths = path_by "agent-mac" "hdmi-1" true ∷ path_by "agent-pc" "dp-1" true ∷ [];
  preferred_input_id = none;
  placement = none;
}

abbrev pub desk : DeskStore
desk = record {
  revision = 0;
  config_signals = 0;
  computers = [];
  agents = [];
  monitors = ("left", panel "left") ∷ ("right", panel "right") ∷ [];
  commands = [];
  observations = [];
  peripheral_observations = [];
  usb_by_computer = [];
  last_known_active_inputs = ("left", "hdmi-1") ∷ [];
  proven_active_input_independence = [];
  desired = empty_desired_state;
  config = empty_desk_config;
}

abbrev pub start : ServiceState
start = record {
  store = desk;
  timers = [];
  scheduled = [];
  next_handle = 1;
  outbox = [];
  running = [];
}

abbrev pub env : Env
env = record {
  dispatcher = record { is_online = λ agents id. true; is_open = λ id. true };
  command_timeout_ms = 5000;
}

abbrev pub stamp : Stamp
stamp = record { now = 10; uuid = "c1" }

abbrev pub to_pc : MonitorRequest
to_pc = record {
  monitor_id = "left";
  source_computer_id = "pc";
  origin = StateOrigin.user;
  preset_id = none;
  command_id = none;
}

abbrev pub stale_command : DeskCommand
stale_command = record {
  id = "c0";
  payload = CommandPayload.set_peripheral_owner (record {
    switch_id = "kvm";
    channel_id = "default";
    port_id = "1";
    peripheral_ids = [];
    owner_computer_id = "mac";
  });
  status = CommandStatus.superseded;
  origin = StateOrigin.user;
  preset_id = none;
  agent_id = none;
  issued_at = 1;
  updated_at = 2;
  deadline_at = 5001;
  attempts = 0;
  error = none;
}

abbrev pub after_stale : ServiceState
after_stale = record start { store = record desk { commands = ("c0", stale_command) ∷ [] } }

abbrev pub run : PeripheralRun
run = record {
  command_id = "c0";
  switch_id = "kvm";
  channel_id = "default";
  port_id = "1";
  current_port_id = none;
  peripheral_ids = [];
}

abbrev pub order_on : String → String → PeripheralOrder
order_on switch channel = record {
  switch_id = switch;
  channel_id = channel;
  port_id = "1";
  peripheral_ids = [];
  owner_computer_id = "mac";
}

abbrev pub work : Preset
work = record {
  id = "preset:work";
  detected_name = "Work";
  custom_name = none;
  description = none;
  icon = none;
  assignments = record {
    monitor_sources = ("left", "pc") ∷ ("gone", "pc") ∷ [];
    peripheral_owners = ("keyboard", "pc") ∷ [];
  };
  sort_order = pos 0;
}

abbrev pub shown : String → ObservedMonitorState
shown computer = record {
  monitor_id = "left";
  active_input_id = some "hdmi-1";
  active_source_computer_id = some computer;
  power_state = PowerState.on;
  brightness = none;
  reachability = Reachability.reachable;
  observed_at = 5;
  reported_by_agent_id = some "agent-mac";
  last_error = none;
}

abbrev pub wanted : DesiredMonitorSource
wanted = record {
  monitor_id = "left";
  source_computer_id = "pc";
  requested_at = 4;
  origin = StateOrigin.user;
  command_id = some "c0";
  preset_id = none;
}
