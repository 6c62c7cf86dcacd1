-- ===== src/Hardware/Ddc/Provider/Power.antt =====
-- packages/hardware/src/ddc/ddc-provider.ts: `setPower` of the class `DdcMonitorControlProvider`, the
-- reading of the power state, and `getCapabilities`.
use desk_control.Common.{
  ℕ, String, true, false, List, [], none, some, lookup, insert, contains, ◌<>◌, string_eq, nat_eq,
  if◌then◌else◌,
}
use desk_control.Domain.Capability.{MonitorCapability, power, monitor_capability_eq}
use desk_control.Domain.Command.{MonitorPowerState}
use desk_control.Domain.State.{PowerState}
use desk_control.Hardware.{SetPowerRequest, OperationResult, done}
use desk_control.Hardware.Gpio.{fail}
use desk_control.Hardware.Ddc.{Attempt, ok}
use desk_control.Hardware.Ddc.Features.{vcp_power_mode, resolve_power_value, describe_power_value}
use desk_control.Hardware.Ddc.Provider.{
  KnownMonitor, DdcProvider, DdcBridge, answered, unanswered, finished, write_refused, time_allowed,
  with_known,
}

abbrev as_reading : MonitorPowerState → PowerState
as_reading MonitorPowerState.on = PowerState.on
as_reading MonitorPowerState.standby = PowerState.standby
as_reading MonitorPowerState.off = PowerState.off

abbrev power_name : MonitorPowerState → String
power_name MonitorPowerState.on = "on"
power_name MonitorPowerState.standby = "standby"
power_name MonitorPowerState.off = "off"

module _ {W : Type 0} (bridge : DdcBridge W) where
  unfoldable pub write_power :
      DdcProvider
      → KnownMonitor
      → SetPowerRequest
      → ℕ
      → W
      → Attempt OperationResult × (DdcProvider × W)
  write_power p monitor request value w =
      let written =
        bridge.set_vcp monitor.device_id vcp_power_mode value (time_allowed request.timeout_ms) w in
      let noted = record monitor { last_power_state = as_reading request.power_state } in
      let set = record p {
        known = insert request.stable_id noted p.known;
        refresh_extras_next = true;
      } in
      elim (written.0) [
        | some error ↦ (ok (write_refused error), (p, written.1))
        | none ↦ finished bridge set request.command_id (done, written.1)
      ]

  unfoldable pub power_of_known :
      DdcProvider → SetPowerRequest → W → Attempt OperationResult × (DdcProvider × W)
  power_of_known p request w = elim (lookup request.stable_id p.known) [
    | none ↦ (ok (fail "UNKNOWN_TARGET" ("No such monitor " <> request.stable_id) false), (p, w))
    | some monitor ↦
        if contains monitor.capabilities power
        then elim (resolve_power_value monitor.vcp request.power_state) [
          | none ↦ (
            ok (
                fail "CAPABILITY_UNSUPPORTED"
                  ("Monitor offers no power state matching \""
                    <> (power_name request.power_state <> "\""))
                  false),
            (p, w),
          )
          | some value ↦ write_power p monitor request value w
        ]
        else (
          ok (
              fail "CAPABILITY_UNSUPPORTED" "Monitor does not advertise VCP 0xD6 (power mode)"
                false),
          (p, w),
        )
  ]

  unfoldable pub read_power_state : KnownMonitor → W → PowerState × W
  read_power_state monitor w =
      let read = bridge.get_vcp monitor.device_id vcp_power_mode 5000 w in
      elim (read.0) [
        | answered r ↦ (describe_power_value r.value, read.1)
        | unanswered _ ↦ (PowerState.unknown, read.1)
      ]

  module _ (discover : DdcProvider → W → Attempt DdcProvider × W) where
    unfoldable pub set_power :
        DdcProvider → SetPowerRequest → W → Attempt OperationResult × (DdcProvider × W)
    unfolding power_of_known
    set_power p request w = elim (lookup request.command_id p.completed_commands) [
      | some cached ↦ (ok cached, (p, w))
      | none ↦ with_known bridge discover p w (λ p w. power_of_known p request w)
    ]

    unfoldable pub get_capabilities :
        DdcProvider → String → W → Attempt (List MonitorCapability) × (DdcProvider × W)
    get_capabilities p stable_id w = with_known bridge discover p w (λ p w. (
      ok (elim (lookup stable_id p.known) [ none ↦ [] | some monitor ↦ monitor.capabilities ]),
      (p, w),
    ))
