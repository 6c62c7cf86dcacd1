-- ===== src/Hardware/Ddc/Features.antt =====
-- packages/hardware/src/ddc/capabilities.ts: what the VCP table of a panel means. A table has, for each
-- code, the values that the panel permits.
use desk_control.Common.{
  ℕ, String, Bool, true, false, List, [], ◌∷◌, ◌++◌, Option, none, some, Dict, lookup, contains,
  find, ltb, ◌==◌, ◌<>◌, nat_eq, if◌then◌else◌, sort_by, ◌||◌,
}
use desk_control.Domain.Capability.{
  MonitorCapability, input_switch, brightness, contrast, power, volume, osd_lock, read_active_input,
  name_before,
}
use desk_control.Domain.Command.{MonitorPowerState}
use desk_control.Domain.State.{PowerState}
use desk_control.Hardware.Ddc.Vcp.{hexadecimal}
use desk_control.Store.{or_else}

abbrev pub VcpTable : Type 0
VcpTable = Dict ℕ (List ℕ)

abbrev pub vcp_input_source : ℕ
vcp_input_source = 0x60

abbrev pub vcp_brightness : ℕ
vcp_brightness = 0x10

abbrev pub vcp_power_mode : ℕ
vcp_power_mode = 0xd6

abbrev vcp_contrast : ℕ
vcp_contrast = 0x12

abbrev vcp_audio_volume : ℕ
vcp_audio_volume = 0x62

abbrev vcp_osd_button_control : ℕ
vcp_osd_button_control = 0xca

unfoldable pub power_preferences : MonitorPowerState → List ℕ
power_preferences MonitorPowerState.on = 0x01 ∷ []
power_preferences MonitorPowerState.standby = 0x02 ∷ 0x03 ∷ 0x04 ∷ []
power_preferences MonitorPowerState.off = 0x05 ∷ 0x04 ∷ []

-- `vcp.has(code)`
unfoldable pub has_code : VcpTable → ℕ → Bool
has_code vcp code = elim (lookup code vcp) [ none ↦ false | some _ ↦ true ]

-- A panel that lists no values but supports the code.
unfoldable pub unlisted_power_value : VcpTable → List ℕ → MonitorPowerState → Option ℕ
unlisted_power_value vcp [] MonitorPowerState.on =
    if has_code vcp vcp_power_mode then some 0x01 else none
unlisted_power_value vcp _ _ = none

unfoldable pub resolve_power_value : VcpTable → MonitorPowerState → Option ℕ
unfolding power_preferences
resolve_power_value vcp state =
    let supported = or_else (lookup vcp_power_mode vcp) [] in
    elim (find (λ candidate. contains supported candidate) (power_preferences state)) [
      | some candidate ↦ some candidate
      | none ↦ unlisted_power_value vcp supported state
    ]

unfoldable pub describe_power_value : ℕ → PowerState
describe_power_value value =
    if value == 0x01
    then PowerState.on
    else if value == 0x02 || value == 0x03
    then PowerState.standby
    else if value == 0x04 || value == 0x05
    then PowerState.off
    else PowerState.unknown

abbrev when : Bool → List MonitorCapability → List MonitorCapability
when b xs = if b then xs else []

unfoldable pub capabilities_from_vcp : VcpTable → List MonitorCapability
unfolding has_code
capabilities_from_vcp vcp = sort_by name_before (
    when (has_code vcp vcp_input_source) (input_switch ∷ read_active_input ∷ [])
    ++ when (has_code vcp vcp_brightness) (brightness ∷ [])
    ++ when (has_code vcp vcp_contrast) (contrast ∷ [])
    ++ when (has_code vcp vcp_audio_volume) (volume ∷ [])
    ++ when (has_code vcp vcp_power_mode) (power ∷ [])
    ++ when (has_code vcp vcp_osd_button_control) (osd_lock ∷ []))

-- `toString(16).padStart(2, '0')`
padded : ℕ → String
padded value = if ltb value 16 then "0" <> hexadecimal value else hexadecimal value

unfoldable pub input_id_for_value : ℕ → String
unfolding padded
input_id_for_value value = "input-0x" <> padded value

unfoldable pub input_source_values : VcpTable → List ℕ
input_source_values vcp = or_else (lookup vcp_input_source vcp) []
