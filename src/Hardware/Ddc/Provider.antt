-- ===== src/Hardware/Ddc/Provider.antt =====
-- packages/hardware/src/ddc/ddc-provider.ts: `setInput` of the class
-- `DdcMonitorControlProvider`. The bridge is a child process: what it does is a function of a world W,
-- which has the panels, the bridge and the clock. `discoverMonitors` is an argument of the operations.
pub mod Confirming
pub mod Ending
pub mod Power
use desk_control.Common.{
  ℕ, zero, suc, ◌+◌, ◌-◌, max, String, Bool, true, false, List, [], ◌∷◌, Option, none, some, Dict,
  lookup, insert, contains, ltb, leb, ◌==◌, ◌<>◌, string_eq, nat_eq, if◌then◌else◌,
}
use desk_control.Domain.Capability.{MonitorCapability, input_switch, power, monitor_capability_eq}
use desk_control.Domain.Command.{MonitorPowerState}
use desk_control.Domain.State.{PowerState}
use desk_control.Store.{or_else}
use desk_control.Hardware.{SetInputRequest, SetPowerRequest, OperationResult, done, failed}
use desk_control.Hardware.Gpio.{fail}
use desk_control.Hardware.Ddc.{Attempt, ok, thrown}
use desk_control.Hardware.Ddc.Vcp.{hexadecimal}
use desk_control.Hardware.Ddc.Features.{
  VcpTable, vcp_input_source, vcp_power_mode, resolve_power_value, describe_power_value,
}

pub record KnownMonitor : Type 0 where
  pub stable_id : String
  pub device_id : String
  pub input_values : Dict String ℕ
  pub capabilities : List MonitorCapability
  pub vcp : VcpTable
  pub last_brightness : Option ℕ
  pub last_power_state : PowerState

pub record DdcProvider : Type 0 where
  pub verify_interval_ms : ℕ
  pub known : Dict String KnownMonitor
  pub completed_commands : Dict String OperationResult
  pub observe_count : ℕ
  pub refresh_extras_next : Bool

pub record DdcGetVcpResponse : Type 0 where
  pub value : ℕ
  pub maximum : ℕ
  pub vcp_type : ℕ

pub record BridgeRequestError : Type 0 where
  pub code : Option String
  pub message : String

pub data Reading : Type 0 where
  answered : DdcGetVcpResponse → Reading
  unanswered : BridgeRequestError → Reading

-- The requests `setvcp` and `getvcp` of a bridge, with a device, a code and a time limit; the clock; and
-- `sleep`.
pub record DdcBridge (W : Type 0) : Type 0 where
  pub now : W → ℕ
  pub sleep : (ms : ℕ) → W → W
  pub set_vcp : String → (code value timeout_ms : ℕ) → W → Option BridgeRequestError × W
  pub get_vcp : String → (code timeout_ms : ℕ) → W → Reading × W

abbrev pub min : ℕ → ℕ → ℕ
min a b = if leb a b then a else b

-- `Math.max(2000, Math.min(timeoutMs, 10_000))`
abbrev pub time_allowed : ℕ → ℕ
time_allowed timeout_ms = max 2000 (min timeout_ms 10000)

abbrev pub stayed : Option ℕ → OperationResult
stayed none = fail "DEVICE_BUSY" "Monitor never confirmed the input change" true
stayed (some value) =
    fail "DEVICE_BUSY" ("Monitor accepted the write but stayed on input 0x" <> hexadecimal value)
      true

abbrev pub write_refused : BridgeRequestError → OperationResult
write_refused error = fail (or_else error.code "INTERNAL") error.message true

unfoldable pub finish : DdcProvider → String → OperationResult → DdcProvider
finish p command_id done = record p {
  completed_commands = insert command_id done p.completed_commands;
}
finish p command_id (failed error) = p

unfoldable pub target_value : KnownMonitor → SetInputRequest → Option ℕ
target_value monitor request = elim (lookup request.input_id monitor.input_values) [
  | some value ↦ some value
  | none ↦ request.ddc_input_source_value
]

abbrev pub is_empty {ℓ} : {A : Type ℓ} → List A → Bool
is_empty [] = true
is_empty (_ ∷ _) = false

-- What is done next when the discovery has not thrown.
abbrev pub discovered :
    {A W : Type 0}
    → DdcProvider
    → Attempt DdcProvider × W
    → (DdcProvider → W → Attempt A × (DdcProvider × W))
    → Attempt A × (DdcProvider × W)
discovered p (ok found, w) next = next found w
discovered p (thrown message, w) next = (thrown message, (p, w))

-- What follows a read in `verifySwitch`: the end of the loop, or the next round.
unfoldable pub after_read :
    {W : Type 0} → (target : ℕ) → (ℕ → W → OperationResult × W) → Reading × W → OperationResult × W
after_read target next (unanswered _, w) = (done, w)
after_read target next (answered r, w) = elim (r.value == target) [
  | true ↦ (done, w)
  | false ↦ next r.value w
]

module _ {W : Type 0} (bridge : DdcBridge W) where
  -- The loop of `verifySwitch`, for at most so many rounds. Each round sleeps, so that there are no more
  -- than the milliseconds to the deadline.
  unfoldable pub verify_rounds :
      ℕ → String → (target deadline interval : ℕ) → Option ℕ → W → OperationResult × W
  unfolding after_read
  verify_rounds zero device target deadline interval last w = (stayed last, w)
  verify_rounds (suc rounds) device target deadline interval last w =
      let later = bridge.sleep interval w in
      let read =
        bridge.get_vcp device vcp_input_source (max 1000 (min (deadline - bridge.now later) 5000))
          later in
      elim (ltb (bridge.now w) deadline) [
        | false ↦ (stayed last, w)
        | true ↦
            after_read target
              (λ value w. verify_rounds rounds device target deadline interval (some value) w) read
      ]

  unfoldable pub verify_switch :
      DdcProvider → KnownMonitor → (target deadline : ℕ) → W → OperationResult × W
  unfolding verify_rounds
  verify_switch p monitor target deadline w =
      verify_rounds (deadline - bridge.now w) monitor.device_id target deadline p.verify_interval_ms
        none w

  abbrev pub finished :
      DdcProvider → String → OperationResult × W → Attempt OperationResult × (DdcProvider × W)
  finished p command_id (result, w) = (ok result, (finish p command_id result, w))

  unfoldable pub write_input :
      DdcProvider
      → KnownMonitor
      → SetInputRequest
      → ℕ
      → W
      → Attempt OperationResult × (DdcProvider × W)
  write_input p monitor request value w =
      let written =
        bridge.set_vcp monitor.device_id vcp_input_source value (time_allowed request.timeout_ms)
          w in
      elim (written.0) [
        | some error ↦ finished p request.command_id (write_refused error, written.1)
        | none ↦
            finished p request.command_id
              (verify_switch p monitor value (bridge.now w + request.timeout_ms) (written.1))
      ]

  unfoldable pub input_of_known :
      DdcProvider → SetInputRequest → W → Attempt OperationResult × (DdcProvider × W)
  input_of_known p request w = elim (lookup request.stable_id p.known) [
    | none ↦ (ok (fail "UNKNOWN_TARGET" ("No such monitor " <> request.stable_id) false), (p, w))
    | some monitor ↦
        if contains monitor.capabilities input_switch
        then elim (target_value monitor request) [
          | none ↦ (ok (fail "UNKNOWN_TARGET" ("Unknown input " <> request.input_id) false), (p, w))
          | some value ↦ write_input p monitor request value w
        ]
        else (
          ok (
              fail "CAPABILITY_UNSUPPORTED" "Monitor does not advertise VCP 0x60 (input source)"
                false),
          (p, w),
        )
  ]

  module _ (discover : DdcProvider → W → Attempt DdcProvider × W) where
    abbrev pub with_known :
        {A : Type 0}
        → DdcProvider
        → W
        → (DdcProvider → W → Attempt A × (DdcProvider × W))
        → Attempt A × (DdcProvider × W)
    with_known p w next = if is_empty p.known then discovered p (discover p w) next else next p w

    unfoldable pub set_input :
        DdcProvider → SetInputRequest → W → Attempt OperationResult × (DdcProvider × W)
    unfolding input_of_known
    set_input p request w = elim (lookup request.command_id p.completed_commands) [
      | some cached ↦ (ok cached, (p, w))
      | none ↦ with_known p w (λ p w. input_of_known p request w)
    ]
