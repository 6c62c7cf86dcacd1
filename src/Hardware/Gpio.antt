-- ===== src/Hardware/Gpio.antt =====
-- packages/hardware/src/gpio/gpio-peripheral-switch.ts, the class `GpioPeripheralSwitchProvider`.
-- The pin driver is a child process: it is a function from what was done before and a pulse to the
-- message of the error that it throws, if any. What is done to the pins is a list of events.
pub mod Cycling
pub mod Landing
pub mod Repeating
use desk_control.Common.{
  ℕ, zero, suc, ◌+◌, ◌-◌, ◌%◌, String, Bool, true, false, List, [], ◌∷◌, ◌++◌, Option, none, some,
  Dict, lookup, insert, values, contains, truthy, length, ◌==◌, ◌<>◌, string_eq, if◌then◌else◌,
}
use desk_control.Domain.Command.{CommandError}
use desk_control.Domain.Peripheral.{GpioMode}
use desk_control.Domain.State.{Reachability}
use desk_control.Service.Peripherals.{ObservedSwitchState}
use desk_control.Store.{or_else}
use desk_control.Hardware.{SetPortRequest, OperationResult, done, failed}

pub record GpioSwitchConfig : Type 0 where
  pub switch_id : String
  pub channels : List String
  pub mode : GpioMode
  pub pins : Dict String ℕ
  pub port_order : List String
  pub pulse_ms : Option ℕ
  pub settle_ms : Option ℕ

pub data PinEvent : Type 0 where
  slept : (ms : ℕ) → PinEvent
  pulsed : (pin hold_ms : ℕ) → PinEvent

abbrev pub PinDriver : Type 0
PinDriver = List PinEvent → (pin hold_ms : ℕ) → Option String

-- The fields that change: the commands that are complete, and what was done to the pins.
pub record GpioSwitch : Type 0 where
  pub completed_commands : Dict String OperationResult
  pub events : List PinEvent

abbrev pub fail : String → String → Bool → OperationResult
fail code message retryable =
    failed (record { code = code; message = message; retryable = retryable })

-- `indexOf`, with `none` for -1.
unfoldable pub index_of : List String → String → Option ℕ
index_of [] x = none
index_of (y ∷ ys) x =
    if y == x then some 0 else elim (index_of ys x) [ none ↦ none | some i ↦ some (suc i) ]

pub data Presses : Type 0 where
  press : List ℕ → Presses
  refuse : OperationResult → Presses

-- `Array.from({ length }, () => pin)`
unfoldable pub repeated : ℕ → ℕ → List ℕ
repeated zero pin = []
repeated (suc n) pin = pin ∷ repeated n pin

abbrev pub first_pin : List ℕ → Option ℕ
first_pin [] = none
first_pin (pin ∷ _) = some pin

abbrev unknown_port_message : String
unknown_port_message =
    "This switch can only cycle, so it cannot be moved without knowing which port it is on. "
    <> "Give at least one computer an agent that reports USB devices."

-- `(to - from + n) % n`. An index lies below n, so that nothing is cut off at 0 here; where the port
-- is not in the order, `indexOf` gives -1.
unfoldable pub steps_between : ℕ → Option ℕ → ℕ → ℕ
steps_between n none from = (n - 1 - from) % n
steps_between n (some to) from = (to + n - from) % n

unfoldable pub cycle_presses : GpioSwitchConfig → SetPortRequest → ℕ → Presses
unfolding index_of repeated steps_between
cycle_presses config request cycle_pin = elim (truthy request.current_port_id) [
  | none ↦ refuse (fail "DEVICE_UNREACHABLE" unknown_port_message true)
  | some current ↦ elim (index_of config.port_order current) [
    | none ↦ refuse (fail "UNKNOWN_TARGET" ("Unknown current port " <> current) false)
    | some from ↦ press (
        repeated
          (steps_between (length config.port_order) (index_of config.port_order request.port_id)
            from)
          cycle_pin)
  ]
]

unfoldable pub direct_presses : GpioSwitchConfig → SetPortRequest → Presses
direct_presses config request = elim (lookup request.port_id config.pins) [
  | none ↦ refuse (fail "UNKNOWN_TARGET" ("No GPIO pin mapped for " <> request.port_id) false)
  | some pin ↦ press (pin ∷ [])
]

presses_in : GpioMode → GpioSwitchConfig → SetPortRequest → Presses
unfolding direct_presses cycle_presses
presses_in GpioMode.direct config request = direct_presses config request
presses_in GpioMode.cycle config request = elim (first_pin (values config.pins)) [
  | none ↦ refuse (fail "UNKNOWN_TARGET" "No GPIO pin configured" false)
  | some cycle_pin ↦ cycle_presses config request cycle_pin
]

unfoldable pub presses_for : GpioSwitchConfig → SetPortRequest → Presses
unfolding presses_in
presses_for config request = presses_in config.mode config request

-- The loop of `setPort`: the events so far, and the error that ended it. Before each press but the
-- first the switch is given time.
unfoldable pub press_each :
    PinDriver → ℕ → ℕ → Bool → List PinEvent → List ℕ → List PinEvent × Option String
press_each driver hold settle first events [] = (events, none)
press_each driver hold settle first events (pin ∷ pins) =
    let ready = if first then events else events ++ slept settle ∷ [] in
    let rest = press_each driver hold settle false (ready ++ pulsed pin hold ∷ []) pins in
    elim (driver ready pin hold) [ some error ↦ (ready, some error) | none ↦ rest ]

abbrev pub settled :
    GpioSwitch → String → List PinEvent × Option String → GpioSwitch × OperationResult
settled s command_id (events, some error) =
    (record s { events = events }, fail "DEVICE_UNREACHABLE" error true)
settled s command_id (events, none) = (
  record { completed_commands = insert command_id done s.completed_commands; events = events },
  done,
)

carry_presses :
    GpioSwitchConfig
    → PinDriver
    → GpioSwitch
    → SetPortRequest
    → Presses
    → GpioSwitch × OperationResult
unfolding press_each
carry_presses config driver s request (refuse result) = (s, result)
carry_presses config driver s request (press pins) = settled s request.command_id (
    press_each driver (or_else config.pulse_ms 150) (or_else config.settle_ms 350) true s.events
      pins)

abbrev no_port : SetPortRequest → OperationResult
no_port request = fail "UNKNOWN_TARGET" ("Switch has no port " <> request.port_id) false

unfoldable pub set_port :
    GpioSwitchConfig → PinDriver → GpioSwitch → SetPortRequest → GpioSwitch × OperationResult
unfolding carry_presses presses_for
set_port config driver s request = elim (lookup request.command_id s.completed_commands) [
  | some cached ↦ (s, cached)
  | none ↦
      if contains config.port_order request.port_id
      then carry_presses config driver s request (presses_for config request)
      else (s, no_port request)
]

unknown_ports : List String → Dict String (Option String)
unknown_ports [] = []
unknown_ports (channel ∷ channels) = insert channel none (unknown_ports channels)

-- Always unknown: nothing can be read back.
unfoldable pub get_observed_state : GpioSwitchConfig → List ObservedSwitchState
unfolding unknown_ports
get_observed_state config =
    record {
      switch_id = config.switch_id;
      active_ports = unknown_ports config.channels;
      reachability = Reachability.unknown;
      error = none;
    }
    ∷ []
