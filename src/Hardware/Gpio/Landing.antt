-- ===== src/Hardware/Gpio/Landing.antt =====
-- Where the presses of `setPort` take a switch that only cycles. The position of the switch is what
-- its history of pulses makes of the port that it began on.
use desk_control.Common.{
  ℕ, zero, suc, String, Bool, true, false, List, [], ◌∷◌, ◌++◌, Option, none, some, lookup, values,
  contains, truthy, length, ◌≡◌, refl, ◌∙◌, ap, arith, ◌==◌, string_eq, nat_eq, if◌then◌else◌,
}
use desk_control.Domain.Peripheral.{GpioMode}
use mathlib.Core.Option.{some-ne-none}
use desk_control.Store.{or_else}
use desk_control.Hardware.{SetPortRequest, done}
use desk_control.Hardware.Gpio.{
  GpioSwitchConfig, GpioSwitch, PinDriver, PinEvent, slept, pulsed, settled, set_port, press_each,
  presses_for, presses_in, carry_presses, cycle_presses, repeated, first_pin, index_of,
  steps_between,
}
use desk_control.Hardware.Gpio.Cycling.{
  IsOrder, next_port, press_times, contains-index, press_times-steps_between,
}

-- The port of the switch after these events, if the button is on `pin`.
unfoldable pub port_after : List String → ℕ → List PinEvent → String → String
port_after order pin [] p = p
port_after order pin (slept ms ∷ es) p = port_after order pin es p
port_after order pin (pulsed q hold ∷ es) p =
    port_after order pin es (if q == pin then next_port order p else p)

port_after-append :
    (order : List String) (pin : ℕ) (es fs : List PinEvent) (p : String)
    → port_after order pin (es ++ fs) p ≡ port_after order pin fs (port_after order pin es p)
unfolding port_after
port_after-append order pin [] fs p = refl
port_after-append order pin (slept ms ∷ es) fs p = port_after-append order pin es fs p
port_after-append order pin (pulsed q hold ∷ es) fs p =
    port_after-append order pin es fs (if q == pin then next_port order p else p)

-- The driver throws at no pulse of this pin.
abbrev pub IsWired : PinDriver → ℕ → Type 0
IsWired driver pin = (events : List PinEvent) (hold : ℕ) → driver events pin hold ≡ none

module _ (order : List String) (driver : PinDriver) (pin : ℕ) (wired : IsWired driver pin)
    (home : String) where
  ready_keeps :
      (first : Bool) (settle : ℕ) (events : List PinEvent)
      → port_after order pin (if first then events else events ++ slept settle ∷ []) home
        ≡ port_after order pin events home
  unfolding port_after
  ready_keeps true settle events = refl
  ready_keeps false settle events = port_after-append order pin events (slept settle ∷ []) home

  pulse_moves :
      (events : List PinEvent) (hold : ℕ)
      → port_after order pin (events ++ pulsed pin hold ∷ []) home
        ≡ next_port order (port_after order pin events home)
  unfolding port_after
  pulse_moves events hold =
      port_after-append order pin events (pulsed pin hold ∷ []) home ∙ ground arith

  press_each-repeated :
      (k : ℕ) (hold settle : ℕ) (first : Bool) (events : List PinEvent)
      → ((press_each driver hold settle first events (repeated k pin)).1 ≡ none)
        × (port_after order pin (press_each driver hold settle first events (repeated k pin)).0 home
            ≡ press_times order k (port_after order pin events home))
  unfolding press_each repeated press_times
  press_each-repeated zero hold settle first events = (refl, refl)
  press_each-repeated (suc k) hold settle first events =
      let ready = if first then events else events ++ slept settle ∷ [] in
      let (ended, moved) =
        press_each-repeated k hold settle false (ready ++ pulsed pin hold ∷ []) in
      rw (wired ready hold, press_each)
        (
          ended,
          moved
              ∙ ap (press_times order k)
                  (pulse_moves ready hold ∙ ap (next_port order) (ready_keeps first settle events)),
        )

settled_without_error :
    (s : GpioSwitch) (id : String) (r : List PinEvent × Option String)
    → r.1 ≡ none
    → ((settled s id r).1 ≡ done) × ((settled s id r).0.events ≡ r.0)
settled_without_error s id (events, none) e = (refl, refl)
settled_without_error s id (events, some error) e = absurd (some-ne-none error e)

module _ (config : GpioSwitchConfig) (driver : PinDriver) (s : GpioSwitch)
    (request : SetPortRequest) where
  cycle_lands :
      (current home : String) (pin from to : ℕ)
      → IsWired driver pin
      → IsOrder config.port_order
      → truthy request.current_port_id ≡ some current
      → index_of config.port_order current ≡ some from
      → index_of config.port_order request.port_id ≡ some to
      → port_after config.port_order pin s.events home ≡ current
      → ((carry_presses config driver s request (cycle_presses config request pin)).1 ≡ done)
        × (port_after config.port_order pin
              (carry_presses config driver s request (cycle_presses config request pin)).0.events
              home
            ≡ request.port_id)
  unfolding carry_presses cycle_presses
  cycle_lands current home pin from to wired o believed e f stands =
      let k = steps_between (length config.port_order) (some to) from in
      let (ended, moved) =
        press_each-repeated config.port_order driver pin wired home k (or_else config.pulse_ms 150)
          (or_else config.settle_ms 350) true s.events in
      let lands =
        moved
        ∙ (ap (press_times config.port_order k) stands
            ∙ (press_times-steps_between config.port_order current request.port_id from to o e
                f).1) in
      let (ok, kept) =
        settled_without_error s request.command_id
          (press_each driver (or_else config.pulse_ms 150) (or_else config.settle_ms 350) true
            s.events (repeated k pin))
          ended in
      rw (believed, cycle_presses)
        (rw (e, cycle_presses)
          (rw (f, steps_between)
            (ok, ap (λ es. port_after config.port_order pin es home) kept ∙ lands)))

  -- Where a switch that cycles stands on the port that the request believes it to be on, both ports are
  -- in an order without repeats, the pin of its button never fails and the command is new, `setPort`
  -- succeeds and leaves the switch on the port that was asked for.
  pub set_port-Lands :
      (current home : String) (pin : ℕ)
      → config.mode ≡ GpioMode.cycle
      → first_pin (values config.pins) ≡ some pin
      → IsWired driver pin
      → IsOrder config.port_order
      → truthy request.current_port_id ≡ some current
      → contains config.port_order current ≡ true
      → contains config.port_order request.port_id ≡ true
      → lookup request.command_id s.completed_commands ≡ none
      → port_after config.port_order pin s.events home ≡ current
      → ((set_port config driver s request).1 ≡ done)
        × (port_after config.port_order pin (set_port config driver s request).0.events home
            ≡ request.port_id)
  unfolding set_port presses_for presses_in
  set_port-Lands current home pin cycles button wired o believed a b new stands =
      let (from, e) = contains-index current config.port_order a in
      let (to, f) = contains-index request.port_id config.port_order b in
      rw (new, set_port)
        (rw b (
          rw (cycles, presses_in)
            (rw (button, presses_in)
              (cycle_lands current home pin from to wired o believed e f stands))))
