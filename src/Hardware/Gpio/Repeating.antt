-- ===== src/Hardware/Gpio/Repeating.antt =====
-- A command that succeeded is never carried out again.
use desk_control.Common.{
  ℕ, String, List, [], ◌∷◌, Option, none, some, lookup, lookup-insert, contains, ◌≡◌, refl, ◌∙◌,
  sym, ap, subst, arith, Option-cases, Bool-cases, inl, inr, values, truthy, ◌≢◌, string_eq,
}
use desk_control.Domain.Peripheral.{GpioMode}
use desk_control.Hardware.{SetPortRequest, OperationResult, done}
use desk_control.Hardware.Gpio.{
  GpioSwitchConfig, GpioSwitch, PinDriver, PinEvent, Presses, press, refuse, set_port, presses_for,
  presses_in, carry_presses, settled, direct_presses, cycle_presses, no_port, first_pin, index_of,
}

module _ (config : GpioSwitchConfig) (driver : PinDriver) where
  pub set_ports : GpioSwitch → List SetPortRequest → GpioSwitch
  set_ports s [] = s
  set_ports s (r ∷ rs) = set_ports (set_port config driver s r).0 rs

  abbrev IsDone : String → GpioSwitch → Type 0
  IsDone id s = lookup id s.completed_commands ≡ some done

  settled-keeps :
      (s : GpioSwitch) (id other : String) (r : List PinEvent × Option String)
      → IsDone other s
      → IsDone other (settled s id r).0
  settled-keeps s id other (events, none) h =
      lookup-insert other id done s.completed_commands ∙ ground arith
  settled-keeps s id other (events, some e) h = h

  carried-keeps :
      (s : GpioSwitch) (r : SetPortRequest) (p : Presses) (id : String)
      → IsDone id s
      → IsDone id (carry_presses config driver s r p).0
  unfolding carry_presses
  carried-keeps s r (refuse result) id h = h
  carried-keeps s r (press pins) id h = settled-keeps s r.command_id id _ h

  set_port-keeps :
      (s : GpioSwitch) (r : SetPortRequest) (id : String)
      → IsDone id s
      → IsDone id (set_port config driver s r).0
  unfolding set_port
  set_port-keeps s r id h = elim (Option-cases (lookup r.command_id s.completed_commands)) [
    | inr (cached, e) ↦ rw (e, set_port) h
    | inl e ↦ elim (Bool-cases (contains config.port_order r.port_id)) [
      | inl known ↦ rw (e, set_port) (rw known (carried-keeps s r (presses_for config r) id h))
      | inr unknown ↦ rw (e, set_port) (rw unknown h)
    ]
  ]

  set_ports-keeps :
      (s : GpioSwitch) (rs : List SetPortRequest) (id : String)
      → IsDone id s
      → IsDone id (set_ports s rs)
  unfolding set_ports
  set_ports-keeps s [] id h = h
  set_ports-keeps s (r ∷ rs) id h =
      set_ports-keeps (set_port config driver s r).0 rs id (set_port-keeps s r id h)

  settled-done :
      (s : GpioSwitch) (id : String) (r : List PinEvent × Option String)
      → (settled s id r).1 ≡ done
      → IsDone id (settled s id r).0
  settled-done s id (events, none) h = lookup-insert id id done s.completed_commands ∙ ground arith
  settled-done s id (events, some e) h = cc

  cycle-refuses :
      (r : SetPortRequest) (pin : ℕ) (x : OperationResult)
      → cycle_presses config r pin ≡ refuse x
      → x ≢ done
  unfolding cycle_presses
  cycle-refuses r pin x e is_done = elim (Option-cases (truthy r.current_port_id)) [
    | inl f ↦ ground arith
    | inr (current, f) ↦ elim (Option-cases (index_of config.port_order current)) [
      | inl g ↦ ground arith
      | inr (from, g) ↦ ground arith
    ]
  ]

  -- What is refused is refused with an error.
  presses-refuse :
      (mode : GpioMode) (r : SetPortRequest) (x : OperationResult)
      → presses_in mode config r ≡ refuse x
      → x ≢ done
  unfolding presses_in direct_presses
  presses-refuse GpioMode.direct r x e is_done =
      elim (Option-cases (lookup r.port_id config.pins)) [
        | inl f ↦ ground arith
        | inr (pin, f) ↦ ground arith
      ]
  presses-refuse GpioMode.cycle r x e is_done =
      elim (Option-cases (first_pin (values config.pins))) [
        | inl f ↦ ground arith
        | inr (pin, f) ↦ cycle-refuses r pin x (sym (rw (f, presses_in) refl) ∙ e) is_done
      ]

  carried-done :
      (s : GpioSwitch) (r : SetPortRequest) (p : Presses)
      → presses_for config r ≡ p
      → (carry_presses config driver s r p).1 ≡ done
      → IsDone r.command_id (carry_presses config driver s r p).0
  unfolding carry_presses presses_for
  carried-done s r (refuse x) e ok = absurd (presses-refuse config.mode r x e ok)
  carried-done s r (press pins) e ok = settled-done s r.command_id _ ok

  set_port-done :
      (s : GpioSwitch) (r : SetPortRequest)
      → (set_port config driver s r).1 ≡ done
      → IsDone r.command_id (set_port config driver s r).0
  unfolding set_port
  set_port-done s r ok = elim (Option-cases (lookup r.command_id s.completed_commands)) [
    | inr (cached, e) ↦
        let same : cached ≡ done = sym (rw (e, set_port) refl) ∙ ok in
        rw (e, set_port) (e ∙ ap some same)
    | inl e ↦ elim (Bool-cases (contains config.port_order r.port_id)) [
      | inl known ↦
          rw (e, set_port)
            (rw known (
              carried-done s r (presses_for config r) refl
                (sym (rw (e, set_port) (rw known refl)) ∙ ok)))
      | inr unknown ↦
          let refused : no_port r ≡ done = sym (rw (e, set_port) (rw unknown refl)) ∙ ok in cc
    ]
  ]

  -- Once `setPort` has succeeded for a command, then whatever is asked of the switch in between, the
  -- same command id is answered with success again, and neither the pins nor the record of completed
  -- commands change: the button is not pressed twice for one command.
  pub set_port-Once :
      (s : GpioSwitch) (r again : SetPortRequest) (between : List SetPortRequest)
      → (set_port config driver s r).1 ≡ done
      → again.command_id ≡ r.command_id
      → set_port config driver (set_ports (set_port config driver s r).0 between) again
        ≡ (set_ports (set_port config driver s r).0 between, done)
  unfolding set_port
  set_port-Once s r again between ok same =
      let later = set_ports (set_port config driver s r).0 between in
      let there : IsDone again.command_id later =
        subst (λ id. IsDone id later) (sym same)
          (set_ports-keeps (set_port config driver s r).0 between r.command_id
            (set_port-done s r ok)) in
      rw (there, set_port) refl
