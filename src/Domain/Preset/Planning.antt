-- ===== src/Domain/Preset/Planning.antt =====
-- What `planPreset` makes of the assignments of a preset.
use desk_control.Common.{
  find-none, Eq, ◌≢◌, true, String, false, List, [], ◌∷◌, map, none, some, ◌≡◌, ◌⊎◌, inl, inr, refl,
  arith, All, Memᴰ, find, find_sound, All-append, Option-cases, Bool-cases, ◌==◌, string_eq,
  option_eq,
}
use desk_control.Domain.Monitor.{Monitor, MonitorInput, find_input_for_computer}
use desk_control.Domain.Peripheral.{Peripheral}
use desk_control.Domain.Preset.{
  skips_of, Preset, PlanContext, PresetSkip, PresetSkipReason, monitor_unknown, peripheral_unknown,
  computer_not_wired, already_desired, PresetIntent, Planned, intend, skip, monitor, peripheral,
  is_desired, intents_of, plan_monitor, plan_peripheral, plan_preset,
}

All-differ {ℓ κ} :
    {A : Type ℓ} {K : Type κ} ⦃e : Eq K⦄
    → (key : A → K) (k : K) (xs : List A) → All (λ x. (key x == k) ≡ false) xs
    → All (λ x. key x ≢ k) xs
All-differ key k [] h = tt
All-differ key k (x ∷ xs) h = (λ same. ground arith, All-differ key k xs h.1)

module _ (p : Preset) (context : PlanContext) where
  -- A monitor intent switches a known monitor to an input that is wired to the assigned computer,
  -- and repeats nothing that is already asked for; likewise a peripheral intent.
  abbrev pub IsJustified : PresetIntent → Type 0
  IsJustified i =
      ((i.target ≡ monitor)
        × Memᴰ (i.target_id, i.computer_id) p.assignments.monitor_sources
        × (is_desired context.current_desired_monitor_source i.target_id i.computer_id ≡ false)
        × ((m : Monitor) × (input : MonitorInput) × Memᴰ m context.monitors
            × (m.id ≡ i.target_id)
            × Memᴰ input m.inputs
            × (input.connected_computer_id ≡ some i.computer_id)
            × (i.input_id ≡ some input.id)))
      ⊎ ((i.target ≡ peripheral)
          × Memᴰ (i.target_id, i.computer_id) p.assignments.peripheral_owners
          × (is_desired context.current_desired_peripheral_owner i.target_id i.computer_id ≡ false)
          × ((q : Peripheral) × Memᴰ q context.peripherals × (q.id ≡ i.target_id))
          × (i.input_id ≡ none))

  -- What the reason of a skip says is so: of a monitor, then of a peripheral.
  abbrev IsMonitorExcused : PresetSkipReason → String → String → Type 0
  IsMonitorExcused monitor_unknown id computer = All (λ (m : Monitor). m.id ≢ id) context.monitors
  IsMonitorExcused computer_not_wired id computer =
      (m : Monitor) × Memᴰ m context.monitors
      × (m.id ≡ id)
      × All (λ (i : MonitorInput). i.connected_computer_id ≢ some computer) m.inputs
  IsMonitorExcused already_desired id computer =
      is_desired context.current_desired_monitor_source id computer ≡ true
  IsMonitorExcused peripheral_unknown id computer = true ≡ false

  abbrev IsPeripheralExcused : PresetSkipReason → String → String → Type 0
  IsPeripheralExcused peripheral_unknown id computer =
      All (λ (q : Peripheral). q.id ≢ id) context.peripherals
  IsPeripheralExcused already_desired id computer =
      is_desired context.current_desired_peripheral_owner id computer ≡ true
  IsPeripheralExcused _ id computer = true ≡ false

  abbrev pub IsExcused : PresetSkip → Type 0
  IsExcused s =
      ((s.target ≡ monitor)
        × Memᴰ (s.target_id, s.computer_id) p.assignments.monitor_sources
        × IsMonitorExcused s.reason s.target_id s.computer_id)
      ⊎ ((s.target ≡ peripheral)
          × Memᴰ (s.target_id, s.computer_id) p.assignments.peripheral_owners
          × IsPeripheralExcused s.reason s.target_id s.computer_id)

  abbrev Fits : Planned → Type 0
  Fits (intend i) = IsJustified i
  Fits (skip s) = IsExcused s

  plan_monitor-Fits :
      (e : String × String) → Memᴰ e p.assignments.monitor_sources → Fits (plan_monitor context e)
  unfolding plan_monitor find_input_for_computer
  plan_monitor-Fits (id, computer) here =
      elim (Option-cases (find (λ (m : Monitor). m.id == id) context.monitors)) [
        | inl e ↦
            rw (e, plan_monitor)
              (inl (
                refl,
                here,
                All-differ (λ (m : Monitor). m.id) id context.monitors
                    (find-none (λ (m : Monitor). m.id == id) context.monitors e),
              ))
        | inr (m, e) ↦
            elim (Option-cases
              (find (λ (i : MonitorInput). i.connected_computer_id == some computer) m.inputs)) [
                | inl f ↦
                    let (hit, known) =
                      find_sound (λ (m : Monitor). m.id == id) context.monitors e in
                    rw (e, plan_monitor, f)
                      (inl (
                        refl,
                        here,
                        (
                          m,
                          known,
                          ground arith,
                          All-differ (λ (i : MonitorInput). i.connected_computer_id) (some computer)
                              m.inputs (find-none _ m.inputs f),
                        ),
                      ))
                | inr (input, f) ↦
                    elim (Bool-cases
                      (is_desired context.current_desired_monitor_source id computer)) [
                        | inl g ↦ rw (e, plan_monitor, f, g) (inl (refl, here, g))
                        | inr g ↦
                            let (hit, known) =
                              find_sound (λ (m : Monitor). m.id == id) context.monitors e in
                            let (wired, listed) =
                              find_sound
                                (λ (i : MonitorInput). i.connected_computer_id == some computer)
                                m.inputs f in
                            rw (e, plan_monitor, f, g)
                              (inl (
                                refl,
                                here,
                                g,
                                (m, input, known, ground arith, listed, ground arith, refl),
                              ))
                      ]
              ]
      ]

  plan_peripheral-Fits :
      (e : String × String)
      → Memᴰ e p.assignments.peripheral_owners
      → Fits (plan_peripheral context e)
  unfolding plan_peripheral
  plan_peripheral-Fits (id, computer) here =
      elim (Option-cases (find (λ (q : Peripheral). q.id == id) context.peripherals)) [
        | inl e ↦
            rw (e, plan_peripheral)
              (inr (
                refl,
                here,
                All-differ (λ (q : Peripheral). q.id) id context.peripherals
                    (find-none (λ (q : Peripheral). q.id == id) context.peripherals e),
              ))
        | inr (q, e) ↦
            elim (Bool-cases (is_desired context.current_desired_peripheral_owner id computer)) [
              | inl g ↦ rw (e, plan_peripheral, g) (inr (refl, here, g))
              | inr g ↦
                  let (hit, known) =
                    find_sound (λ (q : Peripheral). q.id == id) context.peripherals e in
                  rw (e, plan_peripheral, g) (inr (refl, here, g, (q, known, ground arith), refl))
            ]
      ]

  planned-Fits :
      (f : String × String → Planned) (all xs : List (String × String))
      → ((e : String × String) → Memᴰ e all → Fits (f e))
      → ((e : String × String) → Memᴰ e xs → Memᴰ e all)
      → All Fits (map f xs)
  planned-Fits f all [] fits within = tt
  planned-Fits f all (e ∷ xs) fits within = (
    fits e (within e (Memᴰ.head refl)),
    planned-Fits f all xs fits (λ x m. within x (Memᴰ.tail m)),
  )

  intents-IsJustified : (ps : List Planned) → All Fits ps → All IsJustified (intents_of ps)
  intents-IsJustified [] h = tt
  intents-IsJustified (intend i ∷ ps) h = (h.0, intents-IsJustified ps h.1)
  intents-IsJustified (skip s ∷ ps) h = intents-IsJustified ps h.1

  -- Every intent of a plan comes from an assignment of the preset: a monitor intent switches a
  -- known monitor to an input wired to the assigned computer, a peripheral intent moves a known
  -- peripheral, and neither asks for what is already desired.
  pub plan_preset-IsJustified : All IsJustified (plan_preset p context).intents
  unfolding plan_preset
  plan_preset-IsJustified = intents-IsJustified _ (
      All-append Fits (map (plan_monitor context) p.assignments.monitor_sources) _
        (planned-Fits (plan_monitor context) _ _ plan_monitor-Fits (λ e m. m))
        (planned-Fits (plan_peripheral context) _ _ plan_peripheral-Fits (λ e m. m)))

  skips-IsExcused : (ps : List Planned) → All Fits ps → All IsExcused (skips_of ps)
  skips-IsExcused [] h = tt
  skips-IsExcused (intend i ∷ ps) h = skips-IsExcused ps h.1
  skips-IsExcused (skip s ∷ ps) h = (h.0, skips-IsExcused ps h.1)

  -- Every skip of a plan comes from an assignment of the preset, and the reason that it gives is true:
  -- the monitor, or the peripheral, is not known, or no input of the known monitor is wired to the
  -- assigned computer, or what is assigned is already desired.
  pub plan_preset-IsExcused : All IsExcused (plan_preset p context).skipped
  unfolding plan_preset
  plan_preset-IsExcused = skips-IsExcused _ (
      All-append Fits (map (plan_monitor context) p.assignments.monitor_sources) _
        (planned-Fits (plan_monitor context) _ _ plan_monitor-Fits (λ e m. m))
        (planned-Fits (plan_peripheral context) _ _ plan_peripheral-Fits (λ e m. m)))
