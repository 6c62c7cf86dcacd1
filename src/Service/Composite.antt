-- ===== src/Service/Composite.antt =====
-- Requests that make other requests: presets and the power of all monitors.
use desk_control.Common.{
  ℕ, ◌++◌, ap, subst, String, [], Option, none, some, values, ◌≡◌, refl, sym, map, Option-cases,
  inl, inr, find, ◌==◌, string_eq,
}
use desk_control.Domain.Command.{MonitorPowerState}
use desk_control.Domain.Monitor.{Monitor}
use desk_control.Domain.Preset.{Preset, PresetIntent, plan_preset}
use desk_control.Store.{touch}
use desk_control.Service.{Env, Stamp, ServiceState, with_store}
use desk_control.Service.Monitors.{Batch, set_all_monitors_power}
use desk_control.Service.Presets.{preset_context, apply_preset, skipped_of, activate}
use desk_control.Service.Steps.{Reach, next, store_changed}
use desk_control.Service.Clicks.{
  power, request_of, all_refused, all_issued, each_once, clicks, clicks-Reach,
  request_each-IsClicked, power_each-IsClicked,
}

module _ (env : Env) where
  -- What is left of a preset's application: nothing where the preset is unknown.
  abbrev pub Applied : ServiceState → (ℕ → Stamp) → String → ServiceState × Option Batch → Type 0
  Applied st stamps id (t, none) =
      (find (λ (p : Preset). p.id == id) st.store.config.presets ≡ none) × (t ≡ st)
  Applied st stamps id (t, some b) =
      (p : Preset) × (find (λ (p : Preset). p.id == id) st.store.config.presets ≡ some p)
      × (let plan = plan_preset p (preset_context st.store) in
          let after = clicks env st stamps 0 (map (request_of id) plan.intents) in
          (t
            ≡ with_store after.0 (
                touch (record (after.0.store) {
                  desired = record (after.0.store.desired) { active_preset_id = some id };
                })))
          × (b.command_ids ≡ each_once [] (all_issued after.1))
          × (b.skipped
              ≡ map skipped_of plan.skipped
                ++ all_refused (map (λ (i : PresetIntent). i.target_id) plan.intents) after.1))
      × Reach env st t

  -- A preset that is unknown is refused without effect. Applying a known one does what a person would
  -- do who makes the request of every intent of its plan, in the order of the plan, and then the preset
  -- is the active one: the state is the one after those requests, the answer names the commands that
  -- they got, each once, and what the plan or a request refused; and every step is one that a single
  -- request, or a change of the store which leaves the commands alone, can make.
  pub apply_preset-Applied :
      (st : ServiceState) (stamps : ℕ → Stamp) (id : String)
      → Applied st stamps id (apply_preset env st stamps id)
  unfolding apply_preset touch
  apply_preset-Applied st stamps id =
      elim (Option-cases (find (λ (p : Preset). p.id == id) st.store.config.presets)) [
        | inl e ↦ rw (e, apply_preset) (e, refl)
        | inr (p, e) ↦
            let plan = plan_preset p (preset_context st.store) in
            let clicked =
              request_each-IsClicked env st stamps 0 id plan.intents
                (record { command_ids = []; skipped = map skipped_of plan.skipped }) in
            let rs = map (request_of id) plan.intents in
            rw (e, apply_preset)
              (
                p,
                e,
                (ap (activate id) clicked.state, clicked.commands, clicked.told),
                next (subst (Reach env st) (sym clicked.state) (clicks-Reach env st stamps 0 rs))
                    (store_changed _ refl),
              )
      ]

  -- Powering all monitors does what a person would do who makes the power request for every known
  -- monitor, in their order, and for no other: the state is the one after those requests, and the
  -- answer names the commands that they got and, with the reason, the monitors whose request was
  -- refused.
  pub set_all_monitors_power-IsClicked :
      (st : ServiceState) (stamps : ℕ → Stamp) (state : MonitorPowerState)
      → let ms = values st.store.monitors in
        let after = clicks env st stamps 0 (map (λ (m : Monitor). power m.id state) ms) in
        let t = set_all_monitors_power env st stamps state in
        (t.0 ≡ after.0)
        × (t.1.command_ids ≡ all_issued after.1)
        × (t.1.skipped ≡ all_refused (map (λ (m : Monitor). m.id) ms) after.1)
  unfolding set_all_monitors_power
  set_all_monitors_power-IsClicked st stamps state =
      let clicked =
        power_each-IsClicked env st stamps 0 state (values st.store.monitors)
          (record { command_ids = []; skipped = [] }) in
      (clicked.state, clicked.commands, clicked.told)
