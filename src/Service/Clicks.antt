-- ===== src/Service/Clicks.antt =====
-- The requests of a person, one after the other, and the loops that make the same requests.
use desk_control.Common.{
  ℕ, ◌+◌, ◌++◌, ap, contains, if◌then◌else◌, String, List, [], ◌∷◌, none, some, ◌≡◌, refl, sym, ◌∙◌,
  truthy, map, string_eq,
}
use mathlib.Core.List.{append-nil, append_assoc}
use desk_control.Domain.Capability.{MonitorCapability}
use desk_control.Domain.Command.{CommandPayload, MonitorPowerState}
use desk_control.Domain.Monitor.{Monitor}
use desk_control.Domain.Preset.{PresetIntent, Target}
use desk_control.Domain.State.{StateOrigin}
use desk_control.Service.{Env, Stamp, ServiceState, IssueResult, accepted, rejected}
use desk_control.Service.Monitors.{
  MonitorRequest, Batch, Skipped, set_monitor_source, note_power, power_each, set_monitor_power,
}
use desk_control.Service.Peripherals.{PeripheralRequest, set_peripheral_owner_request}
use desk_control.Service.Presets.{request_intent, note_intent, request_each}
use desk_control.Service.Steps.{
  Step, Reach, here, next, source_requested, feature_requested, owner_requested,
}

-- A request that a person can make with one click.
pub data Request : Type 0 where
  source : MonitorRequest → Request
  power : (monitor_id : String) → MonitorPowerState → Request
  owner : PeripheralRequest → Request

-- What an intent of a preset asks for, on the preset's behalf.
abbrev pub request_on : String → Target → PresetIntent → Request
request_on preset_id Target.monitor i = source (record {
  monitor_id = i.target_id;
  source_computer_id = i.computer_id;
  origin = StateOrigin.preset;
  preset_id = some preset_id;
  command_id = none;
})
request_on preset_id Target.peripheral i = owner (record {
  peripheral_id = i.target_id;
  owner_computer_id = i.computer_id;
  origin = StateOrigin.preset;
  preset_id = some preset_id;
  command_id = none;
})

abbrev pub request_of : String → PresetIntent → Request
request_of preset_id i = request_on preset_id i.target i

-- The target of a request that was refused, with the code of the refusal.
abbrev refused : String → IssueResult → List Skipped
refused target (accepted id) = []
refused target (rejected code message) = record { target_id = target; reason = code } ∷ []

pub all_refused : List String → List IssueResult → List Skipped
all_refused (t ∷ ts) (r ∷ rs) = refused t r ++ all_refused ts rs
all_refused _ _ = []

-- The command of a request that was accepted.
abbrev issued : IssueResult → List String
issued (accepted id) = id ∷ []
issued (rejected code message) = []

pub all_issued : List IssueResult → List String
all_issued [] = []
all_issued (r ∷ rs) = issued r ++ all_issued rs

-- The commands that were issued, each once: requests that share one get it once.
pub each_once : List String → List String → List String
each_once seen [] = seen
each_once seen (id ∷ ids) = each_once (if contains seen id then seen else seen ++ id ∷ []) ids

module _ (env : Env) where
  abbrev pub click : ServiceState → Stamp → Request → ServiceState × IssueResult
  click st stamp (source args) = set_monitor_source env st stamp args
  click st stamp (power id state) = set_monitor_power env st stamp id state StateOrigin.user none
  click st stamp (owner args) = set_peripheral_owner_request env st stamp args

  -- One click after the other, with what each is answered; the n-th takes the n-th stamp.
  pub clicks : ServiceState → (ℕ → Stamp) → ℕ → List Request → ServiceState × List IssueResult
  clicks st stamps n [] = (st, [])
  clicks st stamps n (r ∷ rs) =
      let (after, answer) = click st (stamps n) r in
      let (end, answers) = clicks after stamps (n + 1) rs in (end, answer ∷ answers)

  Reach-trans : {st t u : ServiceState} → Reach env st t → Reach env t u → Reach env st u
  Reach-trans r here = r
  Reach-trans r (next s step) = next (Reach-trans r s) step

  click-Step : (st : ServiceState) (stamp : Stamp) (r : Request) → Step env st (click st stamp r).0
  unfolding set_monitor_power
  click-Step st stamp (source args) = source_requested stamp args
  click-Step st stamp (power id state) = feature_requested stamp (record {
    monitor_id = id;
    capability = MonitorCapability.power;
    capability_message = "cannot be powered on or off";
    payload = CommandPayload.set_monitor_power id state;
    origin = StateOrigin.user;
    command_id = truthy none;
  })
  click-Step st stamp (owner args) = owner_requested stamp args

  pub clicks-Reach :
      (st : ServiceState) (stamps : ℕ → Stamp) (n : ℕ) (rs : List Request)
      → Reach env st (clicks st stamps n rs).0
  unfolding clicks
  clicks-Reach st stamps n [] = here
  clicks-Reach st stamps n (r ∷ rs) =
      Reach-trans (next here (click-Step st (stamps n) r))
        (clicks-Reach (click st (stamps n) r).0 stamps (n + 1) rs)

  request_intent-click :
      (st : ServiceState) (stamp : Stamp) (preset_id : String) (target : Target) (i : PresetIntent)
      → request_intent env st stamp preset_id target i
        ≡ click st stamp (request_on preset_id target i)
  unfolding request_intent
  request_intent-click st stamp preset_id Target.monitor i = refl
  request_intent-click st stamp preset_id Target.peripheral i = refl

  note_intent-ids :
      (target : String) (r : IssueResult) (b : Batch) (rs : List IssueResult)
      → each_once (note_intent target r b).command_ids (all_issued rs)
        ≡ each_once b.command_ids (all_issued (r ∷ rs))
  unfolding each_once all_issued
  note_intent-ids target (accepted id) b rs = refl
  note_intent-ids target (rejected code message) b rs = refl

  note_intent-skipped :
      (target : String) (r : IssueResult) (b : Batch)
      → (note_intent target r b).skipped ≡ b.skipped ++ refused target r
  note_intent-skipped target (accepted id) b = sym (append-nil b.skipped)
  note_intent-skipped target (rejected code message) b = refl

  note_power-skipped :
      (target : String) (r : IssueResult) (b : Batch)
      → (note_power target r b).skipped ≡ b.skipped ++ refused target r
  note_power-skipped target (accepted id) b = sym (append-nil b.skipped)
  note_power-skipped target (rejected code message) b = refl

  note_power-ids :
      (target : String) (r : IssueResult) (b : Batch)
      → (note_power target r b).command_ids ≡ b.command_ids ++ issued r
  note_power-ids target (accepted id) b = refl
  note_power-ids target (rejected code message) b = sym (append-nil b.command_ids)

  -- What is left of requests: the state after the clicks, and their answers in a batch.
  pub record IsClicked (after : ServiceState × List IssueResult) (targets : List String)
      (skipped : List Skipped) (ids : List String → List String) (t : ServiceState × Batch)
      : Type 0 where
    pub state : t.0 ≡ after.0
    pub told : t.1.skipped ≡ skipped ++ all_refused targets after.1
    pub commands : t.1.command_ids ≡ ids (all_issued after.1)

  pub request_each-IsClicked :
      (st : ServiceState) (stamps : ℕ → Stamp) (n : ℕ) (preset_id : String) (is : List PresetIntent)
      (b : Batch)
      → IsClicked
          (clicks st stamps n (map (request_of preset_id) is))
          (map (λ (i : PresetIntent). i.target_id) is)
          b.skipped
          (each_once b.command_ids)
          (request_each env st stamps n preset_id is b)
  unfolding request_each clicks all_refused all_issued each_once
  request_each-IsClicked st stamps n preset_id [] b = record {
    state = refl;
    told = sym (append-nil b.skipped);
    commands = refl;
  }
  request_each-IsClicked st stamps n preset_id (i ∷ is) b =
      let made = request_intent env st (stamps n) preset_id i.target i in
      let targets = map (λ (i : PresetIntent). i.target_id) is in
      let rs = map (request_of preset_id) is in
      let rest =
        request_each-IsClicked made.0 stamps (n + 1) preset_id is
          (note_intent i.target_id made.1 b) in
      let same = request_intent-click st (stamps n) preset_id i.target i in
      record {
        state =
            rest.state
            ∙ ap (λ (m : ServiceState × IssueResult). (clicks m.0 stamps (n + 1) rs).0) same;
        told =
            rest.told
            ∙ (ap (λ l. l ++ all_refused targets (clicks made.0 stamps (n + 1) rs).1)
                  (note_intent-skipped i.target_id made.1 b)
                ∙ (append_assoc b.skipped (refused i.target_id made.1) _
                    ∙ ap
                        (λ (m : ServiceState × IssueResult).
                          b.skipped
                          ++ (refused i.target_id m.1
                              ++ all_refused targets (clicks m.0 stamps (n + 1) rs).1))
                        same));
        commands =
            rest.commands
            ∙ (note_intent-ids i.target_id made.1 b (clicks made.0 stamps (n + 1) rs).1
                ∙ ap
                    (λ (m : ServiceState × IssueResult).
                      each_once b.command_ids (all_issued (m.1 ∷ (clicks m.0 stamps (n + 1) rs).1)))
                    same);
      }

  pub power_each-IsClicked :
      (st : ServiceState) (stamps : ℕ → Stamp) (n : ℕ) (state : MonitorPowerState)
      (ms : List Monitor) (b : Batch)
      → IsClicked
          (clicks st stamps n (map (λ (m : Monitor). power m.id state) ms))
          (map (λ (m : Monitor). m.id) ms)
          b.skipped
          (λ ids. b.command_ids ++ ids)
          (power_each env st stamps n state ms b)
  unfolding power_each clicks all_refused all_issued
  power_each-IsClicked st stamps n state [] b = record {
    state = refl;
    told = sym (append-nil b.skipped);
    commands = sym (append-nil b.command_ids);
  }
  power_each-IsClicked st stamps n state (m ∷ ms) b =
      let made = click st (stamps n) (power m.id state) in
      let after = clicks made.0 stamps (n + 1) (map (λ (m : Monitor). power m.id state) ms) in
      let targets = map (λ (m : Monitor). m.id) ms in
      let rest = power_each-IsClicked made.0 stamps (n + 1) state ms (note_power m.id made.1 b) in
      record {
        state = rest.state;
        told =
            rest.told
            ∙ (ap (λ l. l ++ all_refused targets after.1) (note_power-skipped m.id made.1 b)
                ∙ append_assoc b.skipped (refused m.id made.1) _);
        commands =
            rest.commands
            ∙ (ap (λ l. l ++ all_issued after.1) (note_power-ids m.id made.1 b)
                ∙ append_assoc b.command_ids (issued made.1) _);
      }
