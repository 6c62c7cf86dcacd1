-- ===== src/Domain/Reconcile/Meaning.antt =====
-- What each status of `resolveMonitorState` and `aggregateStatus` means.
use desk_control.Common.{
  true, false, Option, none, some, Bool-cases, ◌≡◌, ◌≢◌, ◌⊎◌, inl, inr, ◌↔◌, refl, sym, subst, ◌∙◌,
  arith, Option-cases, string_eq, option_eq,
}
use desk_control.Domain.Command.{CommandStatus, DeskCommand, is_in_flight}
use desk_control.Domain.State.{DesiredMonitorSource, ObservedMonitorState, Reachability}
use desk_control.Domain.Reconcile.{
  SyncStatus, unknown, in_sync, switching, failed, unreachable, drifted, sync_status_eq,
  desired_source, observed_source, reached_target, resolve_monitor_state, in_flight_command,
  command_failure, failure,
}

module _ (desired : Option DesiredMonitorSource) (observed : Option ObservedMonitorState)
    (command : Option DeskCommand) where
  abbrev pub IsInFlight : Type 0
  IsInFlight = (c : DeskCommand) × (command ≡ some c) × (is_in_flight c.status ≡ true)

  abbrev pub EndedBadly : Type 0
  EndedBadly =
      (c : DeskCommand) × (command ≡ some c)
      × ((c.status ≡ CommandStatus.failed) ⊎ (c.status ≡ CommandStatus.timed_out))

  abbrev pub Reads : Reachability → Type 0
  Reads r = (o : ObservedMonitorState) × (observed ≡ some o) × (o.reachability ≡ r)

  -- Nothing was asked for, or what was asked for is on screen.
  abbrev pub IsOnTarget : Type 0
  IsOnTarget = (desired ≡ none) ⊎ (desired_source desired ≡ observed_source observed)

  -- The table of docs/domain-model.md, with the precedence of its rows written out.
  abbrev pub Means : SyncStatus → Type 0
  Means switching = IsInFlight
  Means unknown = ¬ IsInFlight × ((observed ≡ none) ⊎ Reads Reachability.unknown)
  Means unreachable = ¬ IsInFlight × Reads Reachability.unreachable
  Means in_sync = ¬ IsInFlight × Reads Reachability.reachable × IsOnTarget
  Means failed = ¬ IsInFlight × Reads Reachability.reachable × ¬ IsOnTarget × EndedBadly
  Means drifted = ¬ IsInFlight × Reads Reachability.reachable × ¬ IsOnTarget × ¬ EndedBadly

in_flight_command-none :
    (d : Option DesiredMonitorSource) (o : Option ObservedMonitorState) (c : Option DeskCommand)
    → ¬ (IsInFlight d o c)
    → in_flight_command c ≡ none
in_flight_command-none d o none h = refl
in_flight_command-none d o (some c) h = elim (Bool-cases (is_in_flight c.status)) [
  | inl e ↦ absurd (h (c, refl, e))
  | inr e ↦ rw e
]

in_flight_command-some :
    (d : Option DesiredMonitorSource) (o : Option ObservedMonitorState) (c : Option DeskCommand)
    → IsInFlight d o c
    → in_flight_command c ≡ c
in_flight_command-some d o none (c', e, f) = cc
in_flight_command-some d o (some c) (c', e, f) = ground arith

failure-none :
    (c : DeskCommand) (s : CommandStatus)
    → ¬ ((s ≡ CommandStatus.failed) ⊎ (s ≡ CommandStatus.timed_out))
    → failure c s ≡ none
failure-none c CommandStatus.failed h = absurd (h (inl refl))
failure-none c CommandStatus.timed_out h = absurd (h (inr refl))
failure-none c _ h = refl

failure-some :
    (c : DeskCommand) (s : CommandStatus)
    → (s ≡ CommandStatus.failed) ⊎ (s ≡ CommandStatus.timed_out)
    → failure c s ≢ none
failure-some c s (inl e) h = ground arith
failure-some c s (inr e) h = ground arith

reached :
    (d : Option DesiredMonitorSource) (o : Option ObservedMonitorState)
    → reached_target (desired_source d) (observed_source o) ≡ true
    → (d ≡ none) ⊎ (desired_source d ≡ observed_source o)
unfolding reached_target
reached none o e = inl refl
reached (some d) o e = inr (ground arith)

failure-bad :
    (c : DeskCommand) (s : CommandStatus)
    → failure c s ≢ none
    → (s ≡ CommandStatus.failed) ⊎ (s ≡ CommandStatus.timed_out)
failure-bad c CommandStatus.failed h = inl refl
failure-bad c CommandStatus.timed_out h = inr refl
failure-bad c _ h = absurd (h refl)

module _ (d : Option DesiredMonitorSource) (o : Option ObservedMonitorState)
    (c : Option DeskCommand) where
  on_target : IsOnTarget d o c → reached_target (desired_source d) (observed_source o) ≡ true
  unfolding reached_target
  on_target (inl e) = ground arith
  on_target (inr e) = ground arith

  off_target : ¬ (IsOnTarget d o c) → reached_target (desired_source d) (observed_source o) ≡ false
  unfolding reached_target
  off_target h = elim (Bool-cases (reached_target (desired_source d) (observed_source o))) [
    | inl e ↦ absurd (h (reached d o e))
    | inr e ↦ e
  ]

  ended_badly : EndedBadly d o c → command_failure c ≢ none
  ended_badly (c', e, h) f = failure-some c' c'.status h (ground arith)

  of_Means : (s : SyncStatus) → Means d o c s → (resolve_monitor_state d o c).status ≡ s
  unfolding resolve_monitor_state
  of_Means switching h = let (c', e, f) = h in ground (arith, in_flight_command-some d o c h)
  of_Means unknown (idle, inl e) = ground (arith, in_flight_command-none d o c idle)
  of_Means unknown (idle, inr (o', e, r)) = ground (arith, in_flight_command-none d o c idle)
  of_Means unreachable (idle, (o', e, r)) = ground (arith, in_flight_command-none d o c idle)
  of_Means in_sync (idle, (o', e, r), t) =
      ground (arith, in_flight_command-none d o c idle, on_target t)
  of_Means failed (idle, (o', e, r), t, b) =
      ground (arith, in_flight_command-none d o c idle, off_target t, ended_badly b)
  of_Means drifted (idle, (o', e, r), t, b) =
      ground (arith, in_flight_command-none d o c idle, off_target t, ended_well c b)
    where
      ended_well : (k : Option DeskCommand) → ¬ (EndedBadly d o k) → command_failure k ≡ none
      ended_well none h = refl
      ended_well (some k) h = failure-none k k.status (λ e. h (k, refl, e))

  flying :
      {k : DeskCommand} (c' : Option DeskCommand)
      → in_flight_command c' ≡ some k
      → IsInFlight d o c'
  flying none e = cc
  flying (some k) e = (k, refl, ground arith)

  idle_of_none : in_flight_command c ≡ none → ¬ (IsInFlight d o c)
  idle_of_none e h = let (k, p, f) = h in ground (arith, in_flight_command-some d o c h)

  bad : (c' : Option DeskCommand) → command_failure c' ≢ none → EndedBadly d o c'
  bad none h = absurd (h refl)
  bad (some k) h = (k, refl, failure-bad k k.status h)

  settled :
      ¬ (IsInFlight d o c) → Reads d o c Reachability.reachable → (s : SyncStatus) × Means d o c s
  settled idle r = elim (Bool-cases (reached_target (desired_source d) (observed_source o))) [
    | inl e ↦ (in_sync, (idle, r, reached d o e))
    | inr e ↦ elim (Option-cases (command_failure c)) [
      | inl none_failed ↦
          (drifted, (idle, r, (λ t. ground (arith, on_target t)), λ b. ended_badly b none_failed))
      | inr (x, has_failed) ↦
          (failed, (idle, r, (λ t. ground (arith, on_target t)), bad c (λ z. ground arith)))
    ]
  ]

  at_rest :
      ¬ (IsInFlight d o c) → (r : Reachability) → Reads d o c r → (s : SyncStatus) × Means d o c s
  at_rest idle Reachability.reachable h = settled idle h
  at_rest idle Reachability.unreachable h = (unreachable, (idle, h))
  at_rest idle Reachability.unknown h = (unknown, (idle, inr h))

  Means-total : (s : SyncStatus) × Means d o c s
  Means-total = elim (Option-cases (in_flight_command c)) [
    | inr (k, e) ↦ (switching, flying c e)
    | inl e ↦ elim (Option-cases o) [
      | inl f ↦ (unknown, (idle_of_none e, inl f))
      | inr (o', f) ↦ at_rest (idle_of_none e) o'.reachability (o', f, refl)
    ]
  ]

  -- A monitor is shown with a status exactly where that status's meaning holds: the six meanings
  -- are told apart by the command in flight, the reachability, the target and how the last command
  -- ended, and exactly one of them holds.
  pub resolve_monitor_state-Means :
      (s : SyncStatus) → ((resolve_monitor_state d o c).status ≡ s) ↔ Means d o c s
  resolve_monitor_state-Means s =
      let (s', m) = Means-total in
      (λ e. subst (Means d o c) (sym (of_Means s' m) ∙ e) m, of_Means s)
