-- ===== src/Hardware/Ddc/Provider/Confirming.antt =====
-- `setInput` reports success only for a switch that was seen, or whose panel fell silent.
use desk_control.Common.{
  string_eq, nat_eq, ℕ, zero, suc, String, true, Option, none, some, lookup, lookup-insert,
  contains, ltb, ◌==◌, ◌≡◌, ◌≢◌, refl, ap, ◌∙◌, ◌⊎◌, inl, inr, arith, Bool-cases, Option-cases,
}
use desk_control.Domain.Capability.{input_switch, monitor_capability_eq}
use desk_control.Hardware.{SetInputRequest, OperationResult, done, failed}
use desk_control.Hardware.Ddc.{Attempt, ok, thrown}
use desk_control.Hardware.Ddc.Features.{vcp_input_source}
use desk_control.Hardware.Ddc.Provider.{
  KnownMonitor, DdcProvider, DdcBridge, DdcGetVcpResponse, BridgeRequestError, Reading, answered,
  unanswered, after_read, verify_rounds, verify_switch, stayed, target_value, finish, finished,
  write_input, input_of_known, discovered, is_empty, time_allowed, set_input,
}

module _ {W : Type 0} (bridge : DdcBridge W) where
  -- What a panel is on, as the bridge reads it.
  unfoldable pub IsShown : (W → String → Option ℕ) → Type 0
  IsShown shows =
      (device : String) (limit : ℕ) (w w2 : W) (r : DdcGetVcpResponse)
      → bridge.get_vcp device vcp_input_source limit w ≡ (answered r, w2)
      → shows w2 device ≡ some r.value

  -- The last thing that happened is a read of the panel's input that was not answered.
  pub record IsSilent (device : String) (w : W) : Type 0 where
    limit : ℕ
    before : W
    error : BridgeRequestError
    refused : bridge.get_vcp device vcp_input_source limit before ≡ (unanswered error, w)

  -- What a success of `setInput` rests on: a monitor that switches inputs, the value that the request
  -- asks for, and a panel that shows it or is silent.
  pub record IsConfirmed (shows : W → String → Option ℕ) (request : SetInputRequest)
      (p : DdcProvider) (w : W) : Type 0 where
    monitor : KnownMonitor
    value : ℕ
    is_known : lookup request.stable_id p.known ≡ some monitor
    is_able : contains monitor.capabilities input_switch ≡ true
    is_target : target_value monitor request ≡ some value
    seen : (shows w monitor.device_id ≡ some value) ⊎ IsSilent monitor.device_id w
    noted : lookup request.command_id p.completed_commands ≡ some done

  module _ (shows : W → String → Option ℕ) (is_shown : IsShown shows) where
    Seen : String → ℕ → OperationResult × W → Type 0
    Seen device target r = r.0 ≡ done → (shows r.1 device ≡ some target) ⊎ IsSilent device (r.1)

    stayed_not_done : (last : Option ℕ) → stayed last ≢ done
    stayed_not_done none e = cc
    stayed_not_done (some v) e = cc

    after_read-Seen :
        (device : String) (target limit : ℕ) (before : W)
        → (next : ℕ → W → OperationResult × W)
        → ((value : ℕ) (w : W) → Seen device target (next value w))
        → (read : Reading × W) → bridge.get_vcp device vcp_input_source limit before ≡ read
        → Seen device target (after_read target next read)
    unfolding after_read Seen IsShown
    after_read-Seen device target limit before next later (unanswered error, w) e =
        λ is_done. inr (record { limit = limit; before = before; error = error; refused = e })
    after_read-Seen device target limit before next later (answered r, w) e =
        elim (Bool-cases (r.value == target)) [
          | inl hit ↦
              rw (hit, after_read)
                (λ is_done. inl (is_shown device limit before w r e ∙ ap some (ground arith)))
          | inr missed ↦ rw (missed, after_read) (later r.value w)
        ]

    verify_rounds-Seen :
        (rounds : ℕ) (device : String) (target deadline interval : ℕ) (last : Option ℕ) (w : W)
        → Seen device target (verify_rounds bridge rounds device target deadline interval last w)
    unfolding verify_rounds Seen
    verify_rounds-Seen zero device target deadline interval last w =
        λ e. absurd (stayed_not_done last e)
    verify_rounds-Seen (suc rounds) device target deadline interval last w =
        elim (Bool-cases (ltb (bridge.now w) deadline)) [
          | inr over ↦ rw (over, verify_rounds) (λ e. absurd (stayed_not_done last e))
          | inl early ↦
              rw (early, verify_rounds)
                (after_read-Seen device target _ _ _
                  (λ value. verify_rounds-Seen rounds device target deadline interval (some value))
                  _ refl)
        ]

    -- `finish` notes a success, so that the command is answered with it again.
    finish-noted :
        (p : DdcProvider) (command_id : String)
        → lookup command_id (finish p command_id done).completed_commands ≡ some done
    unfolding finish
    finish-noted p command_id =
        lookup-insert command_id command_id done p.completed_commands ∙ ground arith

    finish-known :
        (p : DdcProvider) (command_id : String) (r : OperationResult)
        → (finish p command_id r).known ≡ p.known
    unfolding finish
    finish-known p command_id done = refl
    finish-known p command_id (failed e) = refl

    Confirms : SetInputRequest → Attempt OperationResult × (DdcProvider × W) → Type 0
    Confirms request r = r.0 ≡ ok done → IsConfirmed shows request (r.1.0) (r.1.1)

    finished-Confirms :
        (p : DdcProvider) (request : SetInputRequest) (monitor : KnownMonitor) (value : ℕ)
        → lookup request.stable_id p.known ≡ some monitor
        → contains monitor.capabilities input_switch ≡ true
        → target_value monitor request ≡ some value
        → (r : OperationResult × W) → Seen monitor.device_id value r
        → Confirms request (finished bridge p request.command_id r)
    unfolding Seen Confirms
    finished-Confirms p request monitor value k a t (done, w) seen e = record {
      monitor = monitor;
      value = value;
      is_known = rw (finish-known p request.command_id done) k;
      is_able = a;
      is_target = t;
      seen = seen refl;
      noted = finish-noted p request.command_id;
    }
    finished-Confirms p request monitor value k a t (failed x, w) seen e = cc

    write_input-Confirms :
        (p : DdcProvider) (request : SetInputRequest) (monitor : KnownMonitor) (value : ℕ) (w : W)
        → lookup request.stable_id p.known ≡ some monitor
        → contains monitor.capabilities input_switch ≡ true
        → target_value monitor request ≡ some value
        → Confirms request (write_input bridge p monitor request value w)
    unfolding write_input verify_switch Confirms Seen
    write_input-Confirms p request monitor value w k a t =
        let written =
          bridge.set_vcp monitor.device_id vcp_input_source value (time_allowed request.timeout_ms)
            w in
        elim (Option-cases (written.0)) [
          | inr (error, e) ↦ rw (e, write_input) (λ is_done. cc)
          | inl e ↦
              rw (e, write_input)
                (finished-Confirms p request monitor value k a t _
                  (verify_rounds-Seen _ monitor.device_id value _ _ none (written.1)))
        ]

    input_of_known-Confirms :
        (p : DdcProvider) (request : SetInputRequest) (w : W)
        → Confirms request (input_of_known bridge p request w)
    unfolding input_of_known Confirms
    input_of_known-Confirms p request w = elim (Option-cases (lookup request.stable_id p.known)) [
      | inl e ↦ rw (e, input_of_known) (λ is_done. cc)
      | inr (monitor, e) ↦ elim (Bool-cases (contains monitor.capabilities input_switch)) [
        | inr unable ↦ rw (e, input_of_known) (rw unable (λ is_done. cc))
        | inl able ↦ elim (Option-cases (target_value monitor request)) [
          | inl f ↦ rw (e, input_of_known) (rw (able, f) (λ is_done. cc))
          | inr (value, f) ↦
              rw (e, input_of_known)
                (rw (able, f) (write_input-Confirms p request monitor value w e able f))
        ]
      ]
    ]

    discovered-Confirms :
        (p : DdcProvider) (request : SetInputRequest) (found : Attempt DdcProvider × W)
        → Confirms request (discovered p found (λ q v. input_of_known bridge q request v))
    unfolding Confirms
    discovered-Confirms p request (ok q, v) = input_of_known-Confirms q request v
    discovered-Confirms p request (thrown message, v) = λ e. cc

    set_input-Confirms :
        (discover : DdcProvider → W → Attempt DdcProvider × W) (p : DdcProvider)
        → (request : SetInputRequest) (w : W)
        → lookup request.command_id p.completed_commands ≡ none
        → Confirms request (set_input bridge discover p request w)
    unfolding Confirms set_input
    set_input-Confirms discover p request w is_new = elim (Bool-cases (is_empty p.known)) [
      | inl e ↦ rw (is_new, set_input) (rw e (discovered-Confirms p request (discover p w)))
      | inr e ↦ rw (is_new, set_input) (rw e (input_of_known-Confirms p request w))
    ]

    noted_again :
        (discover : DdcProvider → W → Attempt DdcProvider × W) (p : DdcProvider)
        → (again : SetInputRequest) (command_id : String) (w : W) → again.command_id ≡ command_id
        → lookup command_id p.completed_commands ≡ some done
        → set_input bridge discover p again w ≡ (ok done, (p, w))
    unfolding set_input
    noted_again discover p again command_id w same e =
        let there : lookup again.command_id p.completed_commands ≡ some done =
          ap (λ id. lookup id p.completed_commands) same ∙ e in
        rw (there, set_input) refl

    -- When `setInput` reports success for a command that it has not completed before, then it knows the
    -- monitor, the monitor switches inputs, and the request asks for a value by the input's id or
    -- directly; and at the end the panel shows that value, or the last read of its input was not
    -- answered. The command is noted as completed: whatever else happens in the world, the same
    -- command id is answered with success again, without a request to the bridge. It is assumed that
    -- an answered read gives what the panel shows.
    pub set_input-IsConfirmed :
        (discover : DdcProvider → W → Attempt DdcProvider × W) (p : DdcProvider)
        → (request : SetInputRequest) (w : W)
        → lookup request.command_id p.completed_commands ≡ none
        → (set_input bridge discover p request w).0 ≡ ok done
        → let after = (set_input bridge discover p request w).1 in
          IsConfirmed shows request (after.0) (after.1)
          × ((again : SetInputRequest) (w2 : W)
              → again.command_id ≡ request.command_id
              → set_input bridge discover (after.0) again w2 ≡ (ok done, (after.0, w2)))
    unfolding set_input Confirms
    set_input-IsConfirmed discover p request w is_new is_done =
        let confirmed = set_input-Confirms discover p request w is_new is_done in
        (
          confirmed,
          λ again w2 same. noted_again discover _ again request.command_id w2 same confirmed.noted,
        )
