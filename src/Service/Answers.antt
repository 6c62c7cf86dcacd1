-- ===== src/Service/Answers.antt =====
-- A command that has ended stays as it is, whatever agents and timers still say about it; the
-- answer of a switch is the exception.
use mathlib.Core.Option.{some-injective}
use desk_control.Common.{
  ℕ, String, true, false, List, [], ◌∷◌, none, some, lookup, values, ◌≡◌, ◌≢◌, refl, sym, ◌∙◌, ap,
  arith, Option-cases, Bool-cases, inl, inr, lookup-insert, values-lookup, ◌==◌, string_eq, All,
  Memᴰ, find,
}
use desk_control.Domain.Command.{CommandStatus, CommandError, DeskCommand, is_in_flight}
use desk_control.Store.{DeskStore, touch}
use desk_control.Store.Commands.{update_command}
use desk_control.Store.Commands.Evolution.{Commands, IsKeyed}
use desk_control.Service.{
  Env, ServiceState, Timeout, PeripheralRun, with_store, update, ended, clear_timer, fail_command,
}
use desk_control.Service.Creating.{commands-update}
use desk_control.Service.Peripherals.{
  PortResult, ObservedSwitchState, finish_peripheral, settle, observe_each, switch_owner,
}
use desk_control.Service.Responses.{
  AgentResult, ok, failure, on_agent_ack, on_agent_result, conclude, fail_commands_for_agent,
  fail_each, on_timeout, live_command, fired, carried_by, disconnected_error, reported_error,
}
use desk_control.Service.Retiring.{
  commands_of, commands-clear_timer, live_command-lookup, commands-after_success,
  commands-observe_each,
}

-- What agents and the clock say of commands.
pub data Answer : Type 0 where
  ack : String → Answer
  result : String → AgentResult → Answer
  timeout : Timeout → Answer
  agent_lost : String → Answer

unfoldable pub answer : Env → ServiceState → ℕ → Answer → ServiceState
answer env st now (ack id) = on_agent_ack st now id
answer env st now (result id r) = on_agent_result env st now id r
answer env st now (timeout t) = on_timeout env st now t
answer env st now (agent_lost agent) = fail_commands_for_agent st now agent

-- Every command that has ended in `d` is the same in `d'`.
abbrev pub KeepsEnded : Commands → Commands → Type 0
KeepsEnded d d' =
    (i : String) (c : DeskCommand)
    → lookup i d ≡ some c
    → is_in_flight c.status ≡ false
    → lookup i d' ≡ some c

update-KeepsEnded :
    (st : ServiceState) (now : ℕ) (id : String) (patch : DeskCommand → DeskCommand)
    (x : DeskCommand)
    → lookup id (commands_of st) ≡ some x
    → is_in_flight x.status ≡ true
    → KeepsEnded (commands_of st) (commands_of (update st now id patch))
update-KeepsEnded st now id patch x here flies i c there over =
    let y : DeskCommand = record (patch x) { updated_at = now } in
    ap (lookup i) (commands-update st now id patch x here)
    ∙ ground (arith, lookup-insert i id y (commands_of st))

cleared-lookup :
    (st : ServiceState) (j i : String)
    → lookup i (commands_of (clear_timer st j)) ≡ lookup i (commands_of st)
cleared-lookup st j i = ap (λ (s : DeskStore). lookup i s.commands) (commands-clear_timer st j)

conclude-KeepsEnded :
    (env : Env) (st : ServiceState) (now : ℕ) (x : DeskCommand) (id : String) (r : AgentResult)
    → lookup id (commands_of st) ≡ some x
    → is_in_flight x.status ≡ true
    → KeepsEnded (commands_of st) (commands_of (conclude env st now x id r))
unfolding conclude
conclude-KeepsEnded env st now x id ok here flies i c there over =
    ap (lookup i)
      (commands-after_success env (update st now id (ended CommandStatus.succeeded none)) x.payload)
    ∙ update-KeepsEnded st now id (ended CommandStatus.succeeded none) x here flies i c there over
conclude-KeepsEnded env st now x id (failure e) here flies i c there over =
    update-KeepsEnded st now id (ended CommandStatus.failed (some (reported_error e))) x here flies
      i c there over

fail_command-KeepsEnded :
    (st : ServiceState) (now : ℕ) (id : String) (e : CommandError) (x : DeskCommand)
    → lookup id (commands_of st) ≡ some x
    → is_in_flight x.status ≡ true
    → KeepsEnded (commands_of st) (commands_of (fail_command st now id e))
unfolding fail_command
fail_command-KeepsEnded st now id e x here flies i c there over =
    update-KeepsEnded (clear_timer st id) now id _ x (cleared-lookup st id id ∙ here) flies i c
      (cleared-lookup st id i ∙ there) over

-- An update of one command leaves the others alone.
pub update-other :
    (st : ServiceState) (now : ℕ) (id i : String) (patch : DeskCommand → DeskCommand)
    → id ≢ i
    → lookup i (commands_of (update st now id patch)) ≡ lookup i (commands_of st)
unfolding update update_command touch
update-other st now id i patch differ = elim (Option-cases (lookup id (commands_of st))) [
  | inl e ↦ rw (e, update_command)
  | inr (x, e) ↦
      let y : DeskCommand = record (patch x) { updated_at = now } in
      rw (e, update_command) (ground (arith, lookup-insert i id y (commands_of st)))
]

pub fail_command-other :
    (st : ServiceState) (now : ℕ) (id i : String) (e : CommandError)
    → id ≢ i
    → lookup i (commands_of (fail_command st now id e)) ≡ lookup i (commands_of st)
unfolding fail_command
fail_command-other st now id i e differ =
    update-other (clear_timer st id) now id i _ differ ∙ cleared-lookup st id i

fail_each-other :
    (now : ℕ) (agent i : String) (cs : List DeskCommand) (st : ServiceState)
    → All (λ c. is_in_flight c.status ≡ true → c.id ≢ i) cs
    → lookup i (commands_of (fail_each st now agent cs)) ≡ lookup i (commands_of st)
unfolding fail_each
fail_each-other now agent i [] st h = refl
fail_each-other now agent i (c ∷ cs) st (differ, later) = elim (Bool-cases (carried_by agent c)) [
  | inl e ↦ rw e (
      fail_each-other now agent i cs (fail_command st now c.id disconnected_error) later
      ∙ fail_command-other st now c.id i disconnected_error (differ (ground arith)))
  | inr e ↦ rw e (fail_each-other now agent i cs st later)
]

All-of_mem {ℓ κ} :
    {A : Type ℓ} (P : A → Type κ) (xs : List A) → ((x : A) → Memᴰ x xs → P x) → All P xs
All-of_mem P [] f = tt
All-of_mem P (x ∷ xs) f = (f x (Memᴰ.head refl), All-of_mem P xs (λ y m. f y (Memᴰ.tail m)))

fail_commands_for_agent-KeepsEnded :
    (st : ServiceState) (now : ℕ) (agent : String)
    → IsKeyed (commands_of st)
    → KeepsEnded (commands_of st) (commands_of (fail_commands_for_agent st now agent))
unfolding fail_commands_for_agent
fail_commands_for_agent-KeepsEnded st now agent k i c there over =
    fail_each-other now agent i (values (commands_of st)) st
      (All-of_mem _ (values (commands_of st)) differ)
    ∙ there
  where
    differ :
        (x : DeskCommand)
        → Memᴰ x (values (commands_of st))
        → is_in_flight x.status ≡ true
        → x.id ≢ i
    differ x m flies same =
        let (j, at) = values-lookup (commands_of st) k.once m in
        let here : lookup i (commands_of st) ≡ some x =
          ap (λ y. lookup y (commands_of st)) (sym same ∙ k.own_id j x at) ∙ at in
        ground arith

-- Where each command stands under its own id, once, and once a command has ended, no acknowledgement, result, timeout or loss of an agent changes it in
-- any way: what comes late is dropped.
pub answer-KeepsEnded :
    (env : Env) (st : ServiceState) (now : ℕ) (a : Answer)
    → IsKeyed (commands_of st)
    → KeepsEnded (commands_of st) (commands_of (answer env st now a))
unfolding answer on_agent_ack on_agent_result on_timeout
answer-KeepsEnded env st now (ack id) k = elim (Option-cases (live_command st id)) [
  | inl e ↦ rw (e, on_agent_ack) (λ i c there over. there)
  | inr (x, e) ↦
      let (here, flies) = live_command-lookup st id e in
      rw (e, on_agent_ack) (update-KeepsEnded st now id _ x here flies)
]
answer-KeepsEnded env st now (result id r) k = elim (Option-cases (live_command st id)) [
  | inl e ↦ rw (e, on_agent_result) (λ i c there over. there)
  | inr (x, e) ↦
      let (here, flies) = live_command-lookup st id e in
      rw (e, on_agent_result)
        (λ i c there over.
          conclude-KeepsEnded env (clear_timer st id) now x id r (cleared-lookup st id id ∙ here)
            flies i c (cleared-lookup st id i ∙ there) over)
]
answer-KeepsEnded env st now (timeout t) k =
    elim (Option-cases (live_command (fired st t) t.command_id)) [
      | inl e ↦ rw (e, on_timeout) (λ i c there over. there)
      | inr (x, e) ↦
          let (here, flies) = live_command-lookup (fired st t) t.command_id e in
          rw (e, on_timeout) (update-KeepsEnded (fired st t) now t.command_id _ x here flies)
    ]
answer-KeepsEnded env st now (agent_lost agent) k =
    fail_commands_for_agent-KeepsEnded st now agent k

finished :
    (st : ServiceState) (now : ℕ) (run : PeripheralRun) (states : List ObservedSwitchState)
    (c : DeskCommand)
    → lookup run.command_id (commands_of st) ≡ some c
    → lookup run.command_id (commands_of (finish_peripheral st now run PortResult.ok states))
      ≡ some (record c { status = CommandStatus.succeeded; error = none; updated_at = now })
unfolding finish_peripheral settle
finished st now run states c here =
    let id = run.command_id in
    let state = find (λ (w : ObservedSwitchState). w.switch_id == run.switch_id) states in
    let u =
      with_store st
        (observe_each st.store now (switch_owner st.store run state) state run.peripheral_ids) in
    let same =
      commands-observe_each st.store now (switch_owner st.store run state) state
        run.peripheral_ids in
    let y : DeskCommand = record c {
      status = CommandStatus.succeeded;
      error = none;
      updated_at = now;
    } in
    ap (lookup id)
      (commands-update u now id (ended CommandStatus.succeeded none) c (ap (lookup id) same ∙ here))
    ∙ ground (arith, lookup-insert id id y (commands_of u))

-- The answer of a switch has no such guard: its success turns the command that it was sent for into
-- a succeeded one without an error, also where that command had ended otherwise, superseded by a
-- newer one say; so it is not true that commands which have ended stay as they are.
pub finish_peripheral-revives :
    (st : ServiceState) (now : ℕ) (run : PeripheralRun) (states : List ObservedSwitchState)
    (c : DeskCommand)
    → lookup run.command_id (commands_of st) ≡ some c
    → is_in_flight c.status ≡ false
    → c.status ≢ CommandStatus.succeeded
    → (lookup run.command_id (commands_of (finish_peripheral st now run PortResult.ok states))
        ≡ some (record c { status = CommandStatus.succeeded; error = none; updated_at = now }))
      × (¬ (
          KeepsEnded
            (commands_of st)
            (commands_of (finish_peripheral st now run PortResult.ok states))))
finish_peripheral-revives st now run states c here over otherwise = (
  finished st now run states c here,
  λ keeps. otherwise (
      ap (λ (x : DeskCommand). x.status)
        (some-injective _ _
          (sym (keeps run.command_id c here over) ∙ finished st now run states c here))),
)
