-- ===== src/Gateway/Losing.antt =====
-- What `failCommandsForAgent` and `setAgentOffline` make of the service and of the desk.
use desk_control.Common.{
  ℕ, String, true, false, List, [], ◌∷◌, some, lookup, values, lookup-values, lookup-modify, ◌≡◌,
  ◌≢◌, refl, ◌∙◌, sym, ap, subst, arith, Option-cases, Bool-cases, inl, inr, Memᴰ, ◌==◌, string_eq,
  option_eq, if◌then◌else◌,
}
use desk_control.Domain.Command.{CommandStatus, DeskCommand}
use desk_control.Domain.Device.{ConnectivityState, Agent}
use desk_control.Store.{DeskStore, touch, change_computer, is_agent_online}
use desk_control.Store.Agents.{set_agent_offline}
use desk_control.Store.Commands.{update_command}
use desk_control.Store.Commands.Evolution.{Flies, IsKeyed}
use desk_control.Service.{ServiceState, fail_command, clear_timer, update}
use desk_control.Service.Answers.{fail_command-other}
use desk_control.Service.Responses.{
  fail_each, fail_commands_for_agent, carried_by, disconnected_error,
}
use desk_control.Service.Retiring.{commands_of, commands-clear_timer, failed_over}
use desk_control.Service.Timers.{ended-update}

-- The desk without its commands.
abbrev pub without_commands : DeskStore → DeskStore
without_commands s = record s { revision = 0; commands = [] }

without_commands-fail_command :
    (st : ServiceState) (now : ℕ) (c : DeskCommand)
    → without_commands (fail_command st now c.id disconnected_error).store
      ≡ without_commands st.store
unfolding fail_command update update_command touch
without_commands-fail_command st now c =
    elim (Option-cases (lookup c.id (clear_timer st c.id).store.commands)) [
      | inl e ↦ rw (e, update_command) (ap without_commands (commands-clear_timer st c.id))
      | inr (x, e) ↦ rw (e, update_command) (ap without_commands (commands-clear_timer st c.id))
    ]

without_commands-fail_each :
    (st : ServiceState) (now : ℕ) (agent : String) (cs : List DeskCommand)
    → without_commands (fail_each st now agent cs).store ≡ without_commands st.store
unfolding fail_each
without_commands-fail_each st now agent [] = refl
without_commands-fail_each st now agent (c ∷ cs) = elim (Bool-cases (carried_by agent c)) [
  | inl e ↦
      rw (e, fail_each)
        (without_commands-fail_each (fail_command st now c.id disconnected_error) now agent cs
          ∙ without_commands-fail_command st now c)
  | inr e ↦ rw (e, fail_each) (without_commands-fail_each st now agent cs)
]

pub without_commands-fail_commands_for_agent :
    (st : ServiceState) (now : ℕ) (agent : String)
    → without_commands (fail_commands_for_agent st now agent).store ≡ without_commands st.store
unfolding fail_commands_for_agent
without_commands-fail_commands_for_agent st now agent =
    without_commands-fail_each st now agent (values st.store.commands)

module _ (now : ℕ) (agent : String) where
  -- Each command that the agent carries in `st` is among `cs`.
  abbrev Covers : ServiceState → List DeskCommand → Type 0
  Covers st cs =
      (i : String) (x : DeskCommand)
      → Flies (commands_of st) i x
      → x.agent_id ≡ some agent
      → (x.id ≡ i) × Memᴰ x cs

  failed-not-Flies :
      (st : ServiceState) (id : String) (x : DeskCommand)
      → ¬ (Flies (commands_of (fail_command st now id disconnected_error)) id x)
  unfolding fail_command
  failed-not-Flies st id x =
      ended-update (clear_timer st id) now id CommandStatus.failed _ x failed_over

  Covers-fail_command :
      (st : ServiceState) (c : DeskCommand) (cs : List DeskCommand)
      → Covers st (c ∷ cs)
      → Covers (fail_command st now c.id disconnected_error) cs
  Covers-fail_command st c cs h i x (e, f) mine = elim (Bool-cases (c.id == i)) [
    | inl same ↦ absurd (
        failed-not-Flies st c.id x (
          subst (λ k. lookup k (commands_of (fail_command st now c.id disconnected_error)) ≡ some x)
              (sym (ground arith)) e,
          f,
        ))
    | inr other ↦
        let differ : c.id ≢ i = λ same. ground arith in
        let (own, there) =
          h i x (sym (fail_command-other st now c.id i disconnected_error differ) ∙ e, f) mine in
        elim there [
          | Memᴰ.head same ↦ absurd (differ (ap (λ (y : DeskCommand). y.id) (sym same) ∙ own))
          | Memᴰ.tail m ↦ (own, m)
        ]
  ]

  Covers-skip :
      (st : ServiceState) (c : DeskCommand) (cs : List DeskCommand)
      → carried_by agent c ≡ false
      → Covers st (c ∷ cs)
      → Covers st cs
  Covers-skip st c cs free h i x (e, f) mine =
      let (own, there) = h i x (e, f) mine in
      elim there [
        | Memᴰ.head same ↦
            let carried : carried_by agent x ≡ true = ground arith in
            cc (sym carried ∙ (ap (carried_by agent) same ∙ free))
        | Memᴰ.tail m ↦ (own, m)
      ]

  fail_each-ends :
      (st : ServiceState) (cs : List DeskCommand) (i : String) (x : DeskCommand)
      → Covers st cs
      → Flies (commands_of (fail_each st now agent cs)) i x
      → x.agent_id ≢ some agent
  unfolding fail_each
  fail_each-ends st [] i x h f mine = elim ((h i x f mine).1) [ ]
  fail_each-ends st (c ∷ cs) i x h f mine = elim (Bool-cases (carried_by agent c)) [
    | inl e ↦
        fail_each-ends (fail_command st now c.id disconnected_error) cs i x
          (Covers-fail_command st c cs h)
          (subst
            (λ b.
              Flies
                (commands_of (
                  fail_each (if b then fail_command st now c.id disconnected_error else st) now
                    agent cs))
                i x)
            e f)
          mine
    | inr e ↦
        fail_each-ends st cs i x (Covers-skip st c cs e h)
          (subst
            (λ b.
              Flies
                (commands_of (
                  fail_each (if b then fail_command st now c.id disconnected_error else st) now
                    agent cs))
                i x)
            e f)
          mine
  ]

  pub fail_commands_for_agent-ends :
      (st : ServiceState) (i : String) (x : DeskCommand)
      → IsKeyed (commands_of st)
      → Flies (commands_of (fail_commands_for_agent st now agent)) i x
      → x.agent_id ≢ some agent
  unfolding fail_commands_for_agent
  fail_commands_for_agent-ends st i x k =
      fail_each-ends st (values (commands_of st)) i x
        (λ j y f mine. (k.own_id j y f.0, lookup-values j (commands_of st) f.0))

-- The agent is not online once it was set offline, and any other agent is as it was.
pub online-set_agent_offline :
    (s : DeskStore) (id other detail : String)
    → is_agent_online (set_agent_offline s id ConnectivityState.offline detail) other
      ≡ (if id == other then false else is_agent_online s other)
unfolding set_agent_offline is_agent_online change_computer touch
online-set_agent_offline s id other detail = elim (Option-cases (lookup id s.agents)) [
  | inl e ↦ ground arith
  | inr (a, e) ↦
      let silenced : Agent → Agent = λ x. record x {
        connectivity = record (x.connectivity) {
          state = ConnectivityState.offline;
          detail = some detail;
        };
      } in
      ground (arith, lookup-modify other id silenced s.agents)
]
