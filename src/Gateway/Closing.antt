-- ===== src/Gateway/Closing.antt =====
-- A closed socket of an agent: the agent is lost, and the desk is not.
use desk_control.Common.{
  ℕ, String, true, false, [], none, some, lookup, lookup-erase, contains, ◌≡◌, ◌≢◌, refl, ◌∙◌, sym,
  ap, subst, arith, Option-cases, inl, inr, ◌==◌, string_eq, nat_eq, option_eq, if◌then◌else◌,
}
use desk_control.Domain.Command.{DeskCommand}
use desk_control.Domain.Device.{ConnectivityState}
use desk_control.Store.{DeskStore, is_agent_online, change_computer, touch}
use desk_control.Store.Agents.{set_agent_offline}
use desk_control.Store.Commands.Evolution.{Flies, IsKeyed}
use desk_control.Service.{with_store}
use desk_control.Service.Retiring.{commands_of}
use desk_control.Gateway.{
  Gateway, store_of, on_close, handle_close, close_known, lose_agent, close_socket, agent_of,
  drop_connection, change_connection,
}
use desk_control.Gateway.Connections.{agent_of-close_socket}
use desk_control.Gateway.Desk.{commands-set_agent_offline}
use desk_control.Gateway.Losing.{
  without_commands, without_commands-fail_commands_for_agent, fail_commands_for_agent-ends,
  online-set_agent_offline,
}

-- The desk without its commands, agents and computers.
abbrev pub furniture : DeskStore → DeskStore
furniture s = record (without_commands s) { agents = []; computers = [] }

-- What is left of the agent `a` of a gateway `gw` in `u`.
pub record IsLost (gw u : Gateway) (a : String) : Type 0 where
  pub gone : lookup a u.by_agent_id ≡ none
  pub offline : is_agent_online (store_of u) a ≡ false
  pub ended :
      (i : String) (x : DeskCommand) → Flies (commands_of u.service) i x → x.agent_id ≢ some a
  pub desk : furniture (store_of u) ≡ furniture (store_of gw)
  pub others :
      (b : String)
      → a ≢ b
      → (lookup b u.by_agent_id ≡ lookup b gw.by_agent_id)
        × (is_agent_online (store_of u) b ≡ is_agent_online (store_of gw) b)

furniture-set_agent_offline :
    (s : DeskStore) (a : String) (state : ConnectivityState) (detail : String)
    → furniture (set_agent_offline s a state detail) ≡ furniture s
unfolding set_agent_offline change_computer touch
furniture-set_agent_offline s a state detail = elim (Option-cases (lookup a s.agents)) [
  | inl e ↦ rw (e, set_agent_offline) refl
  | inr (x, e) ↦ rw (e, set_agent_offline) refl
]

module _ (gw : Gateway) (now c : ℕ) (a reason : String) where
  abbrev lost : Gateway
  lost = lose_agent gw now c a reason

  online-lost :
      (b : String)
      → is_agent_online (store_of lost) b
        ≡ (if a == b then false else is_agent_online (store_of gw) b)
  unfolding lose_agent is_agent_online
  online-lost b =
      ap (λ s. is_agent_online s b)
        (without_commands-fail_commands_for_agent
          (with_store gw.service
            (set_agent_offline (store_of gw) a ConnectivityState.offline reason))
          now a)
      ∙ online-set_agent_offline (store_of gw) a b reason

  lose_agent-IsLost :
      lookup a gw.by_agent_id ≡ some c → IsKeyed (commands_of gw.service) → IsLost gw lost a
  unfolding lose_agent
  lose_agent-IsLost here k =
      let silent = set_agent_offline (store_of gw) a ConnectivityState.offline reason in
      record {
        gone = ground (arith, lookup-erase a a gw.by_agent_id);
        offline = ground (arith, online-lost a);
        ended = λ i x. fail_commands_for_agent-ends now a (with_store gw.service silent) i x (
            subst IsKeyed
              (sym (commands-set_agent_offline (store_of gw) a ConnectivityState.offline reason))
              k);
        desk =
            ap furniture
              (without_commands-fail_commands_for_agent (with_store gw.service silent) now a)
            ∙ furniture-set_agent_offline (store_of gw) a ConnectivityState.offline reason;
        others = λ b differ.
            (ground (arith, lookup-erase b a gw.by_agent_id), ground (arith, online-lost b));
      }

-- When the socket of a connection closes that the gateway knows and that its agent is mapped to,
-- and the commands stand under their ids, the agent is mapped no more and is not online, none of
-- the commands that it carried is in flight, and but for its commands, agents and computers the
-- desk is untouched. Other agents stay mapped and online as they were.
pub on_close-IsLost :
    (gw : Gateway) (now c : ℕ) (a reason : String)
    → contains gw.connections c ≡ true
    → agent_of gw c ≡ some a
    → lookup a gw.by_agent_id ≡ some c
    → IsKeyed (commands_of gw.service)
    → IsLost gw (on_close gw now c reason) a
unfolding on_close handle_close close_known close_socket change_connection
on_close-IsLost gw now c a reason known mine here k =
    let e = agent_of-close_socket gw c c ∙ mine in
    rw (known, handle_close)
      (rw (e, close_known)
        (let l = lose_agent-IsLost (drop_connection (close_socket gw c) c) now c a reason here k in
          record {
            gone = l.gone;
            offline = l.offline;
            ended = l.ended;
            desk = l.desk;
            others = l.others;
          }))
