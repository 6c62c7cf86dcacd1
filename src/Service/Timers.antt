-- ===== src/Service/Timers.antt =====
-- The pending timeouts: every monitor command in flight has one that will end it.
pub mod Issuing
pub mod Ending
pub mod Upkeep
use mathlib.Core.Option.{some-injective}
use desk_control.Common.{
  ℕ, ◌+◌, ◌<◌, String, Bool, true, false, not, List, [], ◌∷◌, ◌++◌, Option, none, some, lookup,
  insert, erase, lookup-insert, lookup-erase, ◌≡◌, ◌≢◌, ◌⊎◌, refl, sym, ◌∙◌, ap, subst, arith, Memᴰ,
  Option-cases, Bool-cases, inl, inr, ◌==◌, string_eq, nat_eq, filter_bool, if◌then◌else◌,
  mem-filter, filter-mem, mem-snoc, snoc-mem, snoc-last,
}
use desk_control.Domain.Command.{CommandStatus, CommandError, DeskCommand, is_in_flight}
use desk_control.Domain.Command.Targets.{monitor_target}
use desk_control.Store.{DeskStore, touch}
use desk_control.Store.Commands.{update_command}
use desk_control.Store.Commands.Evolution.{Flies, Shrinks, Shrinks-refl}
use desk_control.Service.{
  Env, ServiceState, Timeout, with_store, clear_timer, update, ended, start_timeout,
}
use desk_control.Service.Creating.{commands-update}
use desk_control.Service.Answers.{update-other}
use desk_control.Service.Responses.{fired}
use desk_control.Service.Retiring.{commands_of, end-Shrinks}

abbrev pub Awaited : ServiceState → String → Type 0
Awaited st id = (t : Timeout) × Memᴰ t st.scheduled × (t.command_id ≡ id)

-- Handles are given out once, the map of timers names handles of its own commands, and every
-- monitor command in flight, but the excepted one, has a timeout scheduled.
pub record IsTimed (but : Option String) (st : ServiceState) : Type 0 where
  pub fresh : (t : Timeout) → Memᴰ t st.scheduled → t.handle < st.next_handle
  pub owner :
      (t u : Timeout)
      → Memᴰ t st.scheduled
      → Memᴰ u st.scheduled
      → t.handle ≡ u.handle
      → t.command_id ≡ u.command_id
  pub owned :
      (id : String) (h : ℕ)
      → lookup id st.timers ≡ some h
      → (h < st.next_handle)
        × ((t : Timeout) → Memᴰ t st.scheduled → t.handle ≡ h → t.command_id ≡ id)
  pub covered :
      (i : String) (c : DeskCommand)
      → but ≢ some i
      → Flies (commands_of st) i c
      → monitor_target c.payload ≢ none
      → Awaited st i

pub excepted : {st : ServiceState} (id : String) → IsTimed none st → IsTimed (some id) st
excepted id h = record {
  fresh = h.fresh;
  owner = h.owner;
  owned = h.owned;
  covered = λ i c ne f mon. h.covered i c (λ e. cc) f mon;
}

-- The parts that the timeouts stand in are the same.
pub record SameTimers (st u : ServiceState) : Type 0 where
  pub timers : u.timers ≡ st.timers
  pub scheduled : u.scheduled ≡ st.scheduled
  pub next_handle : u.next_handle ≡ st.next_handle

pub Shrinks-IsTimed :
    {but : Option String} {st u : ServiceState}
    → SameTimers st u
    → Shrinks (commands_of st) (commands_of u)
    → IsTimed but st
    → IsTimed but u
Shrinks-IsTimed {but} {st} {u} same s h = record {
  fresh = λ t m. subst (λ n. t.handle < n) (sym same.next_handle) (h.fresh t (back t m));
  owner = λ t v mt mv e. h.owner t v (back t mt) (back v mv) e;
  owned = λ id k e.
      let (below, names) = h.owned id k (ap (lookup id) (sym same.timers) ∙ e) in
      (subst (λ n. k < n) (sym same.next_handle) below, λ t m. names t (back t m));
  covered = λ i c ne f mon.
      let (x, g, payload) = s.flew i c f in
      let (t, m, for_it) = h.covered i x ne g (λ e. mon (ap monitor_target (sym payload) ∙ e)) in
      (t, subst (Memᴰ t) (sym same.scheduled) m, for_it);
}
  where
    back : (t : Timeout) → Memᴰ t u.scheduled → Memᴰ t st.scheduled
    back t m = subst (Memᴰ t) same.scheduled m

pub clear_timer-IsTimed :
    (st : ServiceState) (id : String) → IsTimed (some id) st → IsTimed (some id) (clear_timer st id)
unfolding clear_timer
clear_timer-IsTimed st id h = elim (Option-cases (lookup id st.timers)) [
  | inl e ↦ rw (e, clear_timer) h
  | inr (k, e) ↦
      let keeps = λ (t : Timeout). not (t.handle == k) in
      rw (e, clear_timer)
        (record {
          fresh = λ t m. h.fresh t (mem-filter keeps st.scheduled m);
          owner = λ t u mt mu.
              h.owner t u (mem-filter keeps st.scheduled mt) (mem-filter keeps st.scheduled mu);
          owned = λ i n f.
              let (below, names) = h.owned i n (ground (arith, lookup-erase i id st.timers)) in
              (below, λ t m. names t (mem-filter keeps st.scheduled m));
          covered = λ i c ne f mon.
              let (t, m, for_it) = h.covered i c ne f mon in
              let other : t.handle ≢ k =
                λ same. ne (ap some (sym ((h.owned id k e).1 t m same) ∙ for_it)) in
              (t, filter-mem keeps st.scheduled m (ground arith), for_it);
        })
]

pub closed :
    (st : ServiceState) (id : String)
    → ((c : DeskCommand) → Flies (commands_of st) id c → monitor_target c.payload ≡ none)
    → IsTimed (some id) st
    → IsTimed none st
closed st id none_there h = record {
  fresh = h.fresh;
  owner = h.owner;
  owned = h.owned;
  covered = λ i c ne f mon. elim (Bool-cases (id == i)) [
    | inl e ↦ absurd (mon (none_there c (subst (λ x. Flies (commands_of st) x c) (ground arith) f)))
    | inr e ↦ h.covered i c (λ same. ground arith) f mon
  ];
}

-- A timeout that fires leaves its own command uncovered, and no other.
pub fired-IsTimed :
    (st : ServiceState) (t : Timeout)
    → Memᴰ t st.scheduled
    → IsTimed none st
    → IsTimed (some t.command_id) (fired st t)
unfolding fired
fired-IsTimed st t here h =
    let keeps = λ (x : Timeout). not (x.handle == t.handle) in
    record {
      fresh = λ u m. h.fresh u (mem-filter keeps st.scheduled m);
      owner = λ u v mu mv.
          h.owner u v (mem-filter keeps st.scheduled mu) (mem-filter keeps st.scheduled mv);
      owned = λ i n f.
          let (below, names) =
            h.owned i n (ground (arith, lookup-erase i t.command_id st.timers)) in
          (below, λ u m. names u (mem-filter keeps st.scheduled m));
      covered = λ i c ne f mon.
          let (u, m, for_it) = h.covered i c (λ e. cc) f mon in
          let other : u.handle ≢ t.handle =
            λ same. ne (ap some (sym (h.owner u t m here same) ∙ for_it)) in
          (u, filter-mem keeps st.scheduled m (ground arith), for_it);
    }

pub start_timeout-IsTimed :
    (env : Env) (st : ServiceState) (now : ℕ) (c : DeskCommand) (agent : String)
    → IsTimed (some c.id) st
    → IsTimed none (start_timeout env st now c agent)
unfolding start_timeout
start_timeout-IsTimed env st now c agent h = record {
  fresh = λ t m. elim (mem-snoc st.scheduled new m) [
    | inl old ↦ let below = h.fresh t old in omega arith
    | inr e ↦ let same = ap (λ (x : Timeout). x.handle) e in omega arith
  ];
  owner = λ t u mt mu same. elim (mem-snoc st.scheduled new mt) [
    | inl t_old ↦ elim (mem-snoc st.scheduled new mu) [
      | inl u_old ↦ h.owner t u t_old u_old same
      | inr e ↦
          let below = h.fresh t t_old in
          let given = ap (λ (x : Timeout). x.handle) e in absurd (omega arith)
    ]
    | inr d ↦ elim (mem-snoc st.scheduled new mu) [
      | inl u_old ↦
          let below = h.fresh u u_old in
          let given = ap (λ (x : Timeout). x.handle) d in absurd (omega arith)
      | inr e ↦ ap (λ (x : Timeout). x.command_id) (d ∙ sym e)
    ]
  ];
  owned = λ id k e. elim (Bool-cases (c.id == id)) [
    | inl mine ↦
        let is_new : k ≡ st.next_handle =
          ground (arith, lookup-insert id c.id st.next_handle st.timers) in
        (
          omega arith,
          λ t m same. elim (mem-snoc st.scheduled new m) [
            | inl old ↦ let below = h.fresh t old in absurd (omega arith)
            | inr d ↦ ap (λ (x : Timeout). x.command_id) d ∙ ground arith
          ],
        )
    | inr other ↦
        let (below, names) =
          h.owned id k (ground (arith, lookup-insert id c.id st.next_handle st.timers)) in
        (
          omega arith,
          λ t m same. elim (mem-snoc st.scheduled new m) [
            | inl old ↦ names t old same
            | inr d ↦ let given = ap (λ (x : Timeout). x.handle) d in absurd (omega arith)
          ],
        )
  ];
  covered = λ i x ne f mon. elim (Bool-cases (c.id == i)) [
    | inl mine ↦ (new, snoc-last st.scheduled new, ground arith)
    | inr other ↦
        let (t, m, for_it) =
          h.covered i x (λ same. ground arith)
            (sym (update-other st now c.id i _ (ground arith)) ∙ f.0, f.1) mon in
        (t, snoc-mem st.scheduled new m, for_it)
  ];
}
  where
    new : Timeout
    new = record { handle = st.next_handle; command_id = c.id; due = now + env.command_timeout_ms }

pub ended-update :
    (st : ServiceState) (now : ℕ) (id : String) (s : CommandStatus) (error : Option CommandError)
    (c : DeskCommand)
    → is_in_flight s ≡ false
    → ¬ (Flies (commands_of (update st now id (ended s error))) id c)
unfolding update update_command touch
ended-update st now id s error c over (e, flying) =
    elim (Option-cases (lookup id (commands_of st))) [
      | inl missing ↦ cc (sym missing ∙ (rw (missing, update_command) at e))
      | inr (x, there) ↦
          let y : DeskCommand = record (ended s error x) { updated_at = now } in
          let written : some y ≡ some c =
            sym (
              ap (lookup id) (commands-update st now id (ended s error) x there)
              ∙ ground (arith, lookup-insert id id y (commands_of st)))
            ∙ e in
          cc (
            sym flying
            ∙ ap (λ (z : DeskCommand). is_in_flight z.status) (sym (some-injective _ _ written))
            ∙ over)
    ]

pub end-IsTimed :
    (st : ServiceState) (now : ℕ) (id : String) (s : CommandStatus) (error : Option CommandError)
    → is_in_flight s ≡ false
    → IsTimed (some id) st
    → IsTimed none (update st now id (ended s error))
unfolding update
end-IsTimed st now id s error over h =
    closed (update st now id (ended s error)) id
      (λ c f. absurd (ended-update st now id s error c over f))
      (Shrinks-IsTimed (record { timers = refl; scheduled = refl; next_handle = refl })
        (end-Shrinks st now id s error over) h)
