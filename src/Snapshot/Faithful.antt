-- ===== src/Snapshot/Faithful.antt =====
-- What the snapshot says of each monitor.
use mathlib.Core.Option.{some-injective}
use desk_control.Common.{
  ℕ, String, List, [], ◌∷◌, Option, some, Dict, NodupKeys, lookup, insert, lookup-insert,
  lookup-values, values-lookup, values, ◌≡◌, ◌⊎◌, ◌↔◌, inl, inr, refl, sym, ◌∙◌, ap, subst, arith,
  Memᴰ, Bool-cases, ◌==◌, string_eq,
}
use desk_control.Domain.Command.{DeskCommand}
use desk_control.Domain.Device.{ControllerInfo}
use desk_control.Domain.Monitor.{Monitor}
use desk_control.Domain.Reconcile.{SyncStatus}
use desk_control.Domain.Reconcile.Meaning.{Means, resolve_monitor_state-Means}
use desk_control.Domain.State.{DesiredMonitorSource, ObservedMonitorState}
use desk_control.Store.{DeskStore}
use desk_control.Store.Observations.{observed_monitors}
use desk_control.Snapshot.{
  MonitorView, build_snapshot, view_monitor, view_monitors, command_of, join, lift,
}

-- Each monitor stands under its own id, once.
pub record HasOwnIds (d : Dict String Monitor) : Type 0 where
  pub own_id : (i : String) (m : Monitor) → lookup i d ≡ some m → m.id ≡ i
  pub once : NodupKeys d

module _ (s : DeskStore) (seen : Dict String ObservedMonitorState) (m : Monitor) where
  abbrev Only : List Monitor → Type 0
  Only ms = (x : Monitor) → Memᴰ x ms → x.id ≡ m.id → x ≡ m

  view_monitors-shown :
      (ms : List Monitor) (result : Dict String MonitorView)
      → Only ms
      → Memᴰ m ms ⊎ (lookup m.id result ≡ some (view_monitor s seen m))
      → lookup m.id (view_monitors s seen ms result) ≡ some (view_monitor s seen m)
  unfolding view_monitors
  view_monitors-shown [] result only (inl here) = elim here [ ]
  view_monitors-shown [] result only (inr there) = there
  view_monitors-shown (x ∷ xs) result only found =
      view_monitors-shown xs (insert x.id (view_monitor s seen x) result)
        (λ y k. only y (Memᴰ.tail k))
        (elim (Bool-cases (x.id == m.id)) [
          | inl e ↦
              let same : x ≡ m = only x (Memᴰ.head refl) (ground arith) in
              inr (
                subst
                  (λ y.
                    lookup m.id (insert y.id (view_monitor s seen y) result)
                    ≡ some (view_monitor s seen m))
                  (sym same)
                  (ground (arith, lookup-insert m.id m.id (view_monitor s seen m) result)))
          | inr e ↦ elim found [
            | inl (Memᴰ.head d) ↦ absurd (ground arith)
            | inl (Memᴰ.tail k) ↦ inl k
            | inr there ↦
                inr (ground (arith, lookup-insert m.id x.id (view_monitor s seen x) result))
          ]
        ])

-- The command that the desired source of a monitor names, where it is still retained.
abbrev pub asked_by : DeskStore → Option DesiredMonitorSource → Option DeskCommand
asked_by s desired = command_of s (join (lift (λ d. d.command_id) desired))

-- Where each monitor stands under its own id, once, a monitor of the desk has a resolution in the snapshot, and its status is the one that the
-- meaning of the statuses gives to what is desired, observed and under way for it.
pub build_snapshot-Means :
    (s : DeskStore) (now : ℕ) (controller : ControllerInfo) (m : Monitor)
    → HasOwnIds s.monitors
    → lookup m.id s.monitors ≡ some m
    → (v : MonitorView) × (lookup m.id (build_snapshot s now controller).monitor_resolutions
        ≡ some v)
      × ((status : SyncStatus)
          → (v.status ≡ status)
            ↔ Means
                (lookup m.id s.desired.monitor_sources)
                (lookup m.id (observed_monitors s))
                (asked_by s (lookup m.id s.desired.monitor_sources))
                status)
unfolding build_snapshot view_monitor
build_snapshot-Means s now controller m ids here =
    let seen = observed_monitors s in
    let only : (x : Monitor) → Memᴰ x (values s.monitors) → x.id ≡ m.id → x ≡ m = λ x k same.
      let (j, at) = values-lookup s.monitors ids.once k in
      some-injective _ _
        (sym at ∙ ap (λ i. lookup i s.monitors) (sym (ids.own_id j x at) ∙ same) ∙ here) in
    (
      view_monitor s seen m,
      view_monitors-shown s seen m (values s.monitors) [] only
          (inl (lookup-values m.id s.monitors here)),
      λ status.
          resolve_monitor_state-Means (lookup m.id s.desired.monitor_sources) (lookup m.id seen)
            (asked_by s (lookup m.id s.desired.monitor_sources)) status,
    )
