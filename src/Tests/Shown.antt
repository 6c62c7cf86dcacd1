-- ===== src/Tests/Shown.antt =====
-- A concrete snapshot.
use desk_control.Common.{some, lookup, ◌≡◌, ◌↔◌, refl, arith, string_eq}
use desk_control.Domain.Device.{ControllerInfo}
use desk_control.Domain.Reconcile.{SyncStatus}
use desk_control.Domain.Reconcile.Meaning.{Means}
use desk_control.Store.Observations.{observed_monitors}
use desk_control.Snapshot.{MonitorView, build_snapshot}
use desk_control.Snapshot.Faithful.{HasOwnIds, asked_by, build_snapshot-Means}
use desk_control.Tests.Desk.{desk, panel}

abbrev controller : ControllerInfo
controller = record {
  id = "controller:local";
  name = "Desk";
  version = "1";
  protocol_version = 1;
  started_at = 0;
}

desk-HasOwnIds : HasOwnIds desk.monitors
unfolding lookup string_eq
desk-HasOwnIds = record { own_id = λ i m e. ground arith; once = (refl, (refl, tt)) }

left_there : lookup "left" desk.monitors ≡ some (panel "left")
unfolding lookup
left_there = ground arith

build_snapshot-Means_example :
    (v : MonitorView) × (lookup "left" (build_snapshot desk 7 controller).monitor_resolutions
      ≡ some v)
    × ((status : SyncStatus)
        → (v.status ≡ status)
          ↔ Means
              (lookup "left" desk.desired.monitor_sources)
              (lookup "left" (observed_monitors desk))
              (asked_by desk (lookup "left" desk.desired.monitor_sources))
              status)
build_snapshot-Means_example =
    build_snapshot-Means desk 7 controller (panel "left") desk-HasOwnIds left_there
