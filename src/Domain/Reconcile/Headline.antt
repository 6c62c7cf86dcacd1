-- ===== src/Domain/Reconcile/Headline.antt =====
-- The headline that `aggregateStatus` makes of several statuses.
use desk_control.Common.{
  ℕ, suc, ◌≤◌, ◌<◌, true, false, List, [], ◌∷◌, ◌≡◌, ◌≢◌, inl, inr, refl, subst, sym, arith, All,
  All-map, all, contains, Memᴰ, ◌==◌, Bool-cases,
}
use desk_control.Domain.Reconcile.{
  SyncStatus, unknown, in_sync, switching, failed, unreachable, drifted, sync_status_eq,
  aggregate_status,
}

-- How bad a status is: the headline shows the worst.
abbrev pub severity : SyncStatus → ℕ
severity in_sync = 0
severity unknown = 1
severity drifted = 2
severity unreachable = 3
severity failed = 4
severity switching = 5

includes_sound : (s : SyncStatus) (ss : List SyncStatus) → contains ss s ≡ true → Memᴰ s ss
includes_sound s [] e = cc
includes_sound s (t ∷ ts) e = elim (Bool-cases (t == s)) [
  | inl hit ↦ Memᴰ.head (ground arith)
  | inr miss ↦ Memᴰ.tail (includes_sound s ts (ground arith))
]

-- One step down: if `s` bounds the list and is absent, the bound is strict.
severity-injective : (s t : SyncStatus) → severity s ≡ severity t → s ≡ t
severity-injective s t e = ground arith

absent :
    (s : SyncStatus) (ss : List SyncStatus)
    → contains ss s ≡ false
    → All (λ t. severity t ≤ severity s) ss
    → All (λ t. severity t < severity s) ss
absent s [] e h = tt
absent s (t ∷ ts) e h = elim (Bool-cases (t == s)) [
  | inl hit ↦ ground arith
  | inr miss ↦
      let strict : severity t ≢ severity s = λ same. ground (arith, severity-injective t s same) in
      (omega arith, absent s ts (ground arith) h.1)
]

top : (ss : List SyncStatus) → All (λ t. severity t ≤ 5) ss
top [] = tt
top (t ∷ ts) = (ground arith, top ts)

all_synced :
    (ss : List SyncStatus) → all (λ t. t == in_sync) ss ≡ true → All (λ t. severity t ≤ 0) ss
all_synced [] e = tt
all_synced (t ∷ ts) e = (ground arith, all_synced ts (ground arith))

one_unknown :
    (ss : List SyncStatus)
    → all (λ t. t == in_sync) ss ≡ false
    → All (λ t. severity t ≤ 1) ss
    → Memᴰ unknown ss
one_unknown [] e h = cc
one_unknown (t ∷ ts) e h = elim (Bool-cases (t == in_sync)) [
  | inl hit ↦ Memᴰ.tail (one_unknown ts (ground arith) h.1)
  | inr miss ↦ Memᴰ.head (ground arith)
]

-- The headline is one of the statuses, and none of them is worse.
abbrev pub IsWorst : SyncStatus → List SyncStatus → Type 0
IsWorst s ss = Memᴰ s ss × All (λ t. severity t ≤ severity s) ss

lowered :
    (n : ℕ) (ss : List SyncStatus) → All (λ t. severity t < suc n) ss → All (λ t. severity t ≤ n) ss
lowered n = All-map (λ t h. omega arith)

synced :
    (s : SyncStatus) (ss : List SyncStatus)
    → all (λ t. t == in_sync) (s ∷ ss) ≡ true
    → Memᴰ in_sync (s ∷ ss)
synced s ss e = Memᴰ.head (ground arith)

worst :
    {s r : SyncStatus} {ss : List SyncStatus}
    → aggregate_status (s ∷ ss) ≡ r
    → IsWorst r (s ∷ ss)
    → IsWorst (aggregate_status (s ∷ ss)) (s ∷ ss)
worst {s} {ss = ss} v h = subst (λ x. IsWorst x (s ∷ ss)) (sym v) h

-- The headline of a non-empty list of statuses is the worst of them, in the order in-sync,
-- unknown, drifted, unreachable, failed, switching.
pub aggregate_status-IsWorst :
    (s : SyncStatus) (ss : List SyncStatus) → IsWorst (aggregate_status (s ∷ ss)) (s ∷ ss)
unfolding aggregate_status
aggregate_status-IsWorst s ss =
    let l : List SyncStatus = s ∷ ss in
    elim (Bool-cases (contains l switching)) [
      | inl e ↦ worst (rw e refl) (includes_sound switching l e, top l)
      | inr e ↦
          let h4 = lowered 4 l (absent switching l e (top l)) in
          elim (Bool-cases (contains l failed)) [
            | inl f ↦ worst (rw (e, f) refl) (includes_sound failed l f, h4)
            | inr f ↦
                let h3 = lowered 3 l (absent failed l f h4) in
                elim (Bool-cases (contains l unreachable)) [
                  | inl g ↦ worst (rw (e, f, g) refl) (includes_sound unreachable l g, h3)
                  | inr g ↦
                      let h2 = lowered 2 l (absent unreachable l g h3) in
                      elim (Bool-cases (contains l drifted)) [
                        | inl k ↦ worst (rw (e, f, g, k) refl) (includes_sound drifted l k, h2)
                        | inr k ↦
                            let h1 = lowered 1 l (absent drifted l k h2) in
                            elim (Bool-cases (all (λ t. t == in_sync) l)) [
                              | inl a ↦
                                  worst (rw (e, f, g, k, a) refl) (synced s ss a, all_synced l a)
                              | inr a ↦ worst (rw (e, f, g, k, a) refl) (one_unknown l a h1, h1)
                            ]
                      ]
                ]
          ]
    ]
