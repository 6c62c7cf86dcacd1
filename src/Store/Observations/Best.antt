-- ===== src/Store/Observations/Best.antt =====
-- Which of several reports on a monitor `effectiveObservedMonitor` believes.
use desk_control.Common.{
  ◌≤◌, String, Bool, true, false, List, [], ◌∷◌, Option, none, some, lookup, values, ◌≡◌, refl, sym,
  subst, arith, All, All-map, Memᴰ, Bool-cases, Option-cases, inl, inr, insert_sorted, sort_by,
  string_eq, if◌then◌else◌,
}
use desk_control.Store.{DeskStore, ObservationRecord}
use desk_control.Store.Observations.{is_reachable, record_before, head_of, best_record}

abbrev reached : ObservationRecord → Bool
reached r = is_reachable r.report.reachability

-- A reachable report is believed over one that is not, and then the newer one.
abbrev pub IsNoBetter : ObservationRecord → ObservationRecord → Type 0
IsNoBetter best r =
    (reached r ≡ true → reached best ≡ true)
    × (reached r ≡ reached best → r.observed_at ≤ best.observed_at)

IsNoBetter-trans : (a b c : ObservationRecord) → IsNoBetter a b → IsNoBetter b c → IsNoBetter a c
IsNoBetter-trans a b c h k = ground arith

not_before : (a b : ObservationRecord) → record_before a b ≡ false → IsNoBetter b a
unfolding record_before
not_before a b e = ground arith

before_lem : (a b : ObservationRecord) → record_before a b ≡ true → IsNoBetter a b
unfolding record_before
before_lem a b e = ground arith

All-insert_sorted {κ} :
    (P : ObservationRecord → Type κ) (x : ObservationRecord) (ys : List ObservationRecord)
    → P x
    → All P ys
    → All P (insert_sorted record_before x ys)
All-insert_sorted P x [] px h = (px, tt)
All-insert_sorted P x (y ∷ ys) px h = elim (Bool-cases (record_before y x)) [
  | inl e ↦ rw e (h.0, All-insert_sorted P x ys px h.1)
  | inr e ↦ rw e (px, h)
]

abbrev LedByBest : List ObservationRecord → Type 0
LedByBest [] = Unit
LedByBest (y ∷ ys) = All (IsNoBetter y) ys

insert_sorted-LedByBest :
    (x : ObservationRecord) (ys : List ObservationRecord)
    → LedByBest ys
    → LedByBest (insert_sorted record_before x ys)
insert_sorted-LedByBest x [] h = tt
insert_sorted-LedByBest x (y ∷ ys) h = elim (Bool-cases (record_before y x)) [
  | inl e ↦ rw e (All-insert_sorted (IsNoBetter y) x ys (before_lem y x e) h)
  | inr e ↦
      let first = not_before y x e in
      rw e (first, All-map (λ z k. IsNoBetter-trans x y z first k) ys h)
]

sort_by-LedByBest : (xs : List ObservationRecord) → LedByBest (sort_by record_before xs)
sort_by-LedByBest [] = tt
sort_by-LedByBest (x ∷ xs) =
    insert_sorted-LedByBest x (sort_by record_before xs) (sort_by-LedByBest xs)

inserted :
    Bool → ObservationRecord → ObservationRecord → List ObservationRecord → List ObservationRecord
inserted b x y ys = if b then y ∷ insert_sorted record_before x ys else x ∷ y ∷ ys

All-uninserted {κ} :
    (P : ObservationRecord → Type κ) (x : ObservationRecord) (ys : List ObservationRecord)
    → All P (insert_sorted record_before x ys)
    → P x × All P ys
unfolding inserted
All-uninserted P x [] h = (h.0, tt)
All-uninserted P x (y ∷ ys) h = elim (Bool-cases (record_before y x)) [
  | inl e ↦
      let (here, later) = subst (λ b. All P (inserted b x y ys)) e h in
      let (px, rest) = All-uninserted P x ys later in (px, (here, rest))
  | inr e ↦ subst (λ b. All P (inserted b x y ys)) e h
]

All-unsorted {κ} :
    (P : ObservationRecord → Type κ) (xs : List ObservationRecord)
    → All P (sort_by record_before xs)
    → All P xs
All-unsorted P [] h = tt
All-unsorted P (x ∷ xs) h =
    let (px, rest) = All-uninserted P x (sort_by record_before xs) h in (px, All-unsorted P xs rest)

past_second :
    {z x : ObservationRecord} (y : ObservationRecord) (ys : List ObservationRecord)
    → Memᴰ z (x ∷ ys)
    → Memᴰ z (x ∷ y ∷ ys)
past_second y ys (Memᴰ.head d) = Memᴰ.head d
past_second y ys (Memᴰ.tail m) = Memᴰ.tail (Memᴰ.tail m)

mem-insert_sorted :
    (x : ObservationRecord) (ys : List ObservationRecord) {z : ObservationRecord}
    → Memᴰ z (insert_sorted record_before x ys)
    → Memᴰ z (x ∷ ys)
unfolding inserted
mem-insert_sorted x [] m = m
mem-insert_sorted x (y ∷ ys) {z} m = elim (Bool-cases (record_before y x)) [
  | inl e ↦ elim (subst (λ b. Memᴰ z (inserted b x y ys)) e m) [
    | Memᴰ.head d ↦ Memᴰ.tail (Memᴰ.head d)
    | Memᴰ.tail k ↦ past_second y ys (mem-insert_sorted x ys k)
  ]
  | inr e ↦ subst (λ b. Memᴰ z (inserted b x y ys)) e m
]

mem-sort_by :
    (xs : List ObservationRecord) {z : ObservationRecord}
    → Memᴰ z (sort_by record_before xs)
    → Memᴰ z xs
mem-sort_by [] m = m
mem-sort_by (x ∷ xs) {z} m = elim (mem-insert_sorted x (sort_by record_before xs) m) [
  | Memᴰ.head d ↦ Memᴰ.head d
  | Memᴰ.tail k ↦ Memᴰ.tail (mem-sort_by xs k)
]

abbrev pub IsBelieved : List ObservationRecord → Option ObservationRecord → Type 0
IsBelieved rs none = rs ≡ []
IsBelieved rs (some best) = Memᴰ best rs × All (IsNoBetter best) rs

head_of-IsBelieved :
    (rs sorted : List ObservationRecord)
    → sort_by record_before rs ≡ sorted
    → IsBelieved rs (head_of sorted)
head_of-IsBelieved [] [] e = refl
head_of-IsBelieved (r ∷ rs) [] e = absurd (
    elim (subst (λ l. All (λ x. ⊥) l → All (λ x. ⊥) (r ∷ rs)) e (All-unsorted (λ x. ⊥) (r ∷ rs))
      tt).0 [ ])
head_of-IsBelieved rs (best ∷ others) e = (
  mem-sort_by rs (subst (Memᴰ best) (sym e) (Memᴰ.head refl)),
  All-unsorted (IsNoBetter best) rs (
      subst (All (IsNoBetter best)) (sym e)
        (itself best, subst LedByBest e (sort_by-LedByBest rs))),
)
  where
    itself : (r : ObservationRecord) → IsNoBetter r r
    itself r = ground arith

unfoldable pub reports_on : DeskStore → String → List ObservationRecord
reports_on s monitor_id = elim (lookup monitor_id s.observations) [
  | none ↦ []
  | some per_monitor ↦ values per_monitor
]

-- Of the agents' reports on a monitor the believed one is among them, it is reachable if any is,
-- and none that is as reachable is newer; none is believed only where there is none.
pub best_record-IsBelieved :
    (s : DeskStore) (monitor_id : String)
    → IsBelieved (reports_on s monitor_id) (best_record s monitor_id)
unfolding best_record reports_on
best_record-IsBelieved s monitor_id = elim (Option-cases (lookup monitor_id s.observations)) [
  | inl e ↦ rw (e, best_record, reports_on) refl
  | inr (per_monitor, e) ↦
      rw (e, best_record, reports_on) (head_of-IsBelieved (values per_monitor) _ refl)
]
