-- ===== src/Hardware/Gpio/Cycling.antt =====
-- A switch that cycles through its ports, and where a number of presses takes it.
use desk_control.Common.{
  ℕ, zero, suc, ◌+◌, ◌-◌, ◌%◌, ◌<◌, ◌≤◌, String, true, false, List, [], ◌∷◌, some, contains, length,
  ltb, ◌≡◌, ◌⊎◌, ◌∙◌, sym, ap, arith, Option-cases, Bool-cases, inl, inr, ◌==◌, string_eq,
  if◌then◌else◌,
}
use native.Mathlib.Nat.{mod-eq_of_lt, mod-eq-sub-mod}
use desk_control.Hardware.Gpio.{index_of, steps_between}

-- No port stands twice in the order.
abbrev pub IsOrder : List String → Type 0
IsOrder [] = Unit {0}
IsOrder (p ∷ ps) = (contains ps p ≡ false) × IsOrder ps

abbrev pub head_or : String → List String → String
head_or first [] = first
head_or first (p ∷ _) = p

-- The port behind the given one, and `first` behind the last.
pub next_in : String → List String → String → String
next_in first [] p = p
next_in first (q ∷ qs) p = if q == p then head_or first qs else next_in first qs p

-- What a press of the button does to the switch.
unfoldable pub next_port : List String → String → String
unfolding next_in
next_port order p = next_in (head_or p order) order p

module _ (x : String) where
  index-contains : (ps : List String) {i : ℕ} → index_of ps x ≡ some i → contains ps x ≡ true
  unfolding index_of
  index-contains [] e = cc
  index-contains (p ∷ ps) e = elim (Option-cases (index_of ps x)) [
    | inl f ↦ ground arith
    | inr (j, f) ↦ ground (arith, index-contains ps f)
  ]

  pub contains-index :
      (ps : List String) → contains ps x ≡ true → (i : ℕ) × (index_of ps x ≡ some i)
  unfolding index_of
  contains-index [] e = cc
  contains-index (p ∷ ps) e = elim (Bool-cases (p == x)) [
    | inl here ↦ (0, ground arith)
    | inr later ↦ let (i, f) = contains-index ps (ground arith) in (suc i, ground arith)
  ]

  pub index-lt-length : (ps : List String) {i : ℕ} → index_of ps x ≡ some i → i < length ps
  unfolding index_of
  index-lt-length [] e = cc
  index-lt-length (p ∷ ps) e = elim (Option-cases (index_of ps x)) [
    | inl f ↦ ground arith
    | inr (j, f) ↦ ground (arith, index-lt-length ps f)
  ]

pub index_of_injective :
    (ps : List String) (x y : String) {i : ℕ}
    → index_of ps x ≡ some i
    → index_of ps y ≡ some i
    → x ≡ y
unfolding index_of
index_of_injective [] x y e f = cc
index_of_injective (p ∷ ps) x y e f = elim (Option-cases (index_of ps x)) [
  | inl g ↦ elim (Option-cases (index_of ps y)) [ inl h ↦ ground arith | inr (k, h) ↦ ground arith ]
  | inr (j, g) ↦ elim (Option-cases (index_of ps y)) [
    | inl h ↦ ground arith
    | inr (k, h) ↦
        ground (arith, λ (same : j ≡ k). index_of_injective ps x y g (h ∙ ap some (sym same)))
  ]
]

-- Behind a port stands the one with the next index, and behind the last the first.
index-next_in :
    (first : String) (ps : List String) (p : String) (i : ℕ)
    → IsOrder ps
    → index_of ps p ≡ some i
    → ((i + 1 < length ps) × (index_of ps (next_in first ps p) ≡ some (i + 1)))
      ⊎ ((i + 1 ≡ length ps) × (next_in first ps p ≡ first))
unfolding index_of next_in
index-next_in first [] p i o e = cc
index-next_in first (q ∷ []) p i o e = ground arith
index-next_in first (q ∷ r ∷ qs) p i o e = elim (Bool-cases (q == p)) [
  | inl here ↦ inl (ground arith, ground arith)
  | inr later ↦ elim (Option-cases (index_of (r ∷ qs) p)) [
    | inl f ↦ absurd (ground arith)
    | inr (j, f) ↦ elim (index-next_in first (r ∷ qs) p j o.1 f) [
      | inl (lt, g) ↦
          let there = index-contains (next_in first (r ∷ qs) p) (r ∷ qs) g in
          inl (ground arith, ground arith)
      | inr (last, g) ↦ inr (ground arith, ground arith)
    ]
  ]
]

-- The index one press later.
abbrev pub round : ℕ → ℕ → ℕ
round n i = if ltb i n then i else i - n

index-next_port :
    (order : List String) (p : String) (i : ℕ)
    → IsOrder order
    → index_of order p ≡ some i
    → index_of order (next_port order p) ≡ some (round (length order) (i + 1))
unfolding next_port index_of
index-next_port [] p i o e = cc
index-next_port (q ∷ qs) p i o e = elim (index-next_in q (q ∷ qs) p i o e) [
  | inl (lt, g) ↦ g ∙ ground arith
  | inr (last, g) ↦ ap (index_of (q ∷ qs)) g ∙ ground arith
]

unfoldable pub press_times : List String → ℕ → String → String
press_times order zero p = p
press_times order (suc k) p = press_times order k (next_port order p)

pub index-press_times :
    (order : List String) (k : ℕ) (p : String) (i : ℕ)
    → IsOrder order
    → index_of order p ≡ some i
    → k ≤ length order
    → index_of order (press_times order k p) ≡ some (round (length order) (i + k))
unfolding press_times
index-press_times order zero p i o e le = e ∙ ground (arith, index-lt-length p order e)
index-press_times order (suc k) p i o e le =
    index-press_times order k (next_port order p) (round (length order) (i + 1)) o
      (index-next_port order p i o e) (omega arith)
    ∙ ground (arith, index-lt-length p order e)

mod_round : (n m : ℕ) → 0 < n → m < n + n → m % n ≡ round n m
mod_round n m pos lt = elim (Bool-cases (ltb m n)) [
  | inl below ↦ mod-eq_of_lt (ground arith) ∙ ground arith
  | inr above ↦ mod-eq-sub-mod (ground arith) ∙ (mod-eq_of_lt (ground arith) ∙ ground arith)
]

-- From any port of the order, the number of presses that `setPort` computes is below the number of
-- ports and takes the switch to the port that is asked for.
pub press_times-steps_between :
    (order : List String) (current target : String) (from to : ℕ)
    → IsOrder order
    → index_of order current ≡ some from
    → index_of order target ≡ some to
    → (steps_between (length order) (some to) from < length order)
      × (press_times order (steps_between (length order) (some to) from) current ≡ target)
unfolding steps_between
press_times-steps_between order current target from to o e f =
    let a = index-lt-length current order e in
    let b = index-lt-length target order f in
    let n = length order in
    let s : (to + n - from) % n ≡ round n (to + n - from) =
      mod_round n (to + n - from) (omega arith) (omega arith) in
    let small : (to + n - from) % n < n = ground arith in
    (
      small,
      index_of_injective order _ target
          (index-press_times order ((to + n - from) % n) current from o e (omega arith)
            ∙ ground arith)
          f,
    )
