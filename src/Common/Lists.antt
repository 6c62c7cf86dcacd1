-- ===== src/Common/Lists.antt =====
-- Array methods of JavaScript (`find`, `some`, `every`, `slice`, the stable `sort`) over lists,
-- with lengths in the native numbers.
use Prim.Native.Nat.{ℕ, zero, suc, compare, Ordering}
use Prim.Native.String.{String}
use mathlib.Core.Path.{◌≡◌, refl, subst, sym}
use mathlib.Core.Logic.{◌⊎◌, inl, inr}
use mathlib.Core.Bool.{Bool, true, false, ◌&&◌, ◌||◌}
use mathlib.Core.Option.{Option, none, some}
use mathlib.Core.List.{List, [], ◌∷◌, ◌++◌, Memᴰ}
use native.Mathlib.Omega.{arith}
use desk_control.Common.Equality.{if◌then◌else◌, Bool-cases, ◌==◌, string_eq}

abbrev pub ltb : ℕ → ℕ → Bool
ltb a b = elim (compare a b) [ Ordering.lt ↦ true | _ ↦ false ]

abbrev pub leb : ℕ → ℕ → Bool
leb a b = elim (compare a b) [ Ordering.gt ↦ false | _ ↦ true ]

module _ {ℓ} {A : Type ℓ} where
  pub Option-cases : (o : Option A) → (o ≡ none) ⊎ ((a : A) × (o ≡ some a))
  Option-cases none = inl refl
  Option-cases (some a) = inr (a, refl)

  abbrev pub length : List A → ℕ
  length [] = 0
  length (x ∷ xs) = suc (length xs)

  abbrev pub drop : ℕ → List A → List A
  drop zero xs = xs
  drop (suc n) [] = []
  drop (suc n) (x ∷ xs) = drop n xs

  abbrev pub take : ℕ → List A → List A
  take zero xs = []
  take (suc n) [] = []
  take (suc n) (x ∷ xs) = x ∷ take n xs

  abbrev pub All {κ} : (A → Type κ) → List A → Type κ
  All P [] = Unit
  All P (x ∷ xs) = P x × All P xs

  -- The first element that passes.
  abbrev pub find : (A → Bool) → List A → Option A
  find p [] = none
  find p (x ∷ xs) = if p x then some x else find p xs

  abbrev pub any : (A → Bool) → List A → Bool
  any p [] = false
  any p (x ∷ xs) = p x || any p xs

  abbrev pub all : (A → Bool) → List A → Bool
  all p [] = true
  all p (x ∷ xs) = p x && all p xs

  abbrev pub filter_bool : (A → Bool) → List A → List A
  filter_bool p [] = []
  filter_bool p (x ∷ xs) = let rest = filter_bool p xs in if p x then x ∷ rest else rest

  -- `before y x`: the comparator puts y strictly in front of x.
  abbrev pub insert_sorted : (A → A → Bool) → A → List A → List A
  insert_sorted before x [] = x ∷ []
  insert_sorted before x (y ∷ ys) = if before y x then y ∷ insert_sorted before x ys else x ∷ y ∷ ys

  -- Stable, as `Array.prototype.sort` is.
  abbrev pub sort_by : (A → A → Bool) → List A → List A
  sort_by before [] = []
  sort_by before (x ∷ xs) = insert_sorted before x (sort_by before xs)

  pub find_sound :
      (p : A → Bool) (xs : List A) {x : A} → find p xs ≡ some x → (p x ≡ true) × Memᴰ x xs
  find_sound p [] e = cc
  find_sound p (y ∷ ys) {x} e = elim (Bool-cases (p y)) [
    | inl hit ↦ (ground arith, Memᴰ.head (ground arith))
    | inr miss ↦
        let (passes, here) = find_sound p ys {x = x} (ground arith) in (passes, Memᴰ.tail here)
  ]

  pub find-none : (p : A → Bool) (xs : List A) → find p xs ≡ none → All (λ x. p x ≡ false) xs
  find-none p [] e = tt
  find-none p (y ∷ ys) e = ground (arith, find-none p ys)

  pub find-filter_sound :
      (p q : A → Bool) (xs : List A) {x : A}
      → find p (filter_bool q xs) ≡ some x
      → (p x ≡ true) × (q x ≡ true) × Memᴰ x xs
  find-filter_sound p q [] e = cc
  find-filter_sound p q (y ∷ ys) {x} e = elim (Bool-cases (q y)) [
    | inl kept ↦ elim (Bool-cases (p y)) [
      | inl hit ↦ (ground arith, ground arith, Memᴰ.head (ground arith))
      | inr miss ↦
          let (passes, here, later) = find-filter_sound p q ys {x = x} (ground arith) in
          (passes, here, Memᴰ.tail later)
    ]
    | inr dropped ↦
        let (passes, here, later) = find-filter_sound p q ys {x = x} (ground arith) in
        (passes, here, Memᴰ.tail later)
  ]

  pub find-filter_none :
      (p q : A → Bool) (xs : List A)
      → find p (filter_bool q xs) ≡ none
      → All (λ x. q x ≡ true → p x ≡ false) xs
  find-filter_none p q [] e = tt
  find-filter_none p q (y ∷ ys) e = elim (Bool-cases (q y)) [
    | inl kept ↦ elim (Bool-cases (p y)) [
      | inl hit ↦ cc (rw (kept, hit) at e)
      | inr miss ↦ (λ _. miss, find-filter_none p q ys (ground arith))
    ]
    | inr dropped ↦ (λ h. cc, find-filter_none p q ys (ground arith))
  ]

  pub All-map {κ μ} :
      {P : A → Type κ} {Q : A → Type μ} (f : (x : A) → P x → Q x) (xs : List A)
      → All P xs
      → All Q xs
  All-map f [] h = tt
  All-map f (x ∷ xs) h = (f x h.0, All-map f xs h.1)

  pub All-mem {κ} : (P : A → Type κ) (xs : List A) {x : A} → All P xs → Memᴰ x xs → P x
  All-mem P [] h m = elim m [ ]
  All-mem P (y ∷ ys) h (Memᴰ.head e) = subst P (sym e) h.0
  All-mem P (y ∷ ys) h (Memᴰ.tail m) = All-mem P ys h.1 m

  pub All-append {κ} : (P : A → Type κ) (xs ys : List A) → All P xs → All P ys → All P (xs ++ ys)
  All-append P [] ys h k = k
  All-append P (x ∷ xs) ys h k = (h.0, All-append P xs ys h.1 k)

-- `if (id)`: null, undefined and the empty text are false.
abbrev pub truthy : Option String → Option String
truthy none = none
truthy (some s) = if s == "" then none else some s
