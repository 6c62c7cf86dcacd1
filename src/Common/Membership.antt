-- ===== src/Common/Membership.antt =====
-- Members of filtered and of extended lists.
use mathlib.Core.Path.{◌≡◌, refl, sym, ap, subst, ◌∙◌}
use mathlib.Core.Logic.{◌⊎◌, inl, inr}
use mathlib.Core.Bool.{Bool, true}
use mathlib.Core.List.{List, [], ◌∷◌, ◌++◌, Memᴰ}
use desk_control.Common.Equality.{Bool-cases, if◌then◌else◌}
use desk_control.Common.Lists.{filter_bool}

pub mem-filter {ℓ} :
    {A : Type ℓ} (p : A → Bool) (xs : List A) {x : A} → Memᴰ x (filter_bool p xs) → Memᴰ x xs
mem-filter p [] m = m
mem-filter p (y ∷ ys) {x} m = elim (Bool-cases (p y)) [
  | inl e ↦ elim (subst (λ b. Memᴰ x (if b then y ∷ filter_bool p ys else filter_bool p ys)) e m) [
    | Memᴰ.head same ↦ Memᴰ.head same
    | Memᴰ.tail later ↦ Memᴰ.tail (mem-filter p ys later)
  ]
  | inr e ↦ Memᴰ.tail (
      mem-filter p ys
        (subst (λ b. Memᴰ x (if b then y ∷ filter_bool p ys else filter_bool p ys)) e m))
]

pub filter-mem {ℓ} :
    {A : Type ℓ} (p : A → Bool) (xs : List A) {x : A}
    → Memᴰ x xs
    → p x ≡ true
    → Memᴰ x (filter_bool p xs)
filter-mem p [] m e = m
filter-mem p (y ∷ ys) {x} (Memᴰ.head same) e =
    let hit : p y ≡ true = ap p (sym same) ∙ e in rw hit (Memᴰ.head same)
filter-mem p (y ∷ ys) {x} (Memᴰ.tail m) e = elim (Bool-cases (p y)) [
  | inl hit ↦ rw hit (Memᴰ.tail (filter-mem p ys m e))
  | inr miss ↦ rw miss (filter-mem p ys m e)
]

pub mem-snoc {ℓ} :
    {A : Type ℓ} (xs : List A) (y : A) {x : A} → Memᴰ x (xs ++ y ∷ []) → Memᴰ x xs ⊎ (x ≡ y)
mem-snoc [] y (Memᴰ.head e) = inr e
mem-snoc [] y (Memᴰ.tail m) = inl m
mem-snoc (z ∷ zs) y (Memᴰ.head e) = inl (Memᴰ.head e)
mem-snoc (z ∷ zs) y (Memᴰ.tail m) = elim (mem-snoc zs y m) [
  | inl k ↦ inl (Memᴰ.tail k)
  | inr e ↦ inr e
]

pub snoc-mem {ℓ} : {A : Type ℓ} (xs : List A) (y : A) {x : A} → Memᴰ x xs → Memᴰ x (xs ++ y ∷ [])
snoc-mem [] y m = elim m [ ]
snoc-mem (z ∷ zs) y (Memᴰ.head e) = Memᴰ.head e
snoc-mem (z ∷ zs) y (Memᴰ.tail m) = Memᴰ.tail (snoc-mem zs y m)

pub snoc-last {ℓ} : {A : Type ℓ} (xs : List A) (y : A) → Memᴰ y (xs ++ y ∷ [])
snoc-last [] y = Memᴰ.head refl
snoc-last (z ∷ zs) y = Memᴰ.tail (snoc-last zs y)
