-- ===== src/Common/Maps.antt =====
-- `Map` and plain objects used as maps: association lists in insertion order.
-- `insert` is `m.set(k, v)`, which keeps the place of a key that is there, and `erase` is `delete`.
use mathlib.Core.Path.{◌≡◌, refl, sym, ap, ◌∙◌}
use mathlib.Core.Logic.{inl, inr}
use mathlib.Core.Option
use mathlib.Core.Option.{Option, none, some, none-ne-some}
use mathlib.Core.List.{List, [], ◌∷◌, Memᴰ}
use native.Mathlib.Omega.{arith}
use desk_control.Common.Equality.{Eq, ◌==◌, if◌then◌else◌, Bool-cases}

abbrev pub Dict {ℓ κ} : Type ℓ → Type κ → Type (ℓ ⊔ κ)
Dict K V = List (K × V)

abbrev pub keys {ℓ κ} : {K : Type ℓ} {V : Type κ} → Dict K V → List K
keys [] = []
keys ((k, _) ∷ d) = k ∷ keys d

abbrev pub values {ℓ κ} : {K : Type ℓ} {V : Type κ} → Dict K V → List V
values [] = []
values ((_, v) ∷ d) = v ∷ values d

module _ {ℓ κ} {K : Type ℓ} {V : Type κ} ⦃e : Eq K⦄ where
  unfoldable pub lookup : K → Dict K V → Option V
  lookup k [] = none
  lookup k ((j, v) ∷ d) = if j == k then some v else lookup k d

  unfoldable pub insert : K → V → Dict K V → Dict K V
  insert k v [] = (k, v) ∷ []
  insert k v ((j, w) ∷ d) = if j == k then (k, v) ∷ d else (j, w) ∷ insert k v d

  -- Every entry of the key goes; a real map has at most one.
  unfoldable pub erase : K → Dict K V → Dict K V
  erase k [] = []
  erase k ((j, w) ∷ d) = let rest = erase k d in if j == k then rest else (j, w) ∷ rest

  -- `{ ...m[k] }` where the entry is changed in place, if it is there.
  abbrev pub NodupKeys : Dict K V → Type κ
  NodupKeys [] = Unit
  NodupKeys ((k, _) ∷ d) = (lookup k d ≡ none) × NodupKeys d

  pub lookup-insert :
      (j k : K) (v : V) (d : Dict K V)
      → lookup j (insert k v d) ≡ (if k == j then some v else lookup j d)
  unfolding insert lookup
  lookup-insert j k v [] = ground arith
  lookup-insert j k v (_ ∷ d) = ground (arith, lookup-insert j k v d)

  pub lookup-erase :
      (j k : K) (d : Dict K V) → lookup j (erase k d) ≡ (if k == j then none else lookup j d)
  unfolding erase lookup
  lookup-erase j k [] = ground arith
  lookup-erase j k (_ ∷ d) = ground (arith, lookup-erase j k d)

  pub insert-NodupKeys : (k : K) (v : V) (d : Dict K V) → NodupKeys d → NodupKeys (insert k v d)
  unfolding insert lookup
  insert-NodupKeys k v [] h = (refl, tt)
  insert-NodupKeys k v ((j, w) ∷ d) h =
      ground (arith, insert-NodupKeys k v d h.1, lookup-insert j k v d)

  pub erase-NodupKeys : (k : K) (d : Dict K V) → NodupKeys d → NodupKeys (erase k d)
  unfolding erase
  erase-NodupKeys k [] h = tt
  erase-NodupKeys k ((j, w) ∷ d) h = ground (arith, erase-NodupKeys k d h.1, lookup-erase j k d)

  -- The entry of `k` is changed in place, where there is one.
  unfoldable pub modify : K → (V → V) → Dict K V → Dict K V
  modify k f [] = []
  modify k f ((j, w) ∷ d) = if j == k then (j, f w) ∷ d else (j, w) ∷ modify k f d

  pub lookup-modify :
      (j k : K) (f : V → V) (d : Dict K V)
      → lookup j (modify k f d) ≡ (if k == j then Option.map f (lookup j d) else lookup j d)
  unfolding modify lookup
  lookup-modify j k f [] = ground arith
  lookup-modify j k f (_ ∷ d) = ground (arith, lookup-modify j k f d)

  pub modify-NodupKeys : (k : K) (f : V → V) (d : Dict K V) → NodupKeys d → NodupKeys (modify k f d)
  unfolding modify
  modify-NodupKeys k f [] h = tt
  modify-NodupKeys k f ((j, w) ∷ d) h =
      ground (arith, modify-NodupKeys k f d h.1, lookup-modify j k f d)

  pub lookup-values : (i : K) (d : Dict K V) {v : V} → lookup i d ≡ some v → Memᴰ v (values d)
  unfolding lookup
  lookup-values i [] e = cc
  lookup-values i ((j, w) ∷ d) {v} e = elim (Bool-cases (j == i)) [
    | inl here ↦ Memᴰ.head (ground arith)
    | inr later ↦ Memᴰ.tail (lookup-values i d (ground arith))
  ]

  pub values-lookup :
      (d : Dict K V) {v : V} → NodupKeys d → Memᴰ v (values d) → (i : K) × (lookup i d ≡ some v)
  unfolding lookup
  values-lookup [] h m = elim m [ ]
  values-lookup ((j, w) ∷ d) h (Memᴰ.head e) = (j, ground arith)
  values-lookup ((j, w) ∷ d) {v} h (Memᴰ.tail m) =
      let (i, e) = values-lookup d h.1 m in
      (
        i,
        elim (Bool-cases (j == i)) [
          | inl same ↦ absurd (none-ne-some v (sym h.0 ∙ (ap (λ k. lookup k d) (ground arith) ∙ e)))
          | inr other ↦ ground arith
        ],
      )
