-- ===== src/Store/Commands/Sorting.antt =====
-- The list of commands, newest first: sorting and cutting it keeps what it says.
use desk_control.Common.{
  ℕ, zero, suc, ◌-◌, List, [], ◌∷◌, ◌≡◌, ◌≢◌, refl, sym, ◌∙◌, ap, arith, string_eq, Bool-cases, inl,
  inr, All, drop, length, insert_sorted, sort_by,
}
use desk_control.Domain.Command.{DeskCommand}
use desk_control.Store.Commands.{issued_before}

All-sorted_in {κ} :
    (P : DeskCommand → Type κ) (x : DeskCommand) (ys : List DeskCommand)
    → P x
    → All P ys
    → All P (insert_sorted issued_before x ys)
All-sorted_in P x [] px h = (px, tt)
All-sorted_in P x (y ∷ ys) px h = elim (Bool-cases (issued_before y x)) [
  | inl e ↦ rw e (h.0, All-sorted_in P x ys px h.1)
  | inr e ↦ rw e (px, h)
]

pub All-sort_by {κ} :
    (P : DeskCommand → Type κ) (xs : List DeskCommand) → All P xs → All P (sort_by issued_before xs)
All-sort_by P [] h = tt
All-sort_by P (x ∷ xs) h = All-sorted_in P x (sort_by issued_before xs) h.0 (All-sort_by P xs h.1)

abbrev pub Distinct : List DeskCommand → Type 0
Distinct [] = Unit
Distinct (c ∷ cs) = All (λ x. x.id ≢ c.id) cs × Distinct cs

insert_sorted-Distinct :
    (x : DeskCommand) (ys : List DeskCommand)
    → All (λ y. y.id ≢ x.id) ys
    → Distinct ys
    → Distinct (insert_sorted issued_before x ys)
insert_sorted-Distinct x [] h d = (tt, tt)
insert_sorted-Distinct x (y ∷ ys) h d = elim (Bool-cases (issued_before y x)) [
  | inl e ↦ rw e (
    All-sorted_in (λ z. z.id ≢ y.id) x ys (λ s. h.0 (sym s)) d.0,
    insert_sorted-Distinct x ys h.1 d.1,
  )
  | inr e ↦ rw e (h, d)
]

pub sort_by-Distinct : (xs : List DeskCommand) → Distinct xs → Distinct (sort_by issued_before xs)
sort_by-Distinct [] d = tt
sort_by-Distinct (x ∷ xs) d =
    insert_sorted-Distinct x (sort_by issued_before xs) (All-sort_by (λ y. y.id ≢ x.id) xs d.0)
      (sort_by-Distinct xs d.1)

length-insert_sorted :
    (x : DeskCommand) (ys : List DeskCommand)
    → length (insert_sorted issued_before x ys) ≡ suc (length ys)
length-insert_sorted x [] = refl
length-insert_sorted x (y ∷ ys) = elim (Bool-cases (issued_before y x)) [
  | inl e ↦ rw e (ap suc (length-insert_sorted x ys))
  | inr e ↦ rw e refl
]

pub length-sort_by : (xs : List DeskCommand) → length (sort_by issued_before xs) ≡ length xs
length-sort_by [] = refl
length-sort_by (x ∷ xs) =
    length-insert_sorted x (sort_by issued_before xs) ∙ ap suc (length-sort_by xs)

pub drop-Distinct : (n : ℕ) (xs : List DeskCommand) → Distinct xs → Distinct (drop n xs)
drop-Distinct zero xs d = d
drop-Distinct (suc n) [] d = tt
drop-Distinct (suc n) (x ∷ xs) d = drop-Distinct n xs d.1

pub All-drop {κ} :
    (P : DeskCommand → Type κ) (n : ℕ) (xs : List DeskCommand) → All P xs → All P (drop n xs)
All-drop P zero xs h = h
All-drop P (suc n) [] h = tt
All-drop P (suc n) (x ∷ xs) h = All-drop P n xs h.1

pub length-drop : (n : ℕ) (xs : List DeskCommand) → length (drop n xs) ≡ length xs - n
length-drop zero xs = omega arith
length-drop (suc n) [] = omega arith
length-drop (suc n) (x ∷ xs) = omega (arith, length-drop n xs)
