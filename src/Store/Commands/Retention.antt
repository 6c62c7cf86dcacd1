-- ===== src/Store/Commands/Retention.antt =====
-- How many commands the store retains.
use desk_control.Common.{
  suc, ◌+◌, ◌≤◌, String, List, [], ◌∷◌, none, some, lookup, insert, erase, values, lookup-insert,
  lookup-erase, insert-NodupKeys, erase-NodupKeys, values-lookup, NodupKeys, ◌≡◌, ◌≢◌, refl, sym,
  ◌∙◌, ap, arith, ◌==◌, string_eq, Bool-cases, inl, inr, All, Memᴰ, drop, length, leb, sort_by,
}
use desk_control.Domain.Command.{DeskCommand}
use desk_control.Store.{DeskStore, touch}
use desk_control.Store.Commands.{
  delete_commands, prune_commands, put_command, list_commands, max_retained_commands, issued_before,
}
use desk_control.Store.Commands.Sorting.{
  Distinct, All-sort_by, sort_by-Distinct, length-sort_by, drop-Distinct, All-drop, length-drop,
}
use desk_control.Store.Commands.Evolution.{Commands, IsKeyed}

length-values : (d : Commands) → length (values d) ≡ length d
length-values [] = refl
length-values ((i, c) ∷ d) = ap suc (length-values d)

erase-absent : (i : String) (d : Commands) → lookup i d ≡ none → erase i d ≡ d
unfolding erase lookup
erase-absent i [] e = refl
erase-absent i ((j, c) ∷ d) e = elim (Bool-cases (j == i)) [
  | inl hit ↦ ground arith
  | inr miss ↦ ground (arith, erase-absent i d)
]

length-erase :
    (i : String) (d : Commands) (c : DeskCommand)
    → NodupKeys d
    → lookup i d ≡ some c
    → suc (length (erase i d)) ≡ length d
unfolding erase lookup
length-erase i [] c h e = cc
length-erase i ((j, x) ∷ d) c h e = elim (Bool-cases (j == i)) [
  | inl hit ↦
      let gone : erase i d ≡ d = erase-absent i d (ap (λ k. lookup k d) (ground arith) ∙ h.0) in
      rw hit (ap (λ (l : Commands). suc (length l)) gone)
  | inr miss ↦ rw miss (ap suc (length-erase i d c h.1 (ground arith)))
]

abbrev Stands : Commands → DeskCommand → Type 0
Stands d c = lookup c.id d ≡ some c

length-delete_commands :
    (cs : List DeskCommand) (d : Commands)
    → NodupKeys d
    → Distinct cs
    → All (Stands d) cs
    → length (delete_commands cs d) + length cs ≡ length d
unfolding delete_commands
length-delete_commands [] d n distinct h = omega arith
length-delete_commands (c ∷ cs) d n distinct h =
    let rest =
      length-delete_commands cs (erase c.id d) (erase-NodupKeys c.id d n) distinct.1
        (still cs distinct.0 h.1) in
    let one = length-erase c.id d c n h.0 in omega (arith, rest, one)
  where
    still :
        (xs : List DeskCommand)
        → All (λ x. x.id ≢ c.id) xs
        → All (Stands d) xs
        → All (Stands (erase c.id d)) xs
    still [] a b = tt
    still (x ∷ xs) a b = (ground (arith, lookup-erase x.id c.id d, a.0, b.0), still xs a.1 b.1)

abbrev OwnIds : Commands → Type 0
OwnIds d = All (λ (e : String × DeskCommand). e.1.id ≡ e.0) d

entry-lookup :
    (d : Commands) {i : String} {c : DeskCommand}
    → NodupKeys d
    → Memᴰ (i, c) d
    → lookup i d ≡ some c
unfolding lookup
entry-lookup [] h m = elim m [ ]
entry-lookup ((j, x) ∷ d) {i} {c} h (Memᴰ.head e) =
    let same_key = ap (λ (t : String × DeskCommand). t.0) e in
    let same_value = ap (λ (t : String × DeskCommand). t.1) e in ground arith
entry-lookup ((j, x) ∷ d) {i} {c} h (Memᴰ.tail m) =
    let later = entry-lookup d {i = i} {c = c} h.1 m in
    elim (Bool-cases (j == i)) [
      | inl hit ↦
          let clash : some c ≡ none = sym later ∙ (ap (λ k. lookup k d) (ground arith) ∙ h.0) in cc
      | inr miss ↦ ground arith
    ]

entries-OwnIds :
    (d es : Commands) → ((i : String) (c : DeskCommand) → Memᴰ (i, c) es → c.id ≡ i) → OwnIds es
entries-OwnIds d [] f = tt
entries-OwnIds d ((i, c) ∷ es) f =
    (f i c (Memᴰ.head refl), entries-OwnIds d es (λ j x m. f j x (Memᴰ.tail m)))

own-lookup :
    (d : Commands) (i : String) (c : DeskCommand) → OwnIds d → lookup i d ≡ some c → c.id ≡ i
unfolding lookup
own-lookup [] i c h e = cc
own-lookup ((j, x) ∷ d) i c h e = elim (Bool-cases (j == i)) [
  | inl hit ↦ let own = h.0 in ground arith
  | inr miss ↦ own-lookup d i c h.1 (ground arith)
]

All-from {κ} :
    (P : DeskCommand → Type κ) (xs : List DeskCommand)
    → ((x : DeskCommand) → Memᴰ x xs → P x)
    → All P xs
All-from P [] f = tt
All-from P (x ∷ xs) f = (f x (Memᴰ.head refl), All-from P xs (λ y m. f y (Memᴰ.tail m)))

values-Distinct : (d : Commands) → NodupKeys d → OwnIds d → Distinct (values d)
values-Distinct [] n h = tt
values-Distinct ((i, c) ∷ d) n h = (
  All-from (λ x. x.id ≢ c.id) (values d)
      (λ x m same.
        let (k, at) = values-lookup d n.1 m in
        let there : lookup i d ≡ some x =
          ap (λ j. lookup j d) (sym h.0 ∙ sym same ∙ own-lookup d k x h.1 at) ∙ at in
        cc (sym n.0 ∙ there)),
  values-Distinct d n.1 h.1,
)

length-prune_commands_le :
    (s : DeskStore)
    → IsKeyed s.commands
    → length (prune_commands s).commands ≤ max_retained_commands
unfolding prune_commands list_commands
length-prune_commands_le s k = elim (Bool-cases (leb (length s.commands) max_retained_commands)) [
  | inl e ↦ rw (e, prune_commands) (ground arith)
  | inr e ↦
      let d = s.commands in
      let sorted = sort_by issued_before (values d) in
      let own = entries-OwnIds d d (λ i c m. k.own_id i c (entry-lookup d k.once m)) in
      let stand : All (Stands d) (values d) = All-from (Stands d) (values d) (λ x m.
        let (i, at) = values-lookup d k.once m in ap (λ j. lookup j d) (k.own_id i x at) ∙ at) in
      let left =
        length-delete_commands (drop max_retained_commands sorted) d k.once
          (drop-Distinct max_retained_commands sorted
            (sort_by-Distinct (values d) (values-Distinct d k.once own)))
          (All-drop (Stands d) max_retained_commands sorted
            (All-sort_by (Stands d) (values d) stand)) in
      rw (e, prune_commands)
        (ground (
          arith,
          left,
          length-drop max_retained_commands sorted,
          length-sort_by (values d),
          length-values d,
        ))
]

-- Where each command stands under its own id, once, at most a hundred commands are retained when a
-- command has been put.
pub length-put_command_le :
    (s : DeskStore) (c : DeskCommand)
    → IsKeyed s.commands
    → length (put_command s c).commands ≤ max_retained_commands
unfolding put_command touch
length-put_command_le s c k =
    length-prune_commands_le (record s { commands = insert c.id c s.commands })
      (record {
        own_id = λ i x e. ground (arith, lookup-insert i c.id c s.commands, k.own_id i x);
        once = insert-NodupKeys c.id c s.commands k.once;
      })
