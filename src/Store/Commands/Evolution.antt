-- ===== src/Store/Commands/Evolution.antt =====
-- How the map of commands may change: nothing comes to be in flight but what was.
use desk_control.Common.{
  ℕ, String, true, List, [], ◌∷◌, none, some, Dict, lookup, insert, erase, lookup-insert,
  lookup-erase, insert-NodupKeys, erase-NodupKeys, NodupKeys, ◌≡◌, ◌⊎◌, inl, inr, refl, sym, ◌∙◌,
  ap, arith, ◌==◌, string_eq, Option-cases, Bool-cases, drop, length, leb,
}
use desk_control.Domain.Command.{DeskCommand, is_in_flight, command_target_key}
use desk_control.Store.{DeskStore, touch}
use desk_control.Store.Commands.{
  delete_commands, prune_commands, update_command, list_commands, max_retained_commands,
}

abbrev pub Commands : Type 0
Commands = Dict String DeskCommand

-- Each command stands under its own id, once.
pub record IsKeyed (d : Commands) : Type 0 where
  pub own_id : (i : String) (c : DeskCommand) → lookup i d ≡ some c → c.id ≡ i
  pub once : NodupKeys d

abbrev pub Flies : Commands → String → DeskCommand → Type 0
Flies d i c = (lookup i d ≡ some c) × (is_in_flight c.status ≡ true)

-- Of two commands in flight, no two act on one target.
abbrev pub HasOnePerTarget : Commands → Type 0
HasOnePerTarget d =
    (i j : String) (c e : DeskCommand)
    → Flies d i c
    → Flies d j e
    → command_target_key c.payload ≡ command_target_key e.payload
    → i ≡ j

pub record Shrinks (d d' : Commands) : Type 0 where
  pub keyed : IsKeyed d → IsKeyed d'
  pub flew :
      (i : String) (c' : DeskCommand)
      → Flies d' i c'
      → (c : DeskCommand) × Flies d i c × (c.payload ≡ c'.payload)

pub Shrinks-refl : (d : Commands) → Shrinks d d
Shrinks-refl d = record { keyed = λ k. k; flew = λ i c f. (c, f, refl) }

pub Shrinks-trans : {d e f : Commands} → Shrinks d e → Shrinks e f → Shrinks d f
Shrinks-trans p q = record {
  keyed = λ k. q.keyed (p.keyed k);
  flew = λ i c h.
      let (c1, f1, e1) = q.flew i c h in let (c2, f2, e2) = p.flew i c1 f1 in (c2, f2, e2 ∙ e1);
}

pub Shrinks-HasOnePerTarget :
    {d d' : Commands} → Shrinks d d' → HasOnePerTarget d → HasOnePerTarget d'
Shrinks-HasOnePerTarget s u i j c e fc fe same =
    let (c1, f1, p1) = s.flew i c fc in
    let (e1, g1, q1) = s.flew j e fe in
    u i j c1 e1 f1 g1 (ap command_target_key p1 ∙ (same ∙ sym (ap command_target_key q1)))

-- Writing over the command under `id` by one with its id and payload, in flight only if it was.
pub insert-Shrinks :
    (d : Commands) (id : String) (x y : DeskCommand)
    → lookup id d ≡ some x
    → y.id ≡ x.id
    → y.payload ≡ x.payload
    → (is_in_flight y.status ≡ true → is_in_flight x.status ≡ true)
    → Shrinks d (insert id y d)
insert-Shrinks d id x y here same_id same_payload lives = record {
  keyed = λ k. record {
    own_id = λ i c e. ground (arith, lookup-insert i id y d, k.own_id i c, k.own_id id x here);
    once = insert-NodupKeys id y d k.once;
  };
  flew = λ i c' (e, f). elim (Bool-cases (id == i)) [
    | inl hit ↦ (
      x,
      (ground arith, lives (ground (arith, lookup-insert i id y d))),
      ground (arith, lookup-insert i id y d),
    )
    | inr miss ↦ (c', (ground (arith, lookup-insert i id y d), f), refl)
  ];
}

pub erase-Shrinks : (d : Commands) (id : String) → Shrinks d (erase id d)
erase-Shrinks d id = record {
  keyed = λ k. record {
    own_id = λ i c e. ground (arith, lookup-erase i id d, k.own_id i c);
    once = erase-NodupKeys id d k.once;
  };
  flew = λ i c' (e, f). (c', (ground (arith, lookup-erase i id d), f), refl);
}

pub delete_commands-Shrinks :
    (cs : List DeskCommand) (d : Commands) → Shrinks d (delete_commands cs d)
unfolding delete_commands
delete_commands-Shrinks [] d = Shrinks-refl d
delete_commands-Shrinks (c ∷ cs) d =
    Shrinks-trans (erase-Shrinks d c.id) (delete_commands-Shrinks cs (erase c.id d))

-- Deleting takes entries away and changes none.
pub lookup-delete_commands :
    (cs : List DeskCommand) (d : Commands) (i : String)
    → (lookup i (delete_commands cs d) ≡ none) ⊎ (lookup i (delete_commands cs d) ≡ lookup i d)
unfolding delete_commands
lookup-delete_commands [] d i = inr refl
lookup-delete_commands (c ∷ cs) d i =
    ground (arith, lookup-delete_commands cs (erase c.id d) i, lookup-erase i c.id d)

module _ (s : DeskStore) where
  pub prune_commands-Shrinks : Shrinks s.commands (prune_commands s).commands
  unfolding prune_commands
  prune_commands-Shrinks = elim (Bool-cases (leb (length s.commands) max_retained_commands)) [
    | inl few ↦ rw few (Shrinks-refl _)
    | inr many ↦
        rw many (delete_commands-Shrinks (drop max_retained_commands (list_commands s)) s.commands)
  ]

  pub lookup-prune_commands :
      (i : String)
      → (lookup i (prune_commands s).commands ≡ none)
        ⊎ (lookup i (prune_commands s).commands ≡ lookup i s.commands)
  unfolding prune_commands
  lookup-prune_commands i = elim (Bool-cases (leb (length s.commands) max_retained_commands)) [
    | inl few ↦ rw few (inr refl)
    | inr many ↦
        rw many (lookup-delete_commands (drop max_retained_commands (list_commands s)) s.commands i)
  ]

  -- A patch that keeps the id and the payload, and revives nothing.
  pub update_command-Shrinks :
      (now : ℕ) (id : String) (patch : DeskCommand → DeskCommand)
      → ((x : DeskCommand)
          → lookup id s.commands ≡ some x
          → ((patch x).id ≡ x.id)
            × ((patch x).payload ≡ x.payload)
            × (is_in_flight (patch x).status ≡ true → is_in_flight x.status ≡ true))
      → Shrinks s.commands (update_command s now id patch).commands
  unfolding update_command touch
  update_command-Shrinks now id patch fine = elim (Option-cases (lookup id s.commands)) [
    | inl e ↦ rw (e, update_command) (Shrinks-refl _)
    | inr (x, e) ↦
        let (same_id, same_payload, lives) = fine x e in
        rw (e, update_command)
          (insert-Shrinks s.commands id x (record (patch x) { updated_at = now }) e same_id
            same_payload lives)
  ]
