-- ===== src/Store/Commands.antt =====
-- desk-store.ts, "Commands": the retained commands, newest first, a hundred at most.
pub mod Evolution
pub mod Sorting
pub mod Retention
use desk_control.Common.{
  ℕ, String, Bool, List, [], ◌∷◌, none, some, Dict, lookup, insert, erase, values, length, drop,
  sort_by, ltb, leb, string_eq, if◌then◌else◌,
}
use desk_control.Domain.Command.{DeskCommand}
use desk_control.Store.{DeskStore, touch}

abbrev pub max_retained_commands : ℕ
max_retained_commands = 100

-- `b.issuedAt.localeCompare(a.issuedAt)`: the newest first.
abbrev pub issued_before : DeskCommand → DeskCommand → Bool
issued_before a b = ltb b.issued_at a.issued_at

unfoldable pub list_commands : DeskStore → List DeskCommand
list_commands s = sort_by issued_before (values s.commands)

unfoldable pub delete_commands :
    List DeskCommand → Dict String DeskCommand → Dict String DeskCommand
delete_commands [] d = d
delete_commands (c ∷ cs) d = delete_commands cs (erase c.id d)

unfoldable pub prune_commands : DeskStore → DeskStore
unfolding list_commands delete_commands
prune_commands s = if leb (length s.commands) max_retained_commands then s else record s {
  commands = delete_commands (drop max_retained_commands (list_commands s)) s.commands;
}

unfoldable pub put_command : DeskStore → DeskCommand → DeskStore
unfolding prune_commands
put_command s command =
    touch (prune_commands (record s { commands = insert command.id command s.commands }))

-- The patch is the function that writes its fields; `updatedAt` is written last. An unknown id is
-- ignored, and the revision is left alone.
unfoldable pub update_command : DeskStore → ℕ → String → (DeskCommand → DeskCommand) → DeskStore
update_command s now id patch = elim (lookup id s.commands) [
  | none ↦ s
  | some existing ↦
      touch (record s {
        commands = insert id (record (patch existing) { updated_at = now }) s.commands;
      })
]
