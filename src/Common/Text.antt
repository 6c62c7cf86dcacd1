-- ===== src/Common/Text.antt =====
-- Methods of JavaScript's strings, character by character.
use Prim.Native.Char.{Char, code}
use Prim.Native.Nat.{ℕ, zero, suc, ◌+◌, ◌/◌, ◌%◌}
use Prim.Native.String.{String, [], ◌∷◌, ◌++◌}
use mathlib.Core.Option.{Option, none, some}
use desk_control.Common.Equality.{if◌then◌else◌, ◌==◌, nat_eq}

lower_in : String → String → Char → Char
lower_in (u ∷ us) (l ∷ ls) c = if code u == code c then l else lower_in us ls c
lower_in _ _ c = c

-- `toLowerCase` on ASCII letters; other characters are kept. The texts that it is used on are the
-- hexadecimal ids of USB devices.
unfoldable pub to_lower_case : String → String
unfolding lower_in
to_lower_case [] = []
to_lower_case (c ∷ s) =
    lower_in "ABCDEFGHIJKLMNOPQRSTUVWXYZ" "abcdefghijklmnopqrstuvwxyz" c ∷ to_lower_case s

strip : String → String → Option String
strip [] s = some s
strip (c ∷ p) [] = none
strip (c ∷ p) (d ∷ s) = let rest = strip p s in if code c == code d then rest else none

-- `s.replace(/^p/, '')`
unfoldable pub strip_prefix : String → String → String
unfolding strip
strip_prefix p s = elim (strip p s) [ none ↦ s | some rest ↦ rest ]

digit : ℕ → String
digit zero = "0"
digit (suc zero) = "1"
digit (suc (suc zero)) = "2"
digit (suc (suc (suc zero))) = "3"
digit (suc (suc (suc (suc zero)))) = "4"
digit (suc (suc (suc (suc (suc zero))))) = "5"
digit (suc (suc (suc (suc (suc (suc zero)))))) = "6"
digit (suc (suc (suc (suc (suc (suc (suc zero))))))) = "7"
digit (suc (suc (suc (suc (suc (suc (suc (suc zero)))))))) = "8"
digit _ = "9"

decimal_from : ℕ → ℕ → String
decimal_from zero n = []
decimal_from (suc fuel) n =
    let front = decimal_from fuel (n / 10) in
    if n / 10 == 0 then digit (n % 10) else front ++ digit (n % 10)

-- A number in a template string. A number has at most as many digits as its value plus one.
unfoldable pub decimal : ℕ → String
unfolding decimal_from digit
decimal n = decimal_from (n + 1) n

before_last_colon_from : String → Option (String × String)
before_last_colon_from [] = none
before_last_colon_from (c ∷ s) = elim (before_last_colon_from s) [
  | some (a, b) ↦ some (c ∷ a, b)
  | none ↦ if code c == b':' then some ([], s) else none
]

-- The text cut at its last colon, for a colon behind at least one character: `lastIndexOf(':') > 0`.
unfoldable pub split_last_colon : String → Option (String × String)
unfolding before_last_colon_from
split_last_colon s = elim (before_last_colon_from s) [
  | none ↦ none
  | some (a, b) ↦ elim a [ [] ↦ none | c ∷ r ↦ some (c ∷ r, b) ]
]
