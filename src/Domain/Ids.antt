-- ===== src/Domain/Ids.antt =====
-- packages/domain/src/ids.ts. What `slugify` takes from Unicode is a parameter: the normal form
-- NFKD, the classes Letter and Number, and lower case.
use Prim.Native.Char.{Char, code}
use desk_control.Common.{String, Bool, true, false, ◌<>◌, ◌==◌, nat_eq, if◌then◌else◌}

pub record Unicode : Type 0 where
  pub normalize_nfkd : String → String
  pub is_letter_or_number : Char → Bool
  pub to_lower : String → String

-- Each run of other characters becomes one dash; `in_run` says that one is open.
dash_runs : Unicode → Bool → String → String
dash_runs u in_run String.[] = String.[]
dash_runs u in_run (String.◌∷◌ c s) =
    let inside = dash_runs u true s in
    let outside = dash_runs u false s in
    if u.is_letter_or_number c
    then String.◌∷◌ c outside
    else if in_run
    then inside
    else "-" <> inside

drop_dashes : String → String
drop_dashes String.[] = String.[]
drop_dashes (String.◌∷◌ c s) =
    let rest = drop_dashes s in if code c == b'-' then rest else String.◌∷◌ c s

drop_last_dashes : String → String
drop_last_dashes String.[] = String.[]
drop_last_dashes (String.◌∷◌ c s) = elim (drop_last_dashes s) [
  | String.[] ↦ if code c == b'-' then String.[] else String.◌∷◌ c String.[]
  | String.◌∷◌ d r ↦ String.◌∷◌ c (String.◌∷◌ d r)
]

unfoldable pub slugify : Unicode → String → String
unfolding dash_runs drop_dashes drop_last_dashes
slugify u value =
    u.to_lower (drop_last_dashes (drop_dashes (dash_runs u false (u.normalize_nfkd value))))
