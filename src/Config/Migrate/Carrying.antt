-- ===== src/Config/Migrate/Carrying.antt =====
-- The migration carries every name over, and is done once.
use native.Mathlib.Decide.{ℕ_discrete}
use desk_control.Common.{
  String, [], ◌∷◌, Option, none, some, Dict, lookup, NodupKeys, lookup-insert, truthy, ◌==◌,
  string_eq, nat_eq, ◌≡◌, refl, ap, ◌∙◌, inl, inr, arith, Bool-cases, Option-cases, if◌then◌else◌,
}
use desk_control.Config.{EntityOverride}
use desk_control.Config.Migrate.{
  Names, CustomNames, VersionedConfig, object, no_names, named, take_name, take_names,
  overrides_from, migrate_v1_to_v2, run_steps, migrate_desk_config,
}
use desk_control.Store.{or_else}

-- The name that a bucket has for an id: a text that is not empty.
abbrev pub name_in : String → Names → Option String
name_in id names = elim (lookup id names) [ none ↦ none | some name ↦ truthy name ]

abbrev pub first_of {ℓ} : {A : Type ℓ} → Option A → Option A → Option A
first_of none b = b
first_of (some a) b = some a

-- Of the buckets that name an id, the last one counts.
abbrev pub name_of : String → CustomNames → Option String
name_of id names = first_of (name_in id names.peripherals) (
    first_of (name_in id names.monitor_inputs)
      (first_of (name_in id names.monitors) (name_in id names.computers)))

abbrev pub as_override : Option String → Option EntityOverride
as_override none = none
as_override (some name) = some (named name)

pub record IsKeyed (names : CustomNames) : Type 0 where
  pub computers : NodupKeys names.computers
  pub monitors : NodupKeys names.monitors
  pub monitor_inputs : NodupKeys names.monitor_inputs
  pub peripherals : NodupKeys names.peripherals

lookup-take_name :
    (id j : String) (name : Option String) (o : Dict String EntityOverride)
    → lookup id (take_name j name o)
      ≡ (if j == id then first_of (as_override (truthy name)) (lookup id o) else lookup id o)
lookup-take_name id j name o = elim (Option-cases (truthy name)) [
  | inl e ↦ ground arith
  | inr (n, e) ↦ ground (arith, lookup-insert id j (named n) o)
]

lookup-take_names :
    (id : String) (names : Names) (o : Dict String EntityOverride)
    → NodupKeys names
    → lookup id (take_names names o) ≡ first_of (as_override (name_in id names)) (lookup id o)
unfolding take_names lookup
lookup-take_names id [] o h = refl
lookup-take_names id ((j, name) ∷ names) o h =
    lookup-take_names id names (take_name j name o) h.1 ∙ elim (Bool-cases (j == id)) [
      | inl here ↦
          ap (first_of (as_override (name_in id names))) (lookup-take_name id j name o)
          ∙ ground (arith, h.0, here)
      | inr away ↦
          ap (first_of (as_override (name_in id names))) (lookup-take_name id j name o)
          ∙ ground (arith, away)
    ]

first_of-as_override :
    (a b : Option String) → first_of (as_override a) (as_override b) ≡ as_override (first_of a b)
first_of-as_override none b = refl
first_of-as_override (some a) b = refl

carried :
    (id : String) (names : Names) (o : Dict String EntityOverride) (before : Option String)
    → NodupKeys names
    → lookup id o ≡ as_override before
    → lookup id (take_names names o) ≡ as_override (first_of (name_in id names) before)
carried id names o before h e =
    lookup-take_names id names o h
    ∙ ap (first_of (as_override (name_in id names))) e
    ∙ first_of-as_override (name_in id names) before

first_of-none : (a : Option String) → first_of a none ≡ a
first_of-none none = refl
first_of-none (some a) = refl

overrides_lem :
    (names : CustomNames) (id : String)
    → IsKeyed names
    → lookup id (overrides_from names) ≡ as_override (name_of id names)
unfolding overrides_from lookup
overrides_lem names id k = carried id names.peripherals _ _ k.peripherals (
    carried id names.monitor_inputs _ _ k.monitor_inputs (
      carried id names.monitors _ _ k.monitors (
        carried id names.computers [] none k.computers refl
        ∙ ap as_override (first_of-none (name_in id names.computers)))))

module _ {J : Type 0} where
  -- A version 2 of the old configuration, with an override for each name.
  pub record IsMigrated (old new : VersionedConfig J) : Type 0 where
    version : new.config_version ≡ some 2
    dropped : new.custom_names ≡ none
    kept : new.rest ≡ old.rest
    named :
        (id : String)
        → lookup id (or_else new.overrides [])
          ≡ as_override (name_of id (or_else old.custom_names no_names))

  -- A configuration of version 1, or without a version, becomes one of version 2 by the one step: its
  -- maps of custom names are gone, an id has an override exactly if one of the maps has a text for it that
  -- is not empty, namely the text of the last such map in the order computers, monitors, inputs,
  -- peripherals, and the rest is as before. Migrating the result again applies no step and changes
  -- nothing. It is assumed that a map has each key once.
  pub migrate_desk_config-IsMigrated :
      (old : VersionedConfig J)
      → or_else old.config_version 1 ≡ 1
      → IsKeyed (or_else old.custom_names no_names)
      → let new = migrate_v1_to_v2 old in
        (migrate_desk_config (object old) ≡ record { config = object new; applied = 1 ∷ [] })
        × IsMigrated old new
        × (migrate_desk_config (object new) ≡ record { config = object new; applied = [] })
  unfolding migrate_desk_config run_steps migrate_v1_to_v2 nat_eq ℕ_discrete
  migrate_desk_config-IsMigrated old first keyed = (
    rw (first, migrate_desk_config) refl,
    record {
      version = refl;
      dropped = refl;
      kept = refl;
      named = λ id. overrides_lem (or_else old.custom_names no_names) id keyed;
    },
    refl,
  )
