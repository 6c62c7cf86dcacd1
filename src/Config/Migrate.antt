-- ===== src/Config/Migrate.antt =====
-- packages/config/src/migrate.ts: a stored configuration of an older version, before validation. What the
-- migration passes over is a parameter J; `customNames` has the shape that the code casts it to, where
-- a name that is not a text is absent, and a version is a natural number.
pub mod Carrying
use desk_control.Common.{
  ℕ, zero, suc, ◌+◌, ◌-◌, String, Bool, List, [], ◌∷◌, ◌++◌, Option, none, some, Dict, insert, ltb,
  ◌==◌, truthy, string_eq, nat_eq, if◌then◌else◌,
}
use desk_control.Config.{EntityOverride}
use desk_control.Store.{or_else}

abbrev pub current_config_version : ℕ
current_config_version = 2

abbrev pub Names : Type 0
Names = Dict String (Option String)

pub record CustomNames : Type 0 where
  pub computers : Names
  pub monitors : Names
  pub monitor_inputs : Names
  pub peripherals : Names

pub record VersionedConfig (J : Type 0) : Type 0 where
  pub config_version : Option ℕ
  pub custom_names : Option CustomNames
  pub overrides : Option (Dict String EntityOverride)
  pub rest : J

pub data RawConfig (J : Type 0) : Type 0 where
  object : VersionedConfig J → RawConfig J
  other : J → RawConfig J

pub record MigrationResult (J : Type 0) : Type 0 where
  pub config : RawConfig J
  pub applied : List ℕ

abbrev pub no_names : CustomNames
no_names = record { computers = []; monitors = []; monitor_inputs = []; peripherals = [] }

abbrev pub named : String → EntityOverride
named name = record { custom_name = some name; icon = none; colorway = none }

abbrev pub take_name :
    String → Option String → Dict String EntityOverride → Dict String EntityOverride
take_name id name overrides = elim (truthy name) [
  | none ↦ overrides
  | some custom_name ↦ insert id (named custom_name) overrides
]

unfoldable pub take_names : Names → Dict String EntityOverride → Dict String EntityOverride
take_names [] overrides = overrides
take_names ((id, name) ∷ names) overrides = take_names names (take_name id name overrides)

unfoldable pub overrides_from : CustomNames → Dict String EntityOverride
unfolding take_names
overrides_from names =
    take_names names.peripherals
      (take_names names.monitor_inputs (take_names names.monitors (take_names names.computers [])))

module _ {J : Type 0} where
  unfoldable pub migrate_v1_to_v2 : VersionedConfig J → VersionedConfig J
  unfolding overrides_from
  migrate_v1_to_v2 config = record config {
    config_version = some 2;
    custom_names = none;
    overrides = some (overrides_from (or_else config.custom_names no_names));
  }

  -- `STEPS[version]`
  abbrev pub step_from : ℕ → Option (VersionedConfig J → VersionedConfig J)
  step_from version = if version == 1 then some migrate_v1_to_v2 else none

  -- The loop, with a round for each version that is missing.
  unfoldable pub run_steps : ℕ → ℕ → VersionedConfig J → List ℕ → MigrationResult J
  run_steps zero version config applied = record { config = object config; applied = applied }
  run_steps (suc rounds) version config applied = elim (step_from version) [
    | none ↦ record { config = object config; applied = applied }
    | some step ↦ run_steps rounds (version + 1) (step config) (applied ++ version ∷ [])
  ]

  unfoldable pub migrate_desk_config : RawConfig J → MigrationResult J
  unfolding run_steps
  migrate_desk_config (other raw) = record { config = other raw; applied = [] }
  migrate_desk_config (object config) =
      let version = or_else config.config_version 1 in
      run_steps (current_config_version - version) version config []
