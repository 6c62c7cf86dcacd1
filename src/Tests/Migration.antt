-- ===== src/Tests/Migration.antt =====
-- A concrete run of the theorem on the migration of a stored configuration.
use desk_control.Common.{String, [], ◌∷◌, none, some, lookup, ◌≡◌, refl}
use desk_control.Config.Migrate.{
  VersionedConfig, CustomNames, object, migrate_v1_to_v2, migrate_desk_config,
}
use desk_control.Config.Migrate.Carrying.{IsKeyed, IsMigrated, migrate_desk_config-IsMigrated}

abbrev first_names : CustomNames
first_names = record {
  computers = ("mac", some "Studio") ∷ [];
  monitors = ("left", some "") ∷ [];
  monitor_inputs = [];
  peripherals = ("keyboard", none) ∷ [];
}

abbrev first_config : VersionedConfig String
first_config = record {
  config_version = none;
  custom_names = some first_names;
  overrides = none;
  rest = "layout";
}

first_names-IsKeyed : IsKeyed first_names
unfolding lookup
first_names-IsKeyed = record {
  computers = (refl, tt);
  monitors = (refl, tt);
  monitor_inputs = tt;
  peripherals = (refl, tt);
}

migrate_desk_config-IsMigrated_example :
    (migrate_desk_config (object first_config)
      ≡ record { config = object (migrate_v1_to_v2 first_config); applied = 1 ∷ [] })
    × IsMigrated first_config (migrate_v1_to_v2 first_config)
    × (migrate_desk_config (object (migrate_v1_to_v2 first_config))
        ≡ record { config = object (migrate_v1_to_v2 first_config); applied = [] })
migrate_desk_config-IsMigrated_example =
    migrate_desk_config-IsMigrated first_config refl first_names-IsKeyed
