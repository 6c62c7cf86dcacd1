-- ===== src/Store/Editing.antt =====
-- desk-store.ts, "Names": presentation overrides, placements, wiring and declared computers.
pub mod Wiring
use desk_control.Common.{
  ℤ, pos, negsuc, suc, ◌+◌, ◌-◌, nat_eq, ◌*◌, ◌/◌, max_ℤ, ◌+ℤ◌, String, Bool, true, false, ◌&&◌,
  ◌||◌, not, List, [], ◌∷◌, ◌++◌, Option, none, some, Dict, lookup, insert, erase, modify, ◌==◌,
  any, filter_bool, ◌<>◌, split_last_colon, string_eq, option_eq, if◌then◌else◌,
}
use desk_control.Config.{EntityOverride, ManualComputer}
use desk_control.Domain.Device.{Platform, display_name}
use desk_control.Domain.Ids.{Unicode, slugify}
use desk_control.Domain.Monitor.{Monitor, MonitorInput, Placement, Grid}
use desk_control.Domain.Peripheral.{Peripheral}
use desk_control.Domain.Preset.{Preset}
use desk_control.Store.{
  DeskStore, mark_config_dirty, override_for, change_computer, declare_manual, or_else,
}
use desk_control.Store.Presets.{preset_taken, change_preset}

abbrev is_there {ℓ} : {A : Type ℓ} → Option A → Bool
is_there none = false
is_there (some a) = true

abbrev pub has_input : Option Monitor → String → Bool
has_input none input_id = false
has_input (some m) input_id = any (λ (i : MonitorInput). i.id == input_id) m.inputs

abbrev input_exists : DeskStore → Option (String × String) → Bool
input_exists s none = false
input_exists s (some (monitor_id, input_id)) = has_input (lookup monitor_id s.monitors) input_id

unfoldable pub entity_exists : DeskStore → String → Bool
entity_exists s id =
    is_there (lookup id s.computers)
    || is_there (lookup id s.monitors)
    || any (λ (p : Peripheral). p.id == id) s.config.peripherals
    || preset_taken s.config.presets id
    || input_exists s (split_last_colon id)

unfoldable pub change_peripheral :
    String → (Peripheral → Peripheral) → List Peripheral → List Peripheral
change_peripheral id f [] = []
change_peripheral id f (p ∷ ps) = if p.id == id then f p ∷ ps else p ∷ change_peripheral id f ps

unfoldable pub change_input :
    String → (MonitorInput → MonitorInput) → List MonitorInput → List MonitorInput
change_input id f [] = []
change_input id f (i ∷ is) = if i.id == id then f i ∷ is else i ∷ change_input id f is

abbrev rename_input : DeskStore → Option String → Option (String × String) → DeskStore
rename_input s custom_name none = s
rename_input s custom_name (some (monitor_id, input_id)) = record s {
  monitors =
      modify monitor_id
        (λ (m : Monitor). record m {
          inputs =
              change_input input_id (λ (i : MonitorInput). record i { custom_name = custom_name })
                m.inputs;
        })
        s.monitors;
}

unfoldable pub apply_override : DeskStore → String → EntityOverride → DeskStore
unfolding change_peripheral change_input
apply_override s id override =
    if is_there (lookup id s.computers)
    then change_computer s id (λ computer. record computer {
      custom_name = override.custom_name;
      appearance = record { icon = override.icon; colorway = override.colorway };
    })
    else if is_there (lookup id s.monitors)
    then record s {
      monitors =
          modify id (λ (m : Monitor). record m { custom_name = override.custom_name }) s.monitors;
    }
    else if any (λ (p : Peripheral). p.id == id) s.config.peripherals
    then record s {
      config = record (s.config) {
        peripherals =
            change_peripheral id
              (λ (p : Peripheral). record p { custom_name = override.custom_name })
              s.config.peripherals;
      };
    }
    else if preset_taken s.config.presets id
    then record s {
      config = record (s.config) {
        presets =
            change_preset id (λ (p : Preset). record p { custom_name = override.custom_name })
              s.config.presets;
      };
    }
    else rename_input s override.custom_name (split_last_colon id)

-- A field of the patch is `none` where the source's is undefined.
pub record OverridePatch : Type 0 where
  pub custom_name : Option (Option String)
  pub icon : Option (Option String)
  pub colorway : Option (Option String)

abbrev pub patched : OverridePatch → EntityOverride → EntityOverride
patched patch o = record {
  custom_name = or_else patch.custom_name o.custom_name;
  icon = or_else patch.icon o.icon;
  colorway = or_else patch.colorway o.colorway;
}

abbrev pub is_blank : EntityOverride → Bool
is_blank o = not (is_there o.custom_name) && not (is_there o.icon) && not (is_there o.colorway)

unfoldable pub set_override : DeskStore → String → OverridePatch → DeskStore × Bool
unfolding apply_override entity_exists
set_override s id patch =
    let next = patched patch (override_for s id) in
    let overrides =
      if is_blank next then erase id s.config.overrides else insert id next s.config.overrides in
    let stored = record s { config = record (s.config) { overrides = overrides } } in
    if entity_exists s id
    then (mark_config_dirty (apply_override stored id next), true)
    else (s, false)

-- `Math.ceil` on thousandths.
unfoldable pub ceil : ℤ → ℤ
ceil (pos n) = pos ((n + 999) / 1000 * 1000)
ceil (negsuc n) = if suc n / 1000 == 0 then pos 0 else negsuc (suc n / 1000 * 1000 - 1)

unfoldable pub set_placement : DeskStore → String → Placement → DeskStore × Bool
unfolding ceil
set_placement s monitor_id placement = elim (lookup monitor_id s.monitors) [
  | none ↦ (s, false)
  | some monitor ↦
      let stored = record placement { auto_placed = false } in
      let grid : Grid = record {
        columns = max_ℤ s.config.layout.grid.columns (ceil (stored.x +ℤ pos stored.width));
        rows = max_ℤ s.config.layout.grid.rows (ceil (stored.y +ℤ pos stored.height));
      } in
      (
        mark_config_dirty (record s {
          monitors = insert monitor_id (record monitor { placement = some stored }) s.monitors;
          config = record (s.config) {
            layout = record (s.config.layout) {
              grid = grid;
              placements = insert monitor_id stored s.config.layout.placements;
            };
          };
        }),
        true,
      )
]

abbrev pub is_known : DeskStore → Option String → Bool
is_known s none = true
is_known s (some computer_id) = is_there (lookup computer_id s.computers)

abbrev pub rewired : Option String → String → Dict String String → Dict String String
rewired none input_id overrides = erase input_id overrides
rewired (some computer_id) input_id overrides = insert input_id computer_id overrides

abbrev pub store_wiring :
    String
    → Dict String String
    → Dict String (Dict String String)
    → Dict String (Dict String String)
store_wiring monitor_id [] all = erase monitor_id all
store_wiring monitor_id (e ∷ es) all = insert monitor_id (e ∷ es) all

unfoldable pub set_wiring_override : DeskStore → String → String → Option String → DeskStore × Bool
unfolding change_input
set_wiring_override s monitor_id input_id computer_id =
    let overrides =
      rewired computer_id input_id (or_else (lookup monitor_id s.config.wiring_overrides) []) in
    let wired : DeskStore = mark_config_dirty (record s {
      config = record (s.config) {
        wiring_overrides = store_wiring monitor_id overrides s.config.wiring_overrides;
      };
      monitors =
          modify monitor_id
            (λ (m : Monitor). record m {
              inputs =
                  change_input input_id
                    (λ (i : MonitorInput). record i { connected_computer_id = computer_id })
                    m.inputs;
            })
            s.monitors;
    }) in
    if has_input (lookup monitor_id s.monitors) input_id && is_known s computer_id
    then (wired, true)
    else (s, false)

unfoldable pub declare_computer : DeskStore → Unicode → String → Platform → DeskStore × String
declare_computer s u detected_name platform =
    let id = "computer:manual:" <> slugify u detected_name in
    let manual : ManualComputer = record {
      id = id;
      detected_name = detected_name;
      platform = platform;
    } in
    let listed : DeskStore = record s {
      config = record (s.config) {
        manual_computers =
            filter_bool (λ (m : ManualComputer). not (m.id == id)) s.config.manual_computers
            ++ manual ∷ [];
      };
    } in
    (mark_config_dirty (declare_manual listed manual), id)

unfoldable pub label : DeskStore → String → String
label s id = elim (lookup id s.computers) [
  | some c ↦ display_name c.custom_name c.detected_name
  | none ↦ elim (lookup id s.monitors) [
    | some m ↦ display_name m.custom_name m.detected_name
    | none ↦ id
  ]
]
