-- ===== src/Store/Presets.antt =====
-- desk-store.ts, "Presets": creating, editing and deleting presets, and capturing the desk.
pub mod Identity
use desk_control.Common.{
  ℕ, zero, suc, ◌+◌, ℤ, pos, negsuc, max_ℤ, ◌+ℤ◌, String, Bool, true, false, not, List, [], ◌∷◌,
  ◌++◌, Option, none, some, values, ◌==◌, any, filter_bool, length, decimal, ◌<>◌, string_eq,
  nat_eq, option_eq, if◌then◌else◌,
}
use desk_control.Domain.Ids.{Unicode, slugify}
use desk_control.Domain.Preset.{Preset, PresetAssignment, CapturedDeskState, capture_desk_state}
use desk_control.Store.{DeskStore, mark_config_dirty}
use desk_control.Store.Observations.{observed_monitors}
use desk_control.Store.Usb.{observed_peripherals}

abbrev pub preset_taken : List Preset → String → Bool
preset_taken presets id = any (λ (p : Preset). p.id == id) presets

-- The loop over the suffixes `suffix`, …, with `rounds` of them left.
unfoldable pub free_suffix : List Preset → String → ℕ → ℕ → Option String
free_suffix presets base suffix zero = none
free_suffix presets base suffix (suc rounds) =
    let candidate = base <> ("-" <> decimal suffix) in
    let later = free_suffix presets base (suffix + 1) rounds in
    if preset_taken presets candidate then later else some candidate

abbrev pub slug_or_preset : String → String
slug_or_preset slug = if slug == "" then "preset" else slug

-- Suffixes 2 to 499, and then the clock.
unfoldable pub unique_preset_id : Unicode → ℕ → List Preset → String → String
unique_preset_id u now presets name =
    let base = "preset:" <> slug_or_preset (slugify u name) in
    let numbered : String = elim (free_suffix presets base 2 498) [
      | some candidate ↦ candidate
      | none ↦ base <> ("-" <> decimal now)
    ] in
    if preset_taken presets base then numbered else base

unfoldable pub highest_order : ℤ → List Preset → ℤ
highest_order highest [] = highest
highest_order highest (p ∷ ps) = highest_order (max_ℤ highest p.sort_order) ps

pub record PresetInput : Type 0 where
  pub detected_name : String
  pub description : Option String
  pub icon : Option String
  pub assignments : PresetAssignment

unfoldable pub new_preset : Unicode → ℕ → List Preset → PresetInput → Preset
unfolding unique_preset_id highest_order
new_preset u now presets input = record {
  id = unique_preset_id u now presets input.detected_name;
  detected_name = input.detected_name;
  custom_name = none;
  description = input.description;
  icon = input.icon;
  assignments = input.assignments;
  sort_order = highest_order (negsuc 0) presets +ℤ pos 1;
}

abbrev pub with_presets : DeskStore → List Preset → DeskStore
with_presets s presets = record s { config = record (s.config) { presets = presets } }

unfoldable pub create_preset : DeskStore → Unicode → ℕ → PresetInput → DeskStore
unfolding new_preset
create_preset s u now input =
    mark_config_dirty
      (with_presets s (s.config.presets ++ new_preset u now s.config.presets input ∷ []))

-- A field of the patch is `none` where the source's is undefined.
pub record PresetPatch : Type 0 where
  pub assignments : Option PresetAssignment
  pub description : Option (Option String)
  pub icon : Option (Option String)

abbrev given {ℓ} : {A : Type ℓ} → Option A → A → A
given none old = old
given (some new) old = new

abbrev pub patch_preset : PresetPatch → Preset → Preset
patch_preset patch p = record p {
  assignments = given patch.assignments p.assignments;
  description = given patch.description p.description;
  icon = given patch.icon p.icon;
}

-- The preset object that `find` returned is changed in place.
unfoldable pub change_preset : String → (Preset → Preset) → List Preset → List Preset
change_preset id f [] = []
change_preset id f (p ∷ ps) = if p.id == id then f p ∷ ps else p ∷ change_preset id f ps

unfoldable pub update_preset : DeskStore → String → PresetPatch → DeskStore × Bool
unfolding change_preset
update_preset s preset_id patch =
    if preset_taken s.config.presets preset_id
    then (
      mark_config_dirty
          (with_presets s (change_preset preset_id (patch_preset patch) s.config.presets)),
      true,
    )
    else (s, false)

abbrev pub cleared : Option String → String → Option String
cleared active preset_id = if active == some preset_id then none else active

unfoldable pub delete_preset : DeskStore → String → DeskStore × Bool
delete_preset s preset_id =
    let kept = filter_bool (λ (p : Preset). not (p.id == preset_id)) s.config.presets in
    let deleted : DeskStore = mark_config_dirty (record s {
      config = record (s.config) { presets = kept };
      desired = record (s.desired) {
        active_preset_id = cleared s.desired.active_preset_id preset_id;
      };
    }) in
    if length kept == length s.config.presets then (with_presets s kept, false) else (deleted, true)

unfoldable pub capture_current_desk : DeskStore → ℕ → CapturedDeskState
capture_current_desk s now =
    capture_desk_state (values s.monitors) s.config.peripherals (observed_monitors s)
      (observed_peripherals s now)
