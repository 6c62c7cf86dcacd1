-- ===== src/Store/Presets/Identity.antt =====
-- The ids that new presets get, and what is left after a preset is deleted.
use desk_control.Common.{
  ℕ, zero, suc, ◌+◌, ◌≤◌, ◌<◌, String, Bool, true, false, not, List, [], ◌∷◌, some, ◌≡◌, ◌≢◌, refl,
  sym, ap, ◌∙◌, arith, inl, inr, Bool-cases, find, filter_bool, length, decimal, ◌<>◌, ◌==◌,
  string_eq, nat_eq, option_eq,
}
use desk_control.Domain.Ids.{Unicode, slugify}
use desk_control.Domain.Preset.{Preset}
use desk_control.Store.{DeskStore, mark_config_dirty, touch}
use desk_control.Store.Presets.{
  preset_taken, free_suffix, slug_or_preset, unique_preset_id, delete_preset,
}

abbrev numbered : String → ℕ → String
numbered base n = base <> ("-" <> decimal n)

free_suffix-free :
    (ps : List Preset) (base : String) (first rounds m : ℕ)
    → m < rounds
    → preset_taken ps (numbered base (first + m)) ≡ false
    → (c : String) × (free_suffix ps base first rounds ≡ some c) × (preset_taken ps c ≡ false)
unfolding free_suffix
free_suffix-free ps base first zero m lt free = absurd (omega (arith, lt))
free_suffix-free ps base first (suc rounds) zero lt free =
    let here : preset_taken ps (numbered base first) ≡ false =
      ap (λ n. preset_taken ps (numbered base n)) (omega arith) ∙ free in
    (numbered base first, rw here refl, here)
free_suffix-free ps base first (suc rounds) (suc m) lt free =
    elim (Bool-cases (preset_taken ps (numbered base first))) [
      | inl taken ↦
          let (c, found, fresh) =
            free_suffix-free ps base (first + 1) rounds m (omega (arith, lt))
              (ap (λ n. preset_taken ps (numbered base n)) (omega arith) ∙ free) in
          (c, rw taken found, fresh)
      | inr open_ ↦ (numbered base first, rw open_ refl, open_)
    ]

-- The name itself is free, or one of the suffixes 2 to 499 is.
pub data HasRoom (ps : List Preset) (base : String) : Type 0 where
  plain : preset_taken ps base ≡ false → HasRoom ps base
  suffixed :
      (m : ℕ)
      → m < 498
      → preset_taken ps (base <> ("-" <> decimal (2 + m))) ≡ false
      → HasRoom ps base

numbered_lem :
    (u : Unicode) (now : ℕ) (ps : List Preset) (name : String)
    → HasRoom ps ("preset:" <> slug_or_preset (slugify u name))
    → preset_taken ps ("preset:" <> slug_or_preset (slugify u name)) ≡ true
    → preset_taken ps (unique_preset_id u now ps name) ≡ false
unfolding unique_preset_id
numbered_lem u now ps name (plain free) taken = absurd (ground arith)
numbered_lem u now ps name (suffixed m lt free) taken =
    let base = "preset:" <> slug_or_preset (slugify u name) in
    let (c, found, fresh) = free_suffix-free ps base 2 498 m lt free in
    rw (taken, found, unique_preset_id) fresh

plain_lem :
    (u : Unicode) (now : ℕ) (ps : List Preset) (name : String)
    → preset_taken ps ("preset:" <> slug_or_preset (slugify u name)) ≡ false
    → unique_preset_id u now ps name ≡ "preset:" <> slug_or_preset (slugify u name)
unfolding unique_preset_id
plain_lem u now ps name free = rw (free, unique_preset_id) refl

-- A new preset's id is taken by no other preset, as long as the name itself or one of the suffixes
-- 2 to 499 is free; and where the name itself is free, it is the id without a suffix.
pub unique_preset_id-fresh :
    (u : Unicode) (now : ℕ) (ps : List Preset) (name : String)
    → HasRoom ps ("preset:" <> slug_or_preset (slugify u name))
    → (preset_taken ps (unique_preset_id u now ps name) ≡ false)
      × (preset_taken ps ("preset:" <> slug_or_preset (slugify u name)) ≡ false
          → unique_preset_id u now ps name ≡ "preset:" <> slug_or_preset (slugify u name))
unique_preset_id-fresh u now ps name room =
    let base = "preset:" <> slug_or_preset (slugify u name) in
    (
      elim (Bool-cases (preset_taken ps base)) [
        | inl taken ↦ numbered_lem u now ps name room taken
        | inr open_ ↦ ap (preset_taken ps) (plain_lem u now ps name open_) ∙ open_
      ],
      plain_lem u now ps name,
    )

abbrev with_id : String → Preset → Bool
with_id id p = p.id == id

abbrev other_than : String → Preset → Bool
other_than id p = not (p.id == id)

kept-taken :
    (id : String) (ps : List Preset) → preset_taken (filter_bool (other_than id) ps) id ≡ false
kept-taken id [] = refl
kept-taken id (p ∷ ps) = ground (arith, kept-taken id ps)

kept-find :
    (id j : String) (ps : List Preset)
    → id ≢ j
    → find (with_id j) (filter_bool (other_than id) ps) ≡ find (with_id j) ps
kept-find id j [] differ = refl
kept-find id j (p ∷ ps) differ = ground (arith, kept-find id j ps differ)

kept-shorter :
    (id : String) (ps : List Preset) → length (filter_bool (other_than id) ps) ≤ length ps
kept-shorter id [] = omega arith
kept-shorter id (p ∷ ps) = ground (arith, kept-shorter id ps)

kept-length :
    (id : String) (ps : List Preset)
    → (length (filter_bool (other_than id) ps) == length ps) ≡ not (preset_taken ps id)
kept-length id [] = ground arith
kept-length id (p ∷ ps) = ground (arith, kept-shorter id ps, kept-length id ps)

-- What a deletion leaves, where it succeeds and where it does not.
pub record IsDeleted (s t : DeskStore) (done : Bool) (id : String) : Type 0 where
  pub known : done ≡ preset_taken s.config.presets id
  pub gone : preset_taken t.config.presets id ≡ false
  pub others :
      (j : String) → id ≢ j → find (with_id j) t.config.presets ≡ find (with_id j) s.config.presets
  pub inactive : done ≡ true → t.desired.active_preset_id ≢ some id
  pub active :
      (j : String)
      → id ≢ j
      → s.desired.active_preset_id ≡ some j
      → t.desired.active_preset_id ≡ some j
  pub wishes : t.desired.monitor_sources ≡ s.desired.monitor_sources

-- Deleting a preset succeeds exactly where it is known; then it is listed no more, every other
-- preset is found as before, it is not the active preset, an active preset that is another stays,
-- and what is desired of the monitors stays.
pub delete_preset-IsDeleted :
    (s : DeskStore) (id : String) → IsDeleted s (delete_preset s id).0 (delete_preset s id).1 id
unfolding delete_preset mark_config_dirty touch
delete_preset-IsDeleted s id =
    let ps = s.config.presets in
    elim (Bool-cases (preset_taken ps id)) [
      | inl there ↦
          let shorter : (length (filter_bool (other_than id) ps) == length ps) ≡ false =
            ground (arith, kept-length id ps) in
          rw (shorter, delete_preset)
            (record {
              known = sym there;
              gone = kept-taken id ps;
              others = λ j differ. kept-find id j ps differ;
              inactive = λ e f. ground arith;
              active = λ j differ e. ground arith;
              wishes = refl;
            })
      | inr away ↦
          let same : (length (filter_bool (other_than id) ps) == length ps) ≡ true =
            ground (arith, kept-length id ps) in
          rw (same, delete_preset)
            (record {
              known = sym away;
              gone = kept-taken id ps;
              others = λ j differ. kept-find id j ps differ;
              inactive = λ e. cc;
              active = λ j differ e. e;
              wishes = refl;
            })
    ]
