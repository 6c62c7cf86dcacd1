-- ===== src/Domain/Monitor/Selection.antt =====
-- Which control path `selectControlPath` picks, and when it picks none.
use desk_control.Common.{
  String, Bool, true, false, List, [], ◌∷◌, Option, none, some, ◌≡◌, ◌≢◌, ◌⊎◌, inl, inr, arith, All,
  find, filter_bool, find-filter_sound, find-filter_none, All-map, refl, Option-cases, Memᴰ,
  string_eq, option_eq, not,
}
use desk_control.Domain.Monitor.{Monitor, MonitorControlPath, on_active_input, select_control_path}

module _ (active : Option String) (online : String → Bool) where
  -- The path's cable sits on the input that is on screen.
  abbrev pub IsOnActiveInput : MonitorControlPath → Type 0
  IsOnActiveInput path = (active ≢ none) × (path.input_id ≡ active)

  -- An online path that can carry a command now.
  abbrev pub IsUsable : MonitorControlPath → Type 0
  IsUsable path =
      (online path.agent_id ≡ true) × (IsOnActiveInput path ⊎ (path.requires_active_input ≡ false))

  on_active_input_sound :
      (a : Option String) (path : MonitorControlPath)
      → on_active_input a path ≡ true
      → (a ≢ none) × (path.input_id ≡ a)
  unfolding on_active_input
  on_active_input_sound none path e = cc
  on_active_input_sound (some a) path e = ground arith

  on_active_input_complete :
      (a : Option String) (path : MonitorControlPath)
      → on_active_input a path ≡ false
      → ¬ ((a ≢ none) × (path.input_id ≡ a))
  unfolding on_active_input
  on_active_input_complete none path e h = h.0 refl
  on_active_input_complete (some a) path e h = ground arith

  -- What is known of an answer: the chosen path is usable, and is on the active input if any
  -- online path is; no path at all is chosen only where none is usable.
  abbrev pub IsBestChoice : Monitor → Option MonitorControlPath → Type 0
  IsBestChoice m (some path) =
      Memᴰ path m.control_paths
      × IsUsable path
      × (IsOnActiveInput path
          ⊎ All (λ p. online p.agent_id ≡ true → ¬ (IsOnActiveInput p)) m.control_paths)
  IsBestChoice m none = All (λ p. ¬ (IsUsable p)) m.control_paths

  neither :
      (paths : List MonitorControlPath)
      → All (λ p. online p.agent_id ≡ true → on_active_input active p ≡ false) paths
      → All (λ p. online p.agent_id ≡ true → not p.requires_active_input ≡ false) paths
      → All (λ p. ¬ (IsUsable p)) paths
  neither [] h k = tt
  neither (p ∷ ps) h k = (refuse, neither ps h.1 k.1)
    where
      refuse : ¬ (IsUsable p)
      refuse (on, inl at_input) = on_active_input_complete active p (h.0 on) at_input
      refuse (on, inr free) = let blocked = k.0 on in ground arith

  -- The path chosen for a command belongs to the monitor and to an online agent, and it is on the
  -- displayed input or does not need to be; a path on the displayed input is preferred; and none
  -- is chosen exactly where no online path could carry the command.
  pub select_control_path-IsBestChoice :
      (m : Monitor) → IsBestChoice m (select_control_path m active online)
  unfolding select_control_path
  select_control_path-IsBestChoice m =
      let online_path = λ (path : MonitorControlPath). online path.agent_id in
      let free = λ (path : MonitorControlPath). not path.requires_active_input in
      elim (Option-cases
        (find (on_active_input active) (filter_bool online_path m.control_paths))) [
          | inl missing ↦
              let no_active = find-filter_none (on_active_input active) online_path _ missing in
              elim (Option-cases (find free (filter_bool online_path m.control_paths))) [
                | inl nothing ↦
                    rw (missing, select_control_path, nothing)
                      (neither m.control_paths no_active
                        (find-filter_none free online_path _ nothing))
                | inr (path, found) ↦
                    let (independent, on, here) = find-filter_sound free online_path _ found in
                    rw (missing, select_control_path, found)
                      (
                        here,
                        (on, inr (ground arith)),
                        inr (
                            All-map (λ p h o. on_active_input_complete active p (h o)) _ no_active),
                      )
              ]
          | inr (path, found) ↦
              let (hit, on, here) =
                find-filter_sound (on_active_input active) online_path _ found in
              let at_input = on_active_input_sound active path hit in
              rw (found, select_control_path) (here, (on, inl at_input), inl at_input)
        ]
