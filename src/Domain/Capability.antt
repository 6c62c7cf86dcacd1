-- ===== src/Domain/Capability.antt =====
-- packages/domain/src/capability.ts. `CapabilityError` and `requireCapability`, which only throws
-- it, are used by no handler.
use desk_control.Common.{ℕ, Bool, List, [], ◌∷◌, ◌++◌, Eq, contains, if◌then◌else◌, sort_by, ltb}

pub data MonitorCapability : Type 0 where
  input_switch brightness contrast power volume osd_lock read_active_input : MonitorCapability

pub data ComputerCapability : Type 0 where
  ddc_control wake_on_lan sleep power_off peripheral_switch_control : ComputerCapability
  report_active_display report_usb_devices : ComputerCapability

pub data PeripheralSwitchCapability : Type 0 where
  switch_port read_active_port per_peripheral_routing : PeripheralSwitchCapability

monitor_capability_discrete : Discrete MonitorCapability
monitor_capability_discrete = hlevel

instance unfoldable pub monitor_capability_eq : Eq MonitorCapability
unfolding monitor_capability_discrete
monitor_capability_eq = record { dec = monitor_capability_discrete }

switch_capability_discrete : Discrete PeripheralSwitchCapability
switch_capability_discrete = hlevel

instance unfoldable pub switch_capability_eq : Eq PeripheralSwitchCapability
unfolding switch_capability_discrete
switch_capability_eq = record { dec = switch_capability_discrete }

module _ {ℓ} {T : Type ℓ} ⦃e : Eq T⦄ where
  abbrev pub has_capability : List T → T → Bool
  has_capability capabilities wanted = contains capabilities wanted

  -- `new Set(...)`: the first occurrence of each is kept.
  dedup : List T → List T → List T
  dedup seen [] = seen
  dedup seen (x ∷ xs) = dedup (if contains seen x then seen else seen ++ x ∷ []) xs

  flat : List (List T) → List T
  flat [] = []
  flat (s ∷ ss) = s ++ flat ss

  -- `before` is the order that `sort` uses: by the names of the capabilities.
  unfoldable pub union_capabilities : (T → T → Bool) → List (List T) → List T
  unfolding dedup flat
  union_capabilities before sets = sort_by before (dedup [] (flat sets))

-- The place of each capability in the order of the names.
name_rank : MonitorCapability → ℕ
name_rank brightness = 0
name_rank contrast = 1
name_rank input_switch = 2
name_rank osd_lock = 3
name_rank power = 4
name_rank read_active_input = 5
name_rank volume = 6

unfoldable pub name_before : MonitorCapability → MonitorCapability → Bool
unfolding name_rank
name_before a b = ltb (name_rank a) (name_rank b)
