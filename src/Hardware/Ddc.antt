-- ===== src/Hardware/Ddc.antt =====
-- packages/hardware/src/ddc: what DDC/CI puts on the wire. A byte is a number; a platform's buffer is
-- a list of bytes.
pub mod Bytes
pub mod Vcp
pub mod CapabilitiesRequest
pub mod Features
pub mod Provider
use desk_control.Common.{ℕ, String}

abbrev pub ddc_display_address : ℕ
ddc_display_address = 0x6e

abbrev pub ddc_host_address : ℕ
ddc_host_address = 0x51

-- What a call returns or throws.
infixl 5 ◌>>=◌
pub data Attempt {ℓ} (A : Type ℓ) : Type ℓ where
  ok : A → Attempt A
  thrown : (message : String) → Attempt A

abbrev pub ◌>>=◌ {ℓ κ} : {A : Type ℓ} {B : Type κ} → Attempt A → (A → Attempt B) → Attempt B
ok a >>= f = f a
thrown message >>= f = thrown message
