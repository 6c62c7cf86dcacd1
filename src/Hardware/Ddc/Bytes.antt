-- ===== src/Hardware/Ddc/Bytes.antt =====
-- Bytes: the exclusive or of a list, and what the bit operations do to a byte. These are checked for
-- every byte by evaluation.
use Prim.Native.Nat.{bit_and, bit_or, bit_xor}
use desk_control.Common.{
  ℕ, zero, suc, ◌+◌, ◌*◌, ◌<◌, Bool, true, ◌&&◌, List, [], ◌∷◌, ◌≡◌, refl, arith, ◌==◌, nat_eq,
}
use native.Mathlib.Decide.{ℕ_discrete}

xor_onto : ℕ → List ℕ → ℕ
xor_onto acc [] = acc
xor_onto acc (b ∷ bs) = xor_onto (bit_xor acc b) bs

-- `bytes.reduce((accumulator, byte) => accumulator ^ byte, 0)`
unfoldable pub xor : List ℕ → ℕ
unfolding xor_onto
xor bytes = xor_onto 0 bytes

abbrev pub all_below : ℕ → (ℕ → Bool) → Bool
all_below zero p = true
all_below (suc n) p = p n && all_below n p

pub all_below_sound : (n : ℕ) (p : ℕ → Bool) (x : ℕ) → all_below n p ≡ true → x < n → p x ≡ true
all_below_sound zero p x h lt = absurd (omega arith)
all_below_sound (suc n) p x h lt = ground (arith, all_below_sound n p x)

abbrev joins : ℕ → ℕ → Bool
joins h l = bit_or (h * 256) l == h * 256 + l

word_table : all_below 256 (λ h. all_below 256 (joins h)) ≡ true
unfolding nat_eq ℕ_discrete
word_table = refl

-- `(hi << 8) | lo`
pub word_lem : (h l : ℕ) → h < 256 → l < 256 → bit_or (h * 256) l ≡ h * 256 + l
word_lem h l p q =
    let row : all_below 256 (joins h) ≡ true =
      all_below_sound 256 (λ x. all_below 256 (joins x)) h word_table p in
    let cell : joins h l ≡ true = all_below_sound 256 (joins h) l row q in ground arith

abbrev splits : ℕ → Bool
splits n = bit_and (128 + n) 128 == 128 && bit_and (128 + n) 127 == n

length_table : all_below 128 splits ≡ true
unfolding nat_eq ℕ_discrete
length_table = refl

-- The length byte of a frame: its highest bit is set, and the others are the length.
pub length_byte : (n : ℕ) → n < 128 → (bit_and (128 + n) 128 ≡ 128) × (bit_and (128 + n) 127 ≡ n)
length_byte n lt =
    let cell : splits n ≡ true = all_below_sound 128 splits n length_table lt in ground arith
