-- ===== src/Hardware/Ddc/CapabilitiesRequest/RoundTrip.antt =====
-- What a display answers to a capabilities request, and that it is read as it was sent.
use Prim.Native.Nat.{bit_and}
use desk_control.Common.{
  ℕ, ◌+◌, ◌-◌, ◌/◌, ◌%◌, ◌<◌, ◌≤◌, true, false, List, [], ◌∷◌, ◌++◌, All, take, length, ltb, nat_eq,
  ◌≡◌, refl, ◌∙◌, ap, arith,
}
use desk_control.Hardware.Ddc.{ok}
use desk_control.Hardware.Ddc.Bytes.{word_lem, length_byte}
use desk_control.Hardware.Ddc.CapabilitiesRequest.{
  parse_capabilities_fragment, begins_fragment, take_fragment, vcp_opcode_capabilities_reply,
}

-- The reply of the DDC/CI standard: opcode, offset and text, behind their length and before a
-- checksum, which is not read.
pub fragment_frame : ℕ → List ℕ → ℕ → List ℕ
fragment_frame offset text checksum =
    (128 + (3 + length text))
    ∷ vcp_opcode_capabilities_reply
    ∷ (offset / 256)
    ∷ (offset % 256)
    ∷ (text ++ checksum ∷ [])

take-append : (xs ys : List ℕ) → take (length xs) (xs ++ ys) ≡ xs
take-append [] ys = refl
take-append (x ∷ xs) ys = ap (λ l. x ∷ l) (take-append xs ys)

length-snoc : (xs : List ℕ) (y : ℕ) → length (xs ++ y ∷ []) ≡ length xs + 1
length-snoc [] y = refl
length-snoc (x ∷ xs) y = ground (arith, length-snoc xs y)

module _ (offset : ℕ) (text : List ℕ) (checksum : ℕ) (in_range : offset < 65536)
    (short : length text < 125) where
  head_begins : begins_fragment (128 + (3 + length text)) vcp_opcode_capabilities_reply ≡ true
  unfolding begins_fragment
  head_begins = ground (arith, length_byte (3 + length text))

  taken :
      take_fragment (128 + (3 + length text)) (offset / 256) (offset % 256) (text ++ checksum ∷ [])
      ≡ ok (record { offset = offset; bytes = text })
  unfolding take_fragment
  taken =
      let size : bit_and (128 + (3 + length text)) 127 - 3 ≡ length text =
        ground (arith, length_byte (3 + length text)) in
      let fits : ltb (length (text ++ checksum ∷ [])) (length text) ≡ false =
        ground (arith, length-snoc text checksum) in
      rw
        (
          size,
          fits,
          take-append text (checksum ∷ []),
          word_lem (offset / 256) (offset % 256) (omega arith) (omega arith),
        )
        (ap (λ n. ok (record { offset = n; bytes = text })) (omega arith))

frame_lem :
    (offset : ℕ) (text : List ℕ) (checksum : ℕ)
    → offset < 65536
    → length text < 125
    → parse_capabilities_fragment (fragment_frame offset text checksum)
      ≡ ok (record { offset = offset; bytes = text })
unfolding fragment_frame parse_capabilities_fragment
frame_lem offset [] checksum in_range short =
    rw (head_begins offset [] checksum in_range short) (taken offset [] checksum in_range short)
frame_lem offset (x ∷ xs) checksum in_range short =
    rw (head_begins offset (x ∷ xs) checksum in_range short)
      (taken offset (x ∷ xs) checksum in_range short)

-- A byte below 128 begins no frame.
abbrev pub IsPadding : List ℕ → Type 0
IsPadding bytes = All (λ b. bit_and b 128 ≡ 0) bytes

skip_byte :
    (b : ℕ) (bytes : List ℕ)
    → bit_and b 128 ≡ 0
    → 4 ≤ length bytes
    → parse_capabilities_fragment (b ∷ bytes) ≡ parse_capabilities_fragment bytes
unfolding parse_capabilities_fragment begins_fragment
skip_byte b [] low h = absurd (omega arith)
skip_byte b (p ∷ []) low h = absurd (omega arith)
skip_byte b (p ∷ q ∷ []) low h = absurd (omega arith)
skip_byte b (p ∷ q ∷ r ∷ []) low h = absurd (omega arith)
skip_byte b (p ∷ q ∷ r ∷ s ∷ rest) low h =
    let off : begins_fragment b p ≡ false = ground arith in rw off refl

length-frame_ge :
    (pad : List ℕ) (offset : ℕ) (text : List ℕ) (checksum : ℕ)
    → 4 ≤ length (pad ++ fragment_frame offset text checksum)
unfolding fragment_frame
length-frame_ge [] offset text checksum = omega arith
length-frame_ge (p ∷ pad) offset text checksum =
    omega (arith, length-frame_ge pad offset text checksum)

-- A reply with at most 124 characters of text, for an offset of two bytes, is read back as its offset
-- and its text, whatever its checksum and however many bytes below 128, such as the display's
-- address, the platform puts before it.
pub parse_capabilities_fragment-frame :
    (pad : List ℕ) (offset : ℕ) (text : List ℕ) (checksum : ℕ)
    → IsPadding pad
    → offset < 65536
    → length text < 125
    → parse_capabilities_fragment (pad ++ fragment_frame offset text checksum)
      ≡ ok (record { offset = offset; bytes = text })
parse_capabilities_fragment-frame [] offset text checksum low in_range short =
    frame_lem offset text checksum in_range short
parse_capabilities_fragment-frame (p ∷ pad) offset text checksum low in_range short =
    skip_byte p (pad ++ fragment_frame offset text checksum) low.0
      (length-frame_ge pad offset text checksum)
    ∙ parse_capabilities_fragment-frame pad offset text checksum low.1 in_range short
