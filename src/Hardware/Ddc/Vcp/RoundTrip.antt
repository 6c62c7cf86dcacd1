-- ===== src/Hardware/Ddc/Vcp/RoundTrip.antt =====
-- What a display answers to a request for a VCP feature, and that it is read as it was sent.
use Prim.Native.Nat.{bit_or}
use desk_control.Common.{
  ℕ, ◌*◌, ◌/◌, ◌%◌, ◌<◌, true, false, List, [], ◌∷◌, ◌++◌, some, All, take, length, leb, ltb, ◌==◌,
  ◌<>◌, nat_eq, if◌then◌else◌, ◌≡◌, refl, ◌∙◌, ap, arith,
}
use native.Mathlib.Decide.{ℕ_discrete}
use desk_control.Hardware.Ddc.Bytes.{xor, word_lem}
use desk_control.Hardware.Ddc.Vcp.{
  VcpReply, reply, refused, unsupported_vcp, parse_vcp_reply, find_reply, begins_reply, read_reply,
  verifies, hexadecimal, vcp_opcode_get_reply,
}

-- The bytes of a feature reply behind which the checksum stands, by the DDC/CI standard.
abbrev pub reply_body : ℕ → ℕ → ℕ → ℕ → ℕ → List ℕ
reply_body result code kind max current =
    0x88
    ∷ vcp_opcode_get_reply
    ∷ result
    ∷ code
    ∷ kind
    ∷ (max / 256)
    ∷ (max % 256)
    ∷ (current / 256)
    ∷ (current % 256)
    ∷ []

abbrev pub NoSignature : List ℕ → Type 0
NoSignature pad = All (λ b. (b == 0x88) ≡ false) pad

find_reply-here :
    (b : ℕ) (bs : List ℕ)
    → leb 10 (length (b ∷ bs)) ≡ true
    → begins_reply (b ∷ bs) ≡ true
    → find_reply (b ∷ bs) ≡ some (take 10 (b ∷ bs))
unfolding find_reply
find_reply-here b bs long begins = rw (long, begins) refl

find_reply-skip :
    (b : ℕ) (bs : List ℕ) → begins_reply (b ∷ bs) ≡ false → find_reply (b ∷ bs) ≡ find_reply bs
unfolding find_reply
find_reply-skip b bs silent = rw silent (ground arith)

begins_not : (b : ℕ) (bs : List ℕ) → (b == 0x88) ≡ false → begins_reply (b ∷ bs) ≡ false
unfolding begins_reply
begins_not b [] silent = refl
begins_not b (c ∷ bs) silent = ground arith

begins_signature : (bs : List ℕ) → begins_reply (0x88 ∷ vcp_opcode_get_reply ∷ bs) ≡ true
unfolding begins_reply nat_eq ℕ_discrete
begins_signature bs = refl

module _ (result code kind max current checksum : ℕ) (rest : List ℕ) where
  abbrev pub frame : List ℕ
  frame = reply_body result code kind max current ++ checksum ∷ rest

  abbrev ten : List ℕ
  ten = reply_body result code kind max current ++ checksum ∷ []

  found : (pad : List ℕ) → NoSignature pad → find_reply (pad ++ frame) ≡ some ten
  found [] quiet = find_reply-here 0x88 _ (ground arith) (begins_signature _)
  found (p ∷ pad) quiet =
      find_reply-skip p (pad ++ frame) (begins_not p (pad ++ frame) quiet.0) ∙ found pad quiet.1

  long : (pad : List ℕ) → ltb (length (pad ++ frame)) 10 ≡ false
  long [] = ground arith
  long (p ∷ pad) = ground (arith, long pad)

  abbrev pub sent : VcpReply
  sent = record {
    vcp_code = code;
    kind = kind;
    current = current;
    max = max;
    checksum_valid = verifies (xor (reply_body result code kind max current)) checksum;
  }

  read_ten : max < 65536 → current < 65536 → read_reply ten ≡ sent
  unfolding read_reply
  read_ten small_max small_current =
      let m : bit_or (max / 256 * 256) (max % 256) ≡ max =
        word_lem (max / 256) (max % 256) (omega arith) (omega arith) ∙ omega arith in
      let c : bit_or (current / 256 * 256) (current % 256) ≡ current =
        word_lem (current / 256) (current % 256) (omega arith) (omega arith) ∙ omega arith in
      rw (m, c) refl

  -- A feature reply that stands behind any bytes but 0x88, and before any others, is found. With the
  -- result code 0 its code, type and two values are read as they were sent, and its checksum is
  -- called valid exactly if one of the five conventions verifies it; with any other result code it
  -- is refused as an unsupported feature.
  pub parse_vcp_reply-frame :
      (pad : List ℕ)
      → NoSignature pad
      → max < 65536
      → current < 65536
      → parse_vcp_reply (pad ++ frame) ≡ (
          if result == 0
          then reply sent
          else refused unsupported_vcp
              ("Display reported VCP result code 0x" <> hexadecimal result))
  unfolding parse_vcp_reply
  parse_vcp_reply-frame pad quiet small_max small_current =
      rw (long pad, found pad quiet)
        (ap
          (λ (r : VcpReply).
            if result == 0
            then reply r
            else refused unsupported_vcp
                ("Display reported VCP result code 0x" <> hexadecimal result))
          (read_ten small_max small_current))
