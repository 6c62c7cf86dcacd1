-- ===== src/Hardware/Ddc/CapabilitiesRequest.antt =====
-- packages/hardware/src/ddc/capabilities-request.ts. The assembled text is the list of its characters'
-- codes, one for each byte.
pub mod RoundTrip
pub mod Reading
use Prim.Native.Nat.{bit_and, bit_or}
use desk_control.Common.{
  ℕ, zero, suc, ◌+◌, ◌-◌, ◌*◌, ◌/◌, Bool, true, false, not, ◌&&◌, List, [], ◌∷◌, ◌++◌, ◌==◌, drop,
  take, length, leb, ltb, nat_eq, if◌then◌else◌,
}
use desk_control.Hardware.Ddc.{Attempt, ok, thrown, ◌>>=◌, ddc_display_address, ddc_host_address}
use desk_control.Hardware.Ddc.Bytes.{xor}

abbrev pub vcp_opcode_capabilities : ℕ
vcp_opcode_capabilities = 0xf3

abbrev pub vcp_opcode_capabilities_reply : ℕ
vcp_opcode_capabilities_reply = 0xe3

abbrev pub max_capabilities_length : ℕ
max_capabilities_length = 4096

-- `offset >> 8` is a division.
unfoldable pub build_capabilities_request : ℕ → List ℕ
unfolding xor
build_capabilities_request offset =
    let with_length =
      ddc_display_address
      ∷ ddc_host_address
      ∷ 0x83
      ∷ vcp_opcode_capabilities
      ∷ bit_and (offset / 256) 0xff
      ∷ bit_and offset 0xff
      ∷ [] in
    drop 2 (with_length ++ xor with_length ∷ [])

pub record CapabilitiesFragment : Type 0 where
  pub offset : ℕ
  pub bytes : List ℕ

-- The three tests of the loop that skip an index.
unfoldable pub begins_fragment : ℕ → ℕ → Bool
begins_fragment length_byte opcode =
    not (bit_and length_byte 0x80 == 0)
    && opcode == vcp_opcode_capabilities_reply
    && leb 3 (bit_and length_byte 0x7f)

unfoldable pub take_fragment : ℕ → ℕ → ℕ → List ℕ → Attempt CapabilitiesFragment
take_fragment length_byte high low rest =
    let fragment_length = bit_and length_byte 0x7f - 3 in
    if ltb (length rest) fragment_length
    then thrown "Capabilities fragment is truncated"
    else ok (record { offset = bit_or (high * 256) low; bytes = take fragment_length rest })

-- The loop, on what is left of the data: an index counts while four bytes more lie behind it.
unfoldable pub parse_capabilities_fragment : List ℕ → Attempt CapabilitiesFragment
unfolding begins_fragment take_fragment
parse_capabilities_fragment (a ∷ b ∷ c ∷ d ∷ e ∷ rest) =
    let later = parse_capabilities_fragment (b ∷ c ∷ d ∷ e ∷ rest) in
    if begins_fragment a b then take_fragment a c d (e ∷ rest) else later
parse_capabilities_fragment _ = thrown "No capabilities reply found in the I2C response"

-- The answer to a request, which may depend on how many came before it.
abbrev pub Exchange : Type 0
Exchange = (iteration : ℕ) (request : List ℕ) → Attempt (List ℕ)

-- The rest of one round, given the round behind it.
unfoldable pub append_fragment :
    (ℕ → List ℕ → Attempt (List ℕ)) → ℕ → List ℕ → List ℕ → Attempt (List ℕ)
append_fragment next offset assembled [] = ok assembled
append_fragment next offset assembled (b ∷ bs) =
    let longer = assembled ++ b ∷ bs in
    let next_offset = offset + length (b ∷ bs) in
    if leb next_offset offset
    then ok longer
    else if ltb max_capabilities_length (length longer)
    then thrown "Capabilities string exceeded the maximum length"
    else next next_offset longer

unfoldable pub read_rounds : Exchange → ℕ → ℕ → ℕ → List ℕ → Attempt (List ℕ)
read_rounds exchange zero iteration offset assembled = ok assembled
read_rounds exchange (suc rounds) iteration offset assembled = do
  reply ← exchange iteration (build_capabilities_request offset)
  fragment ← parse_capabilities_fragment reply
  append_fragment (read_rounds exchange rounds (iteration + 1)) offset assembled fragment.bytes

unfoldable pub read_capabilities_string : Exchange → Attempt (List ℕ)
read_capabilities_string exchange = read_rounds exchange 128 0 0 []
