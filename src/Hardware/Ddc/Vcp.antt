-- ===== src/Hardware/Ddc/Vcp.antt =====
-- packages/hardware/src/ddc/vcp.ts. A `Uint8Array` keeps the lowest byte of each number.
pub mod RoundTrip
use Prim.Native.Nat.{bit_and, bit_or, bit_xor}
use desk_control.Common.{
  ℕ, zero, suc, ◌+◌, ◌*◌, ◌/◌, ◌%◌, String, Bool, true, false, not, ◌&&◌, List, [], ◌∷◌, ◌++◌,
  Option, none, some, ◌==◌, ◌<>◌, any, drop, take, length, leb, ltb, map, decimal, nat_eq,
  if◌then◌else◌,
}
use desk_control.Hardware.Ddc.{ddc_display_address, ddc_host_address}
use desk_control.Hardware.Ddc.Bytes.{xor}

abbrev pub vcp_opcode_get : ℕ
vcp_opcode_get = 1

abbrev pub vcp_opcode_get_reply : ℕ
vcp_opcode_get_reply = 2

abbrev pub vcp_opcode_set : ℕ
vcp_opcode_set = 3

pub record DdcRequest : Type 0 where
  pub frame : List ℕ
  pub payload : List ℕ

abbrev uint8_array : List ℕ → List ℕ
uint8_array bytes = map (λ b. b % 256) bytes

build : List ℕ → DdcRequest
unfolding xor
build body =
    let with_length = ddc_display_address ∷ ddc_host_address ∷ bit_or 0x80 (length body) ∷ body in
    let frame = with_length ++ xor with_length ∷ [] in
    record { frame = uint8_array frame; payload = uint8_array (drop 2 frame) }

unfoldable pub build_get_vcp_request : ℕ → DdcRequest
unfolding build
build_get_vcp_request vcp_code = build (vcp_opcode_get ∷ vcp_code ∷ [])

unfoldable pub build_set_vcp_request : ℕ → ℕ → DdcRequest
unfolding build
build_set_vcp_request vcp_code value =
    build (vcp_opcode_set ∷ vcp_code ∷ bit_and (value / 256) 0xff ∷ bit_and value 0xff ∷ [])

pub record VcpReply : Type 0 where
  pub vcp_code : ℕ
  pub kind : ℕ
  pub current : ℕ
  pub max : ℕ
  pub checksum_valid : Bool

pub data VcpReplyReason : Type 0 where
  no_frame unsupported_vcp short : VcpReplyReason

-- The reply, or the `VcpReplyError` that is thrown.
pub data VcpResult : Type 0 where
  reply : VcpReply → VcpResult
  refused : VcpReplyReason → (message : String) → VcpResult

-- `list[index] ?? other`
abbrev pub at_or : List ℕ → ℕ → ℕ → ℕ
at_or [] i other = other
at_or (b ∷ bs) zero other = b
at_or (b ∷ bs) (suc i) other = at_or bs i other

hex_digit : ℕ → String
hex_digit n =
    if n == 10
    then "a"
    else if n == 11
    then "b"
    else if n == 12
    then "c"
    else if n == 13
    then "d"
    else if n == 14
    then "e"
    else if n == 15
    then "f"
    else decimal n

hexadecimal_from : ℕ → ℕ → String
hexadecimal_from zero n = ""
hexadecimal_from (suc fuel) n =
    let front = hexadecimal_from fuel (n / 16) in
    if n / 16 == 0 then hex_digit (n % 16) else front <> hex_digit (n % 16)

-- `toString(16)`. A number has at most as many digits as its value plus one.
unfoldable pub hexadecimal : ℕ → String
unfolding hexadecimal_from hex_digit
hexadecimal n = hexadecimal_from (n + 1) n

unfoldable pub begins_reply : List ℕ → Bool
begins_reply (a ∷ b ∷ _) = a == 0x88 && b == vcp_opcode_get_reply
begins_reply _ = false

-- The loop: the ten bytes from the first index that shows the signature.
unfoldable pub find_reply : List ℕ → Option (List ℕ)
unfolding begins_reply
find_reply [] = none
find_reply (b ∷ bs) =
    let later = find_reply bs in
    if leb 10 (length (b ∷ bs)) && begins_reply (b ∷ bs) then some (take 10 (b ∷ bs)) else later

abbrev pub seeds : List ℕ
seeds =
    bit_xor 0x50 ddc_display_address
    ∷ bit_xor ddc_display_address ddc_host_address
    ∷ 0x50
    ∷ ddc_display_address
    ∷ 0
    ∷ []

abbrev pub verifies : ℕ → ℕ → Bool
verifies covered checksum = any (λ seed. bit_xor seed covered == checksum) seeds

unfoldable pub read_reply : List ℕ → VcpReply
read_reply body = record {
  vcp_code = at_or body 3 0;
  kind = at_or body 4 0;
  max = bit_or (at_or body 5 0 * 256) (at_or body 6 0);
  current = bit_or (at_or body 7 0 * 256) (at_or body 8 0);
  checksum_valid = verifies (xor (take 9 body)) (at_or body 9 0);
}

unfoldable pub parse_vcp_reply : List ℕ → VcpResult
unfolding hexadecimal read_reply find_reply
parse_vcp_reply bytes =
    if ltb (length bytes) 10
    then refused short ("Reply was " <> (decimal (length bytes) <> " bytes, need at least 10"))
    else elim (find_reply bytes) [
      | none ↦ refused no_frame "No VCP feature reply found in the I2C response"
      | some body ↦
          if at_or body 2 0xff == 0
          then reply (read_reply body)
          else refused unsupported_vcp
              ("Display reported VCP result code 0x" <> hexadecimal (at_or body 2 0xff))
    ]
