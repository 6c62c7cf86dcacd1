-- ===== src/Tests/Hardware.antt =====
-- Concrete runs of the theorems on switches and on DDC/CI.
use native.Mathlib.Decide.{ℕ_discrete}
use desk_control.Common.{
  All, ◌≤◌, ℕ, ◌+◌, ◌*◌, true, List, [], ◌∷◌, ◌++◌, none, some, lookup, contains, truthy, length,
  ◌≡◌, refl, ap, arith, ◌==◌, ◌<>◌, string_eq, nat_eq, if◌then◌else◌,
}
use desk_control.Domain.Peripheral.{GpioMode}
use desk_control.Hardware.{SetPortRequest, done}
use desk_control.Hardware.Gpio.{GpioSwitchConfig, GpioSwitch, PinDriver, set_port}
use desk_control.Hardware.Gpio.Cycling.{IsOrder}
use desk_control.Hardware.Gpio.Landing.{port_after, set_port-Lands}
use desk_control.Hardware.Gpio.Repeating.{set_ports, set_port-Once}
use desk_control.Hardware.Ddc.{ok}
use desk_control.Hardware.Ddc.CapabilitiesRequest.{
  Exchange, build_capabilities_request, read_capabilities_string, max_capabilities_length,
}
use desk_control.Hardware.Ddc.CapabilitiesRequest.RoundTrip.{fragment_frame, IsPadding}
use desk_control.Hardware.Ddc.CapabilitiesRequest.Reading.{
  Serves, joined, next_piece, IsPiece, Repeats, copies, read_capabilities_string-whole,
  read_capabilities_string-copies,
}
use desk_control.Hardware.Ddc.Vcp.{reply, refused, unsupported_vcp, hexadecimal, parse_vcp_reply}
use desk_control.Hardware.Ddc.Vcp.RoundTrip.{frame, sent, NoSignature, parse_vcp_reply-frame}

abbrev remote : GpioSwitchConfig
remote = record {
  switch_id = "kvm";
  channels = "default" ∷ [];
  mode = GpioMode.cycle;
  pins = ("next", 17) ∷ [];
  port_order = "1" ∷ "2" ∷ "3" ∷ [];
  pulse_ms = none;
  settle_ms = none;
}

abbrev silent : PinDriver
silent events pin hold = none

abbrev untouched : GpioSwitch
untouched = record { completed_commands = []; events = [] }

-- Backwards by one, which takes two presses.
abbrev back : SetPortRequest
back = record {
  switch_id = "kvm";
  channel_id = "default";
  port_id = "1";
  current_port_id = some "2";
  command_id = "c1";
  timeout_ms = 5000;
}

port_order-IsOrder : IsOrder remote.port_order
unfolding string_eq
port_order-IsOrder = (refl, (refl, (refl, tt)))

believed : truthy back.current_port_id ≡ some "2"
unfolding string_eq
believed = refl

stood_on : contains remote.port_order "2" ≡ true
unfolding string_eq
stood_on = refl

asked_for : contains remote.port_order back.port_id ≡ true
unfolding string_eq
asked_for = refl

is_new : lookup back.command_id untouched.completed_commands ≡ none
unfolding lookup
is_new = refl

at_home : port_after remote.port_order 17 untouched.events "2" ≡ "2"
unfolding port_after
at_home = refl

set_port-Lands_example :
    ((set_port remote silent untouched back).1 ≡ done)
    × (port_after remote.port_order 17 (set_port remote silent untouched back).0.events "2"
        ≡ back.port_id)
set_port-Lands_example =
    set_port-Lands remote silent untouched back "2" "2" 17 refl refl (λ events hold. refl)
      port_order-IsOrder believed stood_on asked_for is_new at_home

went_well : (set_port remote silent untouched back).1 ≡ done
unfolding set_port lookup string_eq
went_well = refl

set_port-Once_example :
    set_port remote silent
      (set_ports remote silent (set_port remote silent untouched back).0 (back ∷ []))
      back
    ≡ (set_ports remote silent (set_port remote silent untouched back).0 (back ∷ []), done)
set_port-Once_example = set_port-Once remote silent untouched back back (back ∷ []) went_well refl

-- A text of three characters in two pieces of different sizes.
abbrev brackets : List (List ℕ)
brackets = (40 ∷ 65 ∷ []) ∷ (41 ∷ []) ∷ []

abbrev piece_at : ℕ → List ℕ
piece_at offset = if offset == 0 then 40 ∷ 65 ∷ [] else if offset == 2 then 41 ∷ [] else []

abbrev asked_offset : List ℕ → ℕ
asked_offset (_ ∷ _ ∷ high ∷ low ∷ _) = high * 256 + low
asked_offset _ = 0

abbrev bracket_panel : Exchange
bracket_panel i request =
    let o = asked_offset request in ok (0x6e ∷ fragment_frame o (piece_at o) 0)

abbrev behind : List (List ℕ) → List (List ℕ)
behind [] = []
behind (_ ∷ ps) = ps

abbrev first : List (List ℕ) → List ℕ
first [] = []
first (p ∷ _) = p

bracket_answers :
    (i : ℕ) (read rest : List (List ℕ))
    → read ++ rest ≡ brackets
    → bracket_panel i (build_capabilities_request (length (joined read)))
      ≡ ok (0x6e ∷ fragment_frame (length (joined read)) (next_piece rest) 0)
unfolding build_capabilities_request nat_eq ℕ_discrete joined
bracket_answers i [] rest whole = rw whole refl
bracket_answers i (x ∷ []) rest whole =
    let here : x ≡ 40 ∷ 65 ∷ [] = ap first whole in
    let left : rest ≡ (41 ∷ []) ∷ [] = ap behind whole in rw (here, left) refl
bracket_answers i (x ∷ y ∷ []) rest whole =
    let here : x ≡ 40 ∷ 65 ∷ [] = ap first whole in
    let there : y ≡ 41 ∷ [] = ap (λ l. first (behind l)) whole in
    let left : rest ≡ [] = ap (λ l. behind (behind l)) whole in rw (here, there, left) refl
bracket_answers i (x ∷ y ∷ z ∷ read) rest whole = cc

abbrev low_pad : (i : ℕ) → IsPadding (0x6e ∷ [])
low_pad i = (refl, tt)

bracket_panel-Serves : Serves bracket_panel brackets
bracket_panel-Serves = record {
  pad = λ i. 0x6e ∷ [];
  checksum = λ i. 0;
  padded = low_pad;
  answers = bracket_answers;
}

are_pieces : All IsPiece brackets
unfolding IsPiece
are_pieces = ((omega arith, omega arith), ((omega arith, omega arith), tt))

few_characters : length (joined brackets) ≤ max_capabilities_length
unfolding joined
few_characters = omega arith

read_capabilities_string-whole_example :
    read_capabilities_string bracket_panel ≡ ok (joined brackets)
read_capabilities_string-whole_example =
    read_capabilities_string-whole bracket_panel brackets bracket_panel-Serves few_characters
      are_pieces (omega arith)

abbrev stuck_panel : Exchange
stuck_panel i request = ok (fragment_frame 0 (40 ∷ []) 0)

stuck_panel-Repeats : Repeats stuck_panel (40 ∷ [])
stuck_panel-Repeats = record {
  offset = 0;
  checksum = 0;
  in_range = omega arith;
  answers = λ i request. refl;
}

read_capabilities_string-copies_example :
    read_capabilities_string stuck_panel ≡ ok (copies 128 (40 ∷ []))
read_capabilities_string-copies_example =
    read_capabilities_string-copies stuck_panel 40 [] stuck_panel-Repeats (omega arith)
      (omega arith)

quiet_pad : NoSignature (0x6e ∷ [])
unfolding nat_eq ℕ_discrete
quiet_pad = (refl, tt)

parse_vcp_reply-frame_example : parse_vcp_reply (0x6e ∷ [] ++ frame 0 0x10 0 100 55 0 []) ≡ (
    if ◌==◌ {A = ℕ} 0 0
    then reply (sent 0 0x10 0 100 55 0 [])
    else refused unsupported_vcp ("Display reported VCP result code 0x" <> hexadecimal 0))
parse_vcp_reply-frame_example =
    parse_vcp_reply-frame 0 0x10 0 100 55 0 [] (0x6e ∷ []) quiet_pad (omega arith) (omega arith)
