-- ===== src/Domain/Command/Targets.antt =====
-- Commands in flight and terminal, and when two commands act on one target.
use Prim.Native.Char.{Char, code}
use text.Mathlib.TextLemmas.{
  nil-append, cons-append, append_assoc, append_cancel_left, append_cancel_right,
}
use mathlib.Core.Option.{some-injective}
use desk_control.Common.{
  ℕ, String, Option, none, some, not, ◌≡◌, ◌≢◌, refl, sym, ◌∙◌, arith, Option-cases, inl, inr, ◌<>◌,
  ap, ◌↔◌,
}
use desk_control.Domain.Command.{
  CommandStatus, CommandPayload, PeripheralOrder, set_monitor_input, set_monitor_brightness,
  set_monitor_power, set_peripheral_owner, command_target_key, is_in_flight, is_terminal,
}

-- A status is terminal exactly where it is not in flight.
pub is_terminal-not : (s : CommandStatus) → is_terminal s ≡ not (is_in_flight s)
unfolding is_terminal is_in_flight
is_terminal-not CommandStatus.pending = refl
is_terminal-not _ = refl

first_char : String → Option Char
first_char String.[] = none
first_char (String.◌∷◌ c s) = some c

last_char : String → Option Char
last_char String.[] = none
last_char (String.◌∷◌ c String.[]) = some c
last_char (String.◌∷◌ c (String.◌∷◌ d s)) = last_char (String.◌∷◌ d s)

last_char-append :
    (s : String) (c : Char) (t : String)
    → last_char (s <> String.◌∷◌ c t) ≡ last_char (String.◌∷◌ c t)
unfolding last_char
last_char-append String.[] c t = rw nil-append
last_char-append (String.◌∷◌ a String.[]) c t = rw (cons-append, nil-append)
last_char-append (String.◌∷◌ a (String.◌∷◌ b s)) c t =
    let ih = last_char-append (String.◌∷◌ b s) c t in
    rw (cons-append, cons-append) (rw cons-append at ih)

first_char-monitor : (s : String) → first_char ("monitor:" <> s) ≡ first_char "monitor:"
unfolding first_char
first_char-monitor s = ap first_char (cons-append "m" "onitor:" s)

first_char-switch : (s : String) → first_char ("switch:" <> s) ≡ first_char "switch:"
unfolding first_char
first_char-switch s = ap first_char (cons-append "s" "witch:" s)

-- What a monitor command changes on its monitor.
pub data Feature : Type 0 where
  input brightness power : Feature

abbrev pub suffix : Feature → String
suffix input = ":input"
suffix brightness = ":brightness"
suffix power = ":power"

-- The feature and the monitor that a command is about, if it is about a monitor.
unfoldable pub monitor_target : CommandPayload → Option (Feature × String)
monitor_target (set_monitor_input m i c) = some (input, m)
monitor_target (set_monitor_brightness m b) = some (brightness, m)
monitor_target (set_monitor_power m p) = some (power, m)
monitor_target (set_peripheral_owner o) = none

last_of_suffix : (f : Feature) (s : String) → last_char (s <> suffix f) ≡ last_char (suffix f)
last_of_suffix input s = last_char-append s ":" "input"
last_of_suffix brightness s = last_char-append s ":" "brightness"
last_of_suffix power s = last_char-append s ":" "power"

code_of : Option Char → ℕ
code_of none = 0
code_of (some c) = code c

last_char-suffix_injective : (f g : Feature) → last_char (suffix f) ≡ last_char (suffix g) → f ≡ g
unfolding last_char code_of
last_char-suffix_injective input input e = refl
last_char-suffix_injective brightness brightness e = refl
last_char-suffix_injective power power e = refl
last_char-suffix_injective f g e = let h = ap code_of e in absurd (omega (arith, h))

abbrev feature_key : Feature → String → String
feature_key f m = "monitor:" <> (m <> suffix f)

feature_key-injective :
    (f g : Feature) (m n : String) → feature_key f m ≡ feature_key g n → (f ≡ g) × (m ≡ n)
feature_key-injective f g m n e =
    (same, append_cancel_right m n (suffix f) (ends ∙ ap (λ h. n <> suffix h) (sym same)))
  where
    ends : (m <> suffix f) ≡ (n <> suffix g)
    ends = append_cancel_left "monitor:" _ _ e

    same : f ≡ g
    same =
        last_char-suffix_injective f g
          (sym (last_of_suffix f m) ∙ ap last_char ends ∙ last_of_suffix g n)

key-monitor :
    (p : CommandPayload) {f : Feature} {m : String}
    → monitor_target p ≡ some (f, m)
    → command_target_key p ≡ feature_key f m
unfolding monitor_target command_target_key
key-monitor (set_monitor_input m i c) e = ap (λ t. feature_key t.0 t.1) (some-injective _ _ e)
key-monitor (set_monitor_brightness m b) e = ap (λ t. feature_key t.0 t.1) (some-injective _ _ e)
key-monitor (set_monitor_power m p) e = ap (λ t. feature_key t.0 t.1) (some-injective _ _ e)
key-monitor (set_peripheral_owner o) e = cc

key-ne_switch :
    (f : Feature) (m : String) (q : CommandPayload)
    → monitor_target q ≡ none
    → feature_key f m ≢ command_target_key q
unfolding monitor_target command_target_key first_char code_of
key-ne_switch f m (set_peripheral_owner o) e h =
    let same =
      ap code_of
        (sym (first_char-monitor (m <> suffix f)) ∙ ap first_char h ∙ first_char-switch _) in
    absurd (omega (arith, same))
key-ne_switch f m (set_monitor_input _ _ _) e h = cc
key-ne_switch f m _ e h = cc

-- A command for a feature of a monitor shares its target key with the commands for that feature of
-- that monitor and with no other: dimming a panel cannot retire an input switch.
pub command_target_key_iff :
    (p q : CommandPayload) (f : Feature) (m : String)
    → monitor_target p ≡ some (f, m)
    → (command_target_key q ≡ command_target_key p) ↔ (monitor_target q ≡ some (f, m))
command_target_key_iff p q f m e = (
  (λ same. elim (Option-cases (monitor_target q)) [
    | inl n ↦ absurd (key-ne_switch f m q n (sym (same ∙ key-monitor p e)))
    | inr ((g, n), h) ↦
        let (one_feature, one_monitor) =
          feature_key-injective g f n m (sym (key-monitor q h) ∙ same ∙ key-monitor p e) in
        rw (h, one_feature, one_monitor)
  ]),
  λ h. key-monitor q h ∙ sym (key-monitor p e),
)

-- Switch keys are not told apart in the same way: for any three texts, the channel `y:z` of the
-- switch `x` and the channel `z` of the switch `x:y` have one key.
pub switch_keys_collide :
    (x y z : String) (p q : PeripheralOrder)
    → p.switch_id ≡ x
    → p.channel_id ≡ y <> (":" <> z)
    → q.switch_id ≡ x <> (":" <> y)
    → q.channel_id ≡ z
    → command_target_key (set_peripheral_owner p) ≡ command_target_key (set_peripheral_owner q)
unfolding command_target_key
switch_keys_collide x y z p q a b c d = rw (a, b, c, d, append_assoc, append_assoc)
