-- ===== src/Core/Drivers/Tests.antt =====
-- Runs of the drivers, and the theorems about them at concrete inputs.
use nova_visualiser.Prelude.{
  ℕ, ◌++◌, ◌≡◌, refl, true, false, Option, none, some, List, [], ◌∷◌, map, Bytes, codes, bytes_eq,
  All, inl, arith, ◌<◌,
}
use nova_visualiser.Prelude.Int.{pos, negsuc, ◌+ℤ◌, pos_part, max_ℤ, rem_ℤ, ◌-ℤ◌}
use nova_visualiser.Prelude.Maps.{Map, lookup}
use nova_visualiser.Core.Double.{◌≺◌, ◌≼◌, ◌⊖◌, nought, one}
use nova_visualiser.Core.Double.Whole.{Whole, whole_double}
use nova_visualiser.Core.Signal.{default_frame}
use nova_visualiser.Core.Drivers.{
  EffectDeclaration, Driver, EffectBinding, ScopedLane, SettingsGroup, attack, driver_fires_on,
  default_driver, new_slot, clamp01, EnvelopeTimes, hold, is_override_only_effect,
}
use nova_visualiser.Core.Drivers.Fires.{driver_fires_on-once}
use nova_visualiser.Core.Drivers.Pulse.{
  Walk, goes_on, envelope_walk, advance_pulse_envelope, is_triggered,
}
use nova_visualiser.Core.Drivers.Pulse.Rounds.{envelope_walk-goes_on}
use nova_visualiser.Core.Drivers.Pulse.Events.{
  advance_pulse_envelope-is_triggered, advance_pulse_envelope-attack,
}
use nova_visualiser.Core.Drivers.Lanes.{
  Contribution, merge_settings_groups, evaluate_driver_lanes, resolve_effects,
}
use nova_visualiser.Core.Drivers.Lanes.Merge.{
  last_set, last_value, all_lanes, merge_settings_groups-last_set,
}
use nova_visualiser.Core.Drivers.Lanes.Resolve.{
  InRange, evaluate_driver_lanes-InRange, resolve_effects-override, declared_lane,
  evaluate_driver_lanes-declared_lane,
}

irreflexive : (a : Whole) → (a ≺ a) ≡ false
irreflexive none = refl
irreflexive (some n) = ground arith

asymmetric : (a b : Whole) → (a ≺ b) ≡ true → (b ≺ a) ≡ false
asymmetric none b h = ground arith
asymmetric (some m) none h = refl
asymmetric (some m) (some n) h = ground arith

no_time : (a : Whole) → (nought ≺ a ⊖ a) ≡ false
no_time none = refl
no_time (some n) = ground arith

no_hold : (a b : Whole) → (a ≺ b) ≡ true → (a ≼ nought) ≡ false → (a ⊖ a ≼ nought) ≡ true
no_hold none b h k = ground arith
no_hold (some n) b h k = ground arith

-- Every fourth event, the second one of the cycle, on both sides of 0
fires_below : driver_fires_on (negsuc 2) (pos 4) (pos 1) ≡ true
unfolding driver_fires_on rem_ℤ ◌-ℤ◌ ◌+ℤ◌
fires_below = refl

driver_fires_on-once_example :
    (k : ℕ) × ((k < pos_part (max_ℤ (pos 1) (pos 4)))
      × ((driver_fires_on (negsuc 5 +ℤ pos k) (pos 4) (pos 1) ≡ true)
          × ((j : ℕ)
              → j < pos_part (max_ℤ (pos 1) (pos 4))
              → driver_fires_on (negsuc 5 +ℤ pos j) (pos 4) (pos 1) ≡ true
              → j ≡ k)))
driver_fires_on-once_example = driver_fires_on-once (negsuc 5) (pos 4) (pos 1)

abbrev instant : EnvelopeTimes Whole
instant = record { attack_seconds = some 0; hold_seconds = some 0; release_seconds = some 0 }

abbrev slow : EnvelopeTimes Whole
slow = record { attack_seconds = some 2; hold_seconds = some 3; release_seconds = some 4 }

abbrev started : Walk Whole
started = record {
  slot = record new_slot { phase = attack; hold_remaining = some 3 };
  remaining = some 9;
  stopped = false;
}

envelope_walk-goes_on_example : goes_on (envelope_walk 4 false slow started) ≡ false
envelope_walk-goes_on_example = envelope_walk-goes_on irreflexive no_time no_hold false slow started

advance_pulse_envelope-is_triggered_example :
    is_triggered (advance_pulse_envelope new_slot slow (some 1) (codes "b:7")).1 (codes "b:7")
    ≡ false
advance_pulse_envelope-is_triggered_example =
    advance_pulse_envelope-is_triggered new_slot slow (some 1) (codes "b:7")

first_beat : is_triggered {D = Whole} new_slot (codes "b:7") ≡ true
unfolding is_triggered bytes_eq
first_beat = refl

advance_pulse_envelope-attack_example :
    ((advance_pulse_envelope new_slot instant (some 1) (codes "b:7")).0 ≡ clamp01 one)
    × ((advance_pulse_envelope new_slot instant (some 1) (codes "b:7")).1.phase ≡ hold)
advance_pulse_envelope-attack_example =
    advance_pulse_envelope-attack new_slot instant (some 1) (codes "b:7") first_beat refl refl

abbrev energy_driver : Driver Whole
energy_driver = record default_driver { type = codes "energy" }

abbrev binding_to : Bytes → EffectBinding Whole
binding_to effect = record {
  id = codes "one";
  effect = effect;
  min = none;
  max = some (some 5);
  attack_seconds = none;
  hold_seconds = none;
  release_seconds = none;
  random_value = false;
  params = [];
}

abbrev glow_lane : ScopedLane Whole
glow_lane = record {
  group_id = codes "defaults";
  lane = record {
    id = codes "pulse";
    driver = energy_driver;
    modifiers = record default_driver { type = codes "bass" } ∷ [];
    bindings = binding_to (codes "glow") ∷ binding_to (codes "retired") ∷ [];
  };
}

abbrev declarations : Map (EffectDeclaration Whole)
declarations =
    (
      codes "glow",
      record {
        id = codes "glow";
        min = some 1;
        max = some 9;
        step = some 1;
        default_value = some 2;
      },
    )
    ∷ []

evaluate_driver_lanes-InRange_example :
    All
      (InRange declarations)
      (evaluate_driver_lanes (glow_lane ∷ []) [] declarations default_frame []).0.values
evaluate_driver_lanes-InRange_example =
    evaluate_driver_lanes-InRange irreflexive asymmetric (glow_lane ∷ []) [] declarations
      default_frame []

evaluate_driver_lanes-declared_lane_example :
    evaluate_driver_lanes
      (map (declared_lane declarations) (glow_lane ∷ []))
      []
      declarations
      default_frame
      []
    ≡ evaluate_driver_lanes (glow_lane ∷ []) [] declarations default_frame []
evaluate_driver_lanes-declared_lane_example =
    evaluate_driver_lanes-declared_lane (glow_lane ∷ []) [] declarations default_frame []

abbrev flip : Contribution Whole
flip = record { amount = some 2; period = some 1; resting_value = some 0 }

abbrev slide : Contribution Whole
slide = record { amount = some 3; period = some 8; resting_value = some 0 }

transition-is_override_only : is_override_only_effect (codes "__centreTransition") ≡ true
unfolding is_override_only_effect bytes_eq
transition-is_override_only = refl

resolve_effects-override_example :
    resolve_effects declarations []
      ((codes "__centreTransition", flip ∷ [] ++ slide ∷ []) ∷ [])
      (record { values = []; driven = [] })
    ≡ resolve_effects declarations []
        ((codes "__centreTransition", slide ∷ []) ∷ [])
        (record { values = []; driven = [] })
resolve_effects-override_example =
    resolve_effects-override declarations [] (codes "__centreTransition") flip [] slide []
      (record { values = []; driven = [] }) (inl transition-is_override_only)

abbrev group_with : Bytes → Whole → SettingsGroup Whole
group_with id speed = record {
  id = id;
  name = id;
  module_id = codes "rings";
  lanes = [];
  combine = [];
  static_settings = (codes "speed", speed) ∷ [];
  is_default = false;
}

abbrev groups : List (Option (SettingsGroup Whole))
groups =
    some (group_with (codes "calm") (some 1))
    ∷ none
    ∷ some (group_with (codes "wild") (some 7))
    ∷ []

last_speed : last_set (λ g. g.static_settings) (codes "speed") groups none ≡ some (some 7)
unfolding last_set last_value bytes_eq
last_speed = refl

merge_settings_groups-last_set_example :
    (lookup (codes "speed") (merge_settings_groups groups).static_settings
      ≡ last_set (λ g. g.static_settings) (codes "speed") groups none)
    × ((lookup (codes "speed") (merge_settings_groups groups).combine
          ≡ last_set (λ g. g.combine) (codes "speed") groups none)
        × ((merge_settings_groups groups).lanes ≡ all_lanes groups))
merge_settings_groups-last_set_example = merge_settings_groups-last_set groups (codes "speed")
