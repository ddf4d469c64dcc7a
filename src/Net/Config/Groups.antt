-- ===== src/Net/Config/Groups.antt =====
-- The settings groups of `ConfigClient::refreshConfiguration` (src/net/config_client.cpp).
pub mod Known
use nova_visualiser.Prelude.{
  Bool, true, false, Option, none, some, List, [], ◌∷◌, ◌++◌, Bytes, codes, bytes_eq, if◌then◌else◌,
}
use nova_visualiser.Prelude.Maps.{Map, lookup, has_key, assign}
use nova_visualiser.Core.Double.{Double, nought}
use nova_visualiser.Core.Json.{Value, find}
use nova_visualiser.Core.Json.Access.{
  number_of, number_or, string_or, string_field, boolean_field, array_field, object_field, value_or,
}
use nova_visualiser.Core.Drivers.{
  Driver, EffectBinding, DriverLane, CombineMode, add, strongest, common, override, SettingsGroup,
}
use nova_visualiser.Net.Config.{driver_from}

-- The wire names of the modes; anything else reads as Add.
pub combine_mode : Bytes → CombineMode
unfolding bytes_eq
combine_mode name =
    if bytes_eq name (codes "strongest")
    then strongest
    else if bytes_eq name (codes "common")
    then common
    else if bytes_eq name (codes "override")
    then override
    else add

module _ {D : Type 0} ⦃d : Double D⦄ where
  pub combine_modes : List (Bytes × Value D) → Map CombineMode → Map CombineMode
  unfolding assign combine_mode string_or
  combine_modes [] modes = modes
  combine_modes ((effect, mode) ∷ rest) modes =
      combine_modes rest (assign effect (combine_mode (string_or mode (codes "add"))) modes)

  -- value.numberOr(0), for each member
  pub numbers_by_key : List (Bytes × Value D) → Map D → Map D
  unfolding assign number_or
  numbers_by_key [] numbers = numbers
  numbers_by_key ((key, value) ∷ rest) numbers =
      numbers_by_key rest (assign key (number_or value nought) numbers)

  number_if : Option (Value D) → Option D
  unfolding number_of
  number_if none = none
  number_if (some value) = number_of value

  -- A binding, whatever its effect is
  pub binding_of : Value D → EffectBinding D
  unfolding string_field number_if find boolean_field object_field numbers_by_key
  binding_of raw = record {
    id = string_field raw (codes "id") [];
    effect = string_field raw (codes "effect") [];
    min = number_if (find (codes "min") raw);
    max = number_if (find (codes "max") raw);
    attack_seconds = number_if (find (codes "attackSeconds") raw);
    hold_seconds = number_if (find (codes "holdSeconds") raw);
    release_seconds = number_if (find (codes "releaseSeconds") raw);
    random_value = boolean_field raw (codes "randomValue");
    params = numbers_by_key (object_field raw (codes "params")) [];
  }

  -- The loop over bindings, with the settings that are known
  pub bindings_of : Map D → List (Value D) → List (EffectBinding D)
  unfolding binding_of has_key
  bindings_of settings [] = []
  bindings_of settings (raw ∷ rest) =
      let bindings = bindings_of settings rest in
      if has_key (binding_of raw).effect settings then binding_of raw ∷ bindings else bindings

  -- The loop over modifiers
  modifiers_of : List (Value D) → List (Driver D)
  unfolding driver_from
  modifiers_of [] = []
  modifiers_of (modifier ∷ rest) = driver_from (some modifier) ∷ modifiers_of rest

  pub lane_of : Map D → Value D → DriverLane D
  unfolding string_field driver_from modifiers_of bindings_of array_field find
  lane_of settings raw = record {
    id = string_field raw (codes "id") [];
    driver = driver_from (find (codes "driver") raw);
    modifiers = modifiers_of (array_field raw (codes "modifiers"));
    bindings = bindings_of settings (array_field raw (codes "bindings"));
  }

  keep_lane : DriverLane D → List (EffectBinding D) → List (DriverLane D) → List (DriverLane D)
  keep_lane lane [] lanes = lanes
  keep_lane lane (binding ∷ bindings) lanes = lane ∷ lanes

  -- The loop over lanes, which drops a lane without bindings
  pub lanes_of : Map D → List (Value D) → List (DriverLane D)
  unfolding lane_of keep_lane
  lanes_of settings [] = []
  lanes_of settings (raw ∷ rest) =
      keep_lane (lane_of settings raw) (lane_of settings raw).bindings (lanes_of settings rest)

  pub group_of : Map D → Value D → SettingsGroup D
  unfolding string_field boolean_field combine_modes numbers_by_key object_field array_field
      lanes_of
  group_of settings raw = record {
    id = string_field raw (codes "id") [];
    name = string_field raw (codes "name") [];
    module_id = string_field raw (codes "moduleId") [];
    lanes = lanes_of settings (array_field raw (codes "lanes"));
    combine = combine_modes (object_field raw (codes "combine")) [];
    static_settings = numbers_by_key (object_field raw (codes "staticSettings")) [];
    is_default = boolean_field raw (codes "isDefault");
  }

  -- The loop over `settingsGroups`, which keeps those of the active module
  unfoldable pub groups_of : Map D → Bytes → List (Value D) → List (SettingsGroup D)
  unfolding group_of string_field bytes_eq
  groups_of settings module_id [] = []
  groups_of settings module_id (raw ∷ rest) =
      let groups = groups_of settings module_id rest in
      if bytes_eq (string_field raw (codes "moduleId") []) module_id
      then group_of settings raw ∷ groups
      else groups

  effects_of : List (EffectBinding D) → List Bytes
  effects_of [] = []
  effects_of (binding ∷ bindings) = binding.effect ∷ effects_of bindings

  effects_of_lanes : List (DriverLane D) → List Bytes
  unfolding effects_of
  effects_of_lanes [] = []
  effects_of_lanes (lane ∷ lanes) = effects_of lane.bindings ++ effects_of_lanes lanes

  -- `driverInterpolatedSettings`, a set, as a list
  unfoldable pub interpolated_settings : List (SettingsGroup D) → List Bytes
  unfolding effects_of_lanes
  interpolated_settings [] = []
  interpolated_settings (group ∷ groups) =
      effects_of_lanes group.lanes ++ interpolated_settings groups
