-- ===== src/Core/Drivers/Lanes.antt =====
-- The lanes of settings groups, and the values they resolve to (src/core/parameter_drivers.cpp).
pub mod Merge
pub mod Resolve
use nova_visualiser.Prelude.{
  ℕ, zero, suc, Bool, true, false, Option, none, some, List, [], ◌∷◌, ◌++◌, Bytes, codes, bytes_eq,
  if◌then◌else◌, not, ◌&&◌, ◌||◌,
}
use nova_visualiser.Prelude.Int.{pos, int_text}
use nova_visualiser.Prelude.Maps.{Map, lookup, assign}
use nova_visualiser.Core.Double.{Double, ◌⊕◌, ◌⊖◌, ◌⊗◌, ◌≺◌, ◌≼◌, nought, one, fmax, fmin}
use nova_visualiser.Core.Json.Access.{value_or}
use nova_visualiser.Core.Signal.{SignalFrame}
use nova_visualiser.Core.Drivers.{
  EffectDeclaration, Driver, EffectBinding, DriverLane, ScopedLane, CombineMode, add, strongest,
  common, override, SettingsGroup, MergedSettingsGroups, DriverSlotState, clamp_to_declaration,
  driver_period_seconds, is_override_only_effect, new_slot,
}
use nova_visualiser.Core.Drivers.Pulse.{driver_signal, drawn}

pub record Contribution (D : Type 0) : Type 0 where
  pub amount : D
  pub period : D
  pub resting_value : D

pub record LaneEvaluation (D : Type 0) : Type 0 where
  pub values : Map D
  pub driven : List Bytes

module _ {ℓ} {A : Type ℓ} where
  -- for (const auto& [key, value] : from) into[key] = value;
  unfoldable pub assign_all : Map A → Map A → Map A
  unfolding assign
  assign_all [] into = into
  assign_all ((key, value) ∷ from) into = assign_all from (assign key value into)

module _ {D : Type 0} where
  abbrev pub scoped : Bytes → List (DriverLane D) → List (ScopedLane D)
  scoped group_id [] = []
  scoped group_id (lane ∷ lanes) =
      record { group_id = group_id; lane = lane } ∷ scoped group_id lanes

  -- The loop of `mergeSettingsGroups`
  pub merge_into : MergedSettingsGroups D → List (Option (SettingsGroup D)) → MergedSettingsGroups D
  unfolding assign_all
  merge_into merged [] = merged
  merge_into merged (none ∷ groups) = merge_into merged groups
  merge_into merged (some group ∷ groups) =
      merge_into
        (record {
          lanes = merged.lanes ++ scoped group.id group.lanes;
          combine = assign_all group.combine merged.combine;
          static_settings = assign_all group.static_settings merged.static_settings;
        })
        groups

  -- `mergeSettingsGroups`; none is a null pointer.
  pub merge_settings_groups : List (Option (SettingsGroup D)) → MergedSettingsGroups D
  unfolding merge_into
  merge_settings_groups groups =
      merge_into (record { lanes = []; combine = []; static_settings = [] }) groups

-- The mode of an effect
unfoldable pub mode_of : Bytes → Map CombineMode → CombineMode
unfolding is_override_only_effect lookup value_or
mode_of effect combine =
    if is_override_only_effect effect then override else value_or (lookup effect combine) add

event_key_of : {D : Type 0} → Option (DriverSlotState D) → Bytes
event_key_of none = []
event_key_of (some slot) = slot.event_key

module _ {D : Type 0} ⦃d : Double D⦄ where
  -- A new event of the lane draws a new target.
  roll_again : DriverSlotState D → Bytes → Bytes → DriverSlotState D
  unfolding bytes_eq
  roll_again roll slot event_key =
      if not roll.seeded || not (bytes_eq event_key roll.event_key)
      then record roll {
        seeded = true;
        event_key = event_key;
        target = drawn (slot ++ codes ":rnd:" ++ event_key);
      }
      else roll

  -- `randomValueScale`
  pub random_value_scale :
      EffectBinding D → Map (DriverSlotState D) → Bytes → D × Map (DriverSlotState D)
  unfolding roll_again event_key_of lookup assign value_or
  random_value_scale binding states slot =
      let key = slot ++ codes ":rnd" in
      let roll =
        roll_again (value_or (lookup key states) new_slot) slot
          (event_key_of (lookup (slot ++ codes ":0") states)) in
      if binding.random_value
      then (roll.target, assign key roll states)
      else (d.literal (codes "1.0"), states)

  -- The loop over the modifiers of a lane, from number `index` on
  pub add_modifiers :
      List (Driver D)
      → ℕ
      → EffectBinding D
      → SignalFrame D
      → Bytes
      → D
      → Map (DriverSlotState D)
      → D × Map (DriverSlotState D)
  unfolding driver_signal int_text
  add_modifiers [] index binding frame slot signal states = (signal, states)
  add_modifiers (modifier ∷ modifiers) index binding frame slot signal states =
      let (more, next) =
        driver_signal modifier binding frame states (slot ++ b':' ∷ int_text (pos index)) in
      add_modifiers modifiers (suc index) binding frame slot (signal ⊕ more) next

  abbrev max_lane_signal : D
  max_lane_signal = d.literal (codes "4.0")

  -- What a binding whose effect is declared adds
  pub contribution_of :
      ScopedLane D
      → EffectBinding D
      → EffectDeclaration D
      → SignalFrame D
      → Map (DriverSlotState D)
      → Contribution D × Map (DriverSlotState D)
  unfolding clamp_to_declaration driver_signal add_modifiers random_value_scale value_or
      driver_period_seconds
  contribution_of scoped binding declaration frame states =
      let low = clamp_to_declaration declaration (value_or binding.min declaration.min) in
      let high =
        fmax low (clamp_to_declaration declaration (value_or binding.max declaration.max)) in
      let slot = scoped.group_id ++ b':' ∷ (scoped.lane.id ++ b':' ∷ binding.id) in
      let (main, driven) =
        driver_signal scoped.lane.driver binding frame states (slot ++ codes ":0") in
      let (summed, modified) =
        add_modifiers scoped.lane.modifiers 1 binding frame slot main driven in
      let signal = fmax nought (fmin max_lane_signal summed) in
      let (reach, rolled) = random_value_scale binding modified slot in
      (
        record {
          amount = (high ⊖ low) ⊗ signal ⊗ reach;
          period = driver_period_seconds scoped.lane.driver frame;
          resting_value = low;
        },
        rolled,
      )

  -- contributions[effect].push_back(entry)
  unfoldable pub push_contribution :
      Bytes → Contribution D → Map (List (Contribution D)) → Map (List (Contribution D))
  unfolding lookup assign value_or
  push_contribution effect entry all =
      assign effect (value_or (lookup effect all) [] ++ entry ∷ []) all

  -- The loop over the bindings of a lane, with the contributions and the states,
  pub gather_bindings :
      Map (EffectDeclaration D)
      → SignalFrame D
      → ScopedLane D
      → List (EffectBinding D)
      → Map (List (Contribution D)) × Map (DriverSlotState D)
      → Map (List (Contribution D)) × Map (DriverSlotState D)
  unfolding contribution_of push_contribution lookup
  gather_bindings declarations frame scoped [] gathered = gathered
  gather_bindings declarations frame scoped (binding ∷ bindings) (all, states) =
      elim (lookup binding.effect declarations) [
        | none ↦ gather_bindings declarations frame scoped bindings (all, states)
        | some declaration ↦
            let (entry, next) = contribution_of scoped binding declaration frame states in
            gather_bindings declarations frame scoped bindings
              (push_contribution binding.effect entry all, next)
      ]

  -- and the loop over the lanes.
  pub gather_lanes :
      Map (EffectDeclaration D)
      → SignalFrame D
      → List (ScopedLane D)
      → Map (List (Contribution D)) × Map (DriverSlotState D)
      → Map (List (Contribution D)) × Map (DriverSlotState D)
  unfolding gather_bindings
  gather_lanes declarations frame [] gathered = gathered
  gather_lanes declarations frame (scoped ∷ lanes) gathered =
      gather_lanes declarations frame lanes
        (gather_bindings declarations frame scoped scoped.lane.bindings gathered)

  pub greatest_resting : D → List (Contribution D) → D
  greatest_resting resting [] = resting
  greatest_resting resting (entry ∷ list) = greatest_resting (fmax resting entry.resting_value) list

  pub last_contribution : Contribution D → List (Contribution D) → Contribution D
  last_contribution entry [] = entry
  last_contribution entry (next ∷ list) = last_contribution next list

  pub sum_amounts : D → List (Contribution D) → D
  sum_amounts total [] = total
  sum_amounts total (entry ∷ list) = sum_amounts (total ⊕ entry.amount) list

  -- Whether an entry takes the place of the best one so far
  pub beats : Bool → Contribution D → Option (Contribution D) → Bool
  beats rarest entry none = true
  beats rarest entry (some best) =
      if rarest then best.period ≼ entry.period else entry.period ≼ best.period

  -- The loop of `Strongest` (rarest) and of `Common`
  pub best_contribution :
      Bool → Option (Contribution D) → List (Contribution D) → Option (Contribution D)
  unfolding beats
  best_contribution rarest best [] = best
  best_contribution rarest best (entry ∷ list) =
      let skipped = d.eq entry.amount nought || (not rarest && not (nought ≺ entry.period)) in
      best_contribution rarest
        (if skipped then best else if beats rarest entry best then some entry else best) list

  pub best_amount : Bool → List (Contribution D) → Option (Contribution D) → D
  unfolding sum_amounts
  best_amount rarest list none = if rarest then nought else sum_amounts nought list
  best_amount rarest list (some best) = best.amount

  -- `resting` and `total` of an effect with contributions
  unfoldable pub combined : CombineMode → Contribution D → List (Contribution D) → D × D
  unfolding greatest_resting last_contribution sum_amounts best_contribution best_amount
  combined add entry list =
      (greatest_resting (d.neg d.infinity) (entry ∷ list), sum_amounts nought (entry ∷ list))
  combined strongest entry list = (
    greatest_resting (d.neg d.infinity) (entry ∷ list),
    best_amount true (entry ∷ list) (best_contribution true none (entry ∷ list)),
  )
  combined common entry list = (
    greatest_resting (d.neg d.infinity) (entry ∷ list),
    best_amount false (entry ∷ list) (best_contribution false none (entry ∷ list)),
  )
  combined override entry list =
      ((last_contribution entry list).resting_value, (last_contribution entry list).amount)

  -- The value of an effect from its resting value and its total
  unfoldable pub bounded_value : EffectDeclaration D → D × D → D
  bounded_value declaration (resting, total) =
      let range = fmax nought (declaration.max ⊖ declaration.min) in
      let ceiling = resting ⊕ range ⊗ d.literal (codes "4.0") in
      let value = resting ⊕ total in
      if d.is_finite value
      then fmax declaration.min (fmin ceiling value)
      else declaration.default_value

  resolve_declared :
      Option (EffectDeclaration D)
      → Bytes
      → List (Contribution D)
      → Map CombineMode
      → LaneEvaluation D
      → LaneEvaluation D
  unfolding combined bounded_value mode_of assign
  resolve_declared (some declaration) effect (entry ∷ list) combine result = record {
    values =
        assign effect (bounded_value declaration (combined (mode_of effect combine) entry list))
          result.values;
    driven = effect ∷ result.driven;
  }
  resolve_declared _ effect _ combine result = result

  -- The second loop of `evaluateDriverLanes`
  pub resolve_effects :
      Map (EffectDeclaration D)
      → Map CombineMode
      → Map (List (Contribution D))
      → LaneEvaluation D
      → LaneEvaluation D
  unfolding resolve_declared lookup
  resolve_effects declarations combine [] result = result
  resolve_effects declarations combine ((effect, list) ∷ rest) result =
      resolve_effects declarations combine rest
        (resolve_declared (lookup effect declarations) effect list combine result)

  -- `evaluateDriverLanes`, with the new states
  pub evaluate_driver_lanes :
      List (ScopedLane D)
      → Map CombineMode
      → Map (EffectDeclaration D)
      → SignalFrame D
      → Map (DriverSlotState D)
      → LaneEvaluation D × Map (DriverSlotState D)
  unfolding gather_lanes resolve_effects
  evaluate_driver_lanes lanes combine declarations frame states =
      let (contributions, next) = gather_lanes declarations frame lanes ([], states) in
      (
        resolve_effects declarations combine contributions (record { values = []; driven = [] }),
        next,
      )
