-- ===== src/Core/Drivers/Lanes/Merge.antt =====
-- The layers of settings groups (`mergeSettingsGroups` of src/core/parameter_drivers.cpp).
use nova_visualiser.Prelude.{
  ◌≡◌, refl, sym, ap, ◌∙◌, Option, none, some, List, [], ◌∷◌, ◌++◌, append_assoc, append-nil, Bytes,
  bytes_eq, Bool-cases, inl, inr, if◌then◌else◌,
}
use nova_visualiser.Prelude.Maps.{
  Map, lookup, assign, lookup-assign_same, lookup-assign_other, bytes_eq→≡,
}
use nova_visualiser.Core.Drivers.{SettingsGroup, ScopedLane, MergedSettingsGroups}
use nova_visualiser.Core.Drivers.Lanes.{assign_all, scoped, merge_into, merge_settings_groups}

module _ {ℓ} {A : Type ℓ} where
  -- The last value that the entries give a key, or `found`
  unfoldable pub last_value : Bytes → Map A → Option A → Option A
  last_value k [] found = found
  last_value k ((j, a) ∷ rest) found = last_value k rest (if bytes_eq k j then some a else found)

  lookup-assign :
      (k j : Bytes) (a : A) (m : Map A)
      → lookup k (assign j a m) ≡ (if bytes_eq k j then some a else lookup k m)
  lookup-assign k j a m = elim (Bool-cases (bytes_eq k j)) [
    | inl e ↦ rw (e, bytes_eq→≡ k j e) (lookup-assign_same j a m)
    | inr e ↦ rw e (lookup-assign_other k j a m e)
  ]

  lookup-assign_all :
      (k : Bytes) (from into : Map A)
      → lookup k (assign_all from into) ≡ last_value k from (lookup k into)
  unfolding assign_all last_value
  lookup-assign_all k [] into = refl
  lookup-assign_all k ((j, a) ∷ from) into =
      lookup-assign_all k from (assign j a into) ∙ ap (last_value k from) (lookup-assign k j a into)

module _ {D : Type 0} where
  -- The last group that sets a key, read one by one,
  unfoldable pub last_set :
      {A : Type 0}
      → (SettingsGroup D → Map A)
      → Bytes
      → List (Option (SettingsGroup D))
      → Option A
      → Option A
  unfolding last_value
  last_set field k [] found = found
  last_set field k (none ∷ groups) found = last_set field k groups found
  last_set field k (some group ∷ groups) found =
      last_set field k groups (last_value k (field group) found)

  -- and the lanes of all of them.
  pub all_lanes : List (Option (SettingsGroup D)) → List (ScopedLane D)
  all_lanes [] = []
  all_lanes (none ∷ groups) = all_lanes groups
  all_lanes (some group ∷ groups) = scoped group.id group.lanes ++ all_lanes groups

  merge_into-static :
      (k : Bytes) (groups : List (Option (SettingsGroup D))) (merged : MergedSettingsGroups D)
      → lookup k (merge_into merged groups).static_settings
        ≡ last_set (λ g. g.static_settings) k groups (lookup k merged.static_settings)
  unfolding merge_into last_set
  merge_into-static k [] merged = refl
  merge_into-static k (none ∷ groups) merged = merge_into-static k groups merged
  merge_into-static k (some group ∷ groups) merged =
      merge_into-static k groups _
      ∙ ap (last_set (λ g. g.static_settings) k groups)
          (lookup-assign_all k group.static_settings merged.static_settings)

  merge_into-combine :
      (k : Bytes) (groups : List (Option (SettingsGroup D))) (merged : MergedSettingsGroups D)
      → lookup k (merge_into merged groups).combine
        ≡ last_set (λ g. g.combine) k groups (lookup k merged.combine)
  unfolding merge_into last_set
  merge_into-combine k [] merged = refl
  merge_into-combine k (none ∷ groups) merged = merge_into-combine k groups merged
  merge_into-combine k (some group ∷ groups) merged =
      merge_into-combine k groups _
      ∙ ap (last_set (λ g. g.combine) k groups) (lookup-assign_all k group.combine merged.combine)

  merge_into-lanes :
      (groups : List (Option (SettingsGroup D))) (merged : MergedSettingsGroups D)
      → (merge_into merged groups).lanes ≡ merged.lanes ++ all_lanes groups
  unfolding merge_into all_lanes
  merge_into-lanes [] merged = sym (append-nil merged.lanes)
  merge_into-lanes (none ∷ groups) merged = merge_into-lanes groups merged
  merge_into-lanes (some group ∷ groups) merged =
      merge_into-lanes groups _
      ∙ append_assoc merged.lanes (scoped group.id group.lanes) (all_lanes groups)

  -- Merged settings groups: a static setting and a combine mode are those of the last group in the
  -- list that has one, null pointers aside, and the lanes are those of all groups, in order.
  pub merge_settings_groups-last_set :
      (groups : List (Option (SettingsGroup D))) (k : Bytes)
      → (lookup k (merge_settings_groups groups).static_settings
          ≡ last_set (λ g. g.static_settings) k groups none)
        × ((lookup k (merge_settings_groups groups).combine
              ≡ last_set (λ g. g.combine) k groups none)
            × ((merge_settings_groups groups).lanes ≡ all_lanes groups))
  unfolding merge_settings_groups lookup
  merge_settings_groups-last_set groups k =
      (merge_into-static k groups _, (merge_into-combine k groups _, merge_into-lanes groups _))
