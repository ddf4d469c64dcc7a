-- ===== src/Net/Config/Groups/Known.antt =====
-- The lanes that `ConfigClient::refreshConfiguration` reads drive known effects only
-- (src/net/config_client.cpp).
use nova_visualiser.Prelude.{
  ◌≡◌, refl, true, List, [], ◌∷◌, Bytes, codes, All, Bool-cases, inl, inr, bytes_eq,
}
use nova_visualiser.Prelude.Maps.{Map, has_key}
use nova_visualiser.Core.Double.{Double}
use nova_visualiser.Core.Json.{Value}
use nova_visualiser.Core.Json.Access.{string_field, array_field}
use nova_visualiser.Core.Drivers.{EffectBinding, DriverLane, SettingsGroup}
use nova_visualiser.Net.Config.Groups.{
  binding_of, bindings_of, lane_of, keep_lane, lanes_of, group_of, groups_of,
}

module _ {D : Type 0} ⦃d : Double D⦄ where
  -- Bindings to known effects, at least one in each lane, in groups of one module
  abbrev KnownBindings : Map D → List (EffectBinding D) → Type 0
  KnownBindings settings = All (λ b. has_key b.effect settings ≡ true)

  abbrev NonEmpty : List (EffectBinding D) → Type 0
  NonEmpty [] = ⊥
  NonEmpty (b ∷ bs) = Unit

  abbrev KnownLanes : Map D → List (DriverLane D) → Type 0
  KnownLanes settings = All (λ l. NonEmpty l.bindings × KnownBindings settings l.bindings)

  abbrev pub KnownGroups : Map D → Bytes → List (SettingsGroup D) → Type 0
  KnownGroups settings module_id =
      All (λ g. (bytes_eq g.module_id module_id ≡ true) × KnownLanes settings g.lanes)

  bindings_of-Known :
      (settings : Map D) (items : List (Value D))
      → KnownBindings settings (bindings_of settings items)
  unfolding bindings_of
  bindings_of-Known settings [] = tt
  bindings_of-Known settings (raw ∷ rest) =
      elim (Bool-cases (has_key (binding_of raw).effect settings)) [
        | inl e ↦ rw (e, bindings_of) (e, bindings_of-Known settings rest)
        | inr e ↦ rw (e, bindings_of) (bindings_of-Known settings rest)
      ]

  keep_lane-Known :
      (settings : Map D) (lane : DriverLane D) (bindings : List (EffectBinding D))
      (lanes : List (DriverLane D))
      → lane.bindings ≡ bindings
      → KnownBindings settings lane.bindings
      → KnownLanes settings lanes
      → KnownLanes settings (keep_lane lane bindings lanes)
  unfolding keep_lane
  keep_lane-Known settings lane [] lanes e known rest = rest
  keep_lane-Known settings lane (b ∷ bs) lanes e known rest = ((rw e tt, known), rest)

  lanes_of-Known :
      (settings : Map D) (items : List (Value D)) → KnownLanes settings (lanes_of settings items)
  unfolding lanes_of lane_of
  lanes_of-Known settings [] = tt
  lanes_of-Known settings (raw ∷ rest) =
      keep_lane-Known settings (lane_of settings raw) (lane_of settings raw).bindings
        (lanes_of settings rest) refl
        (bindings_of-Known settings (array_field raw (codes "bindings")))
        (lanes_of-Known settings rest)

  -- Whatever the configuration holds: the settings groups that are read belong to the active module,
  -- every lane of theirs has a binding, and every binding drives an effect that has a setting.
  pub groups_of-KnownGroups :
      (settings : Map D) (module_id : Bytes) (items : List (Value D))
      → KnownGroups settings module_id (groups_of settings module_id items)
  unfolding groups_of group_of
  groups_of-KnownGroups settings module_id [] = tt
  groups_of-KnownGroups settings module_id (raw ∷ rest) =
      elim (Bool-cases (bytes_eq (string_field raw (codes "moduleId") []) module_id)) [
        | inl e ↦
            rw (e, groups_of)
              (
                (e, lanes_of-Known settings (array_field raw (codes "lanes"))),
                groups_of-KnownGroups settings module_id rest,
              )
        | inr e ↦ rw (e, groups_of) (groups_of-KnownGroups settings module_id rest)
      ]
