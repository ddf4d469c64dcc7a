-- ===== src/Net/Config/Rotation/Selected.antt =====
-- The configuration's rotation goes on with the selection it is given (src/net/config_client.cpp).
use nova_visualiser.Prelude.{
  ◌≡◌, refl, ◌∙◌, Option, none, some, List, [], ◌∷◌, Bytes, codes, Bool-cases, inl, inr, length,
  ◌==◌,
}
use nova_visualiser.Prelude.Maps.{Map, lookup}
use nova_visualiser.Core.Double.{Double}
use nova_visualiser.Core.Json.{Value}
use nova_visualiser.Core.Json.Access.{value_or, string_field, array_field}
use nova_visualiser.Core.Vec.{Vec4}
use nova_visualiser.Net.Config.{Entry, ColorGroupRotation}
use nova_visualiser.Net.Config.Rotation.{
  ThemeLibrary, add_columns, add_entries, rotation_of_groups, with_solo, solo_of, empty_text,
  resolved_entry, alt_palette, is_other_group, of_other_module,
}

module _ {D : Type 0} ⦃d : Double D⦄ where
  add_columns-selection :
      (library : ThemeLibrary D) (own : Map (Vec4 D)) (entry : Entry) (alt : Option (Map (Vec4 D)))
      (r : ColorGroupRotation D)
      → (add_columns library own entry alt r).selection ≡ r.selection
  unfolding add_columns
  add_columns-selection library own entry none r = refl
  add_columns-selection library own entry (some alt) r = refl

  add_entries-selection :
      (library : ThemeLibrary D) (base : Map (Vec4 D)) (items : List (Value D))
      (r : ColorGroupRotation D)
      → (add_entries library base items r).selection ≡ r.selection
  unfolding add_entries
  add_entries-selection library base [] r = refl
  add_entries-selection library base (item ∷ items) r =
      add_entries-selection library base items _
      ∙ add_columns-selection library
          (value_or (lookup (resolved_entry item).theme_id library.palettes) base)
          (resolved_entry item) (alt_palette library (resolved_entry item).alt_theme_id) r

  rotation_of_groups-selection :
      (library : ThemeLibrary D) (base : Map (Vec4 D)) (selected module_id : Bytes)
      (groups : List (Value D)) (r : ColorGroupRotation D)
      → (rotation_of_groups library base selected module_id groups r).selection ≡ r.selection
  unfolding rotation_of_groups
  rotation_of_groups-selection library base selected module_id [] r = refl
  rotation_of_groups-selection library base selected module_id (group ∷ groups) r =
      let rest = rotation_of_groups-selection library base selected module_id groups r in
      elim (Bool-cases (is_other_group selected group)) [
        | inl e ↦ rw e rest
        | inr e ↦ rw e (elim (Bool-cases (of_other_module module_id group)) [
          | inl f ↦ rw f rest
          | inr f ↦ rw f (elim (Bool-cases (length (array_field group (codes "entries")) == 0)) [
            | inl g ↦ rw g rest
            | inr g ↦ rw g (
                add_entries-selection library base (array_field group (codes "entries"))
                  (record r { group_id = string_field group (codes "id") [] }))
          ])
        ])
      ]

  solo_of-selection :
      (library : ThemeLibrary D) (id : Bytes) (found : Option (Map (Vec4 D)))
      (r : ColorGroupRotation D)
      → (solo_of library id found r).selection ≡ r.selection
  unfolding solo_of add_columns
  solo_of-selection library id none r = refl
  solo_of-selection library id (some palette) r = refl

  with_solo-selection :
      (library : ThemeLibrary D) (solo_id : Bytes) (r : ColorGroupRotation D)
      → (with_solo library solo_id r).selection ≡ r.selection
  unfolding with_solo
  with_solo-selection library solo_id r = elim (Bool-cases (empty_text solo_id)) [
    | inl e ↦ rw e refl
    | inr e ↦ rw e (solo_of-selection library solo_id (lookup solo_id library.palettes) r)
  ]

  pub rotation-selection :
      (library : ThemeLibrary D) (base : Map (Vec4 D)) (selected module_id solo_id : Bytes)
      (groups : List (Value D)) (r : ColorGroupRotation D)
      → (with_solo library solo_id
          (rotation_of_groups library base selected module_id groups r)).selection
        ≡ r.selection
  rotation-selection library base selected module_id solo_id groups r =
      with_solo-selection library solo_id
        (rotation_of_groups library base selected module_id groups r)
      ∙ rotation_of_groups-selection library base selected module_id groups r
