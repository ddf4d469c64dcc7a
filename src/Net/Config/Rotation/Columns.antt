-- ===== src/Net/Config/Rotation/Columns.antt =====
-- The columns of the rotation that `ConfigClient::refreshConfiguration` builds
-- (src/net/config_client.cpp).
use nova_visualiser.Prelude.{
  ◌≡◌, refl, Option, none, some, List, [], ◌∷◌, ◌++◌, Bytes, codes, Bool-cases, inl, inr, length,
  length-append, ◌==◌,
}
use nova_visualiser.Prelude.Maps.{Map, lookup}
use nova_visualiser.Core.Double.{Double}
use nova_visualiser.Core.Json.{Value}
use nova_visualiser.Core.Json.Access.{value_or, string_field, array_field}
use nova_visualiser.Core.Vec.{Vec4}
use nova_visualiser.Net.Config.{Entry, ColorGroupRotation}
use nova_visualiser.Net.Config.Rotation.{
  ThemeLibrary, add_columns, add_entries, rotation_of_groups, with_solo, solo_of, empty_text,
  resolved_entry, alt_palette, is_other_group, of_other_module,
}

longer :
    {A B : Type 0} (xs : List A) (ys : List B) (a : A) (b : B)
    → length xs ≡ length ys
    → length (xs ++ a ∷ []) ≡ length (ys ++ b ∷ [])
longer xs ys a b h = rw (length-append xs (a ∷ []), length-append ys (b ∷ []), h) refl

module _ {D : Type 0} ⦃d : Double D⦄ where
  -- Every column has one place for each entry.
  abbrev pub IsParallel : ColorGroupRotation D → Type 0
  IsParallel r =
      (length r.palettes ≡ length r.entries)
      × ((length r.alt_palettes ≡ length r.entries)
          × ((length r.images ≡ length r.entries)
              × ((length r.alt_images ≡ length r.entries)
                  × ((length r.backgrounds ≡ length r.entries)
                      × (length r.alt_backgrounds ≡ length r.entries)))))

  add_columns-IsParallel :
      (library : ThemeLibrary D) (own : Map (Vec4 D)) (entry : Entry) (alt : Option (Map (Vec4 D)))
      (r : ColorGroupRotation D)
      → IsParallel r
      → IsParallel (add_columns library own entry alt r)
  unfolding add_columns
  add_columns-IsParallel library own entry none r (a, (b, (c, (d, (e, f))))) = (
    longer r.palettes r.entries _ _ a,
    (
      longer r.alt_palettes r.entries _ _ b,
      (
        longer r.images r.entries _ _ c,
        (
          longer r.alt_images r.entries _ _ d,
          (longer r.backgrounds r.entries _ _ e, longer r.alt_backgrounds r.entries _ _ f),
        ),
      ),
    ),
  )
  add_columns-IsParallel library own entry (some alt) r (a, (b, (c, (d, (e, f))))) = (
    longer r.palettes r.entries _ _ a,
    (
      longer r.alt_palettes r.entries _ _ b,
      (
        longer r.images r.entries _ _ c,
        (
          longer r.alt_images r.entries _ _ d,
          (longer r.backgrounds r.entries _ _ e, longer r.alt_backgrounds r.entries _ _ f),
        ),
      ),
    ),
  )

  add_entries-IsParallel :
      (library : ThemeLibrary D) (base : Map (Vec4 D)) (items : List (Value D))
      (r : ColorGroupRotation D)
      → IsParallel r
      → IsParallel (add_entries library base items r)
  unfolding add_entries
  add_entries-IsParallel library base [] r h = h
  add_entries-IsParallel library base (item ∷ items) r h =
      add_entries-IsParallel library base items _ (
        add_columns-IsParallel library
          (value_or (lookup (resolved_entry item).theme_id library.palettes) base)
          (resolved_entry item) (alt_palette library (resolved_entry item).alt_theme_id) r h)

  rotation_of_groups-IsParallel :
      (library : ThemeLibrary D) (base : Map (Vec4 D)) (selected module_id : Bytes)
      (groups : List (Value D)) (r : ColorGroupRotation D)
      → IsParallel r
      → IsParallel (rotation_of_groups library base selected module_id groups r)
  unfolding rotation_of_groups
  rotation_of_groups-IsParallel library base selected module_id [] r h = h
  rotation_of_groups-IsParallel library base selected module_id (group ∷ groups) r h =
      let rest = rotation_of_groups-IsParallel library base selected module_id groups r h in
      elim (Bool-cases (is_other_group selected group)) [
        | inl e ↦ rw e rest
        | inr e ↦ rw e (elim (Bool-cases (of_other_module module_id group)) [
          | inl f ↦ rw f rest
          | inr f ↦ rw f (elim (Bool-cases (length (array_field group (codes "entries")) == 0)) [
            | inl g ↦ rw g rest
            | inr g ↦ rw g (
                add_entries-IsParallel library base (array_field group (codes "entries"))
                  (record r { group_id = string_field group (codes "id") [] }) h)
          ])
        ])
      ]

  solo_of-IsParallel :
      (library : ThemeLibrary D) (id : Bytes) (found : Option (Map (Vec4 D)))
      (r : ColorGroupRotation D)
      → IsParallel r
      → IsParallel (solo_of library id found r)
  unfolding solo_of
  solo_of-IsParallel library id none r h = h
  solo_of-IsParallel library id (some palette) r h =
      add_columns-IsParallel library palette
        (record { id = codes "__solo"; theme_id = id; alt_theme_id = []; settings_group_ids = [] })
        none r h

  with_solo-IsParallel :
      (library : ThemeLibrary D) (solo_id : Bytes) (r : ColorGroupRotation D)
      → IsParallel r
      → IsParallel (with_solo library solo_id r)
  unfolding with_solo
  with_solo-IsParallel library solo_id r h = elim (Bool-cases (empty_text solo_id)) [
    | inl e ↦ rw e h
    | inr e ↦ rw e (solo_of-IsParallel library solo_id (lookup solo_id library.palettes) r h)
  ]

  -- From a rotation whose columns are parallel, and whatever the configuration holds: behind the colour groups and
  -- the solo, the six columns of palettes, images and backgrounds have one place for each entry.
  pub rotation-IsParallel :
      (library : ThemeLibrary D) (base : Map (Vec4 D)) (selected module_id solo_id : Bytes)
      (groups : List (Value D)) (r : ColorGroupRotation D)
      → IsParallel r
      → IsParallel
          (with_solo library solo_id (rotation_of_groups library base selected module_id groups r))
  rotation-IsParallel library base selected module_id solo_id groups r h =
      with_solo-IsParallel library solo_id
        (rotation_of_groups library base selected module_id groups r)
        (rotation_of_groups-IsParallel library base selected module_id groups r h)
