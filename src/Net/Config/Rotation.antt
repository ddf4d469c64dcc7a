-- ===== src/Net/Config/Rotation.antt =====
-- The colour themes, their images and the rotation of `ConfigClient::refreshConfiguration`
-- (src/net/config_client.cpp).
pub mod Columns
pub mod Selected
use nova_visualiser.Prelude.{
  ℕ, Bool, true, false, Option, none, some, List, [], ◌∷◌, ◌++◌, Bytes, codes, bytes_eq, take,
  if◌then◌else◌, length, ◌==◌, not, ◌&&◌,
}
use nova_visualiser.Prelude.Maps.{Map, lookup, assign, insert_new}
use nova_visualiser.Core.Double.{Double}
use nova_visualiser.Core.Json.{Value, find}
use nova_visualiser.Core.Json.Access.{
  string_field, string_or, array_of, array_field, object_field, value_or,
}
use nova_visualiser.Core.Vec.{Vec4}
use nova_visualiser.Net.Config.{
  HttpResponse, ok, DecodedImage, Entry, ColorGroupRotation, colour_vector,
}

abbrev pub empty_text : Bytes → Bool
empty_text s = length s == 0

-- The images that have been asked for, by URL; a null is a failure.
abbrev pub ImageCache : Type 0
ImageCache = Map (Option DecodedImage)

-- `palettesByThemeId`, `imagesByThemeId` and `backgroundsByThemeId`
pub record ThemeLibrary (D : Type 0) : Type 0 where
  pub palettes : Map (Map (Vec4 D))
  pub images : Map (Option DecodedImage)
  pub backgrounds : Map (Option DecodedImage)

-- A response of the network, and the decoder of src/gfx
module _ (http_get : Bytes → HttpResponse) (decode_png : Bytes → Bytes → Option DecodedImage)
    (base_url : Bytes) where
  fetched_image : Bytes → HttpResponse → Option DecodedImage
  fetched_image url response = if ok response then decode_png response.body url else none

  cached_image :
      Bytes → ImageCache → Option (Option DecodedImage) → Option DecodedImage × ImageCache
  unfolding assign fetched_image bytes_eq
  cached_image url cache (some image) = (image, cache)
  cached_image url cache none =
      let absolute = if bytes_eq (take 4 url) (codes "http") then url else base_url ++ url in
      let image = fetched_image url (http_get absolute) in (image, assign url image cache)

  -- `centreImage`
  pub centre_image : Bytes → ImageCache → Option DecodedImage × ImageCache
  unfolding cached_image lookup
  centre_image url cache = cached_image url cache (lookup url cache)

  image_at : Option Bytes → ImageCache → Option DecodedImage × ImageCache
  unfolding centre_image
  image_at none cache = (none, cache)
  image_at (some url) cache = if empty_text url then (none, cache) else centre_image url cache

  -- `imageForId`
  pub image_for_id : Map Bytes → Bytes → ImageCache → Option DecodedImage × ImageCache
  unfolding image_at lookup
  image_for_id urls id cache =
      if empty_text id then (none, cache) else image_at (lookup id urls) cache

  -- `emplace`, for an image that is there
  emplace_image :
      Bytes → Option DecodedImage → Map (Option DecodedImage) → Map (Option DecodedImage)
  unfolding insert_new
  emplace_image id none images = images
  emplace_image id (some image) images = insert_new id (some image) images

  module _ {D : Type 0} ⦃d : Double D⦄ where
    -- palette.set(slot, colourVector(colour)), for each member
    set_colours : List (Bytes × Value D) → Map (Vec4 D) → Map (Vec4 D)
    unfolding assign colour_vector
    set_colours [] palette = palette
    set_colours ((slot, colour) ∷ slots) palette =
        set_colours slots (assign slot (colour_vector colour) palette)

    -- One theme of the library
    pub add_theme :
        Map Bytes
        → Map (Vec4 D)
        → Value D
        → ThemeLibrary D × ImageCache
        → ThemeLibrary D × ImageCache
    unfolding string_field set_colours object_field image_for_id emplace_image insert_new
    add_theme urls base theme (library, cache) =
        let id = string_field theme (codes "id") [] in
        let (image, cached) = image_for_id urls (string_field theme (codes "imageId") []) cache in
        let (background, final) =
          image_for_id urls (string_field theme (codes "backgroundImageId") []) cached in
        (
          record {
            palettes =
                insert_new id (set_colours (object_field theme (codes "colors")) base)
                  library.palettes;
            images = emplace_image id image library.images;
            backgrounds = emplace_image id background library.backgrounds;
          },
          final,
        )

    -- The loop over `colorThemes`
    pub theme_library :
        Map Bytes
        → Map (Vec4 D)
        → Bytes
        → List (Value D)
        → ThemeLibrary D × ImageCache
        → ThemeLibrary D × ImageCache
    unfolding add_theme string_field bytes_eq
    theme_library urls base module_id [] found = found
    theme_library urls base module_id (theme ∷ themes) found =
        theme_library urls base module_id themes (
          if bytes_eq (string_field theme (codes "moduleId") []) module_id
          then add_theme urls base theme found
          else found)

-- `imageForTheme` and `backgroundForTheme`
abbrev image_for_theme : Map (Option DecodedImage) → Bytes → Option DecodedImage
image_for_theme images id = value_or (lookup id images) none

-- id.stringOr(""), for each item
pub strings_or_empty : {D : Type 0} → List (Value D) → List Bytes
unfolding string_or
strings_or_empty [] = []
strings_or_empty (id ∷ ids) = string_or id [] ∷ strings_or_empty ids

module _ {D : Type 0} ⦃d : Double D⦄ where
  pub resolved_entry : Value D → Entry
  unfolding string_field array_field strings_or_empty
  resolved_entry entry = record {
    id = string_field entry (codes "id") [];
    theme_id = string_field entry (codes "themeId") [];
    alt_theme_id = string_field entry (codes "altThemeId") [];
    settings_group_ids = strings_or_empty (array_field entry (codes "settingsGroupIds"));
  }

  alt_palette : ThemeLibrary D → Bytes → Option (Map (Vec4 D))
  unfolding lookup
  alt_palette library id = if empty_text id then none else lookup id library.palettes

  -- The columns of an entry, with the palette of its alternative if it has one
  add_columns :
      ThemeLibrary D
      → Map (Vec4 D)
      → Entry
      → Option (Map (Vec4 D))
      → ColorGroupRotation D
      → ColorGroupRotation D
  unfolding lookup value_or
  add_columns library own entry none r = record r {
    entries = r.entries ++ entry ∷ [];
    palettes = r.palettes ++ own ∷ [];
    images = r.images ++ image_for_theme library.images entry.theme_id ∷ [];
    backgrounds = r.backgrounds ++ image_for_theme library.backgrounds entry.theme_id ∷ [];
    alt_palettes = r.alt_palettes ++ own ∷ [];
    alt_images = r.alt_images ++ image_for_theme library.images entry.theme_id ∷ [];
    alt_backgrounds = r.alt_backgrounds ++ image_for_theme library.backgrounds entry.theme_id ∷ [];
  }
  add_columns library own entry (some alt) r = record r {
    entries = r.entries ++ entry ∷ [];
    palettes = r.palettes ++ own ∷ [];
    images = r.images ++ image_for_theme library.images entry.theme_id ∷ [];
    backgrounds = r.backgrounds ++ image_for_theme library.backgrounds entry.theme_id ∷ [];
    alt_palettes = r.alt_palettes ++ alt ∷ [];
    alt_images = r.alt_images ++ image_for_theme library.images entry.alt_theme_id ∷ [];
    alt_backgrounds =
        r.alt_backgrounds ++ image_for_theme library.backgrounds entry.alt_theme_id ∷ [];
  }

  -- The loop over the entries of a colour group
  pub add_entries :
      ThemeLibrary D → Map (Vec4 D) → List (Value D) → ColorGroupRotation D → ColorGroupRotation D
  unfolding add_columns alt_palette resolved_entry lookup value_or
  add_entries library base [] r = r
  add_entries library base (item ∷ items) r =
      let entry = resolved_entry item in
      let own = value_or (lookup entry.theme_id library.palettes) base in
      add_entries library base items
        (add_columns library own entry (alt_palette library entry.alt_theme_id) r)

  -- A group that the loop over `colorGroups` skips
  abbrev is_other_group : Bytes → Value D → Bool
  is_other_group selected_group_id group =
      not (empty_text selected_group_id)
      && not (bytes_eq (string_field group (codes "id") []) selected_group_id)

  abbrev of_other_module : Bytes → Value D → Bool
  of_other_module module_id group =
      not (bytes_eq (string_field group (codes "moduleId") []) module_id)

  -- The loop over `colorGroups`, which ends at the first group that is taken.
  pub rotation_of_groups :
      ThemeLibrary D
      → Map (Vec4 D)
      → Bytes
      → Bytes
      → List (Value D)
      → ColorGroupRotation D
      → ColorGroupRotation D
  unfolding add_entries string_field array_field bytes_eq
  rotation_of_groups library base selected_group_id module_id [] r = r
  rotation_of_groups library base selected_group_id module_id (group ∷ groups) r =
      let rest = rotation_of_groups library base selected_group_id module_id groups r in
      let items = array_field group (codes "entries") in
      if is_other_group selected_group_id group
      then rest
      else if of_other_module module_id group
      then rest
      else if length items == 0
      then rest
      else add_entries library base items
          (record r { group_id = string_field group (codes "id") [] })

  -- The solo, for a theme with this palette
  solo_of :
      ThemeLibrary D → Bytes → Option (Map (Vec4 D)) → ColorGroupRotation D → ColorGroupRotation D
  unfolding add_columns
  solo_of library id none r = r
  solo_of library id (some palette) r =
      record (add_columns library palette
        (record { id = codes "__solo"; theme_id = id; alt_theme_id = []; settings_group_ids = [] })
        none r) { pinned_entry_id = codes "__solo" }

  pub with_solo : ThemeLibrary D → Bytes → ColorGroupRotation D → ColorGroupRotation D
  unfolding solo_of lookup
  with_solo library solo_id r =
      if empty_text solo_id then r else solo_of library solo_id (lookup solo_id library.palettes) r

  first_palette : List (Map (Vec4 D)) → Map (Vec4 D) → Map (Vec4 D)
  first_palette [] base = base
  first_palette (palette ∷ palettes) base = palette

  -- `next.palette`: the solo's, the first entry's or the base palette.
  pub shown_palette : ThemeLibrary D → Bytes → ColorGroupRotation D → Map (Vec4 D) → Map (Vec4 D)
  unfolding first_palette lookup value_or
  shown_palette library solo_id r base =
      let first = first_palette r.palettes base in
      if empty_text solo_id then first else value_or (lookup solo_id library.palettes) first
