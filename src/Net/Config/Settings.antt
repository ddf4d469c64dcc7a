-- ===== src/Net/Config/Settings.antt =====
-- The settings of `ConfigClient::refreshConfiguration` (src/net/config_client.cpp), and the picture
-- effects of src/core/picture_effects.h.
pub mod Keys
use nova_visualiser.Prelude.{
  Bool, true, false, Option, none, some, List, [], ◌∷◌, Bytes, codes, bytes_eq, if◌then◌else◌, ◌&&◌,
  ◌||◌,
}
use nova_visualiser.Prelude.Int.{ℤ, pos}
use nova_visualiser.Prelude.Maps.{Map, lookup, has_key, assign}
use nova_visualiser.Core.Double.{Double, ◌≺◌, nought, one, fmin, fmax, clamp_value}
use nova_visualiser.Core.Json.{Value, find}
use nova_visualiser.Core.Json.Access.{
  number_of, number_or, string_field, string_or, array_field, object_field,
}
use nova_visualiser.Core.Vec.{Vec4}
use nova_visualiser.Core.Palette.{default_palette}
use nova_visualiser.Core.Module.{ModuleSetting, PaletteSlotDeclaration}
use nova_visualiser.Core.Drivers.{EffectDeclaration}

mentions_fluid : List Bytes → Bool
unfolding bytes_eq
mentions_fluid [] = false
mentions_fluid (target ∷ targets) =
    bytes_eq target (codes "renderer.fluidBackground.speed") || mentions_fluid targets

module _ {D : Type 0} ⦃d : Double D⦄ where
  abbrev effect : Bytes → Bytes → Bytes → Bytes → Bytes → EffectDeclaration D
  effect id min max step default_value = record {
    id = id;
    min = d.literal min;
    max = d.literal max;
    step = d.literal step;
    default_value = d.literal default_value;
  }

  -- `kPictureEffects`, with the constants that its headers name written out
  pub picture_effects : List (EffectDeclaration D)
  picture_effects =
      effect (codes "__messageScale") (codes "0.1f") (codes "5.0f") (codes "0.1") (codes "1.0")
      ∷ effect (codes "__centreWidth") (codes "0.0") (codes "100.0") (codes "1.0") (codes "33.0f")
      ∷ effect (codes "__centreHeight") (codes "0.0") (codes "100.0") (codes "1.0") (codes "33.0f")
      ∷ effect (codes "__centreFit") (codes "0.0") (codes "2") (codes "1.0") (codes "0.0")
      ∷ effect (codes "__centreProportional") (codes "0.0") (codes "1.0") (codes "1.0")
          (codes "1.0")
      ∷ effect (codes "__glowBlur") (codes "0.0") (codes "20.0") (codes "0.1") (codes "0.0")
      ∷ effect (codes "__glowOpacity") (codes "0.0") (codes "100.0") (codes "1.0") (codes "0.0")
      ∷ effect (codes "__glowOverdrive") (codes "1.0") (codes "10.0") (codes "0.1") (codes "1.0")
      ∷ effect (codes "__glowClamp") (codes "0.0") (codes "1.0") (codes "1.0") (codes "1.0")
      ∷ effect (codes "__glowBlend") (codes "0.0") (codes "2") (codes "1.0") (codes "0.0")
      ∷ effect (codes "__hueOffset") (codes "0.0") (codes "180.0") (codes "1.0") (codes "5.0")
      ∷ effect (codes "__bgHeight") (codes "0.0") (codes "100.0") (codes "1.0") (codes "33.0")
      ∷ effect (codes "__bgWidth") (codes "0.0") (codes "100.0") (codes "1.0") (codes "100.0")
      ∷ effect (codes "__bgScale") (codes "0.1f") (codes "5.0f") (codes "0.1") (codes "1.0")
      ∷ effect (codes "__bgFit") (codes "0.0") (codes "2") (codes "1.0") (codes "0.0")
      ∷ effect (codes "__bgProportional") (codes "0.0") (codes "1.0") (codes "1.0") (codes "1.0")
      ∷ effect (codes "__vignetteOpacity") (codes "0.0") (codes "100.0") (codes "1.0")
          (codes "96.0")
      ∷ effect (codes "__vignetteSize") (codes "0.0") (codes "3.0") (codes "0.05") (codes "1.0")
      ∷ effect (codes "__sceneBlend") (codes "0.0") (codes "3") (codes "1.0") (codes "0.0")
      ∷ effect (codes "__centreTransition") (codes "0.0") (codes "2.0") (codes "1.0") (codes "0.0")
      ∷ effect (codes "__centreTransitionAxis") (codes "0.0") (codes "360.0") (codes "1.0")
          (codes "0.0")
      ∷ effect (codes "__centreTransitionDivisions") (codes "0.0") (codes "10") (codes "1.0")
          (codes "0.0")
      ∷ effect (codes "__centreTransitionReturn") (codes "0.0") (codes "1.0") (codes "1.0")
          (codes "0.0")
      ∷ effect (codes "__bgTransition") (codes "0.0") (codes "2.0") (codes "1.0") (codes "0.0")
      ∷ effect (codes "__bgTransitionAxis") (codes "0.0") (codes "360.0") (codes "1.0")
          (codes "0.0")
      ∷ effect (codes "__bgTransitionDivisions") (codes "0.0") (codes "10") (codes "1.0")
          (codes "0.0")
      ∷ effect (codes "__bgTransitionReturn") (codes "0.0") (codes "1.0") (codes "1.0")
          (codes "0.0")
      ∷ []

  -- next.settings[effect.id] = effect.defaultValue
  pub seed_effects : List (EffectDeclaration D) → Map D → Map D
  unfolding assign
  seed_effects [] settings = settings
  seed_effects (e ∷ effects) settings = seed_effects effects (assign e.id e.default_value settings)

  -- and the same for the settings of the module
  pub seed_settings : List (ModuleSetting D) → Map D → Map D
  unfolding assign
  seed_settings [] settings = settings
  seed_settings (s ∷ rest) settings = seed_settings rest (assign s.id s.default_value settings)

  assign_number : Bytes → Option D → Map D → Map D
  unfolding assign
  assign_number key none settings = settings
  assign_number key (some n) settings = assign key n settings

  -- The saved values of settings that are known
  pub override_settings : List (Bytes × Value D) → Map D → Map D
  unfolding assign_number has_key number_of
  override_settings [] settings = settings
  override_settings ((key, value) ∷ rest) settings =
      override_settings rest
        (if has_key key settings then assign_number key (number_of value) settings else settings)

  clamp_found : ModuleSetting D → Option D → Map D → Map D
  unfolding assign
  clamp_found s none settings = settings
  clamp_found s (some value) settings =
      assign s.id (clamp_value value (fmin s.min s.max) (fmax s.min s.max)) settings

  -- Each declared setting, cut to its declaration
  pub clamp_settings : List (ModuleSetting D) → Map D → Map D
  unfolding clamp_found lookup
  clamp_settings [] settings = settings
  clamp_settings (s ∷ rest) settings =
      clamp_settings rest (clamp_found s (lookup s.id settings) settings)

  -- The default_palette of the effects and of the module
  pub default_settings : List (ModuleSetting D) → Map D
  unfolding seed_settings seed_effects picture_effects
  default_settings declared = seed_settings declared (seed_effects picture_effects [])

  -- `next.settings`
  pub settings_of : List (ModuleSetting D) → List (Bytes × Value D) → Map D
  unfolding default_settings override_settings clamp_settings
  settings_of declared saved =
      clamp_settings declared (override_settings saved (default_settings declared))

  -- basePalette.set(slot.id, slot.defaultRgb)
  set_slots : List (PaletteSlotDeclaration D) → Map (Vec4 D) → Map (Vec4 D)
  unfolding assign
  set_slots [] palette = palette
  set_slots (slot ∷ slots) palette = set_slots slots (assign slot.id slot.default_rgb palette)

  pub base_palette : List (PaletteSlotDeclaration D) → Map (Vec4 D)
  unfolding set_slots default_palette
  base_palette slots = set_slots slots default_palette

  -- `usesFluidBackground`
  pub uses_fluid_background : List (ModuleSetting D) → Bool
  unfolding mentions_fluid
  uses_fluid_background [] = false
  uses_fluid_background (s ∷ rest) = mentions_fluid s.affects || uses_fluid_background rest
