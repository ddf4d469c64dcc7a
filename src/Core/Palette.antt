-- ===== src/Core/Palette.antt =====
-- src/core/palette.{h,cpp}: named colours, and the chase from one palette to another.
pub mod Approach
mod Tests
use nova_visualiser.Prelude.{
  Bool, true, false, Option, none, some, List, [], ◌∷◌, Bytes, codes, bytes_eq, if◌then◌else◌,
}
use nova_visualiser.Prelude.Int.{pos}
use nova_visualiser.Prelude.Maps.{Map, lookup, has_key, assign}
use nova_visualiser.Core.Double.{Double, ◌⊖◌, ◌⊗◌, ◌⊘◌, ◌≼◌, nought, one, fmax, fmin}
use nova_visualiser.Core.Json.Access.{value_or}
use nova_visualiser.Core.Vec.{Vec4, mix}

-- `SettingInterpolationAction`
pub data SettingInterpolationAction : Type 0 where
  keep transition apply_immediately : SettingInterpolationAction

-- `settingInterpolationAction`; `keep` is the source's `Hold`.
pub setting_interpolation_action : Bool → Bool → Bool → SettingInterpolationAction
setting_interpolation_action target_changed was_driven true = apply_immediately
setting_interpolation_action true was_driven false = transition
setting_interpolation_action false true false = transition
setting_interpolation_action false false false = keep

-- `keys.insert(key)` of a set
pub insert_key : Bytes → List Bytes → List Bytes
unfolding bytes_eq
insert_key k [] = k ∷ []
insert_key k (j ∷ js) = if bytes_eq k j then j ∷ js else j ∷ insert_key k js

pub insert_keys {ℓ} : {A : Type ℓ} → Map A → List Bytes → List Bytes
unfolding insert_key
insert_keys [] keys = keys
insert_keys ((key, value) ∷ rest) keys = insert_keys rest (insert_key key keys)

module _ {D : Type 0} ⦃d : Double D⦄ where
  abbrev pub vec4 : D → D → D → D → Vec4 D
  vec4 x y z w = record { x = x; y = y; z = z; w = w }

  abbrev gray : Bytes → Vec4 D
  gray level = vec4 (d.literal level) (d.literal level) (d.literal level) (d.literal (codes "1.0"))

  -- `Palette::defaults`
  unfoldable pub default_palette : Map (Vec4 D)
  default_palette =
      (codes "primary", gray (codes "0.45f"))
      ∷ (codes "secondary", gray (codes "0.85f"))
      ∷ (codes "tertiary", gray (codes "0.65f"))
      ∷ (codes "background", vec4 nought nought nought one)
      ∷ (codes "backgroundPrimary", vec4 nought nought nought one)
      ∷ (
        codes "backgroundSecondary",
        vec4 (d.literal (codes "0.05f")) (d.literal (codes "0.07f")) (d.literal (codes "0.11f"))
            (d.literal (codes "1.0f")),
      )
      ∷ []

  -- `Palette::color`, with the fallback it ends in
  pub color_or : Map (Vec4 D) → Bytes → Vec4 D → Vec4 D
  unfolding lookup value_or bytes_eq
  color_or colors id fallback =
      let aliased =
        if bytes_eq id (codes "accent")
        then lookup (codes "primary") colors
        else if bytes_eq id (codes "highlight")
        then lookup (codes "secondary") colors
        else none in
      value_or (lookup id colors) (value_or aliased fallback)

  pub accent : Map (Vec4 D) → Vec4 D
  unfolding color_or
  accent colors = color_or colors (codes "primary") (gray (codes "0.45f"))

  pub highlight : Map (Vec4 D) → Vec4 D
  unfolding color_or
  highlight colors = color_or colors (codes "secondary") (gray (codes "0.85f"))

  pub background : Map (Vec4 D) → Vec4 D
  unfolding color_or
  background colors =
      color_or colors (codes "backgroundPrimary")
        (color_or colors (codes "background") (vec4 nought nought nought one))

  pub color : Map (Vec4 D) → Bytes → Vec4 D
  unfolding color_or accent
  color colors id = color_or colors id (accent colors)

  -- `current` and `destination` of a key of one of the palettes
  pub faded : Option (Vec4 D) → Option (Vec4 D) → Vec4 D × Vec4 D
  faded (some c) (some t) = (c, t)
  faded (some c) none = (c, vec4 c.x c.y c.z nought)
  faded none (some t) = (vec4 t.x t.y t.z nought, t)
  faded none none = (vec4 nought nought nought nought, vec4 nought nought nought nought)

  pub blend : Option (Vec4 D) → Option (Vec4 D) → D → Vec4 D
  unfolding faded mix
  blend c t amount = let (current, destination) = faded c t in mix current destination amount

  -- The loop over the keys of `approached`
  pub approach_keys : List Bytes → Map (Vec4 D) → Map (Vec4 D) → D → Map (Vec4 D) → Map (Vec4 D)
  unfolding blend lookup assign
  approach_keys [] colors target amount result = result
  approach_keys (key ∷ keys) colors target amount result =
      approach_keys keys colors target amount
        (assign key (blend (lookup key colors) (lookup key target) amount) result)

  -- `Palette::approached`
  pub approached : Map (Vec4 D) → Map (Vec4 D) → D → Map (Vec4 D)
  unfolding approach_keys insert_keys
  approached colors target raw_amount =
      approach_keys (insert_keys target (insert_keys colors [])) colors target
        (d.to_float (fmin one (fmax nought raw_amount))) []

  -- `chaseAmount`
  pub chase_amount : D → D → D
  chase_amount delta settling_duration =
      if settling_duration ≼ nought
      then one
      else one ⊖ d.exp (d.neg (d.literal (codes "3")) ⊗ fmax nought delta ⊘ settling_duration)
