-- ===== src/Net/Config.antt =====
-- src/net/config_client.{h,cpp}: the dashboard's configuration, as input of the simulation.
pub mod Rotation
pub mod Groups
pub mod Settings
pub mod Refresh
pub mod Polls
mod Tests
use nova_visualiser.Prelude.{
  ℕ, Bool, true, false, Option, none, some, List, [], ◌∷◌, Bytes, codes, get_or, if◌then◌else◌, ltb,
  leb, ◌&&◌, length,
}
use nova_visualiser.Prelude.Int.{ℤ, pos, negsuc, max_ℤ, min_ℤ, ltb_ℤ, ◌-ℤ◌}
use nova_visualiser.Prelude.Maps.{Map}
use nova_visualiser.Core.Double.{Double, ◌⊗◌, ◌⊘◌, ◌≼◌, nought, clamp_value}
use nova_visualiser.Core.Json.{Value, NumberText, find}
use nova_visualiser.Core.Json.Access.{number_field, string_field, number_array, value_or}
use nova_visualiser.Core.Json.Parser.{parse}
use nova_visualiser.Core.Vec.{Vec4}
use nova_visualiser.Core.Signal.{TrackIdentity, TrackAnalysis}
use nova_visualiser.Core.Drivers.{Driver, SettingsGroup, default_driver, driver_divide}
use nova_visualiser.Core.Module.{Module}

-- `HttpResponse` of src/net/http_client.h
pub record HttpResponse : Type 0 where
  pub status : ℕ
  pub body : Bytes
  pub headers : Map Bytes
  pub error : Bytes

abbrev pub ok : HttpResponse → Bool
ok r = leb 200 r.status && ltb r.status 300

-- `DecodedImage` of src/core/image.h, less its size
pub record DecodedImage : Type 0 where
  pub rgba : Bytes
  pub source_url : Bytes

-- `CentreTransition` and `CentreTransitionParams` of src/core/centre_image_transition.h
pub data CentreTransition : Type 0 where
  cross_fade flip slide : CentreTransition

pub record CentreTransitionParams (D : Type 0) : Type 0 where
  pub mode : CentreTransition
  pub axis_radians : D
  pub divisions : ℤ
  pub return_from_origin : Bool

-- A transition with its ramp, as the rotation keeps one for the centre and one for the background
pub record Transition (D : Type 0) : Type 0 where
  pub params : CentreTransitionParams D
  pub attack : D
  pub hold : D
  pub release : D

-- `ColorGroupRotation::Entry`
pub record Entry : Type 0 where
  pub id : Bytes
  pub theme_id : Bytes
  pub alt_theme_id : Bytes
  pub settings_group_ids : List Bytes

-- The part of `ColorGroupRotation` that the theme state is polled for
pub record Selection (D : Type 0) : Type 0 where
  pub selected_entry_id : Bytes
  pub selected_theme_id : Bytes
  pub selected_group_id : Bytes
  pub selected_settings_group_ids : List Bytes
  pub selected_transition_seconds : Option D
  pub selected_transition : Transition D
  pub selected_background_transition : Transition D
  pub alt_active : Bool
  pub paused : Bool
  pub revision : ℤ

-- `ColorGroupRotation`; a shared pointer to an image is an option.
pub record ColorGroupRotation (D : Type 0) : Type 0 where
  pub palettes : List (Map (Vec4 D))
  pub alt_palettes : List (Map (Vec4 D))
  pub images : List (Option DecodedImage)
  pub alt_images : List (Option DecodedImage)
  pub backgrounds : List (Option DecodedImage)
  pub alt_backgrounds : List (Option DecodedImage)
  pub entries : List Entry
  pub group_id : Bytes
  pub pinned_entry_id : Bytes
  pub selection : Selection D

-- `FluidThemeSettings`
pub record FluidThemeSettings (D : Type 0) : Type 0 where
  pub available : Bool
  pub peak_intensity : D
  pub falloff_power : D
  pub warp_amplitude : D
  pub hue_spread : D
  pub apex_glow : D
  pub background : Vec4 D
  pub accent : Vec4 D
  pub highlight : Vec4 D

-- `ConfigSnapshot`
pub record ConfigSnapshot (D : Type 0) : Type 0 where
  pub active_module : Option (Module D)
  pub settings : Map D
  pub driver_interpolated_settings : List Bytes
  pub settings_groups : List (SettingsGroup D)
  pub message : Bytes
  pub palette : Map (Vec4 D)
  pub rotation : ColorGroupRotation D
  pub transition_seconds : D
  pub reload_generation : ℤ
  pub active_module_id : Bytes
  pub active_module_version : Bytes
  pub uses_fluid_background : Bool
  pub fluid_theme : FluidThemeSettings D
  pub valid : Bool

-- `NowPlaying`
pub record NowPlaying (D : Type 0) : Type 0 where
  pub identity : TrackIdentity D
  pub position : D
  pub duration : D
  pub playing : Bool
  pub sampled_at_monotonic : D
  pub valid : Bool

-- The state of `ConfigClient` that its lock guards
pub record ConfigClient (D : Type 0) : Type 0 where
  pub snapshot : ConfigSnapshot D
  pub now_playing : NowPlaying D
  pub analysis : TrackAnalysis D
  pub config_etag : Bytes
  pub image_cache : Map (Option DecodedImage)
  pub theme_etag : Bytes
  pub fluid_theme : FluidThemeSettings D
  pub last_error : Bytes
  pub loaded_module_key : Bytes
  pub loaded_module : Option (Module D)
  pub resolved_track_key : Bytes
  pub revision : ℕ

module _ {D : Type 0} ⦃d : Double D⦄ where
  -- The parser of src/core/json.cpp, which never lacks fuel
  pub parse_json : NumberText D → Bytes → Option (Value D)
  unfolding parse value_or
  parse_json numbers body = value_or (parse numbers body) none

  components_of : Option (Value D) → List D
  unfolding number_array
  components_of none = []
  components_of (some rgb) = number_array rgb

  -- `colourVector`
  unfoldable pub colour_vector : Value D → Vec4 D
  unfolding components_of number_field find
  colour_vector value =
      let components = components_of (find (codes "rgb") value) in
      let hundred = d.literal (codes "100.0") in
      let intensity =
        clamp_value (number_field value (codes "intensity") hundred) nought hundred ⊘ hundred in
      let opacity =
        clamp_value (number_field value (codes "opacity") hundred) nought hundred ⊘ hundred in
      record {
        x = channel (get_or components 0 nought) intensity;
        y = channel (get_or components 1 nought) intensity;
        z = channel (get_or components 2 nought) intensity;
        w = d.to_float opacity;
      }
    where
      channel : D → D → D
      channel raw intensity = d.to_float (
          clamp_value raw nought (d.literal (codes "255.0"))
          ⊗ intensity
          ⊘ d.literal (codes "255.0"))

  -- `driverFrom`
  unfoldable pub driver_from : Option (Value D) → Driver D
  unfolding string_field number_field driver_divide ◌-ℤ◌
  driver_from none = default_driver
  driver_from (some value) =
      let plain = record (default_driver) {
        type = string_field value (codes "type") (codes "beat");
        divide = d.to_int (number_field value (codes "divide") (d.of_int (pos 1)));
      } in
      let every =
        if ltb_ℤ (pos 1) (driver_divide plain)
        then pos 1
        else max_ℤ (pos 1)
            (min_ℤ (pos 16) (d.to_int (number_field value (codes "every") (d.of_int (pos 1))))) in
      record plain {
        every = every;
        offset =
            max_ℤ (pos 0)
              (min_ℤ (every -ℤ pos 1) (d.to_int (number_field value (codes "offset") nought)));
        interval_seconds = number_field value (codes "intervalSeconds") (d.literal (codes "4.0"));
        cadence = string_field value (codes "cadence") (codes "beat");
      }

  -- `centreTransitionFor`
  unfoldable pub centre_transition_for : D → CentreTransition
  centre_transition_for value =
      if d.literal (codes "1.5") ≼ value
      then slide
      else if d.literal (codes "0.5") ≼ value
      then flip
      else cross_fade
