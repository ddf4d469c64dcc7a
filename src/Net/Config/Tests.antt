-- ===== src/Net/Config/Tests.antt =====
-- The configuration's client at concrete inputs.
use nova_visualiser.Prelude.{
  ◌≡◌, refl, true, false, Option, none, some, List, [], ◌∷◌, Bytes, codes, bytes_eq, if◌then◌else◌,
}
use nova_visualiser.Prelude.Int.{pos}
use nova_visualiser.Prelude.Maps.{Map, has_key}
use nova_visualiser.Core.Double.Whole.{Whole, whole_double}
use nova_visualiser.Core.Json.{
  Value, number, string, array, object, end, field, nil, cons, NumberText,
}
use nova_visualiser.Core.Vec.{Vec4}
use nova_visualiser.Core.Palette.{vec4}
use nova_visualiser.Core.Signal.{TrackIdentity}
use nova_visualiser.Core.Module.{ModuleSetting}
use nova_visualiser.Net.Config.{
  HttpResponse, DecodedImage, Selection, ColorGroupRotation, FluidThemeSettings, ConfigClient,
}
use nova_visualiser.Net.Config.Rotation.{ThemeLibrary, rotation_of_groups, with_solo}
use nova_visualiser.Net.Config.Rotation.Columns.{IsParallel, rotation-IsParallel}
use nova_visualiser.Net.Config.Groups.{groups_of}
use nova_visualiser.Net.Config.Groups.Known.{KnownGroups, groups_of-KnownGroups}
use nova_visualiser.Net.Config.Settings.{default_settings, settings_of}
use nova_visualiser.Net.Config.Settings.Keys.{settings_of-has_key}
use nova_visualiser.Net.Config.Refresh.{default_transition, refresh_configuration}
use nova_visualiser.Net.Config.Refresh.Errors.{Outcome, refresh_configuration-Outcome}
use nova_visualiser.Net.Config.Polls.{refresh_theme_state, refresh_theme, refresh_now_playing}
use nova_visualiser.Net.Config.Polls.Kept.{Kept, polls-Kept}

abbrev white : Map (Vec4 Whole)
white = (codes "primary", vec4 (some 1) (some 1) (some 1) (some 1)) ∷ []

-- Two themes, one of which has an image
abbrev library : ThemeLibrary Whole
library = record {
  palettes = (codes "dusk", white) ∷ (codes "dawn", []) ∷ [];
  images =
      (codes "dusk", some (record { rgba = 1 ∷ []; source_url = codes "/images/dusk.png" })) ∷ [];
  backgrounds = [];
}

abbrev text_field : Bytes → Bytes → Value Whole
text_field key value = object (field key (string value) end)

-- A group whose second entry is a link to the theme that the first one shows
abbrev groups : List (Value Whole)
groups =
    object (
      field (codes "id") (string (codes "evening")) (
        field (codes "moduleId") (string (codes "rings")) (
          field (codes "entries")
            (array (
              cons (text_field (codes "themeId") (codes "dusk"))
                (cons (text_field (codes "altThemeId") (codes "dusk")) nil)))
            end)))
    ∷ []

abbrev selection : Selection Whole
selection = record {
  selected_entry_id = [];
  selected_theme_id = [];
  selected_group_id = [];
  selected_settings_group_ids = [];
  selected_transition_seconds = none;
  selected_transition = default_transition;
  selected_background_transition = default_transition;
  alt_active = false;
  paused = false;
  revision = pos 0;
}

abbrev no_rotation : ColorGroupRotation Whole
no_rotation = record {
  palettes = [];
  alt_palettes = [];
  images = [];
  alt_images = [];
  backgrounds = [];
  alt_backgrounds = [];
  entries = [];
  group_id = [];
  pinned_entry_id = [];
  selection = selection;
}

rotation-IsParallel_example : IsParallel (
    with_solo library
      (codes "dawn")
      (rotation_of_groups library white [] (codes "rings") groups no_rotation))
rotation-IsParallel_example =
    rotation-IsParallel library white [] (codes "rings") (codes "dawn") groups no_rotation
      (refl, (refl, (refl, (refl, (refl, refl)))))

abbrev glow : Map Whole
glow = (codes "__glowBlur", some 0) ∷ []

-- A lane with a binding to a known effect and one to an effect that is gone
abbrev raw_groups : List (Value Whole)
raw_groups =
    object (
      field (codes "moduleId") (string (codes "rings")) (
        field (codes "lanes")
          (array (
            cons
              (object (
                field (codes "bindings")
                  (array (
                    cons (text_field (codes "effect") (codes "__glowBlur"))
                      (cons (text_field (codes "effect") (codes "retired")) nil)))
                  end))
              nil))
          end))
    ∷ []

groups_of-KnownGroups_example :
    KnownGroups glow (codes "rings") (groups_of glow (codes "rings") raw_groups)
groups_of-KnownGroups_example = groups_of-KnownGroups glow (codes "rings") raw_groups

abbrev speed : ModuleSetting Whole
speed = record {
  id = codes "speed";
  label = codes "Speed";
  description = [];
  control = codes "slider";
  min = some 1;
  max = some 9;
  step = some 1;
  default_value = some 3;
  section = [];
  update_mode = codes "smooth";
  curve_type = [];
  curve_exponent = some 1;
  affects = [];
}

settings_of-has_key_example :
    has_key
      (codes "fluid_frame_rate")
      (settings_of (speed ∷ []) ((codes "fluid_frame_rate", number (some 60)) ∷ []))
    ≡ has_key (codes "fluid_frame_rate") (default_settings (speed ∷ []))
settings_of-has_key_example =
    settings_of-has_key (speed ∷ []) ((codes "fluid_frame_rate", number (some 60)) ∷ [])
      (codes "fluid_frame_rate")

abbrev numbers : NumberText Whole
numbers = record {
  strtod = λ t. some 7;
  is_finite = λ n. true;
  zero_number = some 0;
  is_integral = λ n. true;
  print_integer = λ n. codes "7";
  print_float = λ n. codes "7";
}

abbrev answer : Bytes → HttpResponse
answer body = record { status = 200; body = body; headers = []; error = [] }

-- A dashboard with one module, "rings" 1.0.0
abbrev dashboard : Bytes → Map Bytes → HttpResponse
dashboard url headers =
    if bytes_eq url (codes "http://nova/api/phonoscope/config")
    then answer
        (codes "{\"config\":{\"activeModuleId\":\"rings\",\"activeModuleVersion\":\"1.0.0\"}}")
    else answer (codes "{\"id\":\"rings\"}")

abbrev black : Vec4 Whole
black = vec4 (some 0) (some 0) (some 0) (some 1)

abbrev plain_theme : FluidThemeSettings Whole
plain_theme = record {
  available = false;
  peak_intensity = some 1;
  falloff_power = some 1;
  warp_amplitude = some 1;
  hue_spread = some 0;
  apex_glow = some 1;
  background = black;
  accent = black;
  highlight = black;
}

abbrev nobody : TrackIdentity Whole
nobody = record {
  apple_music_id = [];
  isrc = [];
  title = [];
  artist = [];
  album = [];
  duration = some 0;
  artwork_url = [];
  genre_names = [];
}

-- A client that has failed before
abbrev client : ConfigClient Whole
client = record {
  snapshot = record {
    active_module = none;
    settings = [];
    driver_interpolated_settings = [];
    settings_groups = [];
    message = [];
    palette = [];
    rotation = no_rotation;
    transition_seconds = some 1;
    reload_generation = pos 0;
    active_module_id = [];
    active_module_version = [];
    uses_fluid_background = false;
    fluid_theme = plain_theme;
    valid = false;
  };
  now_playing = record {
    identity = nobody;
    position = some 0;
    duration = some 0;
    playing = false;
    sampled_at_monotonic = some 0;
    valid = false;
  };
  analysis = record {
    track_key = [];
    matched = false;
    bpm = none;
    beat_offset = some 0;
    beat_times = [];
    time_signature = pos 4;
    energy = none;
    valence = none;
    lyrics = [];
  };
  config_etag = [];
  image_cache = [];
  theme_etag = [];
  fluid_theme = plain_theme;
  last_error = codes "config response did not parse";
  loaded_module_key = [];
  loaded_module = none;
  resolved_track_key = [];
  revision = 4;
}

abbrev no_image : Bytes → Bytes → Option DecodedImage
no_image body url = none

refresh_configuration-Outcome_example :
    Outcome client (refresh_configuration dashboard no_image numbers (codes "http://nova") client)
refresh_configuration-Outcome_example =
    refresh_configuration-Outcome dashboard no_image numbers (codes "http://nova") client

-- A track that plays
abbrev playing : HttpResponse
playing = answer (codes "{\"playing\":true,\"track\":{\"title\":\"One\",\"artist\":\"Two\"}}")

polls-Kept_example :
    Kept client (refresh_theme_state numbers playing client)
    × (Kept client (refresh_theme numbers playing client)
        × Kept client (
            refresh_now_playing
              (λ body. answer (codes "{\"analysis\":{}}"))
              numbers
              playing
              (some 1)
              (some 2)
              client))
polls-Kept_example =
    polls-Kept (λ body. answer (codes "{\"analysis\":{}}")) numbers playing (some 1) (some 2) client
