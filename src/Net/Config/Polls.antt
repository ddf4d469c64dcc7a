-- ===== src/Net/Config/Polls.antt =====
-- The polls of src/net/config_client.cpp beside the configuration: the theme state, the theme, what is
-- playing, and the analysis of a track.
pub mod Kept
use nova_visualiser.Prelude.{
  ℕ, Bool, true, false, Option, none, some, List, [], ◌∷◌, ◌++◌, Bytes, codes, bytes_eq,
  if◌then◌else◌, not, ◌&&◌, ◌||◌, ◌==◌,
}
use nova_visualiser.Prelude.Int.{pos}
use nova_visualiser.Prelude.Maps.{Map, lookup}
use nova_visualiser.Core.Double.{Double, ◌⊕◌, ◌⊗◌, ◌⊘◌, nought, clamp_value}
use nova_visualiser.Core.Json.{Value, object, NumberText, find}
use nova_visualiser.Core.Json.Access.{
  number_of, boolean_field, number_field, string_field, array_field, number_array, string_array,
}
use nova_visualiser.Core.Json.Printer.{escape}
use nova_visualiser.Core.Palette.{vec4}
use nova_visualiser.Core.Vec.{Vec4}
use nova_visualiser.Core.Signal.{
  TimedLyric, TrackIdentity, TrackAnalysis, identity_key, identity_is_empty,
}
use nova_visualiser.Net.Config.{
  HttpResponse, ok, Transition, Selection, FluidThemeSettings, NowPlaying, ConfigClient, parse_json,
  colour_vector, centre_transition_for,
}
use nova_visualiser.Net.Config.Rotation.{empty_text, strings_or_empty}
use nova_visualiser.Net.Config.Refresh.{empty_etag}

quoted_member : Bytes → Bytes → Bytes
unfolding escape
quoted_member name value = b'"' ∷ (name ++ codes "\":\"" ++ escape value ++ b'"' ∷ [])

optional_member : Bytes → Bytes → Bytes
unfolding quoted_member
optional_member name [] = []
optional_member name (c ∷ cs) = b',' ∷ quoted_member name (c ∷ cs)

module _ {D : Type 0} ⦃d : Double D⦄ where
  -- `readTransition`
  read_transition : Value D → Transition D
  unfolding number_field centre_transition_for boolean_field
  read_transition shape = record {
    params = record {
      mode = centre_transition_for (number_field shape (codes "mode") nought);
      axis_radians = d.to_float (
          number_field shape (codes "axisDegrees") nought
          ⊗ d.literal (codes "3.14159265358979323846")
          ⊘ d.literal (codes "180.0"));
      divisions = d.to_int (number_field shape (codes "divisions") nought);
      return_from_origin = boolean_field shape (codes "returnFromOrigin");
    };
    attack = number_field shape (codes "attackSeconds") nought;
    hold = number_field shape (codes "holdSeconds") nought;
    release = number_field shape (codes "releaseSeconds") nought;
  }

  -- What is not published leaves the previous answer standing.
  transition_or : Option (Value D) → Transition D → Transition D
  unfolding read_transition
  transition_or none previous = previous
  transition_or (some shape) previous = read_transition shape

  seconds_or : Option (Value D) → Option D → Option D
  unfolding number_of
  seconds_or none previous = previous
  seconds_or (some transition) previous = number_of transition

  -- The selection that a theme state publishes
  pub selection_from : Value D → Selection D → Selection D
  unfolding string_field array_field seconds_or transition_or boolean_field number_field find
  selection_from value s = record {
    selected_entry_id = string_field value (codes "entryId") [];
    selected_theme_id = string_field value (codes "themeId") [];
    selected_group_id = string_field value (codes "groupId") [];
    selected_settings_group_ids = strings_or_empty (array_field value (codes "settingsGroupIds"));
    selected_transition_seconds =
        seconds_or (find (codes "transitionSeconds") value) s.selected_transition_seconds;
    selected_transition = transition_or (find (codes "transition") value) s.selected_transition;
    selected_background_transition =
        transition_or (find (codes "backgroundTransition") value) s.selected_background_transition;
    alt_active = boolean_field value (codes "altActive");
    paused = boolean_field value (codes "paused");
    revision = d.to_int (number_field value (codes "revision") nought);
  }

  with_selection : Option (Value D) → ConfigClient D → ConfigClient D
  unfolding selection_from
  with_selection none client = client
  with_selection (some value) client = record client {
    snapshot = record (client.snapshot) {
      rotation = record (client.snapshot.rotation) {
        selection = selection_from value client.snapshot.rotation.selection;
      };
    };
  }

  -- `refreshThemeState`, on the response it gets
  pub refresh_theme_state : NumberText D → HttpResponse → ConfigClient D → ConfigClient D
  unfolding with_selection
  refresh_theme_state numbers response client =
      if not (ok response) then client else with_selection (parse_json numbers response.body) client

  default_fluid_theme : FluidThemeSettings D
  default_fluid_theme = record {
    available = false;
    peak_intensity = d.literal (codes "1.0f");
    falloff_power = d.literal (codes "1.6f");
    warp_amplitude = d.literal (codes "1.0f");
    hue_spread = d.literal (codes "0.5f");
    apex_glow = d.literal (codes "1.0f");
    background = grayed (codes "0.10f");
    accent = grayed (codes "0.38f");
    highlight =
        vec4 (d.literal (codes "1.0f")) (d.literal (codes "0.0f")) (d.literal (codes "0.73f"))
          (d.literal (codes "1.0f"));
  }
    where
      grayed : Bytes → Vec4 D
      grayed level =
          vec4 (d.literal level) (d.literal level) (d.literal level) (d.literal (codes "1.0f"))

  colour_or : Option (Value D) → Vec4 D → Vec4 D
  unfolding colour_vector
  colour_or none previous = previous
  colour_or (some value) previous = colour_vector value

  -- `scaled`, a percentage
  scaled : Value D → Bytes → Bytes → Bytes → Bytes → D
  unfolding number_field
  scaled effect key fallback low high = d.to_float (
      clamp_value (number_field effect key (d.literal fallback)) (d.literal low) (d.literal high)
      ⊘ d.literal (codes "100.0"))

  with_effect : Option (Value D) → FluidThemeSettings D → FluidThemeSettings D
  unfolding scaled
  with_effect none theme = theme
  with_effect (some effect) theme = record theme {
    peak_intensity = scaled effect (codes "peakIntensity") (codes "100") (codes "40") (codes "260");
    falloff_power = scaled effect (codes "falloffPower") (codes "160") (codes "80") (codes "320");
    warp_amplitude = scaled effect (codes "warpAmplitude") (codes "100") (codes "40") (codes "220");
    hue_spread = scaled effect (codes "hueSpread") (codes "50") (codes "0") (codes "100");
    apex_glow = scaled effect (codes "apexGlow") (codes "100") (codes "0") (codes "240");
  }

  pub fluid_theme_from : Value D → FluidThemeSettings D
  unfolding with_effect colour_or default_fluid_theme find
  fluid_theme_from theme =
      with_effect (find (codes "backgroundEffect") theme) (record (default_fluid_theme) {
        available = true;
        accent = colour_or (find (codes "accent") theme) default_fluid_theme.accent;
        highlight = colour_or (find (codes "highlight") theme) default_fluid_theme.highlight;
        background = colour_or (find (codes "background") theme) default_fluid_theme.background;
      })

  absent : Option (Value D) → Bool
  absent none = true
  absent (some v) = false

  with_theme : HttpResponse → Option (Value D) → ConfigClient D → ConfigClient D
  unfolding fluid_theme_from absent find lookup
  with_theme response (some (object fields)) client =
      let theme = object fields in
      if absent (find (codes "accent") theme) && absent (find (codes "background") theme)
      then client
      else record client {
        fluid_theme = fluid_theme_from theme;
        snapshot = record (client.snapshot) { fluid_theme = fluid_theme_from theme };
        theme_etag = empty_etag (lookup (codes "etag") response.headers);
      }
  with_theme response _ client = client

  theme_in : HttpResponse → Option (Value D) → ConfigClient D → ConfigClient D
  unfolding with_theme find
  theme_in response none client = client
  theme_in response (some envelope) client =
      with_theme response (find (codes "theme") envelope) client

  -- `refreshTheme`, on the response it gets
  pub refresh_theme : NumberText D → HttpResponse → ConfigClient D → ConfigClient D
  unfolding theme_in
  refresh_theme numbers response client =
      if response.status == 304 || not (ok response)
      then client
      else theme_in response (parse_json numbers response.body) client

  no_track : TrackIdentity D
  no_track = record {
    apple_music_id = [];
    isrc = [];
    title = [];
    artist = [];
    album = [];
    duration = nought;
    artwork_url = [];
    genre_names = [];
  }

  genres_of : Option (Value D) → List Bytes
  unfolding string_array
  genres_of none = []
  genres_of (some genres) = string_array genres

  identity_of : Option (Value D) → D → TrackIdentity D
  unfolding string_field number_field genres_of find no_track
  identity_of (some (object fields)) duration =
      let track = object fields in
      record {
        apple_music_id = string_field track (codes "appleMusicId") [];
        isrc = string_field track (codes "isrc") [];
        title = string_field track (codes "title") [];
        artist = string_field track (codes "artist") [];
        album = string_field track (codes "album") [];
        duration = number_field track (codes "duration") duration;
        artwork_url = string_field track (codes "artworkUrl") [];
        genre_names = genres_of (find (codes "genreNames") track);
      }
  identity_of _ duration = no_track

  -- The state of playback in a response, between two readings of the clock
  pub now_playing_from : Value D → D → D → NowPlaying D
  unfolding identity_of identity_is_empty number_field boolean_field find
  now_playing_from value requested_at received_at =
      let duration = number_field value (codes "duration") nought in
      let identity = identity_of (find (codes "track") value) duration in
      record {
        identity = identity;
        position = number_field value (codes "position") nought;
        duration = duration;
        playing = boolean_field value (codes "playing");
        sampled_at_monotonic = (requested_at ⊕ received_at) ⊗ d.literal (codes "0.5");
        valid = not (identity_is_empty identity);
      }

  lyrics_from : List (Value D) → List (TimedLyric D)
  unfolding number_field string_field
  lyrics_from [] = []
  lyrics_from (item ∷ items) =
      record {
        time = number_field item (codes "time") nought;
        text = string_field item (codes "text") [];
      }
      ∷ lyrics_from items

  optional_number : Option (Value D) → Option D
  unfolding number_of
  optional_number none = none
  optional_number (some value) = number_of value

  beats_from : Option (Value D) → List D
  unfolding number_array
  beats_from none = []
  beats_from (some beats) = number_array beats

  -- The analysis in a response
  pub analysis_from : Value D → TrackAnalysis D
  unfolding string_field boolean_field optional_number beats_from number_field lyrics_from
      array_field find
  analysis_from node = record {
    track_key = string_field node (codes "trackKey") [];
    matched = boolean_field node (codes "matched");
    bpm = optional_number (find (codes "bpm") node);
    beat_offset = number_field node (codes "beatOffset") nought;
    beat_times = beats_from (find (codes "beatTimes") node);
    time_signature = d.to_int (number_field node (codes "timeSignature") (d.of_int (pos 4)));
    energy = optional_number (find (codes "energy") node);
    valence = optional_number (find (codes "valence") node);
    lyrics = lyrics_from (array_field node (codes "lyrics"));
  }

  -- The request of `resolveTrack`
  pub resolve_body : TrackIdentity D → Bytes
  unfolding quoted_member optional_member
  resolve_body t =
      b'{'
      ∷ (quoted_member (codes "title") t.title
          ++ b','
            ∷ (quoted_member (codes "artist") t.artist
                ++ b','
                  ∷ (quoted_member (codes "album") t.album
                      ++ codes ",\"duration\":"
                      ++ d.to_string t.duration
                      ++ optional_member (codes "appleMusicId") t.apple_music_id
                      ++ optional_member (codes "isrc") t.isrc
                      ++ b'}' ∷ [])))

  with_analysis : TrackIdentity D → Option (Value D) → ConfigClient D → ConfigClient D
  unfolding analysis_from identity_key
  with_analysis identity none client = client
  with_analysis identity (some node) client = record client {
    analysis = analysis_from node;
    resolved_track_key = identity_key identity;
  }

  analysis_in : TrackIdentity D → Option (Value D) → ConfigClient D → ConfigClient D
  unfolding with_analysis find
  analysis_in identity none client = client
  analysis_in identity (some value) client =
      with_analysis identity (find (codes "analysis") value) client

  -- `resolveTrack`, with the answers to its request
  pub resolve_track :
      (Bytes → HttpResponse) → NumberText D → TrackIdentity D → ConfigClient D → ConfigClient D
  unfolding analysis_in resolve_body
  resolve_track http_post numbers identity client =
      let response = http_post (resolve_body identity) in
      if not (ok response)
      then client
      else analysis_in identity (parse_json numbers response.body) client

  -- The track that is playing, resolved unless it is the one that was resolved last
  pub track_changed :
      (Bytes → HttpResponse) → NumberText D → NowPlaying D → ConfigClient D → ConfigClient D
  unfolding resolve_track identity_key bytes_eq
  track_changed http_post numbers next client =
      let track_key = if next.valid then identity_key next.identity else [] in
      let updated = record client { now_playing = next } in
      if bytes_eq track_key client.resolved_track_key || empty_text track_key
      then updated
      else resolve_track http_post numbers next.identity updated

  playing_in :
      (Bytes → HttpResponse)
      → NumberText D
      → D
      → D
      → Option (Value D)
      → ConfigClient D
      → ConfigClient D
  unfolding track_changed now_playing_from
  playing_in http_post numbers requested_at received_at none client = client
  playing_in http_post numbers requested_at received_at (some value) client =
      track_changed http_post numbers (now_playing_from value requested_at received_at) client

  -- `refreshNowPlaying`, on the response it gets
  pub refresh_now_playing :
      (Bytes → HttpResponse) → NumberText D → HttpResponse → D → D → ConfigClient D → ConfigClient D
  unfolding playing_in
  refresh_now_playing http_post numbers response requested_at received_at client =
      if not (ok response)
      then client
      else playing_in http_post numbers requested_at received_at (parse_json numbers response.body)
          client
