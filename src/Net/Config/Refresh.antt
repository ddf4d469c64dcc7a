-- ===== src/Net/Config/Refresh.antt =====
-- `ConfigClient::refreshConfiguration` and `loadModule` of src/net/config_client.cpp.
pub mod Errors
use nova_visualiser.Prelude.{
  ℕ, suc, ◌%◌, ◌^◌, Bool, true, false, Option, none, some, List, [], ◌∷◌, ◌++◌, Bytes, codes,
  bytes_eq, if◌then◌else◌, ◌==◌, not, ◌&&◌, ◌||◌,
}
use nova_visualiser.Prelude.Int.{ℤ, pos, int_text}
use nova_visualiser.Prelude.Maps.{Map, lookup, assign}
use nova_visualiser.Core.Double.{Double, ◌⊘◌, nought}
use nova_visualiser.Core.Json.{Value, NumberText, find}
use nova_visualiser.Core.Json.Access.{
  number_or, number_field, string_or, string_field, array_field, object_field, value_or,
}
use nova_visualiser.Core.Vec.{Vec4}
use nova_visualiser.Core.Module.{Module, parse_module}
use nova_visualiser.Net.Config.{
  HttpResponse, ok, DecodedImage, Transition, cross_fade, Selection, ColorGroupRotation,
  ConfigSnapshot, ConfigClient, parse_json,
}
use nova_visualiser.Net.Config.Rotation.{
  empty_text, ImageCache, ThemeLibrary, theme_library, rotation_of_groups, with_solo, shown_palette,
}
use nova_visualiser.Net.Config.Settings.{settings_of, base_palette, uses_fluid_background}
use nova_visualiser.Net.Config.Groups.{groups_of, interpolated_settings}

-- The text of what went wrong: the error, or else the status
abbrev reason : HttpResponse → Bytes
reason r = if empty_text r.error then int_text (pos r.status) else r.error

abbrev is_live : Bytes → List (Option DecodedImage) → Bool
is_live url [] = false
is_live url (none ∷ images) = is_live url images
is_live url (some image ∷ images) = bytes_eq url image.source_url || is_live url images

-- The sweep of the image cache: a failure stays, and so does an image that is live.
pub sweep : (Bytes → Bool) → ImageCache → ImageCache
sweep live [] = []
sweep live ((url, none) ∷ rest) = (url, none) ∷ sweep live rest
sweep live ((url, some image) ∷ rest) =
    let kept = sweep live rest in if live url then (url, some image) ∷ kept else kept

pub empty_etag : Option Bytes → Bytes
empty_etag none = []
empty_etag (some etag) = etag

module _ {D : Type 0} where
  -- The hash of the active module's summary, the first one that matches
  module_hash : Bytes → Bytes → List (Value D) → Bytes
  unfolding string_field bytes_eq
  module_hash id version [] = []
  module_hash id version (summary ∷ rest) =
      let later = module_hash id version rest in
      if bytes_eq (string_field summary (codes "id") []) id
        && bytes_eq (string_field summary (codes "version") []) version
      then string_field summary (codes "hash") []
      else later

  member : Option (Value D) → Bytes → Option (Value D)
  unfolding find
  member none key = none
  member (some v) key = find key v

  text_of : Option (Value D) → Bytes
  unfolding string_or
  text_of none = []
  text_of (some v) = string_or v []

  -- url.stringOr(""), for each member of `centreImageUrls`
  image_urls : List (Bytes × Value D) → Map Bytes → Map Bytes
  unfolding string_or assign
  image_urls [] urls = urls
  image_urls ((id, url) ∷ rest) urls = image_urls rest (assign id (string_or url []) urls)

  -- `selectedGroupId`: the previewed group, or else the one of the module
  pub selected_group : Value D → Bytes → Bytes
  unfolding string_field member text_of find
  selected_group config module_id =
      let previewed = string_field config (codes "editorPreviewColorGroupId") [] in
      if empty_text previewed
      then text_of (member (find (codes "moduleColorGroupIds") config) module_id)
      else previewed

  -- A failure is recorded.
  pub fail_with : Bytes → ConfigClient D → Bool × ConfigClient D
  fail_with message client = (false, record client { last_error = message })

module _ {D : Type 0} ⦃d : Double D⦄ where
  -- `CentreTransitionParams` and its ramp as a new snapshot has them
  pub default_transition : Transition D
  default_transition = record {
    params = record {
      mode = cross_fade;
      axis_radians = nought;
      divisions = pos 0;
      return_from_origin = false;
    };
    attack = nought;
    hold = nought;
    release = d.literal (codes "0.6");
  }

  -- The selection of the snapshot before, in the new one: what is not copied is at its default.
  pub kept_selection : Selection D → Selection D
  unfolding default_transition
  kept_selection s = record s {
    selected_transition = default_transition;
    selected_background_transition = default_transition;
  }

  int_or_nought : Option (Value D) → ℤ
  unfolding number_or
  int_or_nought none = pos 0
  int_or_nought (some v) = d.to_int (number_or v nought)

  -- The members of `moduleSettings` for the active module
  mine : Option (Value D) → Bytes → List (Bytes × Value D)
  unfolding object_field
  mine none id = []
  mine (some v) id = object_field v id

  module _ (http_get : Bytes → Map Bytes → HttpResponse)
      (decode_png : Bytes → Bytes → Option DecodedImage) (numbers : NumberText D)
      (base_url : Bytes) where
    module_response : Bytes → Bytes → HttpResponse
    module_response id version =
        http_get
          (base_url
            ++ codes "/api/phonoscope/modules/"
            ++ id
            ++ b'/' ∷ (version ++ codes "/compiled"))
          []

    decoded_module : Bytes → Option (Module D) → ConfigClient D → Option (Module D) × ConfigClient D
    decoded_module key none client = (
      none,
      record client { last_error = codes "compiled module " ++ key ++ codes " did not decode" },
    )
    decoded_module key (some m) client =
        (some m, record client { loaded_module_key = key; loaded_module = some m })

    fetched_module : Bytes → HttpResponse → ConfigClient D → Option (Module D) × ConfigClient D
    unfolding decoded_module int_text
    fetched_module key response client =
        if ok response
        then decoded_module key (parse_module (parse_json numbers response.body)) client
        else (none, record client { last_error = codes "module fetch failed: " ++ reason response })

    held_module :
        Bytes
        → HttpResponse
        → Option (Module D)
        → ConfigClient D
        → Option (Module D) × ConfigClient D
    unfolding fetched_module bytes_eq
    held_module key response none client = fetched_module key response client
    held_module key response (some m) client =
        if bytes_eq key client.loaded_module_key
        then (some m, client)
        else fetched_module key response client

    -- `loadModule`
    pub load_module : Bytes → Bytes → Bytes → ConfigClient D → Option (Module D) × ConfigClient D
    unfolding held_module module_response
    load_module id version hash client =
        let key = id ++ b'@' ∷ (version ++ b'#' ∷ hash) in
        held_module key (module_response id version) client.loaded_module client

    -- The new snapshot, with the images it has fetched
    pub next_snapshot :
        Value D → Value D → Module D → ConfigClient D → ConfigSnapshot D × ImageCache
    unfolding image_urls mine int_or_nought member selected_group groups_of interpolated_settings
        kept_selection string_field number_field array_field object_field find
    next_snapshot envelope config m client =
        let id = string_field config (codes "activeModuleId") [] in
        let settings = settings_of m.settings (mine (find (codes "moduleSettings") config) id) in
        let base = base_palette m.palette_slots in
        let (library, cache) =
          theme_library (λ url. http_get url []) decode_png base_url
            (image_urls (object_field envelope (codes "centreImageUrls")) []) base id
            (array_field config (codes "colorThemes"))
            (record { palettes = []; images = []; backgrounds = [] }, client.image_cache) in
        let started : ColorGroupRotation D = record {
          palettes = [];
          alt_palettes = [];
          images = [];
          alt_images = [];
          backgrounds = [];
          alt_backgrounds = [];
          entries = [];
          group_id = [];
          pinned_entry_id = string_field config (codes "editorPreviewColorEntryId") [];
          selection = kept_selection client.snapshot.rotation.selection;
        } in
        let rotation =
          rotation_of_groups library base (selected_group config id) id
            (array_field config (codes "colorGroups")) started in
        let solo = string_field config (codes "soloColorThemeId") [] in
        let groups = groups_of settings id (array_field config (codes "settingsGroups")) in
        (
          record {
            active_module = some m;
            settings = settings;
            driver_interpolated_settings = interpolated_settings groups;
            settings_groups = groups;
            message = string_field config (codes "message") [];
            palette = shown_palette library solo rotation base;
            rotation = with_solo library solo rotation;
            transition_seconds =
                number_field config (codes "transitionMs") (d.of_int (pos 600))
                ⊘ d.literal (codes "1000.0");
            reload_generation =
                int_or_nought (member (find (codes "moduleReloadGenerations") config) id);
            active_module_id = id;
            active_module_version = string_field config (codes "activeModuleVersion") [];
            uses_fluid_background = uses_fluid_background m.settings;
            fluid_theme = client.fluid_theme;
            valid = true;
          },
          cache,
        )

    -- The commit behind a successful read
    pub commit :
        HttpResponse → ConfigSnapshot D × ImageCache → ConfigClient D → Bool × ConfigClient D
    unfolding sweep lookup empty_etag
    commit response (next, cache) client =
        let live = λ (url : Bytes).
          is_live url next.rotation.images || is_live url next.rotation.alt_images in
        (
          true,
          record client {
            snapshot = next;
            image_cache = sweep live cache;
            config_etag = empty_etag (lookup (codes "etag") response.headers);
            last_error = [];
            revision = suc client.revision % 2 ^ 64;
          },
        )

    with_module :
        HttpResponse
        → Value D
        → Value D
        → Option (Module D) × ConfigClient D
        → Bool × ConfigClient D
    unfolding commit next_snapshot
    with_module response envelope config (none, client) = (false, client)
    with_module response envelope config (some m, client) =
        commit response (next_snapshot envelope config m client) client

    with_config : HttpResponse → Value D → Option (Value D) → ConfigClient D → Bool × ConfigClient D
    unfolding with_module load_module module_hash string_field array_field fail_with
    with_config response envelope none client =
        fail_with (codes "config response had no config object") client
    with_config response envelope (some config) client =
        let id = string_field config (codes "activeModuleId") [] in
        let version = string_field config (codes "activeModuleVersion") [] in
        if empty_text id || empty_text version
        then fail_with (codes "config names no active module") client
        else with_module response envelope config (
            load_module id version (module_hash id version (array_field envelope (codes "modules")))
              client)

    with_envelope : HttpResponse → Option (Value D) → ConfigClient D → Bool × ConfigClient D
    unfolding with_config fail_with find
    with_envelope response none client = fail_with (codes "config response did not parse") client
    with_envelope response (some envelope) client =
        with_config response envelope (find (codes "config") envelope) client

    -- What a response to the configuration's request does
    pub receive_configuration : HttpResponse → ConfigClient D → Bool × ConfigClient D
    unfolding with_envelope fail_with int_text
    receive_configuration response client =
        if response.status == 304
        then (true, record client { last_error = [] })
        else if not (ok response)
        then fail_with (codes "config fetch failed: " ++ reason response) client
        else if empty_text response.body
        then fail_with
            (codes "config response was empty: 200 with no body (is this the "
              ++ codes "dashboard's own listener, rather than its browser ingress?)")
            client
        else with_envelope response (parse_json numbers response.body) client

    -- `refreshConfiguration`
    pub refresh_configuration : ConfigClient D → Bool × ConfigClient D
    unfolding receive_configuration
    refresh_configuration client =
        let headers =
          if empty_text client.config_etag
          then []
          else (codes "If-None-Match", client.config_etag) ∷ [] in
        receive_configuration (http_get (base_url ++ codes "/api/phonoscope/config") headers) client
