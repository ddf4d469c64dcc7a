-- ===== src/Net/Config/Refresh/Errors.antt =====
-- What a refresh of the configuration does to the client, on every path
-- (`ConfigClient::refreshConfiguration` of src/net/config_client.cpp).
use nova_visualiser.Prelude.{
  suc, ◌%◌, ◌^◌, ◌≡◌, ◌⊎◌, refl, ap, ◌∙◌, Bool, true, false, Option, none, some, [], ◌∷◌, ◌++◌,
  Bytes, Bool-cases, inl, inr, bytes_eq, ◌==◌, not, ◌||◌, codes, if◌then◌else◌,
}
use nova_visualiser.Prelude.Maps.{Map}
use nova_visualiser.Core.Double.{Double}
use nova_visualiser.Core.Json.{Value, NumberText, find}
use nova_visualiser.Core.Json.Access.{string_field, array_field}
use nova_visualiser.Core.Module.{Module, parse_module}
use nova_visualiser.Net.Config.{HttpResponse, ok, DecodedImage, ConfigClient, parse_json}
use nova_visualiser.Net.Config.Rotation.Columns.{IsParallel, rotation-IsParallel}
use nova_visualiser.Net.Config.Groups.Known.{KnownGroups, groups_of-KnownGroups}
use nova_visualiser.Net.Config.Rotation.Selected.{rotation-selection}
use nova_visualiser.Net.Config.Rotation.{empty_text}
use nova_visualiser.Net.Config.Refresh.{
  fail_with, load_module, held_module, fetched_module, decoded_module, module_response, module_hash,
  next_snapshot, kept_selection, commit, with_module, with_config, with_envelope,
  receive_configuration, refresh_configuration,
}

-- Something is said.
abbrev IsMessage : Bytes → Type 0
IsMessage [] = ⊥
IsMessage (c ∷ cs) = Unit

module _ {D : Type 0} ⦃d : Double D⦄ where
  -- A failure keeps the picture, the images, the tag and the revision, and says what it is.
  abbrev pub Fails : ConfigClient D → Bool × ConfigClient D → Type 0
  Fails client (done, next) =
      (done ≡ false)
      × ((next.snapshot ≡ client.snapshot)
          × ((next.image_cache ≡ client.image_cache)
              × ((next.config_etag ≡ client.config_etag)
                  × ((next.revision ≡ client.revision) × IsMessage next.last_error))))

  -- A copy that is still good is kept, and an error is cleared.
  abbrev pub Confirms : ConfigClient D → Bool × ConfigClient D → Type 0
  Confirms client (done, next) = (done ≡ true) × (next ≡ record client { last_error = [] })

  -- A new snapshot is valid, has a module, and goes on with the theme and with the selection that is
  -- kept.
  abbrev pub Commits : ConfigClient D → Bool × ConfigClient D → Type 0
  Commits client (done, next) =
      (done ≡ true)
      × ((next.snapshot.valid ≡ true)
          × (((m : Module D) × (next.snapshot.active_module ≡ some m))
              × ((next.snapshot.fluid_theme ≡ client.fluid_theme)
                  × ((next.revision ≡ suc client.revision % 2 ^ 64)
                      × ((next.last_error ≡ [])
                          × (IsParallel next.snapshot.rotation
                              × (KnownGroups next.snapshot.settings next.snapshot.active_module_id
                                    next.snapshot.settings_groups
                                  × (next.snapshot.rotation.selection
                                      ≡ kept_selection client.snapshot.rotation.selection))))))))

  abbrev pub Outcome : ConfigClient D → Bool × ConfigClient D → Type 0
  Outcome client result = Fails client result ⊎ (Confirms client result ⊎ Commits client result)

  -- A module is loaded, or nothing but the error changes.
  abbrev Loads : ConfigClient D → Option (Module D) × ConfigClient D → Type 0
  Loads client (none, next) = Fails client (false, next)
  Loads client (some m, next) =
      (next.fluid_theme ≡ client.fluid_theme)
      × ((next.revision ≡ client.revision) × (next.snapshot ≡ client.snapshot))

  module _ (http_get : Bytes → Map Bytes → HttpResponse)
      (decode_png : Bytes → Bytes → Option DecodedImage) (numbers : NumberText D)
      (base_url : Bytes) where
    decoded-Loads :
        (key : Bytes) (m : Option (Module D)) (client : ConfigClient D)
        → Loads client (decoded_module http_get decode_png numbers base_url key m client)
    unfolding decoded_module
    decoded-Loads key none client = (refl, (refl, (refl, (refl, (refl, tt)))))
    decoded-Loads key (some m) client = (refl, (refl, refl))

    fetched-Loads :
        (key : Bytes) (response : HttpResponse) (client : ConfigClient D)
        → Loads client (fetched_module http_get decode_png numbers base_url key response client)
    unfolding fetched_module
    fetched-Loads key response client = elim (Bool-cases (ok response)) [
      | inl e ↦ rw e (decoded-Loads key (parse_module (parse_json numbers response.body)) client)
      | inr e ↦ rw e (refl, (refl, (refl, (refl, (refl, tt)))))
    ]

    held-Loads :
        (key : Bytes) (response : HttpResponse) (held : Option (Module D)) (client : ConfigClient D)
        → Loads client (held_module http_get decode_png numbers base_url key response held client)
    unfolding held_module
    held-Loads key response none client = fetched-Loads key response client
    held-Loads key response (some m) client =
        elim (Bool-cases (bytes_eq key client.loaded_module_key)) [
          | inl e ↦ rw e (refl, (refl, refl))
          | inr e ↦ rw e (fetched-Loads key response client)
        ]

    next_snapshot-IsParallel :
        (envelope config : Value D) (m : Module D) (client : ConfigClient D)
        → IsParallel
            (next_snapshot http_get decode_png numbers base_url envelope config m client).0.rotation
    unfolding next_snapshot
    next_snapshot-IsParallel envelope config m client =
        rotation-IsParallel _ _ _ _ _ _ _ (refl, (refl, (refl, (refl, (refl, refl)))))

    next_snapshot-KnownGroups :
        (envelope config : Value D) (m : Module D) (client : ConfigClient D)
        → KnownGroups
            (next_snapshot http_get decode_png numbers base_url envelope config m client).0.settings
            (next_snapshot http_get decode_png numbers base_url envelope config m
              client).0.active_module_id
            (next_snapshot http_get decode_png numbers base_url envelope config m
              client).0.settings_groups
    unfolding next_snapshot
    next_snapshot-KnownGroups envelope config m client =
        groups_of-KnownGroups
          (next_snapshot http_get decode_png numbers base_url envelope config m client).0.settings
          (string_field config (codes "activeModuleId") [])
          (array_field config (codes "settingsGroups"))

    next_snapshot-selection :
        (envelope config : Value D) (m : Module D) (client : ConfigClient D)
        → (next_snapshot http_get decode_png numbers base_url envelope config m
            client).0.rotation.selection
          ≡ kept_selection client.snapshot.rotation.selection
    unfolding next_snapshot
    next_snapshot-selection envelope config m client = rotation-selection _ _ _ _ _ _ _

    with_module-Outcome :
        (response : HttpResponse) (envelope config : Value D) (client : ConfigClient D)
        (loaded : Option (Module D) × ConfigClient D)
        → Loads client loaded
        → Outcome client
            (with_module http_get decode_png numbers base_url response envelope config loaded)
    unfolding with_module commit next_snapshot
    with_module-Outcome response envelope config client (none, next) fails = inl fails
    with_module-Outcome response envelope config client (some m, next)
          (theme, (revision, snapshot)) =
        inr (
          inr (
            refl,
            (
              refl,
              (
                (m, refl),
                (
                  theme,
                  (
                    rw revision refl,
                    (
                      refl,
                      (
                        next_snapshot-IsParallel envelope config m next,
                        (
                          next_snapshot-KnownGroups envelope config m next,
                          next_snapshot-selection envelope config m next
                              ∙ ap (λ t. kept_selection t.rotation.selection) snapshot,
                        ),
                      ),
                    ),
                  ),
                ),
              ),
            ),
          ))

    with_config-Outcome :
        (response : HttpResponse) (envelope : Value D) (config : Option (Value D))
        (client : ConfigClient D)
        → Outcome client
            (with_config http_get decode_png numbers base_url response envelope config client)
    unfolding with_config load_module fail_with
    with_config-Outcome response envelope none client =
        inl (refl, (refl, (refl, (refl, (refl, tt)))))
    with_config-Outcome response envelope (some config) client =
        let id = string_field config (codes "activeModuleId") [] in
        let version = string_field config (codes "activeModuleVersion") [] in
        let hash = module_hash id version (array_field envelope (codes "modules")) in
        elim (Bool-cases (empty_text id || empty_text version)) [
          | inl e ↦ rw e (inl (refl, (refl, (refl, (refl, (refl, tt))))))
          | inr e ↦ rw e (
              with_module-Outcome response envelope config client
                (load_module http_get decode_png numbers base_url id version hash client)
                (held-Loads (id ++ b'@' ∷ (version ++ b'#' ∷ hash))
                  (module_response http_get decode_png numbers base_url id version)
                  client.loaded_module client))
        ]

    with_envelope-Outcome :
        (response : HttpResponse) (envelope : Option (Value D)) (client : ConfigClient D)
        → Outcome client
            (with_envelope http_get decode_png numbers base_url response envelope client)
    unfolding with_envelope fail_with
    with_envelope-Outcome response none client = inl (refl, (refl, (refl, (refl, (refl, tt)))))
    with_envelope-Outcome response (some envelope) client =
        with_config-Outcome response envelope (find (codes "config") envelope) client

    receive_configuration-Outcome :
        (response : HttpResponse) (client : ConfigClient D)
        → Outcome client
            (receive_configuration http_get decode_png numbers base_url response client)
    unfolding receive_configuration fail_with
    receive_configuration-Outcome response client = elim (Bool-cases (response.status == 304)) [
      | inl e ↦ rw e (inr (inl (refl, refl)))
      | inr e ↦ rw e (elim (Bool-cases (not (ok response))) [
        | inl f ↦ rw f (inl (refl, (refl, (refl, (refl, (refl, tt))))))
        | inr f ↦ rw f (elim (Bool-cases (empty_text response.body)) [
          | inl g ↦ rw g (inl (refl, (refl, (refl, (refl, (refl, tt))))))
          | inr g ↦ rw g (with_envelope-Outcome response (parse_json numbers response.body) client)
        ])
      ])
    ]

-- Whatever the network answers, a refresh of the configuration does one of three things: it fails,
-- keeps the snapshot, the images, the tag and the revision as they were, and leaves an error that is
-- not empty; or it confirms the copy that is held and changes nothing but the error, which it clears;
-- or it commits a valid snapshot that has a module and the theme held before, with the columns of the
-- rotation parallel and every binding of a settings group on a known effect, counts the revision up by
-- one (on 64 bits) and clears the error. The selection of the new snapshot is the one before, but for
-- its two transitions, which are back at their defaults.
pub refresh_configuration-Outcome :
    {D : Type 0} ⦃d : Double D⦄ (http_get : Bytes → Map Bytes → HttpResponse)
    (decode_png : Bytes → Bytes → Option DecodedImage) (numbers : NumberText D) (base_url : Bytes)
    (client : ConfigClient D)
    → Outcome client (refresh_configuration http_get decode_png numbers base_url client)
unfolding refresh_configuration
refresh_configuration-Outcome http_get decode_png numbers base_url client =
    receive_configuration-Outcome http_get decode_png numbers base_url
      (http_get (base_url ++ codes "/api/phonoscope/config") (
        if empty_text client.config_etag
        then []
        else (codes "If-None-Match", client.config_etag) ∷ []))
      client
